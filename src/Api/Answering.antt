-- ===== src/Api/Answering.antt =====
-- The handlers of internal/core/builder.go for sessions and approvals, with what other parts make of
-- their calls.
use foreman.Prelude.{
  ℕ, String, ◌≡◌, refl, sym, ◌∙◌, ap, true, false, Bool-cases, some, [], ◌∷◌, ◌++◌, Result,
  Result-cases, ok, err, str_eq, eq_refl, arith, if◌then◌else◌, inl, inr, denied, concat, eq_iff,
  ◌||◌,
}
use text.Mathlib.TextLemmas.{cons-append, cons-ne-nil}
use foreman.Prelude.Dict.{lookup, lookup-insert}
use foreman.Schemas.{allocating, Event, Payload, approval_granted, approval_denied}
use foreman.Schemas.Subjects.{subject}
use foreman.EventBus.Bus.{publish}
use foreman.ControlPlane.{
  ControlPlane, Session, transition, create_session, new_session, register, audit, emit,
}
use foreman.ControlPlane.Lifecycle.{moved}
use foreman.ControlPlane.Steps.{allocate}
use foreman.ControlPlane.Transition.{transition_moves}
use foreman.Coordinator.{
  Config, Coordinator, submit_task, start_task, admission, launch, resolve_and_launch,
  session_of_task,
}
use foreman.Coordinator.Approval.{
  approve_session, deny_session, wait_for_approval, answered, extract_user_id,
}
use foreman.Api.{
  SessionInfo, handle_submit_task, submitted, handle_get_session, get_session,
  handle_approve_session, handle_deny_session, field_or, answer, info, bad_request,
}

lookup-create_session_ok :
    (now : ℕ) (id task_id description agent : String) (cp : ControlPlane)
    → (create_session now id task_id description agent cp).0 ≡ ok tt
    → lookup id (create_session now id task_id description agent cp).1.sessions
      ≡ some (new_session now id task_id description agent)
unfolding create_session register audit emit
lookup-create_session_ok now id task_id description agent cp h = ground (
  arith,
  lookup-insert id id (new_session now id task_id description agent) cp.sessions,
  eq_refl id,
  h,
)

module _ (cfg : Config) (now : ℕ) (task_id description : String) where
  abbrev accepted : Session
  accepted = moved now allocating (new_session now (session_of_task task_id) task_id description "")

  abbrev Holds : Result (Unit {0}) × Coordinator → Type 0
  Holds (ok _, c) = lookup (session_of_task task_id) c.cp.sessions ≡ some accepted
  Holds (err e, c) = Unit

  resolve_and_launch-Holds :
      (c : Coordinator)
      → lookup (session_of_task task_id) c.cp.sessions ≡ some accepted
      → Holds (resolve_and_launch cfg now (session_of_task task_id) description "" c)
  unfolding resolve_and_launch launch
  resolve_and_launch-Holds c h = elim (Result-cases (cfg.resolve_tools (session_of_task task_id))) [
    | inr (e, p) ↦ rw (p, resolve_and_launch) tt
    | inl (u, p) ↦ rw (p, resolve_and_launch) h
  ]

  start_task-Holds :
      (c : Coordinator)
      → lookup (session_of_task task_id) c.cp.sessions
        ≡ some (new_session now (session_of_task task_id) task_id description "")
      → Holds (start_task cfg now (session_of_task task_id) description "" c)
  unfolding start_task
  start_task-Holds c h = elim (Result-cases (admission cfg c)) [
    | inr (e, p) ↦ rw (p, start_task) tt
    | inl (u, p) ↦
        elim (Result-cases (transition now (session_of_task task_id) allocating c.cp).0) [
          | inr (e, q) ↦ rw (p, q, start_task) tt
          | inl (v, q) ↦
              rw (p, q, start_task)
                (resolve_and_launch-Holds
                  (record c { cp = (transition now (session_of_task task_id) allocating c.cp).1 })
                  (ground (
                    arith,
                    transition_moves now (session_of_task task_id) allocating c.cp _ h allocate
                        (session_of_task task_id),
                    eq_refl (session_of_task task_id),
                  )))
        ]
  ]

  submit_task-Holds : (c : Coordinator) → Holds (submit_task cfg now task_id description "" c)
  unfolding submit_task
  submit_task-Holds c =
      elim (Result-cases
        (create_session now (session_of_task task_id) task_id description "" c.cp).0) [
          | inr (e, p) ↦ rw (p, submit_task) tt
          | inl (u, p) ↦
              rw (p, submit_task)
                (start_task-Holds
                  (record c {
                    cp =
                        (create_session now (session_of_task task_id) task_id description ""
                          c.cp).1;
                  })
                  (lookup-create_session_ok now (session_of_task task_id) task_id description ""
                    c.cp p))
        ]

session_of_task_shown : (task_id : String) → str_eq (session_of_task task_id) "" ≡ false
session_of_task_shown task_id = elim (Bool-cases (str_eq (session_of_task task_id) "")) [
  | inr e ↦ e
  | inl e ↦ absurd (
      cons-ne-nil "s" (concat "es_" task_id)
        (sym (cons-append "s" "es_" task_id) ∙ (eq_iff (session_of_task task_id) "").0 e))
]

-- The session as it is right after its submission.
abbrev pub fresh_info : ℕ → String → String → SessionInfo
fresh_info now task_id description = record {
  id = session_of_task task_id;
  status = allocating;
  task_id = task_id;
  description = description;
  created_at = now;
  updated_at = now;
}

get_held :
    (cfg : Config) (now : ℕ) (task_id description : String)
    (reply : Result (Unit {0}) × Coordinator)
    → Holds cfg now task_id description reply
    → (submitted task_id reply).0.code ≡ 202
    → handle_get_session (session_of_task task_id) (submitted task_id reply).1
      ≡ answer 200 (info (fresh_info now task_id description))
unfolding handle_get_session get_session
get_held cfg now task_id description (ok _, c) held h =
    rw (session_of_task_shown task_id, held, handle_get_session) refl
get_held cfg now task_id description (err e, c) held h = ground (arith, h)

-- Where the submission of a task is answered with 202, asking for its session right after is
-- answered with 200 and the session in the status ALLOCATING, with the task and the description that
-- were sent.
pub handle_submit_task-handle_get_session :
    (cfg : Config) (now : ℕ) (task_id description : String) (c : Coordinator)
    → (handle_submit_task cfg now (some (task_id, description)) c).0.code ≡ 202
    → handle_get_session
        (session_of_task task_id)
        (handle_submit_task cfg now (some (task_id, description)) c).1
      ≡ answer 200 (info (fresh_info now task_id description))
unfolding handle_submit_task
handle_submit_task-handle_get_session cfg now task_id description c h =
    elim (Bool-cases (str_eq task_id "" || str_eq description "")) [
      | inl e ↦ ground (arith, e, h)
      | inr e ↦
          rw (e, handle_submit_task)
            (get_held cfg now task_id description (submit_task cfg now task_id description "" c)
              (submit_task-Holds cfg now task_id description c)
              (sym (
                  ap
                    (λ b.
                      (if b
                        then (bad_request "task_id and description are required", c)
                        else submitted task_id
                            (submit_task cfg now task_id description "" c)).0.code)
                    e)
                ∙ h))
    ]

-- Where an identifier is given and the bus takes what is published, an approval is answered with 200
-- and publishes one event, for which a gate that receives it lets its session pass, and whose user
-- is the one of the body, or api-user; the session need not exist.
handle_approve_session_opens :
    (now later : ℕ) (id user : String) (c : Coordinator) (cp : ControlPlane)
    → str_eq id "" ≡ false
    → c.cp.bus.outcomes ≡ []
    → let (a, c') = handle_approve_session now id user c in
      (a.code ≡ 200)
      × ((e : Event) × (c'.cp.bus.published
            ≡ c.cp.bus.published ++ (subject ("approval" ∷ id ∷ "granted" ∷ []), e) ∷ [])
          × ((wait_for_approval later id (answered true e.payload) cp).0 ≡ ok tt)
          × (extract_user_id e.payload ≡ field_or user "api-user"))
unfolding handle_approve_session approve_session wait_for_approval publish extract_user_id
handle_approve_session_opens now later id user c cp shown up = (
  ground arith,
  (
    record {
      type = approval_granted;
      session_id = id;
      timestamp = now;
      payload = Payload.answer (field_or user "api-user") "";
    },
    ground arith,
    refl,
    refl,
  ),
)

-- Where an identifier is given and the bus takes what is published, a denial is answered with 200
-- and publishes one event, for which a gate that receives it fails with the user of the body, or
-- api-user, and an empty reason, whatever reason is sent.
handle_deny_session_closes :
    (now later : ℕ) (id user reason : String) (c : Coordinator) (cp : ControlPlane)
    → str_eq id "" ≡ false
    → c.cp.bus.outcomes ≡ []
    → let (a, c') = handle_deny_session now id user reason c in
      (a.code ≡ 200)
      × ((e : Event) × (c'.cp.bus.published
            ≡ c.cp.bus.published ++ (subject ("approval" ∷ id ∷ "denied" ∷ []), e) ∷ [])
          × ((wait_for_approval later id (answered false e.payload) cp).0
              ≡ err (denied (field_or user "api-user") "")))
unfolding handle_deny_session deny_session wait_for_approval publish extract_user_id
handle_deny_session_closes now later id user reason c cp shown up = (
  ground arith,
  (
    record {
      type = approval_denied;
      session_id = id;
      timestamp = now;
      payload = Payload.answer (field_or user "api-user") (field_or reason "denied via API");
    },
    ground arith,
    refl,
  ),
)
