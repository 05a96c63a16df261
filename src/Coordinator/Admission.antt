-- ===== src/Coordinator/Admission.antt =====
-- `SubmitTask`, `ResumeSession` and `StopAccepting` of internal/coordinator/coordinator.go: which tasks
-- start, and how many sessions are active.
use mathlib.Core.Option
use foreman.Prelude.{
  ℕ, ◌≤◌, ◌<◌, String, ◌≡◌, refl, ap, ◌∙◌, true, false, none, some, List, [], ◌∷◌, ◌++◌, ok, err,
  max_concurrent, arith, inl, inr, Option-cases, Result-cases, eq_refl, length,
}
use foreman.Prelude.Dict.{lookup, insert, delete, lookup-insert, length-insert-le, length-delete-le}
use foreman.Schemas.{Status, created}
use foreman.Schemas
use foreman.EventBus.Bus.{publish}
use foreman.ControlPlane
use foreman.ControlPlane.{ControlPlane, transition, audit, emit}
use foreman.Coordinator.{
  Coordinator, Config, active_count, admission, launch, resolve_and_launch, fail_session,
  start_task, submit_task, resume_session, stop_accepting, session_of_task, Spawn,
}

-- The calls that other parts of the program make, and the end of a goroutine.
pub data Op : Type 0 where
  submits : String → String → String → Op
  resumes : String → String → Op
  stops : Op
  finishes : String → Op

unfoldable pub perform : Config → ℕ × Op → Coordinator → Coordinator
perform cfg (now, submits task_id description agent) c =
    (submit_task cfg now task_id description agent c).1
perform cfg (now, resumes session_id description) c =
    (resume_session cfg now session_id description c).1
perform cfg (now, stops) c = stop_accepting c
perform cfg (now, finishes session_id) c = record c { active = delete session_id c.active }

unfoldable pub run : Config → List (ℕ × Op) → Coordinator → Coordinator
run cfg [] c = c
run cfg (o ∷ os) c = run cfg os (perform cfg o c)

-- What a call does to the active sessions and the goroutines: it leaves both as they were, or, while
-- tasks are accepted and there is room, it starts one.
data Starts (cfg : Config) (c c' : Coordinator) : Type 0 where
  none_started :
      c'.active ≡ c.active → c'.spawned ≡ c.spawned → c'.accepting ≡ c.accepting → Starts cfg c c'
  one_started :
      (s : Spawn)
      → c.accepting ≡ true
      → active_count c < cfg.max_concurrent
      → c'.active ≡ insert s.session_id tt c.active
      → c'.spawned ≡ c.spawned ++ s ∷ []
      → c'.accepting ≡ c.accepting
      → Starts cfg c c'

admitted :
    (cfg : Config) (c : Coordinator)
    → admission cfg c ≡ ok tt
    → (c.accepting ≡ true) × (active_count c < cfg.max_concurrent)
unfolding admission
admitted cfg c h = ground arith

-- The fields that `Starts` speaks of are the same.
abbrev SameFields : Coordinator → Coordinator → Type 0
SameFields c c' = (c'.active ≡ c.active) × (c'.spawned ≡ c.spawned) × (c'.accepting ≡ c.accepting)

Starts-from :
    {cfg : Config} {c c' d : Coordinator} → SameFields c c' → Starts cfg c' d → Starts cfg c d
Starts-from same (none_started e f g) = none_started (e ∙ same.0) (f ∙ same.1) (g ∙ same.2)
Starts-from {c} {c'} same (one_started s on room e f g) =
    one_started s (ground arith) (ground arith) (e ∙ ap (insert s.session_id tt) same.0)
      (f ∙ ap (λ (l : List Spawn). l ++ s ∷ []) same.1) (g ∙ same.2)

resolve_and_launch-Starts :
    (cfg : Config) (now : ℕ) (sid d a : String) (c : Coordinator)
    → admission cfg c ≡ ok tt
    → Starts cfg c (resolve_and_launch cfg now sid d a c).1
unfolding resolve_and_launch launch fail_session
resolve_and_launch-Starts cfg now sid d a c adm =
    let fine = admitted cfg c adm in
    elim (Result-cases (cfg.resolve_tools sid)) [
      | inl (_, r) ↦
          rw (r, resolve_and_launch)
            (one_started (record { session_id = sid; description = d; agent = a }) fine.0 fine.1
              refl refl refl)
      | inr (x, r) ↦ rw (r, resolve_and_launch) (none_started refl refl refl)
    ]

start_task-Starts :
    (cfg : Config) (now : ℕ) (sid d a : String) (c : Coordinator)
    → Starts cfg c (start_task cfg now sid d a c).1
unfolding start_task
start_task-Starts cfg now sid d a c = elim (Result-cases (admission cfg c)) [
  | inr (x, e) ↦ rw (e, start_task) (none_started refl refl refl)
  | inl (_, e) ↦
      rw (e, start_task)
        (elim (Result-cases (transition now sid Schemas.allocating c.cp).0) [
          | inr (x, f) ↦ rw f (none_started refl refl refl)
          | inl (_, f) ↦ rw f (
              Starts-from (refl, refl, refl)
                (resolve_and_launch-Starts cfg now sid d a
                  (record c { cp = (transition now sid Schemas.allocating c.cp).1 }) e))
        ])
]

submit_task-Starts :
    (cfg : Config) (now : ℕ) (task d a : String) (c : Coordinator)
    → Starts cfg c (submit_task cfg now task d a c).1
unfolding submit_task
submit_task-Starts cfg now task d a c =
    let sid = session_of_task task in
    let made = ControlPlane.create_session now sid task d a c.cp in
    elim (Result-cases made.0) [
      | inr (x, e) ↦ rw (e, submit_task) (none_started refl refl refl)
      | inl (_, e) ↦
          rw (e, submit_task)
            (Starts-from (refl, refl, refl)
              (start_task-Starts cfg now sid d a (record c { cp = made.1 })))
    ]

resume_session-Starts :
    (cfg : Config) (now : ℕ) (sid d : String) (c : Coordinator)
    → Starts cfg c (resume_session cfg now sid d c).1
unfolding resume_session
resume_session-Starts cfg now sid d c = elim (Result-cases (admission cfg c)) [
  | inr (x, e) ↦ rw (e, resume_session) (none_started refl refl refl)
  | inl (_, e) ↦
      rw (e, resume_session)
        (elim (Option-cases (lookup sid c.cp.sessions)) [
          | inl f ↦ rw f (none_started refl refl refl)
          | inr (s, f) ↦ rw f (resolve_and_launch-Starts cfg now sid d s.agent c e)
        ])
]

Starts-bound :
    {cfg : Config} {c c' : Coordinator}
    → Starts cfg c c'
    → active_count c ≤ cfg.max_concurrent
    → active_count c' ≤ cfg.max_concurrent
Starts-bound (none_started e f g) h = ground (arith, ap length e)
Starts-bound {c} (one_started s on room e f g) h =
    omega (arith, ap length e, length-insert-le s.session_id tt c.active)

perform-bound :
    (cfg : Config) (o : ℕ × Op) (c : Coordinator)
    → active_count c ≤ cfg.max_concurrent
    → active_count (perform cfg o c) ≤ cfg.max_concurrent
unfolding perform stop_accepting
perform-bound cfg (now, submits t d a) c h = Starts-bound (submit_task-Starts cfg now t d a c) h
perform-bound cfg (now, resumes sid d) c h = Starts-bound (resume_session-Starts cfg now sid d c) h
perform-bound cfg (now, stops) c h = h
perform-bound cfg (now, finishes sid) c h = omega (arith, length-delete-le sid c.active)

-- Where no more sessions are active than the limit, calls made one after the other keep it so.
pub run-bound :
    (cfg : Config) (os : List (ℕ × Op)) (c : Coordinator)
    → active_count c ≤ cfg.max_concurrent
    → active_count (run cfg os c) ≤ cfg.max_concurrent
unfolding run
run-bound cfg [] c h = h
run-bound cfg (o ∷ os) c h = run-bound cfg os (perform cfg o c) (perform-bound cfg o c h)

abbrev Stopped : Coordinator → Coordinator → Type 0
Stopped c c' = (c'.accepting ≡ false) × (c'.spawned ≡ c.spawned)

Starts-Stopped :
    {cfg : Config} {c c' : Coordinator} → c.accepting ≡ false → Starts cfg c c' → Stopped c c'
Starts-Stopped h (none_started e f g) = (g ∙ h, f)
Starts-Stopped h (one_started s on room e f g) = absurd (ground arith)

perform-Stopped :
    (cfg : Config) (o : ℕ × Op) (c : Coordinator)
    → c.accepting ≡ false
    → Stopped c (perform cfg o c)
unfolding perform stop_accepting
perform-Stopped cfg (now, submits t d a) c h = Starts-Stopped h (submit_task-Starts cfg now t d a c)
perform-Stopped cfg (now, resumes sid d) c h =
    Starts-Stopped h (resume_session-Starts cfg now sid d c)
perform-Stopped cfg (now, stops) c h = (refl, refl)
perform-Stopped cfg (now, finishes sid) c h = (h, refl)

run-Stopped :
    (cfg : Config) (os : List (ℕ × Op)) (c : Coordinator)
    → c.accepting ≡ false
    → Stopped c (run cfg os c)
unfolding run
run-Stopped cfg [] c h = (h, refl)
run-Stopped cfg (o ∷ os) c h =
    let first = perform-Stopped cfg o c h in
    let rest = run-Stopped cfg os (perform cfg o c) first.0 in (rest.0, rest.1 ∙ first.1)

-- After StopAccepting no call starts another goroutine.
spawned-stop_accepting :
    (cfg : Config) (os : List (ℕ × Op)) (c : Coordinator)
    → (run cfg os (stop_accepting c)).spawned ≡ c.spawned
unfolding stop_accepting
spawned-stop_accepting cfg os c = (run-Stopped cfg os (stop_accepting c) refl).1

-- In memory-only mode, while tasks are accepted, the bus takes what is published and no place is
-- free, a submitted task is refused with the error of the limit and starts no goroutine, but its
-- session is there in the status CREATED.
submit_task_full :
    (cfg : Config) (now : ℕ) (task d a : String) (c : Coordinator)
    → c.cp.store ≡ none
    → c.cp.bus.outcomes ≡ []
    → c.accepting ≡ true
    → cfg.max_concurrent ≤ active_count c
    → let (answer, after) = submit_task cfg now task d a c in
      (answer ≡ err (max_concurrent cfg.max_concurrent))
      × (after.spawned ≡ c.spawned)
      × (Option.map (λ s. s.status) (lookup (session_of_task task) after.cp.sessions)
          ≡ some created)
unfolding submit_task start_task admission ControlPlane.create_session ControlPlane.register audit
    emit publish
submit_task_full cfg now task d a c memory up on full =
    let sid = session_of_task task in
    ground (
      arith,
      lookup-insert sid sid (ControlPlane.new_session now sid task d a) c.cp.sessions,
      eq_refl sid,
    )
