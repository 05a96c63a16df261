-- ===== src/ControlPlane/Transition.antt =====
-- `Transition` of internal/controlplane/session.go on each of its branches.
use foreman.Prelude.{
  ℕ, String, ◌≡◌, refl, some, [], ◌∷◌, ◌++◌, ok, err, Error, no_transitions, invalid_transition,
  arith, inl, inr, Bool-cases, Option-cases, if◌then◌else◌, str_eq,
}
use foreman.Prelude.Dict.{lookup, lookup-insert}
use foreman.Schemas.{Status, Event, EventType}
use foreman.Schemas
use foreman.EventBus.Bus.{publish}
use foreman.ControlPlane.{
  Session, ControlPlane, transition, valid_transitions, audit, emit, event_type,
  session_event_subject,
}
use foreman.ControlPlane.Steps.{
  allows, Step, Step_sound, Step_complete, allocate, start, ask, resume, complete, cancel,
  cancel_approval, finish, fail,
}
use foreman.ControlPlane.Lifecycle.{moved, sessions-transition}

-- Every status that a step leads to has its event.
pub Step-event_type :
    {from to : Status} → Step from to → (type : EventType) × (event_type to ≡ some type)
unfolding event_type
Step-event_type allocate = (Schemas.session_allocating, refl)
Step-event_type start = (Schemas.session_running, refl)
Step-event_type ask = (Schemas.session_approval, refl)
Step-event_type resume = (Schemas.session_running, refl)
Step-event_type complete = (Schemas.session_completed, refl)
Step-event_type cancel = (Schemas.session_cancelling, refl)
Step-event_type cancel_approval = (Schemas.session_cancelling, refl)
Step-event_type finish = (Schemas.session_completed, refl)
Step-event_type (fail l) = (Schemas.session_failed, refl)

-- The event of a session.
abbrev pub session_event : ℕ → Session → EventType → Event
session_event now s type = record {
  type = type;
  session_id = s.id;
  timestamp = now;
  payload =
      Schemas.Payload.session
        (record { session_id = s.id; task_id = s.task_id; status = s.status });
}

module _ (now : ℕ) (id : String) (to : Status) (cp : ControlPlane) (s : Session)
    (found : lookup id cp.sessions ≡ some s) where
  -- A transition of a session that is there, and that is no step of the state machine, fails and
  -- changes nothing.
  transition_refused : ¬ Step s.status to → (e : Error) × (transition now id to cp ≡ (err e, cp))
  unfolding transition
  transition_refused refused = elim (Option-cases (valid_transitions s.status)) [
    | inl e ↦ (no_transitions, ground arith)
    | inr (allowed, e) ↦ elim (Bool-cases (allows (valid_transitions s.status) to)) [
      | inl y ↦ absurd (refused (Step_sound s.status to y))
      | inr n ↦ (invalid_transition, ground arith)
    ]
  ]

  -- Where the session is there and the transition is a step of the state machine, it moves its
  -- session to the new status at the given time and no other session.
  pub transition_moves :
      Step s.status to
      → (j : String)
      → lookup j (transition now id to cp).1.sessions
        ≡ (if str_eq id j then some (moved now to s) else lookup j cp.sessions)
  transition_moves step j =
      rw sessions-transition
        (ground (arith, Step_complete step, lookup-insert id j (moved now to s) cp.sessions))

  -- Where the session is there, the transition is a step and the bus takes what is published, it
  -- publishes one event, that of the new status, and succeeds.
  pub transition_publishes :
      Step s.status to
      → cp.bus.outcomes ≡ []
      → (type : EventType) × (event_type to ≡ some type)
        × ((transition now id to cp).0 ≡ ok tt)
        × ((transition now id to cp).1.bus.published
            ≡ cp.bus.published
              ++ (session_event_subject s.id type, session_event now (moved now to s) type) ∷ [])
  unfolding transition audit emit publish
  transition_publishes step up =
      let (type, e) = Step-event_type step in
      (type, e, ground (arith, Step_complete step), ground (arith, Step_complete step))
