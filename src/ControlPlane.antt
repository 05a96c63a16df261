-- ===== src/ControlPlane.antt =====
-- internal/controlplane/session.go: the sessions in memory, their state machine, the audit trail,
-- checkpoints and recovery. The readings of the clock during a call are its argument `now`.
mod Examples
pub mod Steps
pub mod Lifecycle
pub mod Recovery
pub mod AuditTrail
pub mod Undone
pub mod Sync
pub mod SyncCreate
pub mod SyncCheckpoint
pub mod SyncRun
pub mod Transition
use foreman.Prelude.{
  ℕ, String, Bool, true, false, Option, none, some, List, [], ◌∷◌, Result, ok, err, Error,
  session_not_found, no_transitions, invalid_transition, unknown_status, wrap, any, concat,
  if◌then◌else◌,
}
use foreman.Prelude.Dict.{Dict, lookup, insert}
use foreman.Schemas
use foreman.Schemas.{
  Status, same_status, status_text, created, allocating, running, approval, cancelling, completed,
  failed, EventType, session_created, session_allocating, session_running, session_approval,
  session_cancelling, session_completed, session_failed, event_text, Payload,
}
use foreman.Schemas.Subjects.{subject}
use foreman.EventBus.Bus.{Bus, publish}
use foreman.StateStore
use foreman.StateStore.{Db, Metadata, text}

pub record Session : Type 0 where
  pub id : String
  pub status : Status
  pub task_id : String
  pub description : String
  pub agent : String
  pub checkpoint_ref : ℕ
  pub created_at : ℕ
  pub updated_at : ℕ

-- `store` is `none` in memory-only mode.
pub record ControlPlane : Type 0 where
  pub bus : Bus
  pub store : Option Db
  pub sessions : Dict Session

unfoldable pub valid_transitions : Status → Option (List Status)
valid_transitions created = some (allocating ∷ failed ∷ [])
valid_transitions allocating = some (running ∷ failed ∷ [])
valid_transitions running = some (approval ∷ completed ∷ cancelling ∷ failed ∷ [])
valid_transitions approval = some (running ∷ cancelling ∷ failed ∷ [])
valid_transitions cancelling = some (failed ∷ completed ∷ [])
valid_transitions _ = none

unfoldable pub audit : ℕ → String → String → Metadata → ControlPlane → ControlPlane
audit now session_id action metadata cp = elim cp.store [
  | none ↦ cp
  | some db ↦ record cp {
    store =
        some
          (StateStore.append_audit_entry
            (record {
              session_id = session_id;
              user_id = "";
              action = action;
              target = session_id;
              metadata = metadata;
              created_at = now;
            })
            db).1;
  }
]

-- `SessionEventSubject`
abbrev pub session_event_subject : String → EventType → String
session_event_subject id type = subject ("session" ∷ id ∷ event_text type ∷ [])

unfoldable pub emit : ℕ → Session → EventType → ControlPlane → Result (Unit {0}) × ControlPlane
emit now s type cp =
    let (sent, bus') =
      publish (session_event_subject s.id type)
        (record {
          type = type;
          session_id = s.id;
          timestamp = now;
          payload =
              Payload.session
                (record { session_id = s.id; task_id = s.task_id; status = s.status });
        })
        cp.bus in
    (sent, record cp { bus = bus' })

-- The rest of `CreateSession`, once the store has the session.
unfoldable pub register : ℕ → Session → ControlPlane → Result (Unit {0}) × ControlPlane
register now s cp = emit now s session_created (
    audit now s.id "session.created"
      (("task_id", text s.task_id) ∷ ("status", text (status_text s.status)) ∷ [])
      (record cp { sessions = insert s.id s cp.sessions }))

abbrev pub new_session : ℕ → String → String → String → String → Session
new_session now id task_id description agent = record {
  id = id;
  status = created;
  task_id = task_id;
  description = description;
  agent = agent;
  checkpoint_ref = 0;
  created_at = now;
  updated_at = now;
}

abbrev pub stored_session : Session → StateStore.Session
stored_session s = record {
  id = s.id;
  task_id = s.task_id;
  user_id = "";
  plugin_id = "";
  status = s.status;
  description = s.description;
  agent = s.agent;
  checkpoint_ref = none;
  created_at = s.created_at;
  updated_at = s.updated_at;
}

unfoldable pub create_session :
    ℕ → String → String → String → String → ControlPlane → Result (Unit {0}) × ControlPlane
unfolding register
create_session now id task_id description agent cp =
    let s = new_session now id task_id description agent in
    elim cp.store [
      | none ↦ register now s cp
      | some db ↦
          let (r, db') = StateStore.create_session (stored_session s) db in
          let cp' = record cp { store = some db' } in
          elim r [ ok _ ↦ register now s cp' | err e ↦ (err (wrap "store create session" e), cp') ]
    ]

-- An error of the store is logged, and the status in memory stays.
pub persist_status : ℕ → String → Status → ControlPlane → ControlPlane
persist_status now id to cp = elim cp.store [
  | none ↦ cp
  | some db ↦ record cp { store = some (StateStore.update_session_status id to now db).1 }
]

unfoldable pub event_type : Status → Option EventType
event_type allocating = some session_allocating
event_type running = some session_running
event_type approval = some session_approval
event_type cancelling = some session_cancelling
event_type completed = some session_completed
event_type failed = some session_failed
event_type _ = none

-- The rest of `Transition`, once the transition is allowed.
pub apply_transition :
    ℕ → String → Session → Status → ControlPlane → Result (Unit {0}) × ControlPlane
unfolding persist_status
apply_transition now session_id s to cp =
    let s' = record s { status = to; updated_at = now } in
    let cp' =
      persist_status now session_id to
        (record cp { sessions = insert session_id s' cp.sessions }) in
    elim (event_type to) [
      | none ↦ (err unknown_status, cp')
      | some type ↦ emit now s' type (
          audit now session_id (concat "session." (status_text to))
            (("from", text (status_text s.status)) ∷ ("to", text (status_text to)) ∷ []) cp')
    ]

transition_session : ℕ → String → Session → Status → ControlPlane → Result (Unit {0}) × ControlPlane
unfolding apply_transition
transition_session now session_id s to cp = elim (valid_transitions s.status) [
  | none ↦ (err no_transitions, cp)
  | some allowed ↦
      if any (same_status to) allowed
      then apply_transition now session_id s to cp
      else (err invalid_transition, cp)
]

unfoldable pub transition : ℕ → String → Status → ControlPlane → Result (Unit {0}) × ControlPlane
unfolding transition_session
transition now session_id to cp = elim (lookup session_id cp.sessions) [
  | none ↦ (err (session_not_found session_id), cp)
  | some s ↦ transition_session now session_id s to cp
]

-- The session that `Recover` puts in memory: the agent and the checkpoint are not set.
abbrev pub restore : StateStore.Session → Session
restore s = record {
  id = s.id;
  status = s.status;
  task_id = s.task_id;
  description = s.description;
  agent = "";
  checkpoint_ref = 0;
  created_at = s.created_at;
  updated_at = s.updated_at;
}

unfoldable pub load : List StateStore.Session → Dict Session → Dict Session
load [] sessions = sessions
load (s ∷ ss) sessions = load ss (insert s.id (restore s) sessions)

unfoldable pub recover : ControlPlane → Result (List StateStore.Session) × ControlPlane
recover cp = elim cp.store [
  | none ↦ (ok [], cp)
  | some db ↦
      let (r, db') = StateStore.list_non_terminal_sessions db in
      elim r [
        | ok stored ↦
            (ok stored, record cp { store = some db'; sessions = load stored cp.sessions })
        | err e ↦ (err (wrap "recover sessions" e), record cp { store = some db' })
      ]
]

-- The rest of `SaveCheckpoint`, once the store has the checkpoint.
refer : String → Session → ℕ → Db → ControlPlane → Result ℕ × ControlPlane
refer session_id s id db cp =
    let (r, db') = StateStore.update_checkpoint_ref session_id id db in
    elim r [
      | err e ↦ (err (wrap "update checkpoint ref" e), record cp { store = some db' })
      | ok _ ↦ (
        ok id,
        record cp {
          store = some db';
          sessions = insert session_id (record s { checkpoint_ref = id }) cp.sessions;
        },
      )
    ]

save_stored : ℕ → String → Metadata → Session → Db → ControlPlane → Result ℕ × ControlPlane
unfolding refer
save_stored now session_id snapshot s db cp =
    let (r, db') = StateStore.save_checkpoint session_id snapshot 0 now db in
    elim r [
      | err e ↦ (err (wrap "save checkpoint" e), record cp { store = some db' })
      | ok id ↦ refer session_id s id db' cp
    ]

unfoldable pub save_checkpoint : ℕ → String → Metadata → ControlPlane → Result ℕ × ControlPlane
unfolding save_stored
save_checkpoint now session_id snapshot cp = elim cp.store [
  | none ↦ (ok 0, cp)
  | some db ↦ elim (lookup session_id cp.sessions) [
    | none ↦ (err (session_not_found session_id), cp)
    | some s ↦ save_stored now session_id snapshot s db cp
  ]
]
