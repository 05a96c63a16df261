-- ===== src/ControlPlane/Examples.antt =====
-- The theorems about internal/controlplane at a control plane with an empty database.
use mathlib.Core.Option
use foreman.Prelude.{ℕ, ◌*◌, ◌/◌, ◌≡◌, refl, true, none, some, List, [], ◌∷◌, ok, arith}
use foreman.Prelude.Dict.{lookup, insert}
use foreman.Schemas.{created, allocating, running, completed}
use foreman.EventBus.Bus.{Bus}
use foreman.StateStore
use foreman.StateStore.{Db, find_row, has_row, row_of, save_checkpoint, last_checkpoint, text}
use foreman.StateStore.Checkpoints.{last_checkpoint-save_checkpoint}
use foreman.ControlPlane.AuditTrail.{logged, transition-logged}
use foreman.ControlPlane.{stored_session}
use foreman.ControlPlane
use foreman.ControlPlane.{
  ControlPlane, Session, transition, recover, valid_transitions, event_type, session_event_subject,
  new_session,
}
use foreman.ControlPlane.Steps
use foreman.ControlPlane.Steps.{Step}
use foreman.ControlPlane.Lifecycle.{
  Call, creates, transitions, checkpoints, perform, run, Follows, run-Follows,
}
use foreman.ControlPlane.Recovery.{Keeps, InSync, restarted, unfinished}
use foreman.ControlPlane.SyncRun.{
  Move, calls, recovers, run_moves, run_moves-InSync, lookup-recover-run,
}

abbrev bus : Bus
bus = record { published = []; outcomes = [] }

-- A column that keeps the whole microseconds of a time in nanoseconds.
abbrev microseconds : ℕ → ℕ
microseconds t = t / 1000 * 1000

abbrev db : Db
db = record {
  timestamptz = microseconds;
  jsonb = λ m. m;
  sessions = [];
  audit_log = [];
  checkpoints = [];
  next_checkpoint = 1;
  pool = [];
}

abbrev plane : ControlPlane
plane = record { bus = bus; store = some db; sessions = [] }

abbrev first_session : Session
first_session = new_session 1 "ses_1" "1" "fix the bug" "opencode"

abbrev done_session : Session
done_session = record first_session { status = completed }

-- In memory-only mode, with one session.
abbrev with_session : Session → ControlPlane
with_session s = record { bus = bus; store = none; sessions = ("ses_1", s) ∷ [] }

abbrev some_calls : List (ℕ × Call)
some_calls =
    (2, transitions "ses_1" allocating)
    ∷ (3, transitions "ses_1" running)
    ∷ (4, checkpoints "ses_1" [])
    ∷ []

abbrev whole_life : List (ℕ × Call)
whole_life = (1, creates "ses_1" "1" "fix the bug" "opencode") ∷ some_calls

plane-InSync : InSync microseconds plane
unfolding lookup find_row
plane-InSync = record {
  rows = [];
  stored = record { db = db; has_store = refl; up = refl; same_times = refl; same_rows = refl };
  unique = tt;
  agree = λ id. refl;
}

found_first : lookup "ses_1" (with_session first_session).sessions ≡ some first_session
unfolding lookup
found_first = refl

found_done : lookup "ses_1" (with_session done_session).sessions ≡ some done_session
unfolding lookup
found_done = refl

not_yet : ¬ Step created completed
not_yet h = elim h [ ]

whole_life_test :
    Option.map (λ s. s.status) (lookup "ses_1" (run whole_life plane).sessions) ≡ some running
unfolding run perform lookup insert transition valid_transitions event_type
    ControlPlane.save_checkpoint ControlPlane.create_session ControlPlane.register ControlPlane.emit
    ControlPlane.audit StateStore.create_session StateStore.save_checkpoint
    StateStore.append_audit_entry StateStore.update_session_status StateStore.update_rows
    StateStore.update_checkpoint_ref find_row
whole_life_test = refl

run-Follows_example :
    Follows first_session (lookup "ses_1" (run some_calls (with_session first_session)).sessions)
run-Follows_example =
    run-Follows some_calls "ses_1" (with_session first_session) first_session (tt, (tt, (tt, tt)))
      found_first

microseconds-Keeps : Keeps microseconds
microseconds-Keeps t = omega arith

-- A session is created and allocated, all unfinished sessions are loaded again, and it runs.
abbrev moves : List Move
moves =
    calls (1500, creates "ses_1" "1" "fix the bug" "opencode")
    ∷ calls (2500, transitions "ses_1" allocating)
    ∷ recovers
    ∷ calls (3500, transitions "ses_1" running)
    ∷ []

run_moves-InSync_example : InSync microseconds (run_moves moves plane)
run_moves-InSync_example = run_moves-InSync microseconds moves plane microseconds-Keeps plane-InSync

lookup-recover-run_example :
    lookup "ses_1" (recover (restarted (run whole_life plane))).1.sessions
    ≡ unfinished microseconds (lookup "ses_1" (run whole_life plane).sessions)
lookup-recover-run_example = lookup-recover-run whole_life plane "ses_1" plane-InSync

abbrev db_with_row : Db
db_with_row = record db { sessions = row_of microseconds (stored_session first_session) ∷ [] }

has_first : has_row "ses_1" db_with_row.sessions ≡ true
unfolding find_row
has_first = refl

last_checkpoint-save_checkpoint_example :
    let saved = save_checkpoint "ses_1" (("step", text "allocated") ∷ []) 0 5678 db_with_row in
    (saved.0 ≡ ok 1)
    × ((last_checkpoint "ses_1" saved.1).0
        ≡ ok (
            some (record {
              id = 1;
              session_id = "ses_1";
              snapshot = ("step", text "allocated") ∷ [];
              step_number = 0;
              created_at = 5000;
            })))
last_checkpoint-save_checkpoint_example =
    last_checkpoint-save_checkpoint "ses_1" (("step", text "allocated") ∷ []) 0 5678 db_with_row
      refl has_first tt

abbrev stored_plane : ControlPlane
stored_plane = record {
  bus = bus;
  store = some db_with_row;
  sessions = ("ses_1", first_session) ∷ [];
}

found_stored : lookup "ses_1" stored_plane.sessions ≡ some first_session
unfolding lookup
found_stored = refl

transition-logged_example :
    logged (transition 5678 "ses_1" allocating stored_plane).1
    ≡ record {
      session_id = "ses_1";
      user_id = "";
      action = "session.ALLOCATING";
      target = "ses_1";
      metadata = ("from", text "CREATED") ∷ ("to", text "ALLOCATING") ∷ [];
      created_at = 5000;
    }
      ∷ []
transition-logged_example =
    transition-logged 5678 "ses_1" allocating stored_plane first_session db_with_row found_stored
      Steps.allocate refl refl has_first
