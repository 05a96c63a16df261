-- ===== src/ControlPlane/AuditTrail.antt =====
-- `Audit` of internal/controlplane/session.go: the entry that a transition writes to the trail.
use foreman.Prelude.{
  ℕ, String, ◌≡◌, refl, true, none, some, List, [], ◌∷◌, ◌++◌, ◌∙◌, arith, concat, eq_refl,
}
use foreman.Prelude.Dict.{lookup, insert}
use foreman.Schemas.{Status, status_text}
use foreman.StateStore
use foreman.StateStore.{Db, Row, AuditEntry, text, has_row, update_rows, find_row}
use foreman.StateStore.Rows.{find_row-update}
use foreman.ControlPlane.{
  Session, ControlPlane, audit, emit, persist_status, transition, apply_transition,
}
use foreman.ControlPlane.Steps.{Step, Step_complete}
use foreman.ControlPlane.Transition.{Step-event_type}
use foreman.ControlPlane.Lifecycle.{moved}

-- The entries of the trail, none in memory-only mode.
abbrev pub logged : ControlPlane → List AuditEntry
logged cp = elim cp.store [ none ↦ [] | some db ↦ db.audit_log ]

has_row-update :
    (id : String) (f : Row → Row) (rows : List Row)
    → ((r : Row) → (f r).id ≡ r.id)
    → has_row id rows ≡ true
    → has_row id (update_rows id f rows) ≡ true
has_row-update id f rows keep h = ground (arith, find_row-update id id f rows keep, eq_refl id)

logged-persist_status :
    (now : ℕ) (id : String) (to : Status) (cp : ControlPlane) (db : Db)
    → cp.store ≡ some db
    → db.pool ≡ []
    → has_row id db.sessions ≡ true
    → (db' : Db) × ((persist_status now id to cp).store ≡ some db')
      × (db'.pool ≡ [])
      × (has_row id db'.sessions ≡ true)
      × (db'.audit_log ≡ db.audit_log)
      × (db'.timestamptz ≡ db.timestamptz)
      × (db'.jsonb ≡ db.jsonb)
unfolding persist_status StateStore.update_session_status
logged-persist_status now id to cp db is up there =
    let kept =
      has_row-update id (λ r. record r { status = to; updated_at = db.timestamptz now }) db.sessions
        (λ r. refl) there in
    (
      (StateStore.update_session_status id to now db).1,
      ground arith,
      ground arith,
      ground arith,
      ground arith,
      ground arith,
      ground arith,
    )

logged-audit :
    (now : ℕ) (id action : String) (m : StateStore.Metadata) (cp : ControlPlane) (db : Db)
    → cp.store ≡ some db
    → db.pool ≡ []
    → has_row id db.sessions ≡ true
    → logged (audit now id action m cp)
      ≡ db.audit_log
        ++ record {
          session_id = id;
          user_id = "";
          action = action;
          target = id;
          metadata = db.jsonb m;
          created_at = db.timestamptz now;
        }
          ∷ []
unfolding audit StateStore.append_audit_entry
logged-audit now id action m cp db is up there = ground arith

-- The entry of a transition.
abbrev pub entry_of : ℕ → String → Status → Status → Db → AuditEntry
entry_of now id from to db = record {
  session_id = id;
  user_id = "";
  action = concat "session." (status_text to);
  target = id;
  metadata = db.jsonb (("from", text (status_text from)) ∷ ("to", text (status_text to)) ∷ []);
  created_at = db.timestamptz now;
}

transition_applies :
    (now : ℕ) (id : String) (to : Status) (cp : ControlPlane) (s : Session)
    → lookup id cp.sessions ≡ some s
    → Step s.status to
    → transition now id to cp ≡ apply_transition now id s to cp
unfolding transition
transition_applies now id to cp s found step = let y = Step_complete step in ground arith

apply_transition-logged :
    (now : ℕ) (id : String) (to : Status) (cp : ControlPlane) (s : Session) (db : Db)
    → Step s.status to
    → cp.store ≡ some db
    → db.pool ≡ []
    → has_row id db.sessions ≡ true
    → logged (apply_transition now id s to cp).1
      ≡ db.audit_log ++ entry_of now id s.status to db ∷ []
unfolding apply_transition emit
apply_transition-logged now id to cp s db step is up there =
    let (type, e) = Step-event_type step in
    let set = record cp { sessions = insert id (moved now to s) cp.sessions } in
    let (db', is', up', there', same_log, same_times, same_json) =
      logged-persist_status now id to set db is up there in
    rw (e, apply_transition)
      (logged-audit now id _ _ (persist_status now id to set) db' is' up' there'
        ∙ rw (same_log, same_times, same_json) refl)

-- Where the control plane has a store whose pool is up, the session is there in memory and has a
-- row, and the state machine has a step to the new status, Transition adds exactly one entry to the
-- audit trail: the action names the new status, the metadata, as a JSONB keeps it, the old and the
-- new one, and the time is that of the call, as a TIMESTAMPTZ keeps it.
pub transition-logged :
    (now : ℕ) (id : String) (to : Status) (cp : ControlPlane) (s : Session) (db : Db)
    → lookup id cp.sessions ≡ some s
    → Step s.status to
    → cp.store ≡ some db
    → db.pool ≡ []
    → has_row id db.sessions ≡ true
    → logged (transition now id to cp).1
      ≡ db.audit_log
        ++ record {
          session_id = id;
          user_id = "";
          action = concat "session." (status_text to);
          target = id;
          metadata =
              db.jsonb (("from", text (status_text s.status)) ∷ ("to", text (status_text to)) ∷ []);
          created_at = db.timestamptz now;
        }
          ∷ []
transition-logged now id to cp s db found step is up there =
    rw (transition_applies now id to cp s found step)
      (apply_transition-logged now id to cp s db step is up there)
