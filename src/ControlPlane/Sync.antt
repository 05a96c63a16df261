-- ===== src/ControlPlane/Sync.antt =====
-- `Transition` of internal/controlplane/session.go, and the row of the session in the store.
use mathlib.Core.Option
use foreman.Prelude.{
  ℕ, String, ◌≡◌, refl, Option, none, some, List, arith, inl, inr, Bool-cases, Option-cases,
  if◌then◌else◌, str_eq, eq_iff,
}
use foreman.Prelude.Dict.{Dict, lookup, insert, lookup-insert}
use foreman.Schemas.{Status, EventType}
use foreman.StateStore
use foreman.StateStore.{Row, Metadata, find_row, has_row, update_rows, row_of, scan}
use foreman.StateStore.Rows.{Unique, find_row-update, Unique-update}
use foreman.ControlPlane.{
  Session, ControlPlane, transition, event_type, audit, emit, persist_status, apply_transition,
}
use foreman.ControlPlane.Lifecycle.{moved, sessions-apply_transition, transition-cases}
use foreman.ControlPlane.Recovery.{HasRows, InSync, forget, stored_view}

pub audit-HasRows :
    {times : ℕ → ℕ} (now : ℕ) (id action : String) (metadata : Metadata) (cp : ControlPlane)
    (rows : List Row)
    → HasRows times cp rows
    → HasRows times (audit now id action metadata cp) rows
unfolding audit StateStore.append_audit_entry
audit-HasRows now id action metadata cp rows h = record {
  db =
      (StateStore.append_audit_entry
        (record {
          session_id = id;
          user_id = "";
          action = action;
          target = id;
          metadata = metadata;
          created_at = now;
        })
        h.db).1;
  has_store = ground arith;
  up = ground arith;
  same_times = ground arith;
  same_rows = ground arith;
}

pub emit-HasRows :
    {times : ℕ → ℕ} (now : ℕ) (s : Session) (type : EventType) (cp : ControlPlane) (rows : List Row)
    → HasRows times cp rows
    → HasRows times (emit now s type cp).1 rows
unfolding emit
emit-HasRows now s type cp rows h = record {
  db = h.db;
  has_store = ground arith;
  up = h.up;
  same_times = h.same_times;
  same_rows = h.same_rows;
}

-- The rows after an update of the status, where the id has one.
abbrev set_status : ℕ → Status → Row → Row
set_status now to r = record r { status = to; updated_at = now }

abbrev updated : ℕ → String → Status → List Row → List Row
updated now id to rows = if has_row id rows then update_rows id (set_status now to) rows else rows

persist-HasRows :
    {times : ℕ → ℕ} (now : ℕ) (id : String) (to : Status) (cp : ControlPlane) (rows : List Row)
    → HasRows times cp rows
    → HasRows times (persist_status now id to cp) (updated (times now) id to rows)
unfolding persist_status StateStore.update_session_status
persist-HasRows now id to cp rows h = record {
  db = (StateStore.update_session_status id to now h.db).1;
  has_store = ground arith;
  up = ground arith;
  same_times = ground arith;
  same_rows = ground arith;
}

-- The sessions in memory play no part in it.
pub HasRows-sessions :
    {times : ℕ → ℕ} {cp : ControlPlane} {rows : List Row} (m : Dict Session)
    → HasRows times cp rows
    → HasRows times (record cp { sessions = m }) rows
HasRows-sessions m h = record {
  db = h.db;
  has_store = h.has_store;
  up = h.up;
  same_times = h.same_times;
  same_rows = h.same_rows;
}

apply_transition-HasRows :
    {times : ℕ → ℕ} (now : ℕ) (id : String) (s : Session) (to : Status) (cp : ControlPlane)
    (rows : List Row)
    → HasRows times cp rows
    → HasRows times (apply_transition now id s to cp).1 (updated (times now) id to rows)
unfolding apply_transition
apply_transition-HasRows now id s to cp rows h =
    let h' =
      persist-HasRows now id to _ rows
        (HasRows-sessions (insert id (moved now to s) cp.sessions) h) in
    elim (Option-cases (event_type to)) [
      | inl e ↦ rw (e, apply_transition) h'
      | inr (type, e) ↦
          rw (e, apply_transition)
            (emit-HasRows now (moved now to s) type _ _ (audit-HasRows now id _ _ _ _ h'))
    ]

Unique-updated :
    (now : ℕ) (id : String) (to : Status) (rows : List Row)
    → Unique rows
    → Unique (updated now id to rows)
Unique-updated now id to rows u = elim (Bool-cases (has_row id rows)) [
  | inl e ↦ rw e (Unique-update id _ rows (λ r. refl) u)
  | inr e ↦ rw e u
]

-- Where an id has no row there is nothing to update.
find_row-updated :
    (now : ℕ) (id j : String) (to : Status) (rows : List Row)
    → find_row j (updated now id to rows)
      ≡ (if str_eq id j then Option.map (set_status now to) (find_row j rows) else find_row j rows)
find_row-updated now id j to rows =
    ground (arith, eq_iff id j, find_row-update id j (set_status now to) rows (λ r. refl))

agree-moved :
    (times : ℕ → ℕ) (now : ℕ) (to : Status) (s : Session) (row : Option Row)
    → Option.map (forget times) (some s) ≡ stored_view row
    → some (forget times (moved now to s))
      ≡ stored_view (Option.map (set_status (times now) to) row)
agree-moved times now to s none e = cc
agree-moved times now to s (some r) e = ground arith

apply_transition-InSync :
    {times : ℕ → ℕ} (now : ℕ) (id : String) (s : Session) (to : Status) (cp : ControlPlane)
    → lookup id cp.sessions ≡ some s
    → InSync times cp
    → InSync times (apply_transition now id s to cp).1
apply_transition-InSync {times = times} now id s to cp found sync = record {
  rows = updated (times now) id to sync.rows;
  stored = apply_transition-HasRows now id s to cp sync.rows sync.stored;
  unique = Unique-updated (times now) id to sync.rows sync.unique;
  agree = λ j.
      rw
        (
          sessions-apply_transition now id s to cp,
          find_row-updated (times now) id j to sync.rows,
          lookup-insert id j (moved now to s) cp.sessions,
        )
        (elim (Bool-cases (str_eq id j)) [
          | inl same ↦ rw same (
              agree-moved times now to s (find_row j sync.rows)
                (ground (arith, eq_iff id j, sync.agree id)))
          | inr differ ↦ rw differ (sync.agree j)
        ]);
}

pub transition-InSync :
    {times : ℕ → ℕ} (now : ℕ) (id : String) (to : Status) (cp : ControlPlane)
    → InSync times cp
    → InSync times (transition now id to cp).1
transition-InSync now id to cp sync = elim (transition-cases now id to cp) [
  | inl same ↦ rw same sync
  | inr (s, found, e) ↦ rw e (apply_transition-InSync now id s to cp found sync)
]
