-- ===== src/ControlPlane/SyncCheckpoint.antt =====
-- `SaveCheckpoint` of internal/controlplane/session.go, and the rows of the sessions in the store.
use mathlib.Core.Option
use foreman.Prelude.{
  ℕ, String, ◌≡◌, refl, sym, ◌∙◌, Option, none, some, List, [], arith, inl, inr, ◌⊎◌, Bool-cases,
  Option-cases, Result-cases, if◌then◌else◌, str_eq, eq_iff,
}
use foreman.Prelude.Dict.{lookup, lookup-insert}
use foreman.StateStore
use foreman.StateStore.{Db, Row, Metadata, find_row, has_row, update_rows, row_of, scan}
use foreman.StateStore.Rows.{Unique, find_row-update, Unique-update}
use foreman.ControlPlane.{ControlPlane, save_checkpoint}
use foreman.ControlPlane.Lifecycle.{sessions-save_checkpoint}
use foreman.ControlPlane.Recovery.{HasRows, InSync, forget, stored_view}

abbrev set_ref : ℕ → Row → Row
set_ref ref r = record r { checkpoint_ref = some ref }

-- The pool is up, and the table of sessions has these rows.
abbrev UpWith : (ℕ → ℕ) → Db → List Row → Type 0
UpWith times db rows = (db.pool ≡ []) × (db.timestamptz ≡ times) × (db.sessions ≡ rows)

save_checkpoint-UpWith :
    {times : ℕ → ℕ} (now : ℕ) (id : String) (snapshot : Metadata) (db : Db) (rows : List Row)
    → UpWith times db rows
    → UpWith times (StateStore.save_checkpoint id snapshot 0 now db).1 rows
unfolding StateStore.save_checkpoint
save_checkpoint-UpWith now id snapshot db rows h = ground arith

update_checkpoint_ref-UpWith :
    {times : ℕ → ℕ} (id : String) (ref : ℕ) (db : Db) (rows : List Row)
    → UpWith times db rows
    → UpWith times
        (StateStore.update_checkpoint_ref id ref db).1
        (if has_row id rows then update_rows id (set_ref ref) rows else rows)
unfolding StateStore.update_checkpoint_ref
update_checkpoint_ref-UpWith id ref db rows h = ground arith

-- A checkpoint leaves the rows, or changes the reference of the id's row.
save_checkpoint-HasRows :
    {times : ℕ → ℕ} (now : ℕ) (j : String) (snapshot : Metadata) (cp : ControlPlane)
    (rows : List Row)
    → HasRows times cp rows
    → HasRows times (save_checkpoint now j snapshot cp).1 rows
      ⊎ ((ref : ℕ) × HasRows times
            (save_checkpoint now j snapshot cp).1
            (if has_row j rows then update_rows j (set_ref ref) rows else rows))
unfolding save_checkpoint
save_checkpoint-HasRows now j snapshot cp rows h = elim (Option-cases (lookup j cp.sessions)) [
  | inl missing ↦ inl (record {
    db = h.db;
    has_store = ground arith;
    up = h.up;
    same_times = h.same_times;
    same_rows = h.same_rows;
  })
  | inr (s, found) ↦
      let saved =
        save_checkpoint-UpWith now j snapshot h.db rows (h.up, h.same_times, h.same_rows) in
      elim (Result-cases (StateStore.save_checkpoint j snapshot 0 now h.db).0) [
        | inr (x, e) ↦ inl (record {
          db = (StateStore.save_checkpoint j snapshot 0 now h.db).1;
          has_store = ground arith;
          up = saved.0;
          same_times = saved.1;
          same_rows = saved.2;
        })
        | inl (ref, e) ↦
            let referred = update_checkpoint_ref-UpWith j ref _ rows saved in
            inr (
              ref,
              record {
                db =
                    (StateStore.update_checkpoint_ref j ref
                      (StateStore.save_checkpoint j snapshot 0 now h.db).1).1;
                has_store = ground arith;
                up = referred.0;
                same_times = referred.1;
                same_rows = referred.2;
              },
            )
      ]
]

agree-ref :
    (ref : ℕ) (row : Option Row) → stored_view (Option.map (set_ref ref) row) ≡ stored_view row
agree-ref ref none = refl
agree-ref ref (some r) = refl

find_row-ref :
    (ref : ℕ) (id j : String) (rows : List Row)
    → stored_view (find_row j (if has_row id rows then update_rows id (set_ref ref) rows else rows))
      ≡ stored_view (find_row j rows)
find_row-ref ref id j rows = elim (Bool-cases (has_row id rows)) [
  | inr e ↦ rw e refl
  | inl e ↦
      rw (e, find_row-update id j (set_ref ref) rows (λ r. refl))
        (elim (Bool-cases (str_eq id j)) [
          | inl same ↦ rw (same, agree-ref ref (find_row j rows)) refl
          | inr differ ↦ rw differ refl
        ])
]

Unique-ref :
    (ref : ℕ) (id : String) (rows : List Row)
    → Unique rows
    → Unique (if has_row id rows then update_rows id (set_ref ref) rows else rows)
Unique-ref ref id rows u = elim (Bool-cases (has_row id rows)) [
  | inl e ↦ rw e (Unique-update id (set_ref ref) rows (λ r. refl) u)
  | inr e ↦ rw e u
]

-- What the store has of a session does not see its checkpoint.
forget-save_checkpoint :
    (times : ℕ → ℕ) (now : ℕ) (id j : String) (snapshot : Metadata) (cp : ControlPlane)
    → Option.map (forget times) (lookup id (save_checkpoint now j snapshot cp).1.sessions)
      ≡ Option.map (forget times) (lookup id cp.sessions)
forget-save_checkpoint times now id j snapshot cp =
    elim (sessions-save_checkpoint now j snapshot cp) [
      | inl e ↦ rw e refl
      | inr (s, ref, found, e) ↦ rw (e, lookup-insert) (ground (arith, eq_iff j id))
    ]

pub save_checkpoint-InSync :
    {times : ℕ → ℕ} (now : ℕ) (j : String) (snapshot : Metadata) (cp : ControlPlane)
    → InSync times cp
    → InSync times (save_checkpoint now j snapshot cp).1
save_checkpoint-InSync {times = times} now j snapshot cp sync =
    elim (save_checkpoint-HasRows now j snapshot cp sync.rows sync.stored) [
      | inl h ↦ record {
        rows = sync.rows;
        stored = h;
        unique = sync.unique;
        agree = λ id. forget-save_checkpoint times now id j snapshot cp ∙ sync.agree id;
      }
      | inr (ref, h) ↦ record {
        rows = if has_row j sync.rows then update_rows j (set_ref ref) sync.rows else sync.rows;
        stored = h;
        unique = Unique-ref ref j sync.rows sync.unique;
        agree = λ id.
            forget-save_checkpoint times now id j snapshot cp
            ∙ (sync.agree id ∙ sym (find_row-ref ref j id sync.rows));
      }
    ]
