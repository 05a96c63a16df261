-- ===== src/ControlPlane/SyncCreate.antt =====
-- `CreateSession` of internal/controlplane/session.go, and the rows of the sessions in the store.
use mathlib.Core.Option
use foreman.Prelude.{
  ℕ, String, ◌≡◌, refl, Option, none, some, List, [], ◌∷◌, ◌++◌, Result, ok, err, database, arith,
  inl, inr, ◌⊎◌, Bool-cases, Option-cases, if◌then◌else◌, str_eq, eq_iff,
}
use foreman.Prelude.Dict.{lookup, insert, lookup-insert}
use foreman.StateStore
use foreman.StateStore.{Db, Row, Metadata, find_row, has_row, update_rows, row_of, scan}
use foreman.StateStore.Rows.{or_else, only_if, find_row-append, Unique-append}
use foreman.ControlPlane.{
  Session, ControlPlane, audit, emit, create_session, new_session, stored_session, register,
}
use foreman.ControlPlane.Recovery.{HasRows, InSync, forget, stored_view}
use foreman.ControlPlane.Sync.{audit-HasRows, emit-HasRows, HasRows-sessions}

-- A row of the id is there already, and the insertion fails; or there is none, and it is the last.
create-stored :
    {times : ℕ → ℕ} (s : Session) (cp : ControlPlane) (rows : List Row) (h : HasRows times cp rows)
    → let made = StateStore.create_session (stored_session s) h.db in
      let cp' = record cp { store = some made.1 } in
      ((made.0 ≡ err database) × HasRows times cp' rows)
      ⊎ ((made.0 ≡ ok tt)
          × (find_row s.id rows ≡ none)
          × HasRows times cp' (rows ++ row_of times (stored_session s) ∷ []))
unfolding StateStore.create_session
create-stored s cp rows h = elim (Option-cases (find_row s.id rows)) [
  | inr (r, e) ↦ inl (
    ground arith,
    record {
      db = (StateStore.create_session (stored_session s) h.db).1;
      has_store = refl;
      up = ground arith;
      same_times = ground arith;
      same_rows = ground arith;
    },
  )
  | inl e ↦ inr (
    ground arith,
    e,
    record {
      db = (StateStore.create_session (stored_session s) h.db).1;
      has_store = refl;
      up = ground arith;
      same_times = ground arith;
      same_rows = ground arith;
    },
  )
]

sessions-register :
    (now : ℕ) (s : Session) (cp : ControlPlane)
    → (register now s cp).1.sessions ≡ insert s.id s cp.sessions
unfolding register audit emit
sessions-register now s cp = ground arith

register-HasRows :
    {times : ℕ → ℕ} (now : ℕ) (s : Session) (cp : ControlPlane) (rows : List Row)
    → HasRows times cp rows
    → HasRows times (register now s cp).1 rows
unfolding register
register-HasRows now s cp rows h =
    emit-HasRows now s _ _ rows
      (audit-HasRows now s.id _ _ _ rows (HasRows-sessions (insert s.id s cp.sessions) h))

or_else-none : (o : Option Row) → or_else o none ≡ o
or_else-none none = refl
or_else-none (some r) = refl

module _ {times : ℕ → ℕ} (now : ℕ) (id t d a : String) (cp : ControlPlane)
    (sync : InSync times cp) where
  abbrev s : Session
  s = new_session now id t d a

  abbrev made : Result (Unit {0}) × Db
  made = StateStore.create_session (stored_session s) sync.stored.db

  abbrev with_store : ControlPlane
  with_store = record cp { store = some made.1 }

  create_failed : made.0 ≡ err database → (create_session now id t d a cp).1 ≡ with_store
  unfolding create_session
  create_failed e = let h = sync.stored.has_store in ground arith

  create_done : made.0 ≡ ok tt → create_session now id t d a cp ≡ register now s with_store
  unfolding create_session
  create_done e = let h = sync.stored.has_store in ground arith

  agree-made :
      (found : Option Session) (j : String)
      → find_row id sync.rows ≡ none
      → Option.map (forget times) found ≡ stored_view (find_row j sync.rows)
      → Option.map (forget times) (if str_eq id j then some s else found)
        ≡ stored_view (
            or_else
              (find_row j sync.rows)
              (only_if (str_eq id j) (some (row_of times (stored_session s)))))
  agree-made found j fresh e = elim (Bool-cases (str_eq id j)) [
    | inl same ↦
        let none_there : find_row j sync.rows ≡ none = ground (arith, eq_iff id j) in
        rw (same, none_there) refl
    | inr differ ↦ rw (differ, or_else-none (find_row j sync.rows)) e
  ]

  pub create_session-InSync : InSync times (create_session now id t d a cp).1
  create_session-InSync = elim (create-stored s cp sync.rows sync.stored) [
    | inl (e, h) ↦
        rw (create_failed e)
          (record { rows = sync.rows; stored = h; unique = sync.unique; agree = sync.agree })
    | inr (e, fresh, h) ↦ rw (create_done e) (record {
      rows = sync.rows ++ row_of times (stored_session s) ∷ [];
      stored = register-HasRows now s with_store _ h;
      unique = Unique-append sync.rows _ fresh sync.unique;
      agree = λ j.
          rw
            (
              sessions-register now s with_store,
              lookup-insert id j s cp.sessions,
              find_row-append j sync.rows (row_of times (stored_session s)),
            )
            (agree-made (lookup j cp.sessions) j fresh (sync.agree j));
    })
  ]
