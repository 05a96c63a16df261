-- ===== src/ControlPlane/Recovery.antt =====
-- `Recover` of internal/controlplane/session.go: what memory and store have to agree on, and what a
-- restart loads.
use mathlib.Core.Option
use foreman.Prelude.{
  ℕ, String, ◌≡◌, refl, ◌∙◌, Option, none, some, List, [], ◌∷◌, map, arith, if◌then◌else◌, eq_iff,
}
use foreman.Prelude.Dict.{Dict, lookup, insert, lookup-insert}
use foreman.StateStore
use foreman.StateStore.{
  Db, Row, Metadata, find_row, update_rows, row_of, scan, query, non_terminal, newest_first,
  is_non_terminal,
}
use foreman.StateStore.Rows.{
  Unique, or_else, if_non_terminal, find_row-non_terminal, Unique-non_terminal,
  find_row-newest_first, Unique-newest_first,
}
use foreman.ControlPlane.{Session, ControlPlane, restore, load, recover}

-- A session as the store has it: without the agent and the checkpoint, and with the times that its
-- columns keep.
abbrev pub forget : (ℕ → ℕ) → Session → Session
forget timestamptz s = record s {
  agent = "";
  checkpoint_ref = 0;
  created_at = timestamptz s.created_at;
  updated_at = timestamptz s.updated_at;
}

abbrev pub stored_view : Option Row → Option Session
stored_view o = Option.map (λ r. restore (scan r)) o

-- The store is there, its pool is up, its columns keep times so, and its table of sessions has these
-- rows.
pub record HasRows (timestamptz : ℕ → ℕ) (cp : ControlPlane) (rows : List Row) : Type 0 where
  pub db : Db
  pub has_store : cp.store ≡ some db
  pub up : db.pool ≡ []
  pub same_times : db.timestamptz ≡ timestamptz
  pub same_rows : db.sessions ≡ rows

-- Memory and store agree about every session, as far as the columns keep it.
pub record InSync (timestamptz : ℕ → ℕ) (cp : ControlPlane) : Type 0 where
  pub rows : List Row
  pub stored : HasRows timestamptz cp rows
  pub unique : Unique rows
  pub agree :
      (id : String)
      → Option.map (forget timestamptz) (lookup id cp.sessions) ≡ stored_view (find_row id rows)

lookup-load :
    (id : String) (rs : List Row) (m : Dict Session)
    → Unique rs
    → lookup id (load (map scan rs) m) ≡ or_else (stored_view (find_row id rs)) (lookup id m)
unfolding load find_row
lookup-load id [] m u = refl
lookup-load id (r ∷ rs) m u = ground (
  arith,
  lookup-load id rs (insert r.id (restore (scan r)) m) u.1,
  lookup-insert r.id id (restore (scan r)) m,
  eq_iff r.id id,
)

-- The program started anew on the same store.
abbrev pub restarted : ControlPlane → ControlPlane
restarted cp = record cp { sessions = [] }

abbrev pub unfinished : (ℕ → ℕ) → Option Session → Option Session
unfinished timestamptz none = none
unfinished timestamptz (some s) =
    if is_non_terminal s.status then some (forget timestamptz s) else none

sessions-recover :
    (times : ℕ → ℕ) (cp : ControlPlane) (rows : List Row)
    → HasRows times cp rows
    → (recover cp).1.sessions ≡ load (map scan (newest_first (non_terminal rows))) cp.sessions
unfolding recover StateStore.list_non_terminal_sessions
sessions-recover times cp rows h = ground arith

unfinished-agree :
    (times : ℕ → ℕ) (found : Option Session) (row : Option Row)
    → Option.map (forget times) found ≡ stored_view row
    → or_else (stored_view (if_non_terminal row)) none ≡ unfinished times found
unfinished-agree times none none e = refl
unfinished-agree times none (some r) e = cc
unfinished-agree times (some s) none e = cc
unfinished-agree times (some s) (some r) e = ground arith

-- Where the store is up and agrees with memory, recovery after a restart has exactly the unfinished
-- sessions, each as the columns of the store keep it.
pub lookup-recover :
    (times : ℕ → ℕ) (cp : ControlPlane) (id : String)
    → InSync times cp
    → lookup id (recover (restarted cp)).1.sessions ≡ unfinished times (lookup id cp.sessions)
unfolding lookup
lookup-recover times cp id sync =
    let rows = sync.rows in
    let live = Unique-non_terminal rows sync.unique in
    let stored : HasRows times (restarted cp) rows = record {
      db = sync.stored.db;
      has_store = sync.stored.has_store;
      up = sync.stored.up;
      same_times = sync.stored.same_times;
      same_rows = sync.stored.same_rows;
    } in
    rw (sessions-recover times (restarted cp) rows stored) (
      lookup-load id (newest_first (non_terminal rows)) []
        (Unique-newest_first (non_terminal rows) live)
      ∙ rw
          (
            find_row-newest_first id (non_terminal rows) live,
            find_row-non_terminal id rows sync.unique,
          )
          (unfinished-agree times (lookup id cp.sessions) (find_row id rows) (sync.agree id)))

-- A column keeps what it has kept before.
abbrev pub Keeps : (ℕ → ℕ) → Type 0
Keeps times = (t : ℕ) → times (times t) ≡ times t

recovered-agree :
    (times : ℕ → ℕ) (found : Option Session) (row : Option Row)
    → Keeps times
    → Option.map (forget times) found ≡ stored_view row
    → Option.map (forget times) (or_else (stored_view (if_non_terminal row)) found)
      ≡ stored_view row
recovered-agree times none none keeps e = refl
recovered-agree times none (some r) keeps e = cc
recovered-agree times (some s) none keeps e = cc
recovered-agree times (some s) (some r) keeps e =
    ground (arith, keeps s.created_at, keeps s.updated_at)

recover-HasRows :
    {times : ℕ → ℕ} (cp : ControlPlane) (rows : List Row)
    → HasRows times cp rows
    → HasRows times (recover cp).1 rows
unfolding recover StateStore.list_non_terminal_sessions
recover-HasRows cp rows h = record {
  db = (StateStore.list_non_terminal_sessions h.db).1;
  has_store = ground arith;
  up = ground arith;
  same_times = ground arith;
  same_rows = ground arith;
}

-- Recover, called on a running control plane, keeps the agreement.
pub recover-InSync :
    (times : ℕ → ℕ) (cp : ControlPlane)
    → Keeps times
    → InSync times cp
    → InSync times (recover cp).1
recover-InSync times cp keeps sync =
    let rows = sync.rows in
    let live = Unique-non_terminal rows sync.unique in
    record {
      rows = rows;
      stored = recover-HasRows cp rows sync.stored;
      unique = sync.unique;
      agree = λ id.
          rw
            (
              sessions-recover times cp rows sync.stored,
              lookup-load id (newest_first (non_terminal rows)) cp.sessions
                  (Unique-newest_first (non_terminal rows) live),
              find_row-newest_first id (non_terminal rows) live,
              find_row-non_terminal id rows sync.unique,
            )
            (recovered-agree times (lookup id cp.sessions) (find_row id rows) keeps
              (sync.agree id));
    }
