-- ===== src/StateStore.antt =====
-- internal/statestore: the tables of the migrations, and the queries of postgres.go on them. Every
-- query takes one outcome of the connection pool; a query that the pool fails changes nothing.
pub mod Rows
pub mod Checkpoints
use foreman.Prelude.{
  ℕ, ◌+◌, String, Bool, true, false, not, ◌||◌, ◌&&◌, Option, none, some, List, [], ◌∷◌, ◌++◌, map,
  Result, ok, err, Error, database, row_not_found, str_eq, leb, ltb, ◌==◌, if◌then◌else◌,
}
use foreman.Schemas.{Status, same_status, completed, failed}
use foreman.EventBus.Bus.{next_outcome}

-- A value of a metadata or snapshot map.
pub data Value : Type 0 where
  text : String → Value
  number : ℕ → Value
  texts : List String → Value
  failure : Error → Value

abbrev pub Metadata : Type 0
Metadata = List (String × Value)

-- `statestore.Session`.
pub record Session : Type 0 where
  pub id : String
  pub task_id : String
  pub user_id : String
  pub plugin_id : String
  pub status : Status
  pub description : String
  pub agent : String
  pub checkpoint_ref : Option ℕ
  pub created_at : ℕ
  pub updated_at : ℕ

-- A row of the table `sessions`, which has no column for the agent.
pub record Row : Type 0 where
  pub id : String
  pub task_id : String
  pub user_id : Option String
  pub plugin_id : Option String
  pub status : Status
  pub description : String
  pub checkpoint_ref : Option ℕ
  pub created_at : ℕ
  pub updated_at : ℕ

pub record AuditEntry : Type 0 where
  pub session_id : String
  pub user_id : String
  pub action : String
  pub target : String
  pub metadata : Metadata
  pub created_at : ℕ

pub record Checkpoint : Type 0 where
  pub id : ℕ
  pub session_id : String
  pub snapshot : Metadata
  pub step_number : ℕ
  pub created_at : ℕ

-- The tables, and what the types of their columns keep of a value that is written: a TIMESTAMPTZ keeps
-- a time to the microsecond, and a JSONB keeps a document, not its text. Both are parameters.
pub record Db : Type 0 where
  pub timestamptz : ℕ → ℕ
  pub jsonb : Metadata → Metadata
  pub sessions : List Row
  pub audit_log : List AuditEntry
  pub checkpoints : List Checkpoint
  pub next_checkpoint : ℕ
  pub pool : List Bool

-- `nullString`, and COALESCE(column, '') on the way back.
abbrev pub null_string : String → Option String
null_string s = if str_eq s "" then none else some s

abbrev pub coalesce : Option String → String
coalesce none = ""
coalesce (some s) = s

-- SELECT … WHERE id = $1
unfoldable pub find_row : String → List Row → Option Row
find_row id [] = none
find_row id (r ∷ rs) = if str_eq r.id id then some r else find_row id rs

abbrev pub has_row : String → List Row → Bool
has_row id rs = elim (find_row id rs) [ none ↦ false | some r ↦ true ]

-- UPDATE sessions SET … WHERE id = $1
unfoldable pub update_rows : String → (Row → Row) → List Row → List Row
update_rows id f [] = []
update_rows id f (r ∷ rs) = (if str_eq r.id id then f r else r) ∷ update_rows id f rs

-- One query: it takes an outcome of the pool.
unfoldable pub query {ℓ} : {A : Type ℓ} → (Db → Result A × Db) → Db → Result A × Db
query run db =
    let (up, rest) = next_outcome db.pool in
    if up then run (record db { pool = rest }) else (err database, record db { pool = rest })

-- The columns of a new row.
abbrev pub row_of : (ℕ → ℕ) → Session → Row
row_of timestamptz s = record {
  id = s.id;
  task_id = s.task_id;
  user_id = null_string s.user_id;
  plugin_id = null_string s.plugin_id;
  status = s.status;
  description = s.description;
  checkpoint_ref = s.checkpoint_ref;
  created_at = timestamptz s.created_at;
  updated_at = timestamptz s.updated_at;
}

-- What `Scan` reads from a row: the agent is not selected and stays empty.
abbrev pub scan : Row → Session
scan r = record {
  id = r.id;
  task_id = r.task_id;
  user_id = coalesce r.user_id;
  plugin_id = coalesce r.plugin_id;
  status = r.status;
  description = r.description;
  agent = "";
  checkpoint_ref = r.checkpoint_ref;
  created_at = r.created_at;
  updated_at = r.updated_at;
}

-- INSERT INTO sessions, whose primary key is the id.
unfoldable pub create_session : Session → Db → Result (Unit {0}) × Db
unfolding query
create_session s = query λ db.
    if has_row s.id db.sessions
    then (err database, db)
    else (ok tt, record db { sessions = db.sessions ++ row_of db.timestamptz s ∷ [] })

unfoldable pub get_session : String → Db → Result Session × Db
unfolding query
get_session id = query λ db. elim (find_row id db.sessions) [
  | none ↦ (err (row_not_found id), db)
  | some r ↦ (ok (scan r), db)
]

unfoldable pub update_session_status : String → Status → ℕ → Db → Result (Unit {0}) × Db
unfolding query
update_session_status id status at = query λ db.
    if has_row id db.sessions
    then (
      ok tt,
      record db {
        sessions =
            update_rows id (λ r. record r { status = status; updated_at = db.timestamptz at })
              db.sessions;
      },
    )
    else (err (row_not_found id), db)

-- status NOT IN ('COMPLETED', 'FAILED')
unfoldable pub is_non_terminal : Status → Bool
is_non_terminal s = not (same_status s completed || same_status s failed)

unfoldable pub non_terminal : List Row → List Row
non_terminal [] = []
non_terminal (r ∷ rs) =
    let rest = non_terminal rs in if is_non_terminal r.status then r ∷ rest else rest

-- ORDER BY created_at DESC
unfoldable pub place : Row → List Row → List Row
place r [] = r ∷ []
place r (q ∷ qs) = if leb q.created_at r.created_at then r ∷ q ∷ qs else q ∷ place r qs

unfoldable pub newest_first : List Row → List Row
newest_first [] = []
newest_first (r ∷ rs) = place r (newest_first rs)

unfoldable pub list_non_terminal_sessions : Db → Result (List Session) × Db
unfolding query
list_non_terminal_sessions =
    query λ db. (ok (map scan (newest_first (non_terminal db.sessions))), db)

-- The columns of a new entry.
abbrev pub audit_row : (ℕ → ℕ) → (Metadata → Metadata) → AuditEntry → AuditEntry
audit_row timestamptz jsonb entry = record entry {
  metadata = jsonb entry.metadata;
  created_at = timestamptz entry.created_at;
}

-- INSERT INTO audit_log, whose session_id refers to a row of sessions.
unfoldable pub append_audit_entry : AuditEntry → Db → Result (Unit {0}) × Db
unfolding query
append_audit_entry entry = query λ db.
    if has_row entry.session_id db.sessions
    then (
      ok tt,
      record db { audit_log = db.audit_log ++ audit_row db.timestamptz db.jsonb entry ∷ [] },
    )
    else (err database, db)

-- INSERT INTO checkpoints … RETURNING id
unfoldable pub save_checkpoint : String → Metadata → ℕ → ℕ → Db → Result ℕ × Db
unfolding query
save_checkpoint session_id snapshot step at = query λ db.
    if has_row session_id db.sessions
    then (
      ok db.next_checkpoint,
      record db {
        checkpoints =
            record {
              id = db.next_checkpoint;
              session_id = session_id;
              snapshot = db.jsonb snapshot;
              step_number = step;
              created_at = db.timestamptz at;
            }
            ∷ db.checkpoints;
        next_checkpoint = db.next_checkpoint + 1;
      },
    )
    else (err database, db)

-- ORDER BY step_number DESC, id DESC: whether the first comes before the second.
abbrev pub comes_before : Checkpoint → Checkpoint → Bool
comes_before a b =
    ltb b.step_number a.step_number || (b.step_number == a.step_number && ltb b.id a.id)

abbrev pub better : Checkpoint → Option Checkpoint → Option Checkpoint
better c none = some c
better c (some d) = if comes_before d c then some d else some c

-- The first of the session's checkpoints in that order.
unfoldable pub latest : String → List Checkpoint → Option Checkpoint
latest id [] = none
latest id (c ∷ cs) =
    let rest = latest id cs in if str_eq c.session_id id then better c rest else rest

unfoldable pub last_checkpoint : String → Db → Result (Option Checkpoint) × Db
unfolding query
last_checkpoint id = query λ db. (ok (latest id db.checkpoints), db)

unfoldable pub update_checkpoint_ref : String → ℕ → Db → Result (Unit {0}) × Db
unfolding query
update_checkpoint_ref id checkpoint = query λ db.
    if has_row id db.sessions
    then (
      ok tt,
      record db {
        sessions = update_rows id (λ r. record r { checkpoint_ref = some checkpoint }) db.sessions;
      },
    )
    else (err (row_not_found id), db)
