-- ===== src/StateStore/Rows.antt =====
-- The queries of internal/statestore/postgres.go, and the row of an id.
use mathlib.Core.Option
use foreman.Prelude.{
  String, ◌≡◌, refl, Option, none, some, List, [], ◌∷◌, ◌++◌, arith, str_eq, eq_iff, Bool,
  if◌then◌else◌,
}
use foreman.StateStore.{
  Row, find_row, update_rows, non_terminal, newest_first, place, is_non_terminal,
}

-- No two rows have one id: the primary key.
abbrev pub Unique : List Row → Type 0
Unique [] = Unit {0}
Unique (r ∷ rs) = (find_row r.id rs ≡ none) × Unique rs

abbrev pub or_else {ℓ} : {A : Type ℓ} → Option A → Option A → Option A
or_else none o = o
or_else (some a) o = some a

abbrev pub only_if : Bool → Option Row → Option Row
only_if b o = if b then o else none

pub find_row-append :
    (id : String) (rs : List Row) (r : Row)
    → find_row id (rs ++ r ∷ []) ≡ or_else (find_row id rs) (only_if (str_eq r.id id) (some r))
unfolding find_row
find_row-append id [] r = refl
find_row-append id (q ∷ rs) r = ground (arith, find_row-append id rs r)

pub find_row-update :
    (id j : String) (f : Row → Row) (rs : List Row)
    → ((r : Row) → (f r).id ≡ r.id)
    → find_row j (update_rows id f rs)
      ≡ (if str_eq id j then Option.map f (find_row j rs) else find_row j rs)
unfolding find_row update_rows
find_row-update id j f [] keep = ground arith
find_row-update id j f (r ∷ rs) keep =
    ground
      (arith, keep r, eq_iff id j, eq_iff r.id id, eq_iff r.id j, find_row-update id j f rs keep)

pub Unique-append :
    (rs : List Row) (r : Row) → find_row r.id rs ≡ none → Unique rs → Unique (rs ++ r ∷ [])
unfolding find_row
Unique-append [] r fresh u = (refl, tt)
Unique-append (q ∷ rs) r fresh u = (
  ground (arith, find_row-append q.id rs r, eq_iff q.id r.id, eq_iff r.id q.id),
  Unique-append rs r (ground arith) u.1,
)

pub Unique-update :
    (id : String) (f : Row → Row) (rs : List Row)
    → ((r : Row) → (f r).id ≡ r.id)
    → Unique rs
    → Unique (update_rows id f rs)
unfolding update_rows
Unique-update id f [] keep u = tt
Unique-update id f (r ∷ rs) keep u =
    (ground (arith, keep r, find_row-update id r.id f rs keep), Unique-update id f rs keep u.1)

abbrev pub if_non_terminal : Option Row → Option Row
if_non_terminal none = none
if_non_terminal (some r) = only_if (is_non_terminal r.status) (some r)

pub find_row-non_terminal :
    (id : String) (rs : List Row)
    → Unique rs
    → find_row id (non_terminal rs) ≡ if_non_terminal (find_row id rs)
unfolding find_row non_terminal
find_row-non_terminal id [] u = refl
find_row-non_terminal id (r ∷ rs) u =
    ground (arith, find_row-non_terminal id rs u.1, eq_iff r.id id)

pub Unique-non_terminal : (rs : List Row) → Unique rs → Unique (non_terminal rs)
unfolding non_terminal
Unique-non_terminal [] u = tt
Unique-non_terminal (r ∷ rs) u =
    ground (arith, find_row-non_terminal r.id rs u.1, Unique-non_terminal rs u.1)

find_row-place :
    (id : String) (r : Row) (rs : List Row)
    → find_row r.id rs ≡ none
    → find_row id (place r rs) ≡ (if str_eq r.id id then some r else find_row id rs)
unfolding find_row place
find_row-place id r [] fresh = ground arith
find_row-place id r (q ∷ qs) fresh =
    ground (arith, find_row-place id r qs, eq_iff r.id id, eq_iff q.id id, eq_iff q.id r.id)

pub find_row-newest_first :
    (id : String) (rs : List Row) → Unique rs → find_row id (newest_first rs) ≡ find_row id rs
unfolding newest_first find_row
find_row-newest_first id [] u = refl
find_row-newest_first id (r ∷ rs) u = ground (
  arith,
  find_row-place id r (newest_first rs),
  find_row-newest_first id rs u.1,
  find_row-newest_first r.id rs u.1,
)

Unique-place : (r : Row) (rs : List Row) → find_row r.id rs ≡ none → Unique rs → Unique (place r rs)
unfolding place find_row
Unique-place r [] fresh u = (refl, tt)
Unique-place r (q ∷ qs) fresh u =
    ground (arith, Unique-place r qs, find_row-place q.id r qs, eq_iff r.id q.id, eq_iff q.id r.id)

pub Unique-newest_first : (rs : List Row) → Unique rs → Unique (newest_first rs)
unfolding newest_first
Unique-newest_first [] u = tt
Unique-newest_first (r ∷ rs) u =
    Unique-place r (newest_first rs) (ground (arith, find_row-newest_first r.id rs u.1))
      (Unique-newest_first rs u.1)
