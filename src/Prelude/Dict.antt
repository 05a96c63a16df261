-- ===== src/Prelude/Dict.antt =====
-- A Go map with string keys, as an association list with one entry for a key.
use mathlib.Core.Path.{◌≡◌, refl}
use mathlib.Core.Option.{Option, none, some}
use mathlib.Core.List.{List, [], ◌∷◌}
use Prim.Native.Nat.{◌+◌, ◌≤◌}
use Prim.Native.String.{String}
use native.Mathlib.Omega.{arith}
use text.Mathlib.Text.{◌==◌}
use text.Mathlib.TextEquality.{eq_iff}
use foreman.Prelude.Tests.{if◌then◌else◌}
use foreman.Prelude.Lists.{length}

abbrev pub Dict {ℓ} : Type ℓ → Type ℓ
Dict V = List (String × V)

module _ {ℓ} {V : Type ℓ} where
  -- m[k]
  unfoldable pub lookup : String → Dict V → Option V
  lookup key [] = none
  lookup key ((other, new) ∷ entries) = if other == key then some new else lookup key entries

  -- m[k] = v
  unfoldable pub insert : String → V → Dict V → Dict V
  insert key new [] = (key, new) ∷ []
  insert key new ((other, old) ∷ entries) =
      if other == key then (key, new) ∷ entries else (other, old) ∷ insert key new entries

  -- delete(m, k)
  unfoldable pub delete : String → Dict V → Dict V
  delete key [] = []
  delete key ((other, old) ∷ entries) =
      let rest = delete key entries in if other == key then rest else (other, old) ∷ rest

  pub lookup-insert :
      (key other : String) (new : V) (entries : Dict V)
      → lookup other (insert key new entries)
        ≡ (if key == other then some new else lookup other entries)
  unfolding lookup insert
  lookup-insert key other new [] = refl
  lookup-insert key other new ((first, old) ∷ entries) = ground (
    arith,
    eq_iff key other,
    eq_iff first key,
    eq_iff first other,
    lookup-insert key other new entries,
  )

  pub lookup-delete :
      (key other : String) (entries : Dict V)
      → lookup other (delete key entries) ≡ (if key == other then none else lookup other entries)
  unfolding lookup delete
  lookup-delete key other [] = ground arith
  lookup-delete key other ((first, old) ∷ entries) = ground (
    arith,
    eq_iff key other,
    eq_iff first key,
    eq_iff first other,
    lookup-delete key other entries,
  )

  pub length-insert-le :
      (key : String) (new : V) (entries : Dict V)
      → length (insert key new entries) ≤ length entries + 1
  unfolding insert
  length-insert-le key new [] = omega arith
  length-insert-le key new ((other, old) ∷ entries) =
      ground (arith, length-insert-le key new entries)

  pub length-insert_fresh :
      (key : String) (new : V) (entries : Dict V)
      → lookup key entries ≡ none
      → length (insert key new entries) ≡ length entries + 1
  unfolding insert lookup
  length-insert_fresh key new [] h = omega arith
  length-insert_fresh key new ((other, old) ∷ entries) h =
      ground (arith, length-insert_fresh key new entries)

  pub length-delete-le :
      (key : String) (entries : Dict V) → length (delete key entries) ≤ length entries
  unfolding delete
  length-delete-le key [] = omega arith
  length-delete-le key ((other, old) ∷ entries) = ground (arith, length-delete-le key entries)

pub ruleset dict_laws = (lookup-insert, lookup-delete)
