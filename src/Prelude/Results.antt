-- ===== src/Prelude/Results.antt =====
-- Go's pair of a value and an error as one of the two, and the errors of the program.
use Prim.Native.Nat.{ℕ}
use Prim.Native.String.{String}
use mathlib.Core.Path.{◌≡◌, refl}
use mathlib.Core.Logic.{◌⊎◌, inl, inr}

-- `wrap` is `fmt.Errorf("text: %w", err)`; the other constructors are the errors that code tells apart.
pub data Error : Type 0 where
  session_not_found : String → Error
  no_transitions : Error
  invalid_transition : Error
  unknown_status : Error
  database : Error
  row_not_found : String → Error
  publish_failed : Error
  not_accepting : Error
  max_concurrent : ℕ → Error
  cancelled : Error
  heartbeat_lost : ℕ → Error
  agent_exited : ℕ → String → Error
  retries_exhausted : ℕ → Error → Error
  denied : String → String → Error
  message : String → Error
  wrap : String → Error → Error

pub data Result {ℓ} (A : Type ℓ) : Type ℓ where
  ok : A → Result A
  err : Error → Result A

infixl 5 ◌>>=◌
abbrev pub ◌>>=◌ {ℓ κ} : {A : Type ℓ} {B : Type κ} → Result A → (A → Result B) → Result B
ok a >>= f = f a
err e >>= f = err e

pub Result-cases {ℓ} :
    {A : Type ℓ} (result : Result A)
    → ((value : A) × (result ≡ ok value)) ⊎ ((error : Error) × (result ≡ err error))
Result-cases (ok a) = inl (a, refl)
Result-cases (err e) = inr (e, refl)

-- `fmt.Errorf("text: %w", err)` on an error, and the value otherwise.
abbrev pub within {ℓ} : {A : Type ℓ} → String → Result A → Result A
within name (ok a) = ok a
within name (err e) = err (wrap name e)
