-- ===== src/Identity/Middleware.antt =====
-- internal/identity/middleware.go: which requests reach the next handler, and with which subject.
pub mod Access
use Prim.Native.Char.{Char, code}
use foreman.Prelude.{
  ℕ, ◌+◌, String, Bool, true, false, not, ◌&&◌, ◌||◌, Option, none, some, Result, ok, err, Error,
  message, str_eq, leb, ◌==◌, if◌then◌else◌,
}
use foreman.Identity.{Subject, Jwt, Issuer, validate_token}

abbrev pub onto_scheme : Char → Option (String × String) → Option (String × String)
onto_scheme c none = none
onto_scheme c (some (scheme, token)) = some (String.◌∷◌ c scheme, token)

-- The two parts of `strings.SplitN(auth, " ", 2)`, `none` where there is one.
unfoldable pub cut_space : String → Option (String × String)
cut_space String.[] = none
cut_space (String.◌∷◌ c s) =
    let rest = cut_space s in if code c == 32 then some (String.[], s) else onto_scheme c rest

abbrev lower : ℕ → ℕ
lower c = if leb 65 c && leb c 90 then c + 32 else c

-- `strings.EqualFold` on texts of which one has only Latin letters without further case forms.
unfoldable pub equal_fold : String → String → Bool
equal_fold String.[] String.[] = true
equal_fold String.[] (String.◌∷◌ d t) = false
equal_fold (String.◌∷◌ c s) String.[] = false
equal_fold (String.◌∷◌ c s) (String.◌∷◌ d t) = (lower (code c) == lower (code d)) && equal_fold s t

abbrev malformed : Result String
malformed = err (message "malformed Authorization header, expected 'Bearer <token>'")

-- The argument is the value of the header Authorization.
unfoldable pub extract_bearer_token : String → Result String
unfolding cut_space equal_fold
extract_bearer_token auth =
    if str_eq auth "" then err (message "missing Authorization header") else elim (cut_space auth) [
      | none ↦ malformed
      | some (scheme, token) ↦
          if equal_fold scheme "Bearer" && not (str_eq token "") then ok token else malformed
    ]

-- A request is answered with a status, or goes on to the next handler.
pub data Outcome : Type 0 where
  refused : ℕ → Error → Outcome
  passed : Option Subject → Outcome

-- `mentions_expired` is the test of the error's text for "expired".
unfoldable pub auth_middleware :
    {K P : Type 0} → Jwt K P → Issuer K P → (Error → Bool) → ℕ → String → Outcome
unfolding extract_bearer_token
auth_middleware jwt iss mentions_expired now auth = elim (extract_bearer_token auth) [
  | err e ↦ refused 401 e
  | ok token ↦ elim (validate_token jwt iss now token) [
    | err e ↦ refused (if mentions_expired e then 403 else 401) e
    | ok sub ↦ passed (some sub)
  ]
]

unfoldable pub require_auth : Option Subject → Outcome
require_auth none = refused 401 (message "authentication required")
require_auth (some sub) = passed (some sub)
