-- ===== src/Identity/Middleware/Access.antt =====
-- The requests that internal/identity/middleware.go lets through.
use foreman.Prelude.{
  ℕ, String, ◌≡◌, refl, ◌↔◌, Bool, true, false, ◌&&◌, Option, none, some, Option-cases,
  Result-cases, ok, Error, str_eq, inl, inr, arith, ap, ap₂, not, ◌==◌, Bool-cases, concat, eq_iff,
  sym, ◌∙◌,
}
use Prim.Native.Char.{Char, code}
use text.Mathlib.TextLemmas.{cons-append, nil-append}
use text.Mathlib.TextEquality.{Char-path}
use foreman.Identity.{Subject, Jwt, Issuer, validate_token}
use foreman.Identity.Middleware.{
  auth_middleware, extract_bearer_token, cut_space, onto_scheme, equal_fold, passed,
}

-- A scheme and a token with a space between them, the scheme that of a bearer, the token not empty.
pub record IsBearer (auth : String) : Type 0 where
  pub scheme : String
  pub token : String
  pub whole : auth ≡ concat scheme (concat " " token)
  pub bearer : equal_fold scheme "Bearer" ≡ true
  pub shown : str_eq token "" ≡ false

onto_scheme-whole :
    (c : Char) (s scheme token : String) (rest : Option (String × String))
    → ((scheme' token' : String)
        → rest ≡ some (scheme', token')
        → s ≡ concat scheme' (concat " " token'))
    → onto_scheme c rest ≡ some (scheme, token)
    → String.◌∷◌ c s ≡ concat scheme (concat " " token)
onto_scheme-whole c s scheme token none ih h = ground arith
onto_scheme-whole c s scheme token (some (scheme', token')) ih h =
    ap (String.◌∷◌ c) (ih scheme' token' refl)
    ∙ sym (cons-append c scheme' (concat " " token'))
    ∙ ap₂ (λ a b. concat a (concat " " b)) (ground arith) (ground arith)

space-concat : (s : String) → concat " " s ≡ String.◌∷◌ " " s
space-concat s = cons-append " " "" s ∙ ap (String.◌∷◌ " ") (nil-append s)

code-space : (c : Char) → (code c == 32) ≡ true → c ≡ " "
code-space c e = Char-path c " " (ground arith)

cut_space-whole :
    (auth scheme token : String)
    → cut_space auth ≡ some (scheme, token)
    → auth ≡ concat scheme (concat " " token)
unfolding cut_space
cut_space-whole String.[] scheme token h = ground arith
cut_space-whole (String.◌∷◌ c s) scheme token h = elim (Bool-cases (code c == 32)) [
  | inl e ↦
      ap (λ d. String.◌∷◌ d s) (code-space c e)
      ∙ sym (space-concat s)
      ∙ sym (nil-append (concat " " s))
      ∙ ap₂ (λ a b. concat a (concat " " b)) (ground (arith, e)) (ground (arith, e))
  | inr e ↦ onto_scheme-whole c s scheme token (cut_space s) (cut_space-whole s) (ground (arith, e))
]

abbrev no_space : String → Bool
no_space String.[] = true
no_space (String.◌∷◌ d t) = not (code d == 32) && no_space t

cut_space-concat :
    (scheme word token : String)
    → equal_fold scheme word ≡ true
    → no_space word ≡ true
    → cut_space (concat scheme (concat " " token)) ≡ some (scheme, token)
unfolding cut_space equal_fold
cut_space-concat String.[] word token fold free =
    ap cut_space (nil-append (concat " " token) ∙ space-concat token)
cut_space-concat (String.◌∷◌ c s) String.[] token fold free = ground arith
cut_space-concat (String.◌∷◌ c s) (String.◌∷◌ d t) token fold free =
    ap cut_space (cons-append c s (concat " " token))
    ∙ ground (arith, cut_space-concat s t token (ground arith) (ground arith))

module _ {K P : Type 0} (jwt : Jwt K P) (iss : Issuer K P) (mentions_expired : Error → Bool)
    (now : ℕ) where
  extract-IsBearer :
      (auth token : String)
      → extract_bearer_token auth ≡ ok token
      → (b : IsBearer auth) × (b.token ≡ token)
  unfolding extract_bearer_token
  extract-IsBearer auth token h = elim (Option-cases (cut_space auth)) [
    | inl e ↦ ground (arith, e)
    | inr ((scheme, t), e) ↦ (
      record {
        scheme = scheme;
        token = t;
        whole = cut_space-whole auth scheme t e;
        bearer = ground (arith, e);
        shown = ground (arith, e);
      },
      ground (arith, e),
    )
  ]

  IsBearer-extract : (auth : String) (b : IsBearer auth) → extract_bearer_token auth ≡ ok b.token
  unfolding extract_bearer_token
  IsBearer-extract auth b = elim (Bool-cases (str_eq auth "")) [
    | inl e ↦ absurd_empty (sym (ap cut_space ((eq_iff auth "").0 e)) ∙ cut)
    | inr e ↦ ground (arith, e, cut)
  ]
    where
      cut : cut_space auth ≡ some (b.scheme, b.token)
      cut = ap cut_space b.whole ∙ cut_space-concat b.scheme "Bearer" b.token b.bearer refl

      absurd_empty :
          cut_space "" ≡ some (b.scheme, b.token) → extract_bearer_token auth ≡ ok b.token
      absurd_empty h = ground (arith, h)

  -- A request goes on with a subject exactly where its header is a scheme that is that of a bearer
  -- in any case, a space and a token that is not empty, and the token is valid for that subject.
  pub auth_middleware_iff :
      (auth : String) (sub : Subject)
      → (auth_middleware jwt iss mentions_expired now auth ≡ passed (some sub))
        ↔ ((b : IsBearer auth) × (validate_token jwt iss now b.token ≡ ok sub))
  unfolding auth_middleware
  auth_middleware_iff auth sub = (sound, complete)
    where
      sound :
          auth_middleware jwt iss mentions_expired now auth ≡ passed (some sub)
          → ((b : IsBearer auth) × (validate_token jwt iss now b.token ≡ ok sub))
      sound h = elim (Result-cases (extract_bearer_token auth)) [
        | inr (e, p) ↦ ground (arith, p)
        | inl (token, p) ↦ elim (Result-cases (validate_token jwt iss now token)) [
          | inr (e, q) ↦ ground (arith, p, q)
          | inl (found, q) ↦
              let (b, same) = extract-IsBearer auth token p in
              (b, ap (validate_token jwt iss now) same ∙ (q ∙ ground (arith, p, q)))
        ]
      ]

      complete :
          ((b : IsBearer auth) × (validate_token jwt iss now b.token ≡ ok sub))
          → auth_middleware jwt iss mentions_expired now auth ≡ passed (some sub)
      complete (b, q) = rw (IsBearer-extract auth b, q, auth_middleware) refl
