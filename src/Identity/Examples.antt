-- ===== src/Identity/Examples.antt =====
-- The theorems about internal/identity with a library that signs one token.
use native.Mathlib.Decide.{ℕ_discrete}
use mathlib.Core.Bool.{false≢true}
use foreman.Prelude.{
  ℕ, ◌*◌, ◌≤◌, ◌<◌, String, ◌≡◌, refl, sym, ap, subst, Bool, true, false, ◌&&◌, some, [], ◌∷◌, any,
  Result, ok, err, Error, message, str_eq, ltb, arith, if◌then◌else◌, ◌↔◌, inl, inr, Bool-cases,
  within, eq_refl, ◌⊎◌, eq_iff, ◌∙◌,
}
use foreman.Policy.{second}
use foreman.Identity.{
  Agent, AgentScope, Claims, KeyManager, Jwt, Issuer, agent, issue_agent_token, issue,
  issue_scoped_agent_token, validate_token, agent_claims, scoped_claims,
}
use foreman.Identity.Tokens.{
  IsJwt, HasKeys, issue_agent_token-validate_token, issue_scoped_agent_token-validate_token,
}
use foreman.Identity.Middleware.{auth_middleware, passed}
use foreman.Identity.Middleware.Access.{IsBearer, auth_middleware_iff}

String-discrete : Discrete String
String-discrete s t = elim (Bool-cases (str_eq s t)) [
  | inl e ↦ yes ((eq_iff s t).0 e)
  | inr e ↦ no (λ h. false≢true (sym e ∙ (eq_iff s t).1 h))
]

Claims-discrete : Discrete Claims
Claims-discrete = hlevel (ℕ_discrete, String-discrete)

abbrev accepts : Claims → String → String → ℕ → String → Bool
accepts c issuer audience now token =
    str_eq token "t"
    && (str_eq issuer c.issuer
        && (any (str_eq audience) c.audience && ltb now (c.expires_at * second)))

abbrev signed_if : {A : Type 0} → Dec A → Result String
signed_if (yes h) = ok "t"
signed_if (no h) = err (message "other claims")

signed_if-ok :
    {A : Type 0} (d : Dec A) (token : String) → signed_if d ≡ ok token → A × ("t" ≡ token)
signed_if-ok (yes h) token e = (h, ground arith)
signed_if-ok (no h) token e = ground arith

signed_if_holds : {A : Type 0} (d : Dec A) → A → signed_if d ≡ ok "t"
signed_if_holds (yes h) a = refl
signed_if_holds (no h) a = absurd (h a)

signs_itself : (c : Claims) → signed_if (Claims-discrete c c) ≡ ok "t"
signs_itself c = signed_if_holds (Claims-discrete c c) refl

abbrev library : Claims → Jwt (Unit {0}) (Unit {0})
library c = record {
  sign = λ kid claims key. signed_if (Claims-discrete claims c);
  parse = λ issuer audience now public token.
      if accepts c issuer audience now token
      then ok c
      else err (message "token has invalid claims");
}

abbrev Same : Unit {0} → Unit {0} → Type 0
Same k p = Unit

parsed :
    (c : Claims) (token audience : String) (now : ℕ)
    → "t" ≡ token
    → any (str_eq audience) c.audience ≡ true
    → now < c.expires_at * second
    → (library c).parse c.issuer audience now (ok tt) token ≡ ok c
parsed c token audience now e a l = ground (arith, eq_iff token "t", eq_refl c.issuer, sym e, a)

unparsed :
    (c : Claims) (token issuer audience : String) (now : ℕ) (public : Result (Unit {0}))
    → (any (str_eq audience) c.audience ≡ false) ⊎ (c.expires_at * second ≤ now)
    → ((e : Error) × ((library c).parse issuer audience now public token ≡ err e))
unparsed c token issuer audience now public why =
    (message "token has invalid claims", ground (arith, why))

library-IsJwt : (c : Claims) → IsJwt Same (library c)
library-IsJwt c = record {
  accepts = λ kid claims key public token audience now s p a l.
      let (e, t) = signed_if-ok (Claims-discrete claims c) token s in
      subst
        (λ z.
          any (str_eq audience) z.audience ≡ true
          → now < z.expires_at * second
          → (library c).parse z.issuer audience now (ok public) token ≡ ok z)
        (sym e) (λ a' l'. parsed c token audience now t a' l') a l;
  refuses_audience = λ kid claims key public token issuer audience now s a.
      unparsed c token issuer audience now public (
        inl (
          subst (λ z. any (str_eq audience) z.audience ≡ false)
            (signed_if-ok (Claims-discrete claims c) token s).0 a));
  refuses_expired = λ kid claims key public token issuer audience now s l.
      unparsed c token issuer audience now public (
        inr (
          subst (λ z. z.expires_at * second ≤ now)
            (signed_if-ok (Claims-discrete claims c) token s).0 l));
}

abbrev keys : KeyManager (Unit {0}) (Unit {0})
keys = record { key_id = ok "key-1"; signing_key = ok tt; verification_key = ok tt }

abbrev issuer : Issuer (Unit {0}) (Unit {0})
issuer = record { km = keys; issuer_id = "foreman" }

abbrev worker : Agent
worker = record { id = "a1"; assigned_user_id = "u1"; session_id = "ses_1" }

abbrev read_only : AgentScope
read_only = record {
  repos = "org/repo" ∷ [];
  actions = "read" ∷ [];
  branches = [];
  max_prs = 1;
  no_delete = true;
}

-- A minute.
abbrev ttl : ℕ
ttl = 60 * second

abbrev worker_library : Jwt (Unit {0}) (Unit {0})
worker_library = library (agent_claims "foreman" 0 worker "sbox" ttl)

abbrev scoped_library : Jwt (Unit {0}) (Unit {0})
scoped_library = library (scoped_claims "foreman" 0 "ses_1" "" ttl read_only)

HasKeys-keys : (c : Claims) → HasKeys Same (library c) (library-IsJwt c) issuer
HasKeys-keys c = record { key = tt; public = tt; signing = refl; verification = refl; pair = tt }

worker_token : issue_agent_token worker_library issuer 0 worker "sbox" ttl ≡ ok "t"
unfolding issue_agent_token issue
worker_token =
    ap (within "issuer: sign token") (signs_itself (agent_claims "foreman" 0 worker "sbox" ttl))

issue_agent_token-validate_token_example :
    validate_token worker_library issuer 59_000_000_000 "t"
    ≡ ok (record {
      type = agent;
      id = "a1";
      metadata = ("session_id", "ses_1") ∷ ("sandbox_id", "sbox") ∷ [];
    })
issue_agent_token-validate_token_example =
    issue_agent_token-validate_token Same worker_library
      (library-IsJwt (agent_claims "foreman" 0 worker "sbox" ttl)) issuer 0 59_000_000_000 ttl
      worker "sbox" "t" (HasKeys-keys (agent_claims "foreman" 0 worker "sbox" ttl)) worker_token
      refl (omega arith)

scoped_token : issue_scoped_agent_token scoped_library issuer 0 "ses_1" "" ttl read_only ≡ ok "t"
unfolding issue_scoped_agent_token issue
scoped_token =
    ap (within "issuer: sign scoped token")
      (signs_itself (scoped_claims "foreman" 0 "ses_1" "" ttl read_only))

issue_scoped_agent_token-validate_token_example :
    (e : Error) × (validate_token scoped_library issuer 1 "t" ≡ err e)
issue_scoped_agent_token-validate_token_example =
    issue_scoped_agent_token-validate_token Same scoped_library
      (library-IsJwt (scoped_claims "foreman" 0 "ses_1" "" ttl read_only)) issuer 0 1 ttl "ses_1" ""
      "t" read_only scoped_token

auth_middleware_iff_example :
    (auth_middleware worker_library issuer (λ e. false) 5 "bearer t"
      ≡ passed (some (record { type = agent; id = "a1"; metadata = [] })))
    ↔ ((b : IsBearer "bearer t") × (validate_token worker_library issuer 5 b.token
          ≡ ok (record { type = agent; id = "a1"; metadata = [] })))
auth_middleware_iff_example =
    auth_middleware_iff worker_library issuer (λ e. false) 5 "bearer t"
      (record { type = agent; id = "a1"; metadata = [] })
