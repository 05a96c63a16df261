-- ===== src/Identity/Tokens.antt =====
-- Which tokens of internal/identity/issuer.go are valid, and for whom.
use foreman.Prelude.{
  ℕ, ◌+◌, ◌*◌, ◌/◌, ◌≤◌, ◌<◌, String, ◌≡◌, refl, true, false, [], ◌∷◌, any, Result, ok, err, Error,
  str_eq, arith, Result-cases, inl, inr, wrap, subst, ◌∙◌,
}
use foreman.Policy.{second}
use foreman.Identity.{
  Agent, AgentScope, Claims, Jwt, Issuer, agent, service_account, issue, issue_agent_token,
  issue_scoped_agent_token, issue_service_account_token, validate_token, subject_of, agent_claims,
  scoped_claims, service_account_claims,
}

-- The library: a token that was signed is accepted by the key that belongs to the signing one exactly
-- for its issuer, one of its audiences, and before it expires.
pub record IsJwt {K P : Type 0} (Pair : K → P → Type 0) (jwt : Jwt K P) : Type 0 where
  pub accepts :
      (kid : String) (claims : Claims) (key : K) (public : P) (token audience : String) (now : ℕ)
      → jwt.sign kid claims key ≡ ok token
      → Pair key public
      → any (str_eq audience) claims.audience ≡ true
      → now < claims.expires_at * second
      → jwt.parse claims.issuer audience now (ok public) token ≡ ok claims
  pub refuses_audience :
      (kid : String) (claims : Claims) (key : K) (public : Result P)
      (token issuer audience : String) (now : ℕ)
      → jwt.sign kid claims key ≡ ok token
      → any (str_eq audience) claims.audience ≡ false
      → ((e : Error) × (jwt.parse issuer audience now public token ≡ err e))
  pub refuses_expired :
      (kid : String) (claims : Claims) (key : K) (public : Result P)
      (token issuer audience : String) (now : ℕ)
      → jwt.sign kid claims key ≡ ok token
      → claims.expires_at * second ≤ now
      → ((e : Error) × (jwt.parse issuer audience now public token ≡ err e))

module _ {K P : Type 0} (Pair : K → P → Type 0) (jwt : Jwt K P) (laws : IsJwt Pair jwt)
    (iss : Issuer K P) where
  -- The two keys of the manager belong to each other.
  pub record HasKeys : Type 0 where
    pub key : K
    pub public : P
    pub signing : iss.km.signing_key ≡ ok key
    pub verification : iss.km.verification_key ≡ ok public
    pub pair : Pair key public

  -- A token that was issued was signed.
  record Signed (claims : Claims) (token : String) : Type 0 where
    pub kid : String
    pub key : K
    pub signing : iss.km.signing_key ≡ ok key
    pub signed : jwt.sign kid claims key ≡ ok token

  issue-Signed :
      (text token : String) (claims : Claims)
      → issue jwt iss text claims ≡ ok token
      → Signed claims token
  unfolding issue
  issue-Signed text token claims h = elim (Result-cases iss.km.key_id) [
    | inr (e, p) ↦ ground (arith, p)
    | inl (kid, p) ↦ elim (Result-cases iss.km.signing_key) [
      | inr (e, q) ↦ ground (arith, p, q)
      | inl (key, q) ↦ elim (Result-cases (jwt.sign kid claims key)) [
        | inr (e, r) ↦ ground (arith, p, q, r)
        | inl (t, r) ↦ record {
          kid = kid;
          key = key;
          signing = q;
          signed = ground (arith, p, q, r);
        }
      ]
    ]
  ]

  validate-Signed :
      (claims : Claims) (token : String) (now : ℕ)
      → HasKeys
      → Signed claims token
      → claims.issuer ≡ iss.issuer_id
      → any (str_eq "foreman") claims.audience ≡ true
      → now < claims.expires_at * second
      → validate_token jwt iss now token ≡ subject_of claims
  unfolding validate_token
  validate-Signed claims token now keys s i a l =
      rw (keys.verification, accepted, validate_token) refl
    where
      same_key : keys.key ≡ s.key
      same_key = ground arith

      accepted : jwt.parse iss.issuer_id "foreman" now (ok keys.public) token ≡ ok claims
      accepted =
          subst (λ n. jwt.parse n "foreman" now (ok keys.public) token ≡ ok claims) i
            (laws.accepts s.kid claims s.key keys.public token "foreman" now s.signed
              (subst (λ k. Pair k keys.public) same_key keys.pair) a l)

  -- Where the library accepts a signed token for its issuer, one of its audiences and before it
  -- expires, and the manager's two keys belong to each other, the token issued to an agent that has
  -- an identifier is valid before the whole second of its expiry, and names the agent, its session
  -- and its sandbox.
  pub issue_agent_token-validate_token :
      (issued now ttl : ℕ) (a : Agent) (sandbox_id token : String)
      → HasKeys
      → issue_agent_token jwt iss issued a sandbox_id ttl ≡ ok token
      → str_eq a.id "" ≡ false
      → now < (issued + ttl) / second * second
      → validate_token jwt iss now token
        ≡ ok (record {
          type = agent;
          id = a.id;
          metadata = ("session_id", a.session_id) ∷ ("sandbox_id", sandbox_id) ∷ [];
        })
  unfolding issue_agent_token agent_claims subject_of
  issue_agent_token-validate_token issued now ttl a sandbox_id token keys h named l =
      validate-Signed (agent_claims iss.issuer_id issued a sandbox_id ttl) token now keys
        (issue-Signed "issuer: sign token" token
          (agent_claims iss.issuer_id issued a sandbox_id ttl) h)
        refl refl l
      ∙ rw (named, subject_of) refl

  issue_service_account_token-validate_token :
      (issued now ttl : ℕ) (account_id token : String)
      → HasKeys
      → issue_service_account_token jwt iss issued account_id ttl ≡ ok token
      → str_eq account_id "" ≡ false
      → now < (issued + ttl) / second * second
      → validate_token jwt iss now token
        ≡ ok (record { type = service_account; id = account_id; metadata = [] })
  unfolding issue_service_account_token service_account_claims subject_of
  issue_service_account_token-validate_token issued now ttl account_id token keys h named l =
      validate-Signed (service_account_claims iss.issuer_id issued account_id ttl) token now keys
        (issue-Signed "issuer: sign token" token
          (service_account_claims iss.issuer_id issued account_id ttl) h)
        refl refl l
      ∙ rw (named, subject_of) refl

  parse-refused :
      (now : ℕ) (token : String) (e : Error)
      → jwt.parse iss.issuer_id "foreman" now iss.km.verification_key token ≡ err e
      → validate_token jwt iss now token ≡ err (wrap "validate token" e)
  unfolding validate_token
  parse-refused now token e h = rw (h, validate_token) refl

  -- Where the library refuses a signed token for an audience that it does not name, a scoped token,
  -- which is for GitHub, is never valid as a token of this service, whatever its scope and its age.
  pub issue_scoped_agent_token-validate_token :
      (issued now ttl : ℕ) (session_id user_id token : String) (scope : AgentScope)
      → issue_scoped_agent_token jwt iss issued session_id user_id ttl scope ≡ ok token
      → ((e : Error) × (validate_token jwt iss now token ≡ err e))
  unfolding issue_scoped_agent_token scoped_claims
  issue_scoped_agent_token-validate_token issued now ttl session_id user_id token scope h =
      let s =
        issue-Signed "issuer: sign scoped token" token
          (scoped_claims iss.issuer_id issued session_id user_id ttl scope) h in
      let (e, refused) =
        laws.refuses_audience s.kid
          (scoped_claims iss.issuer_id issued session_id user_id ttl scope) s.key
          iss.km.verification_key token iss.issuer_id "foreman" now s.signed refl in
      (wrap "validate token" e, parse-refused now token e refused)

  issue_agent_token_expired :
      (issued now ttl : ℕ) (a : Agent) (sandbox_id token : String)
      → issue_agent_token jwt iss issued a sandbox_id ttl ≡ ok token
      → issued + ttl ≤ now
      → ((e : Error) × (validate_token jwt iss now token ≡ err e))
  unfolding issue_agent_token agent_claims
  issue_agent_token_expired issued now ttl a sandbox_id token h late =
      let s =
        issue-Signed "issuer: sign token" token (agent_claims iss.issuer_id issued a sandbox_id ttl)
          h in
      let (e, refused) =
        laws.refuses_expired s.kid (agent_claims iss.issuer_id issued a sandbox_id ttl) s.key
          iss.km.verification_key token iss.issuer_id "foreman" now s.signed (omega arith) in
      (wrap "validate token" e, parse-refused now token e refused)
