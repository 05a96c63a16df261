-- ===== src/Identity.antt =====
-- internal/identity/issuer.go and the subjects of internal/identity/model.go. The keys, their manager
-- and the library for JSON Web Tokens are parameters.
pub mod Tokens
pub mod Keys
pub mod Settings
pub mod Middleware
mod Examples
use foreman.Prelude.{
  ℕ, ◌+◌, ◌/◌, String, Bool, true, false, Option, none, some, List, [], ◌∷◌, Result, ok, err, Error,
  message, wrap, concat, str_eq, within, if◌then◌else◌, ◌>>=◌,
}
use foreman.Prelude.Dict.{Dict}
use foreman.Policy.{second}

pub data IdentityType : Type 0 where
  user : IdentityType
  agent : IdentityType
  service_account : IdentityType

pub record Subject : Type 0 where
  pub type : IdentityType
  pub id : String
  pub metadata : Dict String

pub record Agent : Type 0 where
  pub id : String
  pub assigned_user_id : String
  pub session_id : String

pub record AgentScope : Type 0 where
  pub repos : List String
  pub actions : List String
  pub branches : List String
  pub max_prs : ℕ
  pub no_delete : Bool

-- What a token carries, as `combinedClaims` reads it: what a kind of token leaves out is empty. The
-- two times are seconds.
pub record Claims : Type 0 where
  pub issuer : String
  pub subject : String
  pub audience : List String
  pub expires_at : ℕ
  pub issued_at : ℕ
  pub id : String
  pub agent_id : String
  pub sandbox_id : String
  pub session_id : String
  pub identity : String
  pub scope : Option AgentScope
  pub service_account_id : String

-- `SigningKeyManager`
pub record KeyManager (K P : Type 0) : Type 0 where
  pub key_id : Result String
  pub signing_key : Result K
  pub verification_key : Result P

-- `sign` is SignedString on a token with that key in its header; `parse` is ParseWithClaims for an
-- issuer and an audience at a time, with what the function for the key gives.
pub record Jwt (K P : Type 0) : Type 0 where
  pub sign : String → Claims → K → Result String
  pub parse : String → String → ℕ → Result P → String → Result Claims

pub record Issuer (K P : Type 0) : Type 0 where
  pub km : KeyManager K P
  pub issuer_id : String

-- `jwt.NewNumericDate`
abbrev numeric_date : ℕ → ℕ
numeric_date t = t / second

unfoldable pub agent_claims : String → ℕ → Agent → String → ℕ → Claims
agent_claims issuer_id now a sandbox_id ttl = record {
  issuer = issuer_id;
  subject = a.id;
  audience = "foreman" ∷ [];
  expires_at = numeric_date (now + ttl);
  issued_at = numeric_date now;
  id = a.session_id;
  agent_id = a.id;
  sandbox_id = sandbox_id;
  session_id = a.session_id;
  identity = a.assigned_user_id;
  scope = none;
  service_account_id = "";
}

unfoldable pub scoped_claims : String → ℕ → String → String → ℕ → AgentScope → Claims
scoped_claims issuer_id now session_id user_id ttl scope = record {
  issuer = issuer_id;
  subject = concat "agent-" session_id;
  audience = "github" ∷ [];
  expires_at = numeric_date (now + ttl);
  issued_at = numeric_date now;
  id = session_id;
  agent_id = concat "agent-" session_id;
  sandbox_id = "";
  session_id = session_id;
  identity = user_id;
  scope = some scope;
  service_account_id = "";
}

unfoldable pub service_account_claims : String → ℕ → String → ℕ → Claims
service_account_claims issuer_id now account_id ttl = record {
  issuer = issuer_id;
  subject = account_id;
  audience = "foreman" ∷ [];
  expires_at = numeric_date (now + ttl);
  issued_at = numeric_date now;
  id = "";
  agent_id = "";
  sandbox_id = "";
  session_id = "";
  identity = "";
  scope = none;
  service_account_id = account_id;
}

-- `ValidateToken` after the parsing.
unfoldable pub subject_of : Claims → Result Subject
subject_of claims =
    if str_eq claims.agent_id ""
    then if str_eq claims.service_account_id ""
      then err (message "invalid token")
      else ok (record { type = service_account; id = claims.service_account_id; metadata = [] })
    else ok (record {
      type = agent;
      id = claims.agent_id;
      metadata = ("session_id", claims.session_id) ∷ ("sandbox_id", claims.sandbox_id) ∷ [];
    })

module _ {K P : Type 0} (jwt : Jwt K P) (iss : Issuer K P) where
  -- The part that the three issuing functions share; they name the error of the signature.
  unfoldable pub issue : String → Claims → Result String
  issue text claims = do
    kid ← within "issuer: get key ID" iss.km.key_id
    key ← within "issuer: get signing key" iss.km.signing_key
    within text (jwt.sign kid claims key)

  unfoldable pub issue_agent_token : ℕ → Agent → String → ℕ → Result String
  unfolding issue agent_claims
  issue_agent_token now a sandbox_id ttl =
      issue "issuer: sign token" (agent_claims iss.issuer_id now a sandbox_id ttl)

  unfoldable pub issue_scoped_agent_token : ℕ → String → String → ℕ → AgentScope → Result String
  unfolding issue scoped_claims
  issue_scoped_agent_token now session_id user_id ttl scope =
      issue "issuer: sign scoped token"
        (scoped_claims iss.issuer_id now session_id user_id ttl scope)

  unfoldable pub issue_service_account_token : ℕ → String → ℕ → Result String
  unfolding issue service_account_claims
  issue_service_account_token now account_id ttl =
      issue "issuer: sign token" (service_account_claims iss.issuer_id now account_id ttl)

  unfoldable pub validate_token : ℕ → String → Result Subject
  unfolding subject_of
  validate_token now token = do
    claims ←
        within "validate token"
          (jwt.parse iss.issuer_id "foreman" now iss.km.verification_key token)
    subject_of claims
