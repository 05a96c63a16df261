-- ===== src/GithubApp/Client.antt =====
-- internal/identity/githubapp/client.go: the key of the App, and the cache of installation tokens. The
-- file of the key, the signing and the server of GitHub, whose state is a type of its own, are a
-- parameter.
pub mod Cache
mod Examples
use foreman.Prelude.{
  ℕ, ◌+◌, ◌*◌, ◌/◌, String, Bool, true, false, Option, none, some, List, [], ◌∷◌, map, Result, ok,
  err, Error, message, wrap, str_eq, ltb, ◌==◌, if◌then◌else◌, within, ◌>>=◌,
}
use foreman.Policy.{second}
use foreman.Identity.Keys.{Formats}
use foreman.GithubApp.{InstallationState, Installation, active, suspended}

pub record TokenCacheEntry : Type 0 where
  pub token : String
  pub expires_at : ℕ

pub record Client (K : Type 0) : Type 0 where
  pub private_key : Option K
  pub token_cache : List (ℕ × TokenCacheEntry)

-- The claims of the App: the two times in seconds, and the identifier of the App as its text.
pub record AppClaims : Type 0 where
  pub issued_at : ℕ
  pub expires_at : ℕ
  pub issuer : String

-- One installation as the server lists it.
pub record Listed : Type 0 where
  pub id : ℕ
  pub account_id : ℕ
  pub login : String
  pub type : String
  pub suspended_at : Option ℕ

-- An answer of the server is a status and a body.
pub record Github (K R : Type 0) : Type 0 where
  pub app_id_text : String
  pub read_key : Result String
  pub formats : Formats K
  pub sign : AppClaims → K → Result String
  pub post : String → ℕ → R → Result (ℕ × String) × R
  pub get : String → R → Result (ℕ × String) × R
  pub parse_token : String → Result TokenCacheEntry
  pub parse_list : String → Result (List Listed)

abbrev pub five_minutes : ℕ
five_minutes = 5 * 60 * second

unfoldable pub find_token : ℕ → List (ℕ × TokenCacheEntry) → Option TokenCacheEntry
find_token id [] = none
find_token id ((other, entry) ∷ cache) = if other == id then some entry else find_token id cache

unfoldable pub keep_token :
    ℕ → TokenCacheEntry → List (ℕ × TokenCacheEntry) → List (ℕ × TokenCacheEntry)
keep_token id entry [] = (id, entry) ∷ []
keep_token id entry ((other, old) ∷ cache) =
    if other == id then (id, entry) ∷ cache else (other, old) ∷ keep_token id entry cache

-- The entry, if it is valid for five minutes more.
unfoldable pub cached : ℕ → ℕ → List (ℕ × TokenCacheEntry) → Option TokenCacheEntry
unfolding find_token
cached now id cache = elim (find_token id cache) [
  | none ↦ none
  | some entry ↦ if ltb (now + five_minutes) entry.expires_at then some entry else none
]

module _ {K R : Type 0} (gh : Github K R) where
  abbrev rsa_key : Option (Option K) → Result K
  rsa_key none = err (message "parse private key")
  rsa_key (some none) = err (message "private key is not RSA")
  rsa_key (some (some key)) = ok key

  abbrev pkcs_key : String → Option K → Result K
  pkcs_key block (some key) = ok key
  pkcs_key block none = rsa_key (gh.formats.pkcs8 block)

  abbrev block_key : Option String → Result K
  block_key none = err (message "no PEM data found")
  block_key (some block) = pkcs_key block (gh.formats.pkcs1 block)

  unfoldable pub read_private_key : Result K
  read_private_key = do
    pem_data ← within "read private key" gh.read_key
    block_key (gh.formats.pem pem_data)

  abbrev with_key : Client K → Result K → Result K × Client K
  with_key c (ok key) = (ok key, record c { private_key = some key })
  with_key c (err e) = (err e, c)

  unfoldable pub load_private_key : Client K → Result K × Client K
  unfolding read_private_key
  load_private_key c = elim c.private_key [
    | some key ↦ (ok key, c)
    | none ↦ with_key c read_private_key
  ]

  unfoldable pub app_claims : ℕ → AppClaims
  app_claims now = record {
    issued_at = now / second;
    expires_at = (now + 10 * 60 * second) / second;
    issuer = gh.app_id_text;
  }

  unfoldable pub generate_app_jwt : ℕ → Client K → Result String × Client K
  unfolding load_private_key app_claims
  generate_app_jwt now c =
      let (loaded, c') = load_private_key c in
      (do key ← within "load key" loaded; within "sign JWT" (gh.sign (app_claims now) key), c')

  -- The status and the body, as the token and its expiry.
  abbrev granted : Result (ℕ × String) → Result TokenCacheEntry
  granted (err e) = err (wrap "http POST" e)
  granted (ok (code, body)) =
      if code == 201
      then within "parse response" (gh.parse_token body)
      else err (message "GitHub API error")

  abbrev remembered :
      ℕ → Client K → R → Result TokenCacheEntry → Result TokenCacheEntry × (Client K × R)
  remembered id c r (err e) = (err e, (c, r))
  remembered id c r (ok entry) =
      (ok entry, (record c { token_cache = keep_token id entry c.token_cache }, r))

  abbrev fetched : ℕ → R → Result String × Client K → Result TokenCacheEntry × (Client K × R)
  fetched id r (err e, c) = (err (wrap "app JWT" e), (c, r))
  fetched id r (ok jwt, c) =
      let (reply, r') = gh.post jwt id r in remembered id c r' (granted reply)

  unfoldable pub get_installation_token :
      ℕ → ℕ → Client K × R → Result TokenCacheEntry × (Client K × R)
  unfolding cached generate_app_jwt keep_token
  get_installation_token now id (c, r) = elim (cached now id c.token_cache) [
    | some entry ↦ (ok entry, (c, r))
    | none ↦ fetched id r (generate_app_jwt now c)
  ]

  abbrev state_of : Option ℕ → InstallationState
  state_of none = active
  state_of (some time) = suspended

  -- The two times of an installation are not set.
  unfoldable pub installation : Listed → Installation
  installation gi = record {
    platform = "github";
    platform_install_id = gi.id;
    account_login = gi.login;
    account_type = gi.type;
    account_id = gi.account_id;
    state = state_of gi.suspended_at;
    created_at = 0;
    updated_at = 0;
  }

  abbrev listed : Result (ℕ × String) → Result (List Installation)
  listed (err e) = err (wrap "http GET" e)
  listed (ok (code, body)) =
      if code == 200
      then (do
        installs ← within "parse response" (gh.parse_list body)
        ok (map installation installs))
      else err (message "GitHub API error")

  abbrev asked : R → Result String × Client K → Result (List Installation) × (Client K × R)
  asked r (err e, c) = (err (wrap "app JWT" e), (c, r))
  asked r (ok jwt, c) = let (reply, r') = gh.get jwt r in (listed reply, (c, r'))

  unfoldable pub list_installations : ℕ → Client K × R → Result (List Installation) × (Client K × R)
  unfolding generate_app_jwt installation
  list_installations now (c, r) = asked r (generate_app_jwt now c)
