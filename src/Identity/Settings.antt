-- ===== src/Identity/Settings.antt =====
-- internal/identity/config.go: the checks of the configuration. What the environment holds and which
-- files exist are parameters.
use foreman.Prelude.{
  ℕ, String, ◌≡◌, refl, subst, false, Option, none, some, Result, Result-cases, ok, err, message,
  concat, str_eq, ◌==◌, if◌then◌else◌, inl, inr, arith, Bool-cases, eq_iff,
}
use foreman.Identity.Keys.{Source, new_signing_key_manager}

pub record SigningKeyConfig : Type 0 where
  pub source : String
  pub key_id : String
  pub env_var_name : String
  pub file_path : String

pub record GitHubAppConfig : Type 0 where
  pub app_id : ℕ
  pub private_key_path : String
  pub webhook_secret : String
  pub app_slug : String
  pub webhook_endpoint : String

pub record IdentityProviderConfig : Type 0 where
  pub signing_key : SigningKeyConfig
  pub github_app : Option GitHubAppConfig

pub record Machine : Type 0 where
  pub getenv : String → String
  pub stat : String → Result (Unit {0})

abbrev prefixed : String → Result (Unit {0}) → Result (Unit {0})
prefixed text (ok _) = ok tt
prefixed text (err e) = err (message text)

module _ (m : Machine) where
  unfoldable pub validate_signing_key : SigningKeyConfig → Result (Unit {0})
  validate_signing_key c =
      if str_eq c.source "env"
      then if str_eq c.env_var_name ""
        then err (message "signing_key: env_var_name is required when source is 'env'")
        else if str_eq (m.getenv c.env_var_name) ""
        then err (message (concat "signing_key: environment variable is not set: " c.env_var_name))
        else ok tt
      else if str_eq c.source "file"
      then if str_eq c.file_path ""
        then err (message "signing_key: file_path is required when source is 'file'")
        else prefixed "signing_key" (m.stat c.file_path)
      else if str_eq c.source ""
      then err (message "signing_key: source is required ('env' or 'file')")
      else err (message (concat "signing_key: invalid source: " c.source))

  abbrev with_endpoint : GitHubAppConfig → GitHubAppConfig
  with_endpoint c =
      if str_eq c.webhook_endpoint ""
      then record c { webhook_endpoint = "/api/v1/webhooks/github" }
      else c

  -- The configuration is the one after the call, which sets the default endpoint.
  unfoldable pub validate_github_app : GitHubAppConfig → Result (Unit {0}) × GitHubAppConfig
  validate_github_app c =
      if c.app_id == 0
      then (err (message "github_app: app_id is required"), c)
      else if str_eq c.private_key_path ""
      then (err (message "github_app: private_key_path is required"), c)
      else elim (m.stat c.private_key_path) [
        | err e ↦ (err (message "github_app"), c)
        | ok _ ↦
            if str_eq c.webhook_secret ""
            then (err (message "github_app: webhook_secret is required"), c)
            else (ok tt, with_endpoint c)
      ]

  unfoldable pub validate : IdentityProviderConfig → Result (Unit {0}) × IdentityProviderConfig
  unfolding validate_signing_key validate_github_app
  validate c = elim (validate_signing_key c.signing_key) [
    | err e ↦ (err e, c)
    | ok _ ↦ elim c.github_app [
      | none ↦ (ok tt, c)
      | some app ↦
          let (checked, app') = validate_github_app app in
          (checked, record c { github_app = some app' })
    ]
  ]

  -- Where the configuration of the signing key passes its check, its manager is created.
  validate-new_signing_key_manager :
      (K : Type 0) (c : SigningKeyConfig)
      → validate_signing_key c ≡ ok tt
      → ((s : Source K) × (new_signing_key_manager c.source c.env_var_name c.file_path c.key_id
            ≡ ok s))
  unfolding validate_signing_key new_signing_key_manager
  validate-new_signing_key_manager K c h =
      elim (Result-cases
        (new_signing_key_manager {K = K} c.source c.env_var_name c.file_path c.key_id)) [
          | inl (s, e) ↦ (s, e)
          | inr (x, e) ↦ ground (arith, e, eq_iff c.source "env", eq_iff c.source "file")
        ]

  -- What a valid configuration of the App has.
  pub record IsComplete (c : GitHubAppConfig) : Type 0 where
    pub app : (c.app_id == 0) ≡ false
    pub key : m.stat c.private_key_path ≡ ok tt
    pub secret : str_eq c.webhook_secret "" ≡ false
    pub endpoint : str_eq c.webhook_endpoint "" ≡ false

  validate_github_app_ok :
      (c : GitHubAppConfig)
      → (validate_github_app c).0 ≡ ok tt
      → ((c.app_id == 0) ≡ false)
        × (m.stat c.private_key_path ≡ ok tt)
        × (str_eq c.webhook_secret "" ≡ false)
        × (with_endpoint c ≡ (validate_github_app c).1)
  unfolding validate_github_app
  validate_github_app_ok c h = elim (Result-cases (m.stat c.private_key_path)) [
    | inl (u, e) ↦ (ground (arith, e, h), e, ground (arith, e, h), ground (arith, e, h))
    | inr (x, e) ↦ ground (arith, e, h)
  ]

  with_endpoint-IsComplete :
      (c : GitHubAppConfig)
      → (c.app_id == 0) ≡ false
      → m.stat c.private_key_path ≡ ok tt
      → str_eq c.webhook_secret "" ≡ false
      → IsComplete (with_endpoint c)
  with_endpoint-IsComplete c app key secret = elim (Bool-cases (str_eq c.webhook_endpoint "")) [
    | inl e ↦ rw e (record { app = app; key = key; secret = secret; endpoint = refl })
    | inr e ↦ rw e (record { app = app; key = key; secret = secret; endpoint = e })
  ]

  -- Where the configuration of the GitHub App passes its check, it has an identifier, a key file
  -- that exists, a secret, and an endpoint, which is the default one where none was set.
  validate_github_app-IsComplete :
      (c : GitHubAppConfig)
      → (validate_github_app c).0 ≡ ok tt
      → IsComplete (validate_github_app c).1
  validate_github_app-IsComplete c h =
      let (app, key, secret, e) = validate_github_app_ok c h in
      subst IsComplete e (with_endpoint-IsComplete c app key secret)
