-- ===== src/Identity/Keys.antt =====
-- internal/identity/keymanager.go: where the signing key comes from. The formats of `encoding/pem`,
-- `crypto/x509` and `encoding/base64` are parameters; a block is a text.
use foreman.Prelude.{
  String, ◌≡◌, refl, ap, false, Option, none, some, Result, ok, err, Result-cases, message, wrap,
  concat, str_eq, if◌then◌else◌, inl, inr, within, arith,
}

-- `pkcs8` gives `none` inside for a key that is not an RSA key.
pub record Formats (K : Type 0) : Type 0 where
  pub pem : String → Option String
  pub pkcs1 : String → Option K
  pub pkcs8 : String → Option (Option K)
  pub base64 : String → Result String

pub data Source (K : Type 0) : Type 0 where
  env_key_manager : String → String → Source K
  file_key_manager : String → String → Option K → Source K

abbrev or_default : String → String → String
or_default t d = if str_eq t "" then d else t

-- The arguments are the fields of `SigningKeyConfig`.
unfoldable pub new_signing_key_manager :
    {K : Type 0} → String → String → String → String → Result (Source K)
new_signing_key_manager source env_var_name file_path key_id =
    if str_eq source "env"
    then ok (
        env_key_manager (or_default key_id "foreman-1")
          (or_default env_var_name "FOREMAN_SIGNING_KEY"))
    else if str_eq source "file"
    then if str_eq file_path ""
      then err (message "file_path is required when source is 'file'")
      else ok (file_key_manager (or_default key_id "foreman-1") file_path none)
    else err (message (concat "unsupported signing key source: " source))

module _ {K : Type 0} (f : Formats K) where
  abbrev rsa_only : Option (Option K) → Result K
  rsa_only none = err (message "failed to parse PEM private key: not PKCS1 or PKCS8 format")
  rsa_only (some none) = err (message "PEM key is not an RSA private key")
  rsa_only (some (some key)) = ok key

  abbrev or_pkcs8 : String → Option K → Result K
  or_pkcs8 block (some key) = ok key
  or_pkcs8 block none = rsa_only (f.pkcs8 block)

  unfoldable pub parse_private_key_from_block : String → Result K
  parse_private_key_from_block block = or_pkcs8 block (f.pkcs1 block)

  unfoldable pub parse_private_key : String → Result K
  unfolding parse_private_key_from_block
  parse_private_key raw = elim (f.pem raw) [
    | none ↦ err (message "no PEM block found in key data")
    | some block ↦ parse_private_key_from_block block
  ]

  abbrev parse_decoded : Result String → Result K
  parse_decoded (err e) = err (wrap "signing key: neither PEM nor valid base64" e)
  parse_decoded (ok decoded) =
      within "signing key: parse error after base64 decode" (parse_private_key decoded)

  -- The argument is the value of the variable, empty where it is not set.
  unfoldable pub env_signing_key : String → Result K
  unfolding parse_private_key
  env_signing_key raw =
      if str_eq raw ""
      then err (message "signing key: environment variable is not set")
      else elim (f.pem raw) [
        | some block ↦ parse_private_key_from_block block
        | none ↦ parse_decoded (f.base64 raw)
      ]

  abbrev remember : Result K → Result K × Option K
  remember (ok key) = (ok key, some key)
  remember (err e) = (err e, none)

  -- `SigningKey` of the file's manager: what reading the file gives, and the key that is cached.
  unfoldable pub file_signing_key : Result String → Option K → Result K × Option K
  unfolding parse_private_key
  file_signing_key file (some key) = (ok key, some key)
  file_signing_key (err e) none = (err (wrap "read signing key file" e), none)
  file_signing_key (ok raw) none = remember (parse_private_key raw)

  within-ok : (text : String) (r : Result K) (key : K) → r ≡ ok key → within text r ≡ ok key
  within-ok text r key h = rw h refl

  -- The base64 of a PEM stands for it.
  env_signing_key_base64 :
      (raw encoded block : String) (key : K)
      → f.pem raw ≡ some block
      → f.base64 encoded ≡ ok raw
      → f.pem encoded ≡ none
      → str_eq encoded "" ≡ false
      → env_signing_key raw ≡ ok key
      → env_signing_key encoded ≡ ok key
  unfolding env_signing_key parse_private_key
  env_signing_key_base64 raw encoded block key p b n shown h = ground (arith, p, b, n, shown, h)

  -- A key that was read once is the key from then on, whatever becomes of the file.
  file_signing_key_again :
      (file later : Result String) (cached : Option K) (key : K)
      → (file_signing_key file cached).0 ≡ ok key
      → (file_signing_key later (file_signing_key file cached).1) ≡ (ok key, some key)
  unfolding file_signing_key
  file_signing_key_again file later (some key') key h = ground (arith, h)
  file_signing_key_again (err e) later none key h = ground (arith, h)
  file_signing_key_again (ok raw) later none key h = elim (Result-cases (parse_private_key raw)) [
    | inl (key', e) ↦ rw e (ap (λ k. (ok k, some k)) (ground (arith, h, e)))
    | inr (x, e) ↦ ground (arith, e)
  ]
