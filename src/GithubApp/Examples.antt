-- ===== src/GithubApp/Examples.antt =====
-- The theorems about internal/identity/githubapp with a list as the store.
use foreman.Prelude.{ℕ, String, ◌≡◌, ◌≢◌, ◌⊎◌, refl, some, List, [], ◌∷◌, ok, arith, eq_iff}
use foreman.GithubApp.{
  Outside, Request, InstallationEvent, InstallationState, deleted, serve_http, dispatch,
}
use foreman.GithubApp.Webhook.{IsSigned, serve_http_store}

abbrev States : Type 0
States = List (ℕ × InstallationState)

-- The signature is the secret, and every body deletes the installation 7.
abbrev outside : Outside States
outside = record {
  create = λ inst s. (ok tt, (inst.platform_install_id, inst.state) ∷ s);
  update_state = λ id state s. (ok tt, (id, state) ∷ s);
  hmac = λ secret body. secret;
  parse = λ body.
      some (record { action = "deleted"; id = 7; account_id = 1; login = "acme"; type = "User" });
}

abbrev signed : String → Request
signed signature = record {
  method = "POST";
  body = some "{}";
  signature = signature;
  event_type = "installation";
}

has_secret : ◌≢◌ {A = String} "s3cret" ""
has_secret h = ground (arith, eq_iff "s3cret" "")

has_signature : ◌≢◌ {A = String} "sha256=other" ""
has_signature h = ground (arith, eq_iff "sha256=other" "")

wrong_signature : ¬ IsSigned outside "s3cret" "sha256=other" "{}"
wrong_signature h = ground (arith, eq_iff "sha256=s3cret" "sha256=other")

serve_http_store_example :
    ((serve_http outside "s3cret" 5 (signed "sha256=s3cret") []).1 ≡ [])
    ⊎ ((body : String) × (event : InstallationEvent) × ◌≡◌ {A = String} "POST" "POST"
        × (some "{}" ≡ some body)
        × (outside.parse body ≡ some event)
        × (◌≡◌ {A = String} "sha256=s3cret" "" ⊎ IsSigned outside "s3cret" "sha256=s3cret" body)
        × (serve_http outside "s3cret" 5 (signed "sha256=s3cret") []
            ≡ (200, dispatch outside 5 "installation" event [])))
serve_http_store_example =
    serve_http_store outside "s3cret" 5 (signed "sha256=s3cret") [] has_secret

unsigned_deletes : serve_http outside "s3cret" 5 (signed "") [] ≡ (200, (7, deleted) ∷ [])
unfolding serve_http
unsigned_deletes = refl
