-- ===== src/GithubApp/Client/Examples.antt =====
-- The theorems about internal/identity/githubapp/client.go with a server that counts its requests.
use foreman.Prelude.{ℕ, ◌+◌, String, ◌≡◌, refl, ◌*◌, some, none, [], ◌∷◌, ok}
use foreman.Policy.{second}
use foreman.GithubApp.Client.{
  Client, Github, TokenCacheEntry, get_installation_token, generate_app_jwt, load_private_key,
  cached, find_token, keep_token,
}
use foreman.GithubApp.Client.Cache.{Comes, get_installation_token-Comes}

abbrev entry : TokenCacheEntry
entry = record { token = "ghs_1"; expires_at = 3600 * second }

-- The state of the server is the number of requests so far.
abbrev github : Github String ℕ
github = record {
  app_id_text = "7";
  read_key = ok "PEM";
  formats = record {
    pem = λ raw. some raw;
    pkcs1 = λ block. some block;
    pkcs8 = λ block. none;
    base64 = λ raw. ok raw;
  };
  sign = λ claims key. ok "jwt";
  post = λ jwt id n. (ok (201, "ghs_1"), n + 1);
  get = λ jwt n. (ok (200, ""), n + 1);
  parse_token = λ body. ok (record { token = body; expires_at = 3600 * second });
  parse_list = λ body. ok [];
}

abbrev fresh : Client String
fresh = record { private_key = none; token_cache = [] }

abbrev filled : Client String
filled = record { private_key = some "PEM"; token_cache = (12, entry) ∷ [] }

fetch_test : get_installation_token github 0 12 (fresh, 0) ≡ (ok entry, (filled, 1))
unfolding get_installation_token generate_app_jwt load_private_key cached find_token keep_token
fetch_test = refl

get_installation_token-Comes_example :
    Comes github 0 12 (fresh, 0) (get_installation_token github 0 12 (fresh, 0))
get_installation_token-Comes_example = get_installation_token-Comes github 0 12 fresh 0
