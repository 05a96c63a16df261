-- ===== src/Policy/Examples.antt =====
-- The theorems about internal/policy with a matcher and a compiler that compare texts.
use foreman.Prelude.{String, ◌≡◌, refl, Bool, Option, some, [], ◌∷◌, ok, str_eq}
use foreman.Policy.{Policy, Config, compile_configs}

abbrev same_text : String → String → Bool
same_text pattern text = str_eq pattern text

abbrev compile_text : String → Option (String → Bool)
compile_text pattern = some (same_text pattern)

abbrev deploys : Config
deploys = record {
  name = "deploys";
  match = record { tool = "bash"; inputs = ("command", "make deploy") ∷ [] };
  action = "require_approval";
  timeout = 0;
}

abbrev deploy_policy : Policy
deploy_policy = record {
  config = deploys;
  tool_glob = same_text "bash";
  input_regex = ("command", same_text "make deploy") ∷ [];
}

compiles : compile_configs same_text compile_text (deploys ∷ []) ≡ ok (deploy_policy ∷ [])
unfolding compile_configs
compiles = refl
