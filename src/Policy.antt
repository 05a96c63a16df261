-- ===== src/Policy.antt =====
-- internal/policy/policy.go: the rules that ask for a human's approval. The matcher of
-- `filepath.Match` and the compiler of `regexp` are parameters. Input values stand as the texts
-- that `fmt.Sprint` makes of them, a timeout as a number (a negative one counts as zero in the code).
mod Examples
pub mod Matching
pub mod Compiling
use foreman.Prelude.{
  ℕ, String, Bool, true, false, ◌||◌, Option, none, some, List, [], ◌∷◌, Result, ok, err, message,
  concat, str_eq, ltb, ◌*◌, if◌then◌else◌, ◌>>=◌,
}
use foreman.Prelude.Dict.{Dict, lookup}

pub record MatchDef : Type 0 where
  pub tool : String
  pub inputs : Dict String

pub record Config : Type 0 where
  pub name : String
  pub match : MatchDef
  pub action : String
  pub timeout : ℕ

pub record Policy : Type 0 where
  pub config : Config
  pub open config use *
  pub tool_glob : String → Bool
  pub input_regex : Dict (String → Bool)

pub record ToolUse : Type 0 where
  pub tool : String
  pub inputs : Dict String

module _ (glob : String → String → Bool) (compile_regex : String → Option (String → Bool)) where
  abbrev pub compile_glob : String → String → Bool
  compile_glob pattern =
      if str_eq pattern "" || str_eq pattern "*" then (λ tool. true) else glob pattern

  unfoldable pub compile_inputs : String → Dict String → Result (Dict (String → Bool))
  compile_inputs name [] = ok []
  compile_inputs name ((field, pattern) ∷ inputs) = elim (compile_regex pattern) [
    | none ↦ err (message (concat "policy regex of " name))
    | some re ↦ (do rest ← compile_inputs name inputs; ok ((field, re) ∷ rest))
  ]

  unfoldable pub compile_config : Config → Result Policy
  unfolding compile_inputs
  compile_config c = do
    regexes ← compile_inputs c.name c.match.inputs
    ok (record { config = c; tool_glob = compile_glob c.match.tool; input_regex = regexes })

  unfoldable pub compile_configs : List Config → Result (List Policy)
  unfolding compile_config
  compile_configs [] = ok []
  compile_configs (c ∷ cs) = do p ← compile_config c; ps ← compile_configs cs; ok (p ∷ ps)

-- Nanoseconds.
abbrev pub second : ℕ
second = 1_000_000_000

unfoldable pub default_timeout : Policy → ℕ
default_timeout p = if ltb 0 p.timeout then p.timeout else 5 * 60 * second

-- The loop of `Matches` over the input fields.
unfoldable pub matches_inputs : Dict (String → Bool) → Dict String → Bool
matches_inputs [] inputs = true
matches_inputs ((field, re) ∷ regexes) inputs = elim (lookup field inputs) [
  | none ↦ false
  | some val ↦ if re val then matches_inputs regexes inputs else false
]

unfoldable pub matches : Policy → String → Dict String → Bool
unfolding matches_inputs
matches p tool inputs = if p.tool_glob tool then matches_inputs p.input_regex inputs else false
