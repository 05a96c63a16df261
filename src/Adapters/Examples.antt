-- ===== src/Adapters/Examples.antt =====
-- The theorem about internal/adapter at a policy that guards a command.
use foreman.Prelude.{◌≡◌, refl, some, none, [], ◌∷◌, ok, str_eq}
use foreman.Prelude.Text.{fields}
use foreman.Policy.{Policy, ToolUse}
use foreman.Coordinator.{Parsed}
use foreman.Coordinator.Approval.{extract_tool_use, check_policies}
use foreman.Adapters.{
  Host, OpenCodeEvent, parse_event, event_fields, open_code_adapter, build_run_args, has_slash,
}
use foreman.Adapters.Inputs.{NeedsInput, opencode-check_policies}

-- Every line is a call of bash that asked for a deployment and printed "done".
abbrev deployment : OpenCodeEvent
deployment = record {
  type = "tool_use";
  part = some (record { text = ""; tool = "bash"; state = some "done" });
}

abbrev host : Host
host = record {
  look_path = λ binary. ok binary;
  version = λ path args. ok "1.18.0";
  openai_model = "gpt-4o";
  decode_event = λ line. some deployment;
  decode_map = λ line. none;
  encode = λ evt. "{}";
}

abbrev parsed : Parsed
parsed = record {
  type = "tool_use";
  part = some ("bash", ("output", "done") ∷ []);
  whole = "{}";
  text = some "";
}

abbrev call : ToolUse
call = record { tool = "bash"; inputs = ("output", "done") ∷ [] }

abbrev guard : Policy
guard = record {
  config = record {
    name = "deploys";
    match = record { tool = "bash"; inputs = ("command", "make deploy") ∷ [] };
    action = "require_approval";
    timeout = 0;
  };
  tool_glob = str_eq "bash";
  input_regex = ("command", str_eq "make deploy") ∷ [];
}

args_test :
    build_run_args host "npx opencode" "fix it"
    ≡ "npx" ∷ "opencode" ∷ "run" ∷ "--format" ∷ "json" ∷ "--auto" ∷ "--model" ∷ "openai/gpt-4o"
      ∷ "fix it" ∷ []
unfolding build_run_args has_slash fields
args_test = refl

guard-NeedsInput : NeedsInput guard
guard-NeedsInput = record { field = "command"; tested = refl; other = refl }

opencode-check_policies_example : check_policies (guard ∷ []) (call ∷ []) ≡ []
unfolding open_code_adapter parse_event event_fields extract_tool_use
opencode-check_policies_example =
    opencode-check_policies host "opencode" "line" parsed call (guard ∷ []) refl refl
      (guard-NeedsInput, tt)
