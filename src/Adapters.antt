-- ===== src/Adapters.antt =====
-- internal/adapter: the two adapters, as the coordinator's interface to them. The binaries of the host
-- and the decoders of JSON are parameters.
pub mod Inputs
mod Examples
use Prim.Native.Char.{code}
use foreman.Prelude.{
  ℕ, String, Bool, true, false, ◌||◌, Option, none, some, List, [], ◌∷◌, ◌++◌, Result, ok, err,
  Error, message, wrap, concat, str_eq, within, ◌==◌, if◌then◌else◌, ◌>>=◌,
}
use foreman.Prelude.Text.{fields}
use foreman.Prelude.Dict.{Dict}
use foreman.Coordinator.{Adapter, Parsed}

-- `OpenCodePart`, with the output of its state.
pub record OpenCodePart : Type 0 where
  pub text : String
  pub tool : String
  pub state : Option String

pub record OpenCodeEvent : Type 0 where
  pub type : String
  pub part : Option OpenCodePart

-- What the adapters ask of the host: a path for a binary, its version, and the variable OPENAI_MODEL.
-- `decode_event` and `decode_map` are the two decodings of a line, `encode` the JSON of an event.
pub record Host : Type 0 where
  pub look_path : String → Result String
  pub version : String → List String → Result String
  pub openai_model : String
  pub decode_event : String → Option OpenCodeEvent
  pub decode_map : String → Option Parsed
  pub encode : OpenCodeEvent → String

-- An empty output is left out of the JSON, as is a state that is nil.
abbrev state_fields : Option String → Dict String
state_fields none = []
state_fields (some output) = if str_eq output "" then [] else ("output", output) ∷ []

abbrev part_fields : Option OpenCodePart → Option (String × Dict String)
part_fields none = none
part_fields (some part) = some (part.tool, state_fields part.state)

abbrev part_text : Option OpenCodePart → Option String
part_text none = none
part_text (some part) = some part.text

abbrev text_event : String → Parsed
text_event line = record { type = "text"; part = none; whole = line; text = none }

-- `strings.Contains(model, "/")`
unfoldable pub has_slash : String → Bool
has_slash String.[] = false
has_slash (String.◌∷◌ c s) = code c == 47 || has_slash s

abbrev with_provider : String → String
with_provider model = if has_slash model then model else concat "openai/" model

abbrev model_args : String → List String
model_args model = if str_eq model "" then [] else "--model" ∷ with_provider model ∷ []

module _ (h : Host) where
  unfoldable pub event_fields : OpenCodeEvent → Parsed
  event_fields evt = record {
    type = evt.type;
    part = part_fields evt.part;
    whole = h.encode evt;
    text = part_text evt.part;
  }

  unfoldable pub parse_event : String → Option Parsed
  unfolding event_fields
  parse_event line = if str_eq line "" then none else elim (h.decode_event line) [
    | none ↦ some (text_event line)
    | some evt ↦ if str_eq evt.type "" then some (text_event line) else some (event_fields evt)
  ]

  unfoldable pub build_run_args : String → String → List String
  unfolding has_slash
  build_run_args cmd task =
      fields cmd
      ++ ("run" ∷ "--format" ∷ "json" ∷ "--auto" ∷ [])
      ++ model_args h.openai_model
      ++ task ∷ []

  abbrev checked_version : Result String → Result (Unit {0})
  checked_version (err e) = err (wrap "opencode version check failed" e)
  checked_version (ok ver) =
      if str_eq ver "" then err (message "opencode --version returned empty output") else ok tt

  unfoldable pub verify : String → Result (Unit {0})
  verify cmd = elim (fields cmd) [
    | [] ↦ err (message "empty command for opencode adapter")
    | binary ∷ args ↦ elim (h.look_path binary) [
      | err e ↦ err (wrap (concat "opencode binary not found in PATH: " cmd) e)
      | ok path ↦ checked_version (h.version path (args ++ "--version" ∷ []))
    ]
  ]

  unfoldable pub open_code_adapter : String → Adapter
  unfolding parse_event build_run_args verify
  open_code_adapter cmd = record {
    name = "opencode";
    verify = verify cmd;
    build_config = λ description session_id. ok (build_run_args cmd description);
    parse_event = parse_event;
  }

  abbrev starts_object : String → Bool
  starts_object String.[] = false
  starts_object (String.◌∷◌ c s) = code c == 123

  -- A map is no event of opencode.
  abbrev tool_use_or_text : String → Option Parsed → Parsed
  tool_use_or_text line none = text_event line
  tool_use_or_text line (some parsed) =
      if str_eq parsed.type "tool_use" then record parsed { text = none } else text_event line

  unfoldable pub parse_exec_event : String → Option Parsed
  parse_exec_event line =
      if str_eq line ""
      then none
      else if starts_object line
      then some (tool_use_or_text line (h.decode_map line))
      else some (text_event line)

  abbrev shell : String → String
  shell cmd = if str_eq cmd "" then "sh" else cmd

  unfoldable pub exec_config : String → String → Result (List String)
  exec_config cmd description =
      if str_eq description ""
      then err (message "exec adapter: task description is required")
      else ok (shell cmd ∷ "-c" ∷ description ∷ [])

  unfoldable pub exec_adapter : String → Adapter
  unfolding parse_exec_event exec_config
  exec_adapter cmd = record {
    name = "exec";
    verify = ok tt;
    build_config = λ description session_id. exec_config cmd description;
    parse_event = parse_exec_event;
  }
