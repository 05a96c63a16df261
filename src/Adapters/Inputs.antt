-- ===== src/Adapters/Inputs.antt =====
-- What is left of a tool call of opencode when the approval gate of internal/coordinator/coordinator.go
-- matches it.
use foreman.Prelude.{
  String, ◌≡◌, refl, ap, subst, ◌∙◌, Bool, true, false, Bool-cases, Option, none, some,
  Option-cases, List, [], ◌∷◌, any, All, str_eq, eq_iff, arith, inl, inr,
}
use foreman.Prelude.Dict.{Dict, lookup}
use foreman.Policy.{Policy, ToolUse, matches, matches_inputs}
use foreman.Coordinator.{Parsed}
use foreman.Coordinator.Approval.{extract_tool_use, matches_of, check_policies}
use foreman.Adapters.{
  Host, OpenCodePart, event_fields, parse_event, open_code_adapter, state_fields, part_fields,
}

-- A policy that looks at a field of the input other than the output.
pub record NeedsInput (p : Policy) : Type 0 where
  pub field : String
  pub tested : any (λ entry. str_eq entry.0 field) p.input_regex ≡ true
  pub other : str_eq "output" field ≡ false

abbrev OnlyOutput : Dict String → Type 0
OnlyOutput inputs = (field : String) → str_eq "output" field ≡ false → lookup field inputs ≡ none

state_fields-OnlyOutput : (state : Option String) → OnlyOutput (state_fields state)
unfolding lookup
state_fields-OnlyOutput none field h = refl
state_fields-OnlyOutput (some output) field h = elim (Bool-cases (str_eq output "")) [
  | inl e ↦ rw e refl
  | inr e ↦ rw e (rw h refl)
]

matches_inputs-missing :
    (regexes : Dict (String → Bool)) (inputs : Dict String) (field : String)
    → any (λ entry. str_eq entry.0 field) regexes ≡ true
    → lookup field inputs ≡ none
    → matches_inputs regexes inputs ≡ false
unfolding matches_inputs
matches_inputs-missing [] inputs field h missing = ground arith
matches_inputs-missing ((other, re) ∷ regexes) inputs field h missing =
    elim (Bool-cases (str_eq other field)) [
      | inl e ↦
          rw (ap (λ f. lookup f inputs) ((eq_iff other field).0 e) ∙ missing, matches_inputs) refl
      | inr e ↦ elim (Option-cases (lookup other inputs)) [
        | inl f ↦ rw (f, matches_inputs) refl
        | inr (val, f) ↦ elim (Bool-cases (re val)) [
          | inl r ↦
              rw (f, r, matches_inputs)
                (matches_inputs-missing regexes inputs field (ground (arith, e, h)) missing)
          | inr r ↦ rw (f, r, matches_inputs) refl
        ]
      ]
    ]

matches_of-NeedsInput :
    (tc : ToolUse) (ps : List Policy)
    → OnlyOutput tc.inputs
    → All NeedsInput ps
    → matches_of tc ps ≡ []
unfolding matches_of matches
matches_of-NeedsInput tc [] only needs = refl
matches_of-NeedsInput tc (p ∷ ps) only (n, needs) = ground (
  arith,
  matches_inputs-missing p.input_regex tc.inputs n.field n.tested (only n.field n.other),
  matches_of-NeedsInput tc ps only needs,
)

-- The part of an event, if it has one, has the fields of a state.
abbrev Limited : Option (String × Dict String) → Type 0
Limited none = Unit
Limited (some (tool, inputs)) = OnlyOutput inputs

part_fields-Limited : (part : Option OpenCodePart) → Limited (part_fields part)
part_fields-Limited none = tt
part_fields-Limited (some part) = state_fields-OnlyOutput part.state

abbrev Then : Option Parsed → Type 0
Then none = Unit
Then (some parsed) = Limited parsed.part

parse_event-Limited : (h : Host) (line : String) → Then (parse_event h line)
unfolding parse_event event_fields
parse_event-Limited h line = elim (Bool-cases (str_eq line "")) [
  | inl e ↦ rw (e, parse_event) tt
  | inr e ↦ elim (Option-cases (h.decode_event line)) [
    | inl d ↦ rw (e, d, parse_event) tt
    | inr (evt, d) ↦ elim (Bool-cases (str_eq evt.type "")) [
      | inl t ↦ rw (e, d, t, parse_event) tt
      | inr t ↦ rw (e, d, t, parse_event) (part_fields-Limited evt.part)
    ]
  ]
]

extract_tool_use-part :
    (parsed : Parsed) (tc : ToolUse) (part : Option (String × Dict String))
    → parsed.part ≡ part
    → extract_tool_use parsed ≡ some tc
    → Limited part
    → OnlyOutput tc.inputs
unfolding extract_tool_use
extract_tool_use-part parsed tc none e b l = ground (arith, e, b)
extract_tool_use-part parsed tc (some (tool, inputs)) e b l =
    subst OnlyOutput (ground (arith, e, b)) l

-- A tool call that the coordinator makes of a line of opencode asks for no approval where each
-- policy tests some field of the input other than output, whatever the line held, since the adapter
-- keeps only the output of a call's state.
pub opencode-check_policies :
    (h : Host) (cmd line : String) (parsed : Parsed) (tc : ToolUse) (policies : List Policy)
    → (open_code_adapter h cmd).parse_event line ≡ some parsed
    → extract_tool_use parsed ≡ some tc
    → All NeedsInput policies
    → check_policies policies (tc ∷ []) ≡ []
unfolding check_policies open_code_adapter
opencode-check_policies h cmd line parsed tc policies a b needs = ground (
  arith,
  matches_of-NeedsInput tc policies
      (extract_tool_use-part parsed tc parsed.part refl b
        (subst Then a (parse_event-Limited h line)))
      needs,
)
