-- ===== src/Coordinator/Approval.antt =====
-- The approval gate of internal/coordinator/coordinator.go: the tool calls that need a human, the
-- request for one, and the answers.
pub mod Matches
pub mod Answers
use foreman.Prelude.{
  ℕ, String, Bool, true, false, Option, none, some, List, [], ◌∷◌, ◌++◌, map, Result, ok, err,
  Error, cancelled, denied, message, wrap, length, str_eq, leb, if◌then◌else◌,
}
use foreman.Prelude.Dict.{lookup}
use foreman.Schemas.{
  EventType, approval_request, approval_granted, approval_denied, agent_output, Payload,
}
use foreman.Schemas
use foreman.Schemas.Subjects.{subject}
use foreman.EventBus.Bus.{Bus, publish}
use foreman.StateStore.{text, texts}
use foreman.Policy.{Policy, ToolUse, matches}
use foreman.ControlPlane.{ControlPlane, audit}
use foreman.Coordinator.{Parsed}

-- `ApprovalResponse`.
pub record ApprovalResponse : Type 0 where
  pub approved : Bool
  pub user_id : String
  pub reason : String

-- `policy.MatchResult`.
pub record MatchResult : Type 0 where
  pub policy : Policy
  pub tool_use : ToolUse

-- No adapter's events have a method `ToolUse`, so that the JSON is always read.
unfoldable pub extract_tool_use : Parsed → Option ToolUse
extract_tool_use parsed =
    if str_eq parsed.type "tool_use"
    then (elim parsed.part [
      | none ↦ none
      | some (tool, state) ↦
          if str_eq tool "" then none else some (record { tool = tool; inputs = state })
    ])
    else none

-- The inner loop of `checkPolicies`.
unfoldable pub matches_of : ToolUse → List Policy → List MatchResult
matches_of tc [] = []
matches_of tc (p ∷ policies) =
    let rest = matches_of tc policies in
    if str_eq p.action "require_approval"
    then (if matches p tc.tool tc.inputs then record { policy = p; tool_use = tc } ∷ rest else rest)
    else rest

unfoldable pub check_policies : List Policy → List ToolUse → List MatchResult
unfolding matches_of
check_policies policies [] = []
check_policies policies (tc ∷ tool_calls) =
    matches_of tc policies ++ check_policies policies tool_calls

-- An error of the bus is logged.
abbrev pub publish_on : ℕ → String → EventType → List String → Payload → ControlPlane → ControlPlane
publish_on now session_id type parts payload cp = record cp {
  bus =
      (publish (subject parts)
        (record { type = type; session_id = session_id; timestamp = now; payload = payload })
        cp.bus).1;
}

unfoldable pub publish_agent_event : ℕ → String → Parsed → ControlPlane → ControlPlane
publish_agent_event now session_id parsed cp =
    publish_on now session_id agent_output ("agent" ∷ session_id ∷ "output" ∷ [])
      (Payload.output parsed.whole parsed.text) cp

-- The matches are the first, `m`, and the others.
unfoldable pub publish_approval_request :
    ℕ → String → MatchResult → List MatchResult → ControlPlane → ControlPlane
publish_approval_request now session_id m others cp =
    let tool_names = m.tool_use.tool ∷ map (λ n. n.tool_use.tool) others in
    publish_on now session_id approval_request ("approval" ∷ session_id ∷ "request" ∷ [])
      (Payload.request tool_names m.policy.name)
      (audit now session_id "coordinator.approval_requested"
        (("tools", texts tool_names) ∷ ("policy_name", text m.policy.name) ∷ []) cp)

unfoldable pub extract_user_id : Payload → String
extract_user_id (Payload.answer user_id reason) = user_id
extract_user_id (Payload.pressed user_id channel_id action) = user_id
extract_user_id (Payload.fields m) = elim (lookup "user_id" m) [
  | none ↦ "unknown"
  | some field ↦ elim field [ none ↦ "unknown" | some user_id ↦ user_id ]
]
extract_user_id (Payload.plain user_id) = user_id
extract_user_id _ = "unknown"

-- The handler of the granted events (`true`), and of the denied ones: what it sends to `respCh`.
unfoldable pub response : Bool → Payload → ApprovalResponse
unfolding extract_user_id
response approved payload = record {
  approved = approved;
  user_id = extract_user_id payload;
  reason = "";
}

-- What the gate meets first: a subscription that fails, an answer, the timeout, or the context's end.
pub data Meets : Type 0 where
  no_subscription : String → Error → Meets
  answered : Bool → Payload → Meets
  timed_out : Meets
  context_done : Meets

received : ℕ → String → ApprovalResponse → ControlPlane → Result (Unit {0}) × ControlPlane
received now session_id resp cp =
    if resp.approved
    then (
      ok tt,
      audit now session_id "coordinator.approval_granted" (("user_id", text resp.user_id) ∷ []) cp,
    )
    else (
      err (denied resp.user_id resp.reason),
      audit now session_id "coordinator.approval_denied"
          (("user_id", text resp.user_id) ∷ ("reason", text resp.reason) ∷ []) cp,
    )

unfoldable pub wait_for_approval :
    ℕ → String → Meets → ControlPlane → Result (Unit {0}) × ControlPlane
unfolding received response
wait_for_approval now session_id (no_subscription name e) cp = (err (wrap name e), cp)
wait_for_approval now session_id (answered granted payload) cp =
    received now session_id (response granted payload) cp
wait_for_approval now session_id timed_out cp = (
  err (message "approval timed out"),
  audit now session_id "coordinator.approval_timed_out" [] cp,
)
wait_for_approval now session_id context_done cp = (err cancelled, cp)

-- The events of `ApproveSession` and `DenySession`.
abbrev answer_event : ℕ → String → EventType → String → String → Schemas.Event
answer_event now session_id type user_id reason = record {
  type = type;
  session_id = session_id;
  timestamp = now;
  payload = Payload.answer user_id reason;
}

unfoldable pub approve_session : ℕ → String → String → Bus → Result (Unit {0}) × Bus
approve_session now session_id user_id bus =
    publish (subject ("approval" ∷ session_id ∷ "granted" ∷ []))
      (answer_event now session_id approval_granted user_id "") bus

unfoldable pub deny_session : ℕ → String → String → String → Bus → Result (Unit {0}) × Bus
deny_session now session_id user_id reason bus =
    publish (subject ("approval" ∷ session_id ∷ "denied" ∷ []))
      (answer_event now session_id approval_denied user_id reason) bus
