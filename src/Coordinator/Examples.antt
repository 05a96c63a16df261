-- ===== src/Coordinator/Examples.antt =====
-- The theorems about internal/coordinator with one adapter, one policy and small worlds.

use mathlib.Core.Option.{get_or}
use mathlib.Core.List.{Memᴰ}
use foreman.Prelude.{
  ℕ, ◌≤◌, ◌≡◌, ◌≢◌, ◌↔◌, refl, true, false, none, some, List, [], ◌∷◌, ok, arith, str_eq,
  if◌then◌else◌,
}
use foreman.Prelude.Dict.{lookup, insert}
use foreman.Schemas.{Status, completed, Payload}
use foreman.Schemas.Subjects.{subject}
use foreman.EventBus.Bus.{Bus}
use foreman.Policy.{Policy, ToolUse}
use foreman.Prelude.Text.{split_on, trim_space}
use foreman.EventBus.Bus
use foreman.Policy
use foreman.Coordinator.Heartbeat
use foreman.Coordinator.Approval
use foreman.Coordinator.Run
use foreman.Coordinator.Run.Finish
use foreman.ControlPlane
use foreman.ControlPlane.{ControlPlane, new_session, Session}
use foreman.ControlPlane.Undone.{status_in, IsUndone}
use foreman.Coordinator.{Coordinator, Config, Adapter, Spawn, active_count}
use foreman.Coordinator.Admission.{Op, submits, finishes, run, run-bound}
use foreman.Coordinator.Approval.{
  MatchResult, Meets, answered, timed_out, check_policies, wait_for_approval, deny_session,
}
use foreman.Coordinator.Approval.Matches.{Asks, check_policies_iff}
use foreman.Coordinator.Heartbeat.{monitor_heartbeat, max_failures}
use foreman.Coordinator.Heartbeat.Crashes.{has_run, monitor_heartbeat-has_run}
use foreman.Coordinator.Run.{run_agent, attempt_of}
use foreman.Coordinator.Run.Finish.{World, Output, SandboxSpec}
use foreman.Coordinator.Run.Approved.{Ran, run_agent_completed}
use foreman.Coordinator.Run.Cleanup.{HasBinaries, run_agent_cleanup}
use foreman.Coordinator.Run.Retries.{Retries, run_agent-Retries}
use foreman.Coordinator.Run.Rounds.{goes_on, chain, chain_ends}

abbrev bus : Bus
bus = record { published = []; outcomes = [] }

abbrev plane : ControlPlane
plane = record { bus = bus; store = none; sessions = [] }

abbrev session : Session
session = record (new_session 1 "ses_1" "1" "fix the bug" "opencode") { status = Status.allocating }

-- An adapter that makes every line a call of the tool bash.
abbrev adapter : Adapter
adapter = record {
  name = "opencode";
  verify = ok tt;
  build_config = λ description session_id. ok ("opencode" ∷ "run" ∷ description ∷ []);
  parse_event = λ line. some (record {
    type = "tool_use";
    part = some ("bash", ("command", line) ∷ []);
    whole = line;
    text = none;
  });
}

abbrev policy : Policy
policy = record {
  config = record {
    name = "shell";
    match = record { tool = "bash"; inputs = [] };
    action = "require_approval";
    timeout = 5;
  };
  tool_glob = λ tool. str_eq tool "bash";
  input_regex = [];
}

abbrev config : Config
config = record {
  adapters = ("opencode", adapter) ∷ [];
  adapter_list = adapter ∷ [];
  agent_configs = [];
  policies = policy ∷ [];
  max_concurrent = 1;
  heartbeat_interval = 10;
  heartbeat_timeout = 30;
  max_retries = 3;
  default_timeout = 100;
  resolve_tools = λ session_id. ok tt;
}

-- One session is active.
abbrev state : Coordinator
state = record {
  cp = record plane { sessions = ("ses_1", session) ∷ [] };
  accepting = true;
  active = ("ses_1", tt) ∷ [];
  attempts = [];
  heartbeats = [];
  sandboxes = "foreman-sbox-0" ∷ [];
  spawned = [];
}

-- Everything succeeds, and a human grants the call.
abbrev good_world : World
good_world = record {
  now = 5;
  token = none;
  provision = λ spec. ok "foreman-sbox-1";
  verify_exec = λ binary. ok (0, "");
  beats = (2, true) ∷ (3, false) ∷ [];
  execute = λ args timeout. ok (record { stdout = "make"; exit_code = 0; stderr = "" });
  meets = λ timeout. answered true (Payload.answer "U1" "");
  destroyed = true;
  backed_off = true;
}

-- The sandbox stops answering.
abbrev dead_world : World
dead_world = record good_world { beats = (2, false) ∷ (3, false) ∷ (4, false) ∷ [] }

no_images : HasBinaries config
unfolding lookup
no_images name ac h other = absurd (ground arith)

-- What a run leaves, where it returns.
abbrev after : World → Coordinator
after w = get_or (run_agent config w "ses_1" "fix the bug" "opencode" state) state

good_run :
    run_agent config good_world "ses_1" "fix the bug" "opencode" state ≡ some (after good_world)
unfolding run_agent lookup
good_run = refl

dead_run :
    run_agent config dead_world "ses_1" "fix the bug" "opencode" state ≡ some (after dead_world)
unfolding run_agent lookup
dead_run = refl

good_end : status_in "ses_1" (after good_world).cp.sessions ≡ some completed
unfolding run_agent lookup insert ControlPlane.audit ControlPlane.transition
    ControlPlane.valid_transitions ControlPlane.event_type ControlPlane.emit Bus.publish
    ControlPlane.save_checkpoint monitor_heartbeat max_failures Heartbeat.monitor_loop
    Finish.handle_output Finish.cleanup_sandbox check_policies Policy.matches Policy.default_timeout
    Approval.extract_tool_use Approval.extract_user_id Approval.matches_of
    Approval.publish_agent_event Approval.response Approval.wait_for_approval
    Approval.publish_approval_request subject split_on trim_space
good_end = refl

dead_end :
    ((after dead_world).spawned
      ≡ record { session_id = "ses_1"; description = "fix the bug"; agent = "opencode" } ∷ [])
    × (attempt_of "ses_1" (after dead_world).attempts ≡ 1)
unfolding run_agent lookup insert ControlPlane.audit ControlPlane.transition
    ControlPlane.valid_transitions ControlPlane.event_type ControlPlane.emit Bus.publish
    ControlPlane.save_checkpoint monitor_heartbeat max_failures Heartbeat.monitor_loop
    Run.handle_crash Finish.cleanup_sandbox attempt_of
dead_end = (refl, refl)

not_completed : IsUndone "ses_1" state.cp.sessions
unfolding lookup
not_completed h = ground arith

run_agent_completed_example : Ran config good_world "ses_1" "fix the bug" "opencode"
run_agent_completed_example =
    run_agent_completed config good_world "ses_1" "fix the bug" "opencode" state (after good_world)
      good_run not_completed good_end

run_agent_cleanup_example :
    (c' : Coordinator) × (run_agent config good_world "ses_1" "fix the bug" "opencode" state
      ≡ some c')
    × (c'.sandboxes ≡ "foreman-sbox-0" ∷ [])
    × (lookup "ses_1" c'.active ≡ none)
run_agent_cleanup_example =
    run_agent_cleanup config good_world "ses_1" "fix the bug" "opencode" state no_images refl

run_agent-Retries_example :
    Retries config "ses_1" "fix the bug" state (after dead_world)
    × (lookup "ses_1" (after dead_world).active ≡ none)
run_agent-Retries_example =
    run_agent-Retries config dead_world "ses_1" "fix the bug" "opencode" state (after dead_world)
      dead_run

abbrev first_spawn : Spawn
first_spawn = record { session_id = "ses_1"; description = "fix the bug"; agent = "opencode" }

-- Whatever is asked of it, the sandbox stops answering in every run.
chain_ends_example : chain 4 config (λ n. dead_world) first_spawn state ≢ goes_on
chain_ends_example =
    chain_ends 4 config (λ n. dead_world) first_spawn state (ground arith) (ground arith)

abbrev ops : List (ℕ × Op)
ops =
    (6, submits "2" "another" "opencode")
    ∷ (7, finishes "ses_1")
    ∷ (8, submits "3" "third" "opencode")
    ∷ []

run-bound_example : active_count (run config ops state) ≤ config.max_concurrent
run-bound_example = run-bound config ops state (ground arith)

abbrev call : ToolUse
call = record { tool = "bash"; inputs = ("command", "make") ∷ [] }

abbrev asked : MatchResult
asked = record { policy = policy; tool_use = call }

check_policies_iff_example :
    Memᴰ asked (check_policies (policy ∷ []) (call ∷ []))
    ↔ (Memᴰ call (call ∷ []) × Memᴰ policy (policy ∷ []) × Asks asked)
check_policies_iff_example = check_policies_iff (policy ∷ []) (call ∷ []) asked

monitor_heartbeat-has_run_example :
    (monitor_heartbeat config "ses_1" dead_world.beats []).0
    ≡ (if has_run (max_failures config) dead_world.beats then some (max_failures config) else none)
monitor_heartbeat-has_run_example =
    monitor_heartbeat-has_run config "ses_1" dead_world.beats [] (ground arith)
