-- ===== src/Api/Examples.antt =====
-- The theorems about the handlers of internal/core/builder.go at a coordinator with no session.
use foreman.Prelude.{◌≡◌, refl, true, some, none, [], ok}
use foreman.Prelude.Dict.{lookup, insert}
use foreman.ControlPlane.{
  ControlPlane, create_session, transition, emit, audit, valid_transitions, event_type,
}
use foreman.EventBus.Bus.{publish}
use foreman.Coordinator.{Config, Coordinator, submit_task, start_task}
use foreman.Api.{answer, info, handle_submit_task, handle_get_session}
use foreman.Api.Submitting.{Reports, handle_submit_task-Reports}
use foreman.Api.Answering.{fresh_info, handle_submit_task-handle_get_session}

abbrev cfg : Config
cfg = record {
  adapters = [];
  adapter_list = [];
  agent_configs = [];
  policies = [];
  max_concurrent = 1;
  heartbeat_interval = 0;
  heartbeat_timeout = 0;
  max_retries = 3;
  default_timeout = 0;
  resolve_tools = λ session_id. ok tt;
}

abbrev cp : ControlPlane
cp = record { sessions = []; store = none; bus = record { published = []; outcomes = [] } }

abbrev idle : Coordinator
idle = record {
  cp = cp;
  accepting = true;
  active = [];
  attempts = [];
  heartbeats = [];
  sandboxes = [];
  spawned = [];
}

submit_test : (handle_submit_task cfg 5 (some ("t1", "fix the bug")) idle).0.code ≡ 202
unfolding handle_submit_task submit_task create_session transition lookup insert emit publish audit
    start_task valid_transitions event_type
submit_test = refl

handle_submit_task-Reports_example :
    Reports
      (some ("t1", "fix the bug"))
      idle
      (handle_submit_task cfg 5 (some ("t1", "fix the bug")) idle)
handle_submit_task-Reports_example =
    handle_submit_task-Reports cfg 5 (some ("t1", "fix the bug")) idle

handle_submit_task-handle_get_session_example :
    handle_get_session "ses_t1" (handle_submit_task cfg 5 (some ("t1", "fix the bug")) idle).1
    ≡ answer 200 (info (fresh_info 5 "t1" "fix the bug"))
handle_submit_task-handle_get_session_example =
    handle_submit_task-handle_get_session cfg 5 "t1" "fix the bug" idle submit_test
