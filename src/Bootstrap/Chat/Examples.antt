-- ===== src/Bootstrap/Chat/Examples.antt =====
-- The theorems about chat users' tasks at a session that ends.
use foreman.Prelude.{
  concat, err, Result, inr, ap, sym, ◌≡◌, refl, true, false, some, none, Option, [], ◌∷◌, ◌++◌, inl,
  ok, List, String,
}
use foreman.Schemas.{Event, completed, running, session_completed, Payload}
use foreman.ControlPlane.{ControlPlane, Session, transition, session_event_subject}
use foreman.ControlPlane.Steps.{complete}
use foreman.Coordinator.{Parsed}
use foreman.Coordinator.Run.Finish.{read_lines}
use foreman.Coordinator.{Config, Coordinator}
use foreman.EventBus.Nats.{Json, nak, batch, consume}
use foreman.Schemas.Subjects.{subject}
use foreman.Plugins.Slack
use foreman.Plugins.Slack.Receiving.{SlashCommand, handle_slash_command, command_message}
use foreman.Plugins.Command.{read_command}
use foreman.Bootstrap.Chat.FromSlack.{Outcome, slash_command_starts}
use foreman.Bootstrap.Chat.OverNats.{DecodesUntyped, user_handler, consume-refuses}
use foreman.Adapters.{Host}
use foreman.Bootstrap.Chat.{
  on_user_message, Waiter, answer, ends, reply, receive_all, text_or_default,
}
use foreman.Bootstrap.Chat.Answered.{transition-answer, match_subject_refl}
use foreman.Bootstrap.Chat.Said.{read_lines-answer, said}
use foreman.Prelude.Text.{trim_space}
use foreman.Prelude.Dict.{lookup}

abbrev session : Session
session = record {
  id = "ses_slack_1";
  status = running;
  task_id = "slack_1";
  description = "fix";
  agent = "";
  checkpoint_ref = 0;
  created_at = 1;
  updated_at = 2;
}

abbrev state : ControlPlane
state = record {
  bus = record { published = []; outcomes = [] };
  store = none;
  sessions = ("ses_slack_1", session) ∷ [];
}

abbrev waiting : Waiter
waiting = record {
  session_id = "ses_slack_1";
  plugin = "slack";
  channel = "C1";
  output = "";
  done = false;
}

abbrev ended : Event
ended = record {
  type = session_completed;
  session_id = "ses_slack_1";
  timestamp = 5;
  payload =
      Payload.session
        (record { session_id = "ses_slack_1"; task_id = "slack_1"; status = completed });
}

abbrev end_subject : String
end_subject = session_event_subject "ses_slack_1" session_completed

transition-answer_example :
    (e : String × Event) × ((transition 5 "ses_slack_1" completed state).1.bus.published ≡ e ∷ [])
    × (answer (e ∷ []) waiting ≡ some (reply waiting))
unfolding receive_all lookup
transition-answer_example =
    transition-answer 5 "ses_slack_1" completed state session [] waiting refl complete (inl refl)
      refl refl

abbrev host : Host
host = record {
  look_path = λ binary. ok "/usr/bin/opencode";
  version = λ path args. ok "1.0";
  openai_model = "";
  decode_event = λ line. none;
  decode_map = λ line. none;
  encode = λ evt. "{}";
}

completed_ends : ends "ses_slack_1" end_subject ≡ true
completed_ends = rw (match_subject_refl end_subject) refl

abbrev speak : String → Option Parsed
speak line = some (record { type = "text"; part = none; whole = line; text = some line })

read_lines-answer_example :
    (events : List (String × Event)) × ((read_lines 4 "ses_slack_1" speak
        ("hello" ∷ "" ∷ [])
        state).1.bus.published
      ≡ events)
    × (answer (events ++ (end_subject, ended) ∷ []) waiting
        ≡ some (record {
          text = text_or_default (trim_space (said speak ("hello" ∷ "" ∷ []) ""));
          thread = "";
        }))
read_lines-answer_example =
    read_lines-answer 4 speak ("hello" ∷ "" ∷ []) state waiting end_subject ended
      (record { session_id = "ses_slack_1"; task_id = "slack_1"; status = completed }) refl refl
      completed_ends refl

abbrev payload_or : Payload → Result Event → Payload
payload_or p (ok e) = e.payload
payload_or p (err x) = p

abbrev untyped : Json
untyped = record {
  encode = λ evt. ok "m";
  decode = λ text. ok (record ended { payload = Payload.plain text });
}

abbrev law : DecodesUntyped untyped
law = record {
  untyped = λ text e h. inr (inl (text, ap (payload_or (Payload.plain text)) (sym h)));
}

abbrev config : Config
config = record {
  adapters = [];
  adapter_list = [];
  agent_configs = [];
  policies = [];
  max_concurrent = 1;
  heartbeat_interval = 0;
  heartbeat_timeout = 30;
  max_retries = 3;
  default_timeout = 0;
  resolve_tools = λ id. ok tt;
}

abbrev idle : List Waiter × Coordinator
idle = (
  [],
  record {
    cp = state;
    accepting = true;
    active = [];
    attempts = [];
    heartbeats = [];
    sandboxes = [];
    spawned = [];
  },
)

consume-refuses_example :
    consume untyped (user_handler config 4 "17" ("slack" ∷ [])) (batch false ("hi" ∷ []) ∷ []) idle
    ≡ (nak ∷ [], idle)
consume-refuses_example =
    consume-refuses untyped law config 4 "17" ("slack" ∷ []) (batch false ("hi" ∷ []) ∷ []) idle

abbrev slack : Slack.Plugin
slack = record {
  cfg = record { bot_token = "xoxb"; app_token = "xapp" };
  bus = record { published = []; outcomes = [] };
  connected = true;
  running = true;
  stopped = false;
  calls = [];
}

abbrev fix : SlashCommand
fix = record { text = "exec: make test"; user_id = "U1"; channel_id = "C1" }

slash_command_starts_example :
    (e : Event) × ((handle_slash_command 1 "E1" (some fix) slack).bus.published
      ≡ (subject ("plugin" ∷ "slack" ∷ "message" ∷ []), e) ∷ [])
    × (out : Option Waiter × Coordinator) × (on_user_message config 2 "17"
          ("slack" ∷ [])
          e.payload
          idle.1
        ≡ ok out)
    × Outcome
        (command_message "U1" "C1" (read_command "exec: make test"))
        (concat "slack" (concat "_" "17"))
        idle.1
        out
slash_command_starts_example =
    slash_command_starts 1 2 "E1" "17" ("slack" ∷ []) fix slack config idle.1 refl refl
