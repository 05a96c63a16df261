-- ===== src/Plugins/Slack/Receiving.antt =====
-- What internal/plugins/slack/plugin.go makes of commands, buttons and messages.
use foreman.Prelude.{
  ℕ, String, Bool, true, ◌||◌, Option, none, some, List, [], ◌∷◌, str_eq, if◌then◌else◌,
}
use foreman.Schemas.{user_message, approval_granted, approval_denied, UserMessage, Payload}
use foreman.Schemas.Subjects.{subject}
use foreman.EventBus.Bus.{publish}
use foreman.Plugins.Command.{read_command}
use foreman.Plugins.Slack.{Plugin, call, post_ephemeral, ack}

-- An error of the bus is logged.
unfoldable pub publish_user_message : ℕ → UserMessage → Plugin → Plugin
publish_user_message now msg p = record p {
  bus =
      (publish (subject ("plugin" ∷ "slack" ∷ "message" ∷ []))
        (record {
          type = user_message;
          session_id = "";
          timestamp = now;
          payload = Payload.message msg;
        })
        p.bus).1;
}

-- The identifier of the envelope, "" where there is no request.
unfoldable pub acknowledge : String → Plugin → Plugin
acknowledge envelope p = if str_eq envelope "" then p else call (ack envelope) p

pub record SlashCommand : Type 0 where
  pub text : String
  pub user_id : String
  pub channel_id : String

abbrev pub command_message : String → String → String × String → UserMessage
command_message user channel (text, agent) = record {
  plugin = "slack";
  user_id = user;
  channel = channel;
  text = text;
  agent = agent;
}

unfoldable pub handle_slash_command : ℕ → String → Option SlashCommand → Plugin → Plugin
unfolding read_command publish_user_message acknowledge
handle_slash_command now envelope none p = p
handle_slash_command now envelope (some cmd) p =
    call (post_ephemeral cmd.channel_id cmd.user_id "Got it! I'll start working on that now...") (
      publish_user_message now (command_message cmd.user_id cmd.channel_id (read_command cmd.text))
        (acknowledge envelope p))

pub record BlockAction : Type 0 where
  pub action_id : String
  pub value : String

pub record Interaction : Type 0 where
  pub block_actions : Bool
  pub actions : List BlockAction
  pub user_id : String
  pub channel_id : String

-- What pressing a button of a session publishes: granted, or denied for the action "deny".
unfoldable pub publish_answer : ℕ → Interaction → BlockAction → Plugin → Plugin
publish_answer now i a p =
    let denies = str_eq a.action_id "deny" in
    record p {
      bus =
          (publish (subject ("approval" ∷ a.value ∷ (if denies then "denied" else "granted") ∷ []))
            (record {
              type = if denies then approval_denied else approval_granted;
              session_id = a.value;
              timestamp = now;
              payload = Payload.pressed i.user_id i.channel_id a.action_id;
            })
            p.bus).1;
    }

-- The loop over the actions. A button without a session ends it.
unfoldable pub handle_actions : ℕ → Interaction → List BlockAction → Plugin → Plugin
unfolding publish_answer
handle_actions now i [] p = p
handle_actions now i (a ∷ more) p =
    if str_eq a.action_id "approve" || str_eq a.action_id "deny"
    then (if str_eq a.value "" then p else handle_actions now i more (publish_answer now i a p))
    else handle_actions now i more p

unfoldable pub handle_interactive : ℕ → String → Option Interaction → Plugin → Plugin
unfolding handle_actions acknowledge
handle_interactive now envelope none p = p
handle_interactive now envelope (some i) p =
    if i.block_actions
    then handle_actions now i i.actions (acknowledge envelope p)
    else acknowledge envelope p

-- The inner events, by their types: user, channel and text, and the type of a message's channel.
pub data InnerEvent : Type 0 where
  app_mention : String → String → String → InnerEvent
  direct : String → String → String → String → InnerEvent
  other_event : InnerEvent

unfoldable pub handle_events_api : ℕ → String → Option InnerEvent → Plugin → Plugin
unfolding read_command publish_user_message acknowledge
handle_events_api now envelope none p = p
handle_events_api now envelope (some (app_mention user channel text)) p =
    publish_user_message now (command_message user channel (text, "")) (acknowledge envelope p)
handle_events_api now envelope (some (direct user channel text channel_type)) p =
    if str_eq channel_type "im"
    then publish_user_message now (command_message user channel (read_command text))
        (acknowledge envelope p)
    else acknowledge envelope p
handle_events_api now envelope (some other_event) p = acknowledge envelope p

-- An event of Socket Mode: `none` is data of another type than the event's type promises.
pub data SocketEvent : Type 0 where
  logged : SocketEvent
  slash_command : String → Option SlashCommand → SocketEvent
  interactive : String → Option Interaction → SocketEvent
  events_api : String → Option InnerEvent → SocketEvent

unfoldable pub handle_event : ℕ → SocketEvent → Plugin → Plugin
unfolding handle_slash_command handle_interactive handle_events_api
handle_event now logged p = p
handle_event now (slash_command envelope cmd) p = handle_slash_command now envelope cmd p
handle_event now (interactive envelope i) p = handle_interactive now envelope i p
handle_event now (events_api envelope inner) p = handle_events_api now envelope inner p

-- The loop over the events that come before the channel or the context is closed, with their times.
unfoldable pub run : List (ℕ × SocketEvent) → Plugin → Plugin
unfolding handle_event
run [] p = record p { stopped = true }
run ((now, evt) ∷ events) p = run events (handle_event now evt p)
