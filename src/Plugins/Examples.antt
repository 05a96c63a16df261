-- ===== src/Plugins/Examples.antt =====
-- Tests of the chat plugins, and the theorems about them at concrete inputs.
use foreman.Prelude.{◌≡◌, refl, true, false, some, none, [], ◌∷◌, ◌⊎◌, ok, arith, String}
use foreman.Schemas.{Message}
use foreman.EventBus.Bus.{Bus}
use foreman.ControlPlane.{ControlPlane}
use foreman.Coordinator.Approval.{wait_for_approval, answered}
use foreman.Plugins.Blocks.{Block}
use foreman.Plugins.Blocks
use foreman.Plugins.Discord.Pending.{send_message_overtaken}
use foreman.Plugins.Discord
use foreman.Plugins.Discord.Receiving as DiscordReceiving
use foreman.Plugins.Discord.Sending as DiscordSending
use foreman.Plugins.Discord.Sending.{send_message, send_block_message}
use foreman.Plugins.Discord.Receiving.{handle_slash_command, handle_component}
use foreman.Plugins.Slack
use foreman.Plugins.Slack.Receiving as SlackReceiving
use foreman.Plugins.Command.{read_command}
use foreman.Plugins.Command.Reading.{Prefixed, read_command-Prefixed}
use foreman.Plugins.Pressing.{press, press_agrees, press_subject, one_button, custom_id}
use foreman.Plugins.Buttons.{send_block_message-valueless, block_without_values}

abbrev quiet : Bus
quiet = record { published = []; outcomes = [] }

abbrev discord : Discord.Plugin
discord = record {
  bot_token = "token";
  bus = some quiet;
  connected = true;
  running = true;
  stopped = false;
  crashed = false;
  pending_interactions = [];
  calls = [];
}

abbrev slack : Slack.Plugin
slack = record {
  cfg = record { bot_token = "xoxb"; app_token = "xapp" };
  bus = quiet;
  connected = true;
  running = true;
  stopped = false;
  calls = [];
}

abbrev command : DiscordReceiving.Interaction
command = record {
  interaction = 1;
  channel_id = "C1";
  member = some "U1";
  detail = DiscordReceiving.application_command "foreman" (("task", "fix it") ∷ []);
}

abbrev second : DiscordReceiving.Interaction
second = record command { interaction = 2; member = some "U2" }

abbrev told : Message
told = record { text = "done"; thread = "" }

send_message_overtaken_example :
    (send_message
      (ok tt)
      "C1"
      told
      (send_message (ok tt) "C1" told (
        handle_slash_command 2 true second "foreman" (("task", "fix it") ∷ []) (
          handle_slash_command 1 true command "foreman"
            (("task", "fix it") ∷ [])
            discord))).1).1.calls
    ≡ Discord.defer_response 1
      ∷ Discord.defer_response 2
      ∷ Discord.edit_response 2 "done"
      ∷ Discord.send "C1" (DiscordSending.plain_message "done" none)
      ∷ []
send_message_overtaken_example =
    send_message_overtaken 1 2 "U1" "U2" "C1" (("task", "fix it") ∷ []) (("task", "fix it") ∷ [])
      command second discord (ok tt) (ok tt) told told refl refl refl refl refl refl

abbrev state : ControlPlane
state = record { bus = quiet; store = none; sessions = [] }

press_agrees_example :
    ((handle_component 3 true command (custom_id true "ses_1") "M1" discord).bus
      ≡ some
          (SlackReceiving.handle_interactive 3 "E1"
            (some (one_button "ses_1" "U1" "C1" true))
            slack).bus)
    × ((SlackReceiving.handle_interactive 3 "E1"
          (some (one_button "ses_1" "U1" "C1" true))
          slack).bus.published
        ≡ (press_subject "ses_1" true, press 3 "ses_1" "U1" "C1" true) ∷ [])
    × ((wait_for_approval 4 "ses_1"
          (answered true (press 3 "ses_1" "U1" "C1" true).payload)
          state).0
        ≡ ok tt)
press_agrees_example =
    press_agrees 3 4 "E1" "ses_1" "U1" "M1" true command slack discord state refl refl refl refl

abbrev buttons : Block
buttons = record {
  type = "actions";
  fields = [];
  elements =
      ((
        "button",
        Blocks.map (
            ("action_id", some "approve")
            ∷ ("value", some "ses_1")
            ∷ ("text", some "Approve")
            ∷ []),
      )
        ∷ [])
      ∷ [];
}

send_block_message-valueless_example :
    (send_block_message (ok tt) "C1" (block_without_values buttons ∷ []) discord
      ≡ send_block_message (ok tt) "C1" (buttons ∷ []) discord)
    × ((handle_component 3 true command "approve" "M1" discord).bus ≡ some quiet)
send_block_message-valueless_example =
    send_block_message-valueless (ok tt) "C1" (buttons ∷ []) discord discord 3 true command
      "approve" "M1" (omega arith)

read_command-Prefixed_example :
    Prefixed "exec: ls" (read_command "exec: ls").0 (read_command "exec: ls").1
    ⊎ (((rest agent : String) → ¬ Prefixed "exec: ls" rest agent)
        × (read_command "exec: ls" ≡ ("exec: ls", "")))
read_command-Prefixed_example = read_command-Prefixed "exec: ls"
