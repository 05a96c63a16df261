-- ===== src/Bootstrap/Chat/FromSlack.antt =====
-- A slash command of internal/plugins/slack/plugin.go on its way through the subscription of
-- internal/core/builder.go into the coordinator.
use foreman.Prelude.{
  ℕ, String, ◌≡◌, refl, true, Option, none, some, List, [], ◌∷◌, ◌++◌, any, Result, ok, err, str_eq,
  concat, arith,
}
use foreman.Schemas.{Event, UserMessage, user_message, Payload}
use foreman.Schemas.Subjects.{subject}
use foreman.EventBus.Bus.{publish}
use foreman.Coordinator.{Config, Coordinator, submit_task, session_of_task}
use foreman.Coordinator.Starting.{IsStarted, IsUnchanged, Starts, submit_task-Starts}
use foreman.Bootstrap.Chat.{Waiter, waiter, after_submission, on_user_message}
use foreman.Plugins.Command.{read_command}
use foreman.Plugins.Slack.{Plugin}
use foreman.Plugins.Slack.Receiving.{
  SlashCommand, command_message, publish_user_message, handle_slash_command, acknowledge,
}

-- A goroutine waits for the session of a task that has been started, or none waits and nothing has been.
abbrev pub Outcome : UserMessage → String → Coordinator → Option Waiter × Coordinator → Type 0
Outcome msg task_id c (none, c') = IsUnchanged c c'
Outcome msg task_id c (some w, c') =
    (w ≡ waiter msg (session_of_task task_id)) × IsStarted task_id msg.text msg.agent c c'

after_submission-Outcome :
    (plugs : List String) (msg : UserMessage) (task_id : String) (c : Coordinator)
    (reply : Result (Unit {0}) × Coordinator)
    → any (str_eq msg.plugin) plugs ≡ true
    → Starts task_id msg.text msg.agent c reply
    → Outcome msg task_id c (after_submission plugs msg task_id reply)
after_submission-Outcome plugs msg task_id c (err e, c') here started = started
after_submission-Outcome plugs msg task_id c (ok _, c') here started = rw here (refl, started)

-- The event of a message.
abbrev pub message_event : ℕ → UserMessage → Event
message_event now msg = record {
  type = user_message;
  session_id = "";
  timestamp = now;
  payload = Payload.message msg;
}

handle_slash_command-publishes :
    (now : ℕ) (envelope : String) (cmd : SlashCommand) (p : Plugin)
    → p.bus.outcomes ≡ []
    → (handle_slash_command now envelope (some cmd) p).bus.published
      ≡ p.bus.published
        ++ (
          subject ("plugin" ∷ "slack" ∷ "message" ∷ []),
          message_event now (command_message cmd.user_id cmd.channel_id (read_command cmd.text)),
        )
          ∷ []
unfolding handle_slash_command publish_user_message acknowledge publish
handle_slash_command-publishes now envelope cmd p up = ground arith

-- Where the bus of the plugin takes what is published and a plugin of the name slack is there, a
-- slash command publishes one event, and the subscription that gets it either starts one goroutine,
-- whose session is that of the plugin and the stamp and active, and whose text and agent are those
-- read of the command, with another that waits for that session to answer in the channel of the
-- command, or starts no goroutine, makes no session active and nobody waits.
pub slash_command_starts :
    (now later : ℕ) (envelope stamp : String) (plugs : List String) (cmd : SlashCommand)
    (p : Plugin) (cfg : Config) (c : Coordinator)
    → p.bus.outcomes ≡ []
    → any (str_eq "slack") plugs ≡ true
    → (e : Event) × ((handle_slash_command now envelope (some cmd) p).bus.published
        ≡ p.bus.published ++ (subject ("plugin" ∷ "slack" ∷ "message" ∷ []), e) ∷ [])
      × (out : Option Waiter × Coordinator) × (on_user_message cfg later stamp plugs e.payload c
          ≡ ok out)
      × Outcome
          (command_message cmd.user_id cmd.channel_id (read_command cmd.text))
          (concat "slack" (concat "_" stamp))
          c
          out
unfolding on_user_message
slash_command_starts now later envelope stamp plugs cmd p cfg c up here =
    let msg = command_message cmd.user_id cmd.channel_id (read_command cmd.text) in
    let task_id : String = concat "slack" (concat "_" stamp) in
    let reply = submit_task cfg later task_id msg.text msg.agent c in
    (
      message_event now msg,
      handle_slash_command-publishes now envelope cmd p up,
      after_submission plugs msg task_id reply,
      refl,
      after_submission-Outcome plugs msg task_id c reply here
          (submit_task-Starts cfg later task_id msg.text msg.agent c),
    )
