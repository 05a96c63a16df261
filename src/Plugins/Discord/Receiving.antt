-- ===== src/Plugins/Discord/Receiving.antt =====
-- What internal/plugins/discord/plugin.go makes of commands, buttons and direct messages.
use foreman.Prelude.{
  ℕ, String, Bool, true, ◌||◌, Option, none, some, List, [], ◌∷◌, str_eq, if◌then◌else◌,
}
use foreman.Prelude.Dict.{insert}
use foreman.Schemas.{Event, user_message, approval_granted, approval_denied, UserMessage, Payload}
use foreman.Schemas.Subjects.{subject}
use foreman.EventBus.Bus.{Bus, publish}
use foreman.Plugins.Command.{read_command, cut_at}
use foreman.Plugins.Discord.{Plugin, call, edit_message, defer_response, defer_update}

-- On a bus that is set. An error is logged.
abbrev pub publish_to : List String → Event → Option Bus → Option Bus
publish_to parts evt none = none
publish_to parts evt (some bus) = some (publish (subject parts) evt bus).1

unfoldable pub publish_user_message : ℕ → UserMessage → Plugin → Plugin
publish_user_message now msg p = record p {
  bus =
      publish_to ("plugin" ∷ "discord" ∷ "message" ∷ [])
        (record {
          type = user_message;
          session_id = "";
          timestamp = now;
          payload = Payload.message msg;
        })
        p.bus;
}

-- What the library delivers for an interaction: the name and the options of a command, or the custom
-- identifier of a component with the identifier of its message. `member` is the user of a member of a
-- guild, `none` in a direct message.
pub data InteractionData : Type 0 where
  application_command : String → List (String × String) → InteractionData
  message_component : String → String → InteractionData
  other_interaction : InteractionData

pub record Interaction : Type 0 where
  pub interaction : ℕ
  pub channel_id : String
  pub member : Option String
  pub detail : InteractionData

-- The loop over the options: the last option of a name counts.
unfoldable pub read_options : List (String × String) → String × String → String × String
read_options [] found = found
read_options ((name, value) ∷ options) (task, agent) =
    read_options options
      (if str_eq name "task" then value else task, if str_eq name "agent" then value else agent)

abbrev pub discord_message : String → String → String × String → UserMessage
discord_message user channel (text, agent) = record {
  plugin = "discord";
  user_id = user;
  channel = channel;
  text = text;
  agent = agent;
}

-- What needs the member: without one, the nil pointer is read.
abbrev pub with_member : Option String → (String → Plugin → Plugin) → Plugin → Plugin
with_member none f p = record p { crashed = true }
with_member (some user) f p = f user p

abbrev pub remember : Interaction → Plugin → Plugin
remember i p = record p {
  pending_interactions = insert i.channel_id i.interaction p.pending_interactions;
}

-- `deferred` is the outcome of deferring the response.
unfoldable pub handle_slash_command :
    ℕ → Bool → Interaction → String → List (String × String) → Plugin → Plugin
unfolding read_options publish_user_message
handle_slash_command now deferred i name options p =
    if str_eq name "foreman"
    then (if deferred
        then with_member i.member
            (λ user.
              publish_user_message now
                (discord_message user i.channel_id (read_options options ("", ""))))
            (remember i (call (defer_response i.interaction) p))
        else call (defer_response i.interaction) p)
    else p

-- The action and the session of a custom identifier that was cut at its first colon.
abbrev pub action_of_cut : Option (String × String) → String × String
action_of_cut none = ("", "")
action_of_cut (some (action, session_id)) =
    if str_eq action "" then ("", "") else (action, session_id)

unfoldable pub action_and_session : String → String × String
unfolding cut_at
action_and_session custom_id = action_of_cut (cut_at 58 custom_id)

abbrev pub decision_text : Bool → String
decision_text denies = if denies then "Denied :no_entry_sign:" else "Approved :white_check_mark:"

-- The bus of a plugin that handles components has been set by Start.
unfoldable pub publish_answer :
    ℕ → Interaction → String → String × String → String → Plugin → Plugin
publish_answer now i message_id (action, session_id) user p =
    let denies = str_eq action "deny" in
    call (edit_message i.channel_id message_id (decision_text denies)) (record p {
      bus =
          publish_to ("approval" ∷ session_id ∷ (if denies then "denied" else "granted") ∷ [])
            (record {
              type = if denies then approval_denied else approval_granted;
              session_id = session_id;
              timestamp = now;
              payload = Payload.pressed user i.channel_id action;
            })
            p.bus;
    })

abbrev pub answer_component : ℕ → Interaction → String → String × String → Plugin → Plugin
answer_component now i message_id (action, session_id) p =
    if str_eq session_id ""
    then p
    else if str_eq action "approve" || str_eq action "deny"
    then with_member i.member (publish_answer now i message_id (action, session_id)) p
    else p

unfoldable pub handle_component : ℕ → Bool → Interaction → String → String → Plugin → Plugin
unfolding action_and_session publish_answer
handle_component now deferred i custom_id message_id p =
    let p' = call (defer_update i.interaction) p in
    if deferred then answer_component now i message_id (action_and_session custom_id) p' else p'

abbrev pub handle_by_data : ℕ → Bool → Interaction → InteractionData → Plugin → Plugin
handle_by_data now deferred i (application_command name options) p =
    handle_slash_command now deferred i name options p
handle_by_data now deferred i (message_component custom_id message_id) p =
    handle_component now deferred i custom_id message_id p
handle_by_data now deferred i other_interaction p = p

unfoldable pub handle_interaction : ℕ → Bool → Interaction → Plugin → Plugin
unfolding handle_slash_command handle_component
handle_interaction now deferred i p = handle_by_data now deferred i i.detail p

-- A message with its author, and whether its channel is known and is one of direct messages.
pub record MessageCreate : Type 0 where
  pub author : String
  pub channel_id : String
  pub content : String
  pub direct : Bool

-- `self` is the plugin's own user.
unfoldable pub handle_message_create : ℕ → String → MessageCreate → Plugin → Plugin
unfolding read_command publish_user_message
handle_message_create now self m p =
    if str_eq m.author self
    then p
    else if m.direct
    then publish_user_message now (discord_message m.author m.channel_id (read_command m.content)) p
    else p
