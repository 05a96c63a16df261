-- ===== src/Plugins/Discord.antt =====
-- internal/plugins/discord/plugin.go. The session of the library is outside: the interactions and
-- messages that come are inputs, the calls are a log, and their outcomes are arguments where they
-- are read.
pub mod Sending
pub mod Receiving
pub mod Pending
use foreman.Prelude.{
  ℕ, String, Bool, true, false, ◌||◌, ◌&&◌, not, Option, none, some, List, [], ◌∷◌, ◌++◌, Result,
  ok, err, Error, cancelled, message, wrap, str_eq, if◌then◌else◌, ltb,
}
use foreman.Prelude.Dict.{Dict, lookup, insert, delete}
use foreman.Schemas.{
  Event, user_message, approval_granted, approval_denied, UserMessage, Message, Payload,
}
use foreman.Schemas.Subjects.{subject}
use foreman.EventBus.Bus.{Bus, publish}
use foreman.Plugins.Blocks.{
  Block, ElementValue, text_field, number_field, button_of, string_or_empty,
}
use foreman.Plugins.Command.{read_command, cut_at}

pub data ButtonStyle : Type 0 where
  primary secondary success danger : ButtonStyle

pub record Button : Type 0 where
  pub label : String
  pub custom_id : String
  pub style : ButtonStyle

pub record Embed : Type 0 where
  pub title : String
  pub description : String
  pub color : ℕ
  pub footer : Option String

-- A message to send: its text, the message it refers to, its embeds and its rows of buttons.
pub record MessageSend : Type 0 where
  pub content : String
  pub reference : Option String
  pub embeds : List Embed
  pub components : List (List Button)

-- The calls of the session. An interaction is known by a number.
pub data Call : Type 0 where
  send : String → MessageSend → Call
  edit_response : ℕ → String → Call
  edit_message : String → String → String → Call
  defer_response : ℕ → Call
  defer_update : ℕ → Call
  create_command : String → Call
  close : Call

-- `connected` is that the session is set, `running` that `cancel` is. `crashed` is a panic of the
-- process: a handler of the library has no recover.
pub record Plugin : Type 0 where
  pub bot_token : String
  pub bus : Option Bus
  pub connected : Bool
  pub running : Bool
  pub stopped : Bool
  pub crashed : Bool
  pub pending_interactions : Dict ℕ
  pub calls : List Call

abbrev pub call : Call → Plugin → Plugin
call c p = record p { calls = p.calls ++ c ∷ [] }

-- `New`
unfoldable pub new : String → Plugin
new bot_token = record {
  bot_token = bot_token;
  bus = none;
  connected = false;
  running = false;
  stopped = false;
  crashed = false;
  pending_interactions = [];
  calls = [];
}

-- The outcomes are those of creating the session and of opening it.
unfoldable pub start :
    Result (Unit {0}) → Result (Unit {0}) → Bus → Plugin → Result (Unit {0}) × Plugin
start created opened bus p =
    let p' = record p { bus = some bus } in
    if str_eq p.bot_token ""
    then (err (message "discord: bot_token is required"), p')
    else (elim created [
      | err e ↦ (err (wrap "discord: create session" e), p')
      | ok _ ↦ (elim opened [
        | err e ↦ (err (wrap "discord: open gateway" e), p')
        | ok _ ↦ (ok tt, record p' { connected = true; running = true })
      ])
    ])

unfoldable pub create_commands : List String → Plugin → Plugin
create_commands [] p = p
create_commands (guild ∷ guilds) p = create_commands guilds (call (create_command guild) p)

-- What the loop of `registerSlashCommands` finds: the guilds that come before the deadline, in each
-- of which the command is created (an error is logged), or `none` where the context ends first.
unfoldable pub register_slash_commands : Option (List String) → Plugin → Plugin
unfolding create_commands
register_slash_commands none p = p
register_slash_commands (some guilds) p = create_commands guilds p

-- What the goroutine does when its context is done.
unfoldable pub watch_disconnect : Plugin → Plugin
watch_disconnect p =
    if p.connected then record (call close p) { stopped = true } else record p { stopped = true }

-- `closes` says whether the goroutine is done before the context ends.
unfoldable pub stop : Bool → Plugin → Result (Unit {0}) × Plugin
unfolding watch_disconnect
stop closes p =
    if p.running
    then (if closes then (ok tt, watch_disconnect p) else (err cancelled, p))
    else (ok tt, p)

abbrev pub not_connected : Result (Unit {0})
not_connected = err (message "discord: not connected (call Start first)")
