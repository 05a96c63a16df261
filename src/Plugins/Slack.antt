-- ===== src/Plugins/Slack.antt =====
-- internal/plugins/slack/plugin.go. The Socket Mode client and the Web API are outside: the events
-- that come are inputs, the calls are a log, and their outcomes are arguments where they are read.
pub mod Sending
pub mod Receiving
use foreman.Prelude.{
  ℕ, String, Bool, true, false, ◌||◌, Option, none, some, List, [], ◌∷◌, ◌++◌, Result, ok, err,
  cancelled, message, concat, str_eq, if◌then◌else◌, map,
}
use foreman.Schemas.{user_message, approval_granted, approval_denied, UserMessage, Message, Payload}
use foreman.Prelude.Dict.{Dict}
use foreman.Schemas.Subjects.{subject}
use foreman.EventBus.Bus.{Bus, publish}
use foreman.Plugins.Blocks.{Block, ElementValue, text_field, button_of, string_or_empty}
use foreman.Plugins.Command.{read_command}

pub record Button : Type 0 where
  pub action_id : String
  pub value : String
  pub text : String

-- The blocks of the library, as far as the code fills them.
pub data SlackBlock : Type 0 where
  section : Option String → SlackBlock
  actions : List Button → SlackBlock
  context : List String → SlackBlock
  divider : SlackBlock

-- The calls of the services. A message has the time stamp of its thread, "" for none.
pub data Call : Type 0 where
  post : String → String → String → Call
  post_blocks : String → List SlackBlock → Call
  post_ephemeral : String → String → String → Call
  ack : String → Call

pub record Config : Type 0 where
  pub bot_token : String
  pub app_token : String

-- `connected` is that the client is set, `running` that `cancel` is, `stopped` that `done` is closed.
pub record Plugin : Type 0 where
  pub cfg : Config
  pub bus : Bus
  pub connected : Bool
  pub running : Bool
  pub stopped : Bool
  pub calls : List Call

abbrev pub call : Call → Plugin → Plugin
call c p = record p { calls = p.calls ++ c ∷ [] }

-- `New`. A bus with nothing on it stands for none: `Start` sets the bus before any event comes.
unfoldable pub new : Config → Plugin
new cfg = record {
  cfg = cfg;
  bus = record { published = []; outcomes = [] };
  connected = false;
  running = false;
  stopped = false;
  calls = [];
}

unfoldable pub start : Bus → Plugin → Result (Unit {0}) × Plugin
start bus p =
    if str_eq p.cfg.bot_token ""
    then (err (message "slack: bot_token is required"), record p { bus = bus })
    else if str_eq p.cfg.app_token ""
    then (err (message "slack: app_token is required"), record p { bus = bus })
    else (ok tt, record p { bus = bus; connected = true; running = true })

-- `closes` says whether `done` is closed before the context ends. Without a loop nothing closes it.
unfoldable pub stop : Bool → Plugin → Result (Unit {0}) × Plugin
stop closes p =
    if p.running
    then (if closes then (ok tt, record p { stopped = true }) else (err cancelled, p))
    else (err cancelled, p)
