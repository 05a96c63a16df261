-- ===== src/Bootstrap/Chat.antt =====
-- The subscriptions of internal/core/builder.go to the messages of chat users: a message becomes a
-- task, and the plugin that it came from is sent what the agent said once the session has ended.
pub mod Answered
pub mod Said
pub mod OverNats
pub mod FromSlack
mod Examples
use foreman.Prelude.{
  ℕ, String, Bool, true, false, ◌||◌, Option, none, some, List, [], ◌∷◌, Result, ok, err, Error,
  any, message, concat, str_eq, if◌then◌else◌,
}
use foreman.Prelude.Text.{trim_space}
use foreman.Schemas.{
  Event, EventType, session_completed, session_failed, UserMessage, Message, Payload,
}
use foreman.Schemas.Subjects.{subject}
use foreman.EventBus.Subject.{match_subject}
use foreman.ControlPlane.{session_event_subject}
use foreman.Coordinator.{Config, Coordinator, submit_task, session_of_task}

-- What the goroutine of a submitted task waits with: the output collected so far, and whether the
-- channel `done` has a value.
pub record Waiter : Type 0 where
  pub session_id : String
  pub plugin : String
  pub channel : String
  pub output : String
  pub done : Bool

abbrev waiter : UserMessage → String → Waiter
waiter msg session_id = record {
  session_id = session_id;
  plugin = msg.plugin;
  channel = msg.channel;
  output = "";
  done = false;
}

-- The goroutine up to its subscriptions: `plugs` are the names of the plugins. Without a plugin of the
-- message's name nobody waits.
abbrev pub after_submission :
    List String
    → UserMessage
    → String
    → Result (Unit {0}) × Coordinator
    → Option Waiter × Coordinator
after_submission plugs msg task_id (err e, c) = (none, c)
after_submission plugs msg task_id (ok _, c) =
    if any (str_eq msg.plugin) plugs
    then (some (waiter msg (session_of_task task_id)), c)
    else (none, c)

-- The handler of the subscriptions, with the goroutine that it starts. `stamp` is the text of the
-- process's clock.
unfoldable pub on_user_message :
    Config → ℕ → String → List String → Payload → Coordinator → Result (Option Waiter × Coordinator)
on_user_message cfg now stamp plugs (Payload.message msg) c =
    let task_id = concat msg.plugin (concat "_" stamp) in
    ok (after_submission plugs msg task_id (submit_task cfg now task_id msg.text msg.agent c))
on_user_message cfg now stamp plugs _ c = err (message "unexpected payload type")

-- The handler of the agent's output: only events of opencode with a text count.
unfoldable pub on_output : Payload → Waiter → Waiter
on_output (Payload.output whole (some text)) w =
    if str_eq text "" then w else record w { output = concat w.output (concat text "\n") }
on_output _ w = w

abbrev pub output_subject : String → String
output_subject session_id = subject ("agent" ∷ session_id ∷ "output" ∷ [])

-- The handlers of the two ends put a value into `done`, if it has none.
abbrev pub ends : String → String → Bool
ends session_id s =
    match_subject (session_event_subject session_id session_completed) s
    || match_subject (session_event_subject session_id session_failed) s

-- What the three subscriptions make of an event.
unfoldable pub receive : String × Event → Waiter → Waiter
unfolding on_output
receive (s, evt) w =
    let w' = if match_subject (output_subject w.session_id) s then on_output evt.payload w else w in
    if ends w.session_id s then record w' { done = true } else w'

unfoldable pub receive_all : List (String × Event) → Waiter → Waiter
unfolding receive
receive_all [] w = w
receive_all (e ∷ events) w = receive_all events (receive e w)

abbrev pub text_or_default : String → String
text_or_default text = if str_eq text "" then "Task completed with no output." else text

abbrev pub reply : Waiter → Message
reply w = record { text = text_or_default (trim_space w.output); thread = "" }

-- What the plugin is sent, where the goroutine waits through these events: nothing while no end of the
-- session is among them.
unfoldable pub answer : List (String × Event) → Waiter → Option Message
unfolding receive_all trim_space
answer events w = let w' = receive_all events w in if w'.done then some (reply w') else none
