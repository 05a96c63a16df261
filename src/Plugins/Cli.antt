-- ===== src/Plugins/Cli.antt =====
-- The plugin of internal/plugin/plugin.go that is a process of the host. The process is outside: the
-- outcomes of its calls are arguments, what it is sent is a log, and the lines that it prints, as the
-- scanner gives them, are an input.
pub mod Output
use foreman.Prelude.{
  ℕ, String, Bool, true, false, Option, none, some, List, [], ◌∷◌, ◌++◌, Result, ok, err, message,
  wrap, concat, if◌then◌else◌,
}
use foreman.Schemas.{Event, EventType, agent_output, agent_done, Payload}
use foreman.Schemas.Subjects.{subject}
use foreman.EventBus.Bus.{Bus, publish}

-- `stdin` is that the pipe is set, `started` that the process runs.
pub record Cli : Type 0 where
  pub name : String
  pub bus : Option Bus
  pub stdin : Bool
  pub started : Bool
  pub sent : List String

unfoldable pub start :
    Result (Unit {0}) → Result (Unit {0}) → Result (Unit {0}) → Bus → Cli → Result (Unit {0}) × Cli
start (err e) stdin process bus p = (err (wrap "stdout pipe" e), record p { bus = some bus })
start (ok _) (err e) process bus p = (err (wrap "stdin pipe" e), record p { bus = some bus })
start (ok _) (ok _) (err e) bus p =
    (err (wrap "start process" e), record p { bus = some bus; stdin = true })
start (ok _) (ok _) (ok _) bus p =
    (ok tt, record p { bus = some bus; stdin = true; started = true })

-- `killed` is the outcome of killing the process.
unfoldable pub stop : Result (Unit {0}) → Cli → Result (Unit {0})
stop killed p = if p.started then killed else ok tt

unfoldable pub send_message : Result (Unit {0}) → String → Cli → Result (Unit {0}) × Cli
send_message written msg p =
    if p.stdin
    then (written, record p { sent = p.sent ++ concat msg "\n" ∷ [] })
    else (err (message "plugin not started"), p)

-- `encode` is the JSON of the type and the content of a block.
unfoldable pub send_block_message :
    (String → String → String) → Result (Unit {0}) → String → String → Cli → Result (Unit {0}) × Cli
unfolding send_message
send_block_message encode written type content p = send_message written (encode type content) p

-- An event on a bus that is set. An error is logged.
abbrev pub publish_on : ℕ → String → String → EventType → Payload → Option Bus → Option Bus
publish_on now name what type payload none = none
publish_on now name what type payload (some bus) =
    some
      (publish (subject ("agent" ∷ name ∷ what ∷ []))
        (record { type = type; session_id = ""; timestamp = now; payload = payload }) bus).1

-- The loop over the lines.
unfoldable pub publish_lines : ℕ → String → List String → Option Bus → Option Bus
publish_lines now name [] bus = bus
publish_lines now name (line ∷ lines) bus =
    publish_lines now name lines
      (publish_on now name "output" agent_output (Payload.plain line) bus)

-- An error of the scanner is logged.
unfoldable pub read_output : ℕ → List String → Cli → Cli
unfolding publish_lines
read_output now lines p = record p {
  bus = publish_on now p.name "done" agent_done Payload.nil (publish_lines now p.name lines p.bus);
}
