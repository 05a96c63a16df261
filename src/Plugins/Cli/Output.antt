-- ===== src/Plugins/Cli/Output.antt =====
-- What the plugin of internal/plugin/plugin.go publishes of its process.
use mathlib.Core.List.{append_assoc, append-nil}
use foreman.Prelude.{ℕ, String, ◌≡◌, refl, ap, ◌∙◌, some, List, [], ◌∷◌, ◌++◌, map, arith}
use foreman.Schemas.{Event, agent_output, agent_done, Payload}
use foreman.Schemas.Subjects.{subject}
use foreman.EventBus.Bus.{Bus, publish}
use foreman.Plugins.Cli.{Cli, publish_on, publish_lines, read_output}

abbrev pub line_event : ℕ → String → String → String × Event
line_event now name line = (
  subject ("agent" ∷ name ∷ "output" ∷ []),
  record { type = agent_output; session_id = ""; timestamp = now; payload = Payload.plain line },
)

abbrev pub done_event : ℕ → String → String × Event
done_event now name = (
  subject ("agent" ∷ name ∷ "done" ∷ []),
  record { type = agent_done; session_id = ""; timestamp = now; payload = Payload.nil },
)

abbrev with_all : List (String × Event) → Bus → Bus
with_all events bus = record { published = bus.published ++ events; outcomes = [] }

publish-up :
    (subject : String) (evt : Event) (bus : Bus)
    → bus.outcomes ≡ []
    → (publish subject evt bus).1 ≡ with_all ((subject, evt) ∷ []) bus
unfolding publish
publish-up subject evt bus up = ground arith

publish_lines-up :
    (now : ℕ) (name : String) (lines : List String) (bus : Bus)
    → bus.outcomes ≡ []
    → publish_lines now name lines (some bus)
      ≡ some (with_all (map (line_event now name) lines) bus)
unfolding publish_lines
publish_lines-up now name [] bus up = ground (arith, append-nil bus.published)
publish_lines-up now name (line ∷ lines) bus up =
    let (s, evt) = line_event now name line in
    ap (λ b. publish_lines now name lines (some b)) (publish-up s evt bus up)
    ∙ publish_lines-up now name lines (with_all ((s, evt) ∷ []) bus) refl
    ∙ ap (λ l. some (record { published = l; outcomes = [] }))
        (append_assoc bus.published ((s, evt) ∷ []) (map (line_event now name) lines))

-- Where the bus is set and takes what is published, what the process prints is published line by line,
-- in order, and then that it is done.
read_output_publishes :
    (now : ℕ) (lines : List String) (p : Cli) (bus : Bus)
    → p.bus ≡ some bus
    → bus.outcomes ≡ []
    → (read_output now lines p).bus
      ≡ some (with_all (map (line_event now p.name) lines ++ done_event now p.name ∷ []) bus)
unfolding read_output
read_output_publishes now lines p bus set up =
    let events = map (line_event now p.name) lines in
    let (s, evt) = done_event now p.name in
    ap (λ b. publish_on now p.name "done" agent_done Payload.nil (publish_lines now p.name lines b))
      set
    ∙ ap (publish_on now p.name "done" agent_done Payload.nil)
        (publish_lines-up now p.name lines bus up)
    ∙ ap some (publish-up s evt (with_all events bus) refl)
    ∙ ap (λ l. some (record { published = l; outcomes = [] }))
        (append_assoc bus.published events ((s, evt) ∷ []))
