-- ===== src/Bootstrap/Chat/Said.antt =====
-- What a chat user is told of a run: the events that `runAgent` publishes for the agent's lines, as the
-- goroutine that waits for the session collects them.
use mathlib.Core.List.{append_assoc, append-nil}
use foreman.Prelude.{
  ℕ, String, ◌≡◌, refl, ap, subst, ◌∙◌, inl, inr, true, Option, none, some, List, [], ◌∷◌, ◌++◌,
  Bool-cases, Option-cases, if◌then◌else◌, arith, str_eq, concat,
}
use foreman.Prelude.Text.{trim_space}
use foreman.Schemas.{Event, agent_output, Payload, Message, SessionPayload}
use foreman.EventBus.Bus.{publish}
use foreman.ControlPlane.{ControlPlane}
use foreman.Coordinator.{Parsed}
use foreman.Adapters.{Host, exec_adapter, parse_exec_event}
use foreman.Coordinator.Approval.{publish_agent_event, extract_tool_use}
use foreman.Coordinator.Run.Finish.{read_lines}
use foreman.Bootstrap.Chat.{
  Waiter, on_output, output_subject, ends, receive, receive_all, answer, text_or_default,
}
use foreman.Bootstrap.Chat.Answered.{match_subject_refl, receive-done, answer-ended}

-- One text of the agent after the others.
abbrev pub say : Option String → String → String
say none out = out
say (some text) out = if str_eq text "" then out else concat out (concat text "\n")

abbrev pub say_parsed : Option Parsed → String → String
say_parsed none out = out
say_parsed (some parsed) out = say parsed.text out

-- What the adapter makes of a line that is not blank.
abbrev pub parsed_line : (String → Option Parsed) → String → Option Parsed
parsed_line parse line = if str_eq (trim_space line) "" then none else parse (trim_space line)

-- The texts of the agent's lines, one to a line: those of the lines that are not blank, and that the
-- adapter makes an event of opencode with a text of.
unfoldable pub said : (String → Option Parsed) → List String → String → String
said parse [] out = out
said parse (line ∷ lines) out = said parse lines (say_parsed (parsed_line parse line) out)

abbrev output_event : ℕ → String → Parsed → String × Event
output_event now sid parsed = (
  output_subject sid,
  record {
    type = agent_output;
    session_id = sid;
    timestamp = now;
    payload = Payload.output parsed.whole parsed.text;
  },
)

abbrev event_before : ℕ → String → Option Parsed → List (String × Event) → List (String × Event)
event_before now sid none events = events
event_before now sid (some parsed) events = output_event now sid parsed ∷ events

output_events : ℕ → String → (String → Option Parsed) → List String → List (String × Event)
output_events now sid parse [] = []
output_events now sid parse (line ∷ lines) =
    event_before now sid (parsed_line parse line) (output_events now sid parse lines)

published_all : List (String × Event) → ControlPlane → ControlPlane
published_all events cp = record cp {
  bus = record { published = cp.bus.published ++ events; outcomes = [] };
}

publish_agent_event-up :
    (now : ℕ) (sid : String) (parsed : Parsed) (cp : ControlPlane)
    → cp.bus.outcomes ≡ []
    → publish_agent_event now sid parsed cp ≡ published_all (output_event now sid parsed ∷ []) cp
unfolding publish_agent_event publish published_all
publish_agent_event-up now sid parsed cp up = ground arith

published_all-cons :
    (e : String × Event) (events : List (String × Event)) (cp : ControlPlane)
    → published_all events (published_all (e ∷ []) cp) ≡ published_all (e ∷ events) cp
unfolding published_all
published_all-cons e events cp = simp (append_assoc)

read_lines-up :
    (now : ℕ) (sid : String) (parse : String → Option Parsed) (lines : List String)
    (cp : ControlPlane)
    → cp.bus.outcomes ≡ []
    → (read_lines now sid parse lines cp).1 ≡ published_all (output_events now sid parse lines) cp
unfolding read_lines output_events published_all
read_lines-up now sid parse [] cp up = rw append-nil (ground arith)
read_lines-up now sid parse (line ∷ lines) cp up = elim (Bool-cases (str_eq (trim_space line) "")) [
  | inl blank ↦ rw blank (read_lines-up now sid parse lines cp up)
  | inr some_text ↦ elim (Option-cases (parse (trim_space line))) [
    | inl e ↦ rw (some_text, e) (read_lines-up now sid parse lines cp up)
    | inr (parsed, e) ↦
        let first = publish_agent_event-up now sid parsed cp up in
        let rest : (read_lines now sid parse lines (publish_agent_event now sid parsed cp)).1
            ≡ published_all (output_event now sid parsed ∷ output_events now sid parse lines) cp =
          ap (λ c. (read_lines now sid parse lines c).1) first
          ∙ (read_lines-up now sid parse lines (published_all (output_event now sid parsed ∷ []) cp)
                refl
              ∙ published_all-cons (output_event now sid parsed) (output_events now sid parse lines)
                  cp) in
        elim (Option-cases (extract_tool_use parsed)) [
          | inl f ↦ rw (some_text, e, f) rest
          | inr (tc, f) ↦ rw (some_text, e, f) rest
        ]
  ]
]

on_output-say :
    (parsed : Parsed) (w : Waiter)
    → (on_output (Payload.output parsed.whole parsed.text) w).output ≡ say parsed.text w.output
unfolding on_output
on_output-say parsed w = elim (Option-cases parsed.text) [
  | inl e ↦ rw e refl
  | inr (text, e) ↦ rw e (ground arith)
]

receive-output_event :
    (now : ℕ) (parsed : Parsed) (w : Waiter)
    → (receive (output_event now w.session_id parsed) w).output ≡ say parsed.text w.output
unfolding receive on_output
receive-output_event now parsed w =
    elim (Bool-cases (ends w.session_id (output_subject w.session_id))) [
      | inl y ↦ rw (match_subject_refl (output_subject w.session_id), y) (on_output-say parsed w)
      | inr n ↦ rw (match_subject_refl (output_subject w.session_id), n) (on_output-say parsed w)
    ]

receive_all-said :
    (now : ℕ) (sid : String) (parse : String → Option Parsed) (lines : List String) (w : Waiter)
    → w.session_id ≡ sid
    → (receive_all (output_events now sid parse lines) w).output ≡ said parse lines w.output
unfolding receive_all output_events said
receive_all-said now sid parse [] w same = refl
receive_all-said now sid parse (line ∷ lines) w same =
    elim (Option-cases (parsed_line parse line)) [
      | inl e ↦ rw e (receive_all-said now sid parse lines w same)
      | inr (parsed, e) ↦
          let first : (receive (output_event now sid parsed) w).output ≡ say parsed.text w.output =
            subst (λ id. (receive (output_event now id parsed) w).output ≡ say parsed.text w.output)
              same (receive-output_event now parsed w) in
          let w' = receive (output_event now sid parsed) w in
          let kept : w'.session_id ≡ sid =
            (receive-done (output_event now sid parsed) w).0 ∙ same in
          rw e (receive_all-said now sid parse lines w' kept ∙ ap (said parse lines) first)
    ]

-- Where the bus takes what is published, the events of the lines of a run, followed by an end of its
-- session, make a goroutine that waits for the session, and has collected nothing, send the texts
-- that the agent said, one to a line, with the white space around the whole trimmed, or the text for
-- want of output where nothing is left.
pub read_lines-answer :
    (now : ℕ) (parse : String → Option Parsed) (lines : List String) (cp : ControlPlane)
    (w : Waiter) (end_subject : String) (end_event : Event) (p : SessionPayload)
    → cp.bus.outcomes ≡ []
    → w.output ≡ ""
    → ends w.session_id end_subject ≡ true
    → end_event.payload ≡ Payload.session p
    → (events : List (String × Event)) × ((read_lines now w.session_id parse lines
          cp).1.bus.published
        ≡ cp.bus.published ++ events)
      × (answer (events ++ (end_subject, end_event) ∷ []) w
          ≡ some
              (record { text = text_or_default (trim_space (said parse lines "")); thread = "" }))
unfolding published_all
read_lines-answer now parse lines cp w end_subject end_event p up empty end carries =
    let events = output_events now w.session_id parse lines in
    let spoken : (receive_all events w).output ≡ said parse lines "" =
      receive_all-said now w.session_id parse lines w refl ∙ ap (said parse lines) empty in
    (
      events,
      ap (λ (c : ControlPlane). c.bus.published) (read_lines-up now w.session_id parse lines cp up),
      answer-ended events end_subject end_event p w end carries
          ∙ ap (λ t. some (record { text = text_or_default (trim_space t); thread = "" })) spoken,
    )

silent_line :
    (parse : String → Option Parsed) (line out : String)
    → ((line : String) (parsed : Parsed) → parse line ≡ some parsed → parsed.text ≡ none)
    → say_parsed (parsed_line parse line) out ≡ out
silent_line parse line out silent = elim (Bool-cases (str_eq (trim_space line) "")) [
  | inl blank ↦ rw blank refl
  | inr more ↦ elim (Option-cases (parse (trim_space line))) [
    | inl e ↦ rw (more, e) refl
    | inr (parsed, e) ↦ rw (more, e) (ap (λ t. say t out) (silent (trim_space line) parsed e))
  ]
]

-- An adapter that makes no line an event of opencode says nothing.
said-silent :
    (parse : String → Option Parsed) (lines : List String) (out : String)
    → ((line : String) (parsed : Parsed) → parse line ≡ some parsed → parsed.text ≡ none)
    → said parse lines out ≡ out
unfolding said
said-silent parse [] out silent = refl
said-silent parse (line ∷ lines) out silent =
    ap (said parse lines) (silent_line parse line out silent) ∙ said-silent parse lines out silent

nothing_said :
    ◌≡◌ {A = Option Message}
      (some (record { text = text_or_default (trim_space ""); thread = "" }))
      (some (record { text = "Task completed with no output."; thread = "" }))
unfolding trim_space
nothing_said = refl

exec-text :
    (h : Host) (line : String) (parsed : Parsed)
    → parse_exec_event h line ≡ some parsed
    → parsed.text ≡ none
unfolding parse_exec_event
exec-text h line parsed e = ground (arith, e)

-- Where the bus takes what is published, the events of the lines of a run of the exec adapter,
-- whatever the lines are, followed by an end of its session, make a goroutine that waits for the
-- session, and has collected nothing, send that there was no output.
exec_adapter-answer :
    (h : Host) (cmd : String) (now : ℕ) (lines : List String) (cp : ControlPlane) (w : Waiter)
    (end_subject : String) (end_event : Event) (p : SessionPayload)
    → cp.bus.outcomes ≡ []
    → w.output ≡ ""
    → ends w.session_id end_subject ≡ true
    → end_event.payload ≡ Payload.session p
    → (events : List (String × Event)) × ((read_lines now w.session_id
          (exec_adapter h cmd).parse_event
          lines
          cp).1.bus.published
        ≡ cp.bus.published ++ events)
      × (answer (events ++ (end_subject, end_event) ∷ []) w
          ≡ some (record { text = "Task completed with no output."; thread = "" }))
unfolding exec_adapter
exec_adapter-answer h cmd now lines cp w end_subject end_event p up empty end carries =
    let (events, published, said_all) =
      read_lines-answer now (parse_exec_event h) lines cp w end_subject end_event p up empty end
        carries in
    (
      events,
      published,
      said_all
          ∙ ap (λ t. some (record { text = text_or_default (trim_space t); thread = "" }))
              (said-silent (parse_exec_event h) lines "" (exec-text h))
          ∙ nothing_said,
    )
