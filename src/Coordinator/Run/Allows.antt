-- ===== src/Coordinator/Run/Allows.antt =====
-- The end of `runAgent` in internal/coordinator/coordinator.go: what lets a session complete once the
-- command has finished.

use foreman.Prelude.{
  ℕ, String, ◌≡◌, refl, subst, ap, true, false, Option, none, some, List, [], ◌∷◌, ◌⊎◌, Error, wrap,
  agent_exited, arith, inl, inr, Bool-cases, Option-cases, Result-cases, if◌then◌else◌, str_eq,
  ◌==◌,
}
use foreman.Prelude.Text.{split_on, trim_space}
use foreman.Schemas.{approval, failed, Payload}
use foreman.Policy.{ToolUse, default_timeout}
use foreman.ControlPlane.{ControlPlane, transition, audit}
use foreman.ControlPlane.Undone.{IsUndone, transition-IsUndone, sessions-audit}
use foreman.Coordinator.{Config, Coordinator, Adapter, Parsed, fail_session}
use foreman.Coordinator.Approval.{
  MatchResult, Meets, answered, no_subscription, timed_out, context_done, wait_for_approval,
  publish_approval_request, publish_agent_event, check_policies, extract_tool_use,
}
use foreman.Coordinator.Approval.Answers.{wait_for_approval_iff}
use foreman.Coordinator.Run.Finish.{
  World, Output, cleanup_sandbox, gate, finish, handle_output, read_output, read_lines,
}

-- The tool calls of the lines, apart from the events that are published on the way.
unfoldable pub tool_calls : (String → Option Parsed) → List String → List ToolUse
tool_calls parse [] = []
tool_calls parse (line ∷ lines) =
    let rest = tool_calls parse lines in
    if str_eq (trim_space line) "" then rest else (elim (parse (trim_space line)) [
      | none ↦ rest
      | some parsed ↦ elim (extract_tool_use parsed) [ none ↦ rest | some tc ↦ tc ∷ rest ]
    ])

read_lines-tool_calls :
    (now : ℕ) (sid : String) (parse : String → Option Parsed) (lines : List String)
    (cp : ControlPlane)
    → ((read_lines now sid parse lines cp).0 ≡ tool_calls parse lines)
      × ((read_lines now sid parse lines cp).1.sessions ≡ cp.sessions)
unfolding read_lines tool_calls publish_agent_event
read_lines-tool_calls now sid parse [] cp = (refl, refl)
read_lines-tool_calls now sid parse (line ∷ lines) cp =
    elim (Bool-cases (str_eq (trim_space line) "")) [
      | inl e ↦
          (let r = read_lines-tool_calls now sid parse lines cp in rw (e, read_lines, tool_calls) r)
      | inr e ↦
          rw (e, read_lines, tool_calls)
            (elim (Option-cases (parse (trim_space line))) [
              | inl f ↦ rw f (read_lines-tool_calls now sid parse lines cp)
              | inr (p, f) ↦
                  let (calls, kept) =
                    read_lines-tool_calls now sid parse lines (publish_agent_event now sid p cp) in
                  rw f (elim (Option-cases (extract_tool_use p)) [
                    | inl g ↦ rw g (calls, kept)
                    | inr (tc, g) ↦ rw g (ap (λ l. tc ∷ l) calls, kept)
                  ])
            ])
    ]

-- No tool call asked for a human, or a human granted the first that did.
abbrev pub IsOpen : World → List MatchResult → Type 0
IsOpen w [] = Unit
IsOpen w (m ∷ others) = (p : Payload) × (w.meets (default_timeout m.policy) ≡ answered true p)

-- The session of the coordinator has not completed.
abbrev pub Undone : String → Coordinator → Type 0
Undone sid c = IsUndone sid c.cp.sessions

pub fail_session-Undone :
    (now : ℕ) (sid : String) (x : Error) (c : Coordinator)
    → Undone sid c
    → Undone sid (fail_session now sid x c)
unfolding fail_session
fail_session-Undone now sid x c h =
    transition-IsUndone now sid failed _ (λ e. ground arith) (rw sessions-audit h)

pub cleanup_sandbox-Undone :
    (w : World) (sid sbx : String) (c : Coordinator)
    → Undone sid c
    → Undone sid (cleanup_sandbox w sbx c)
unfolding cleanup_sandbox
cleanup_sandbox-Undone w sid sbx c h = elim (Bool-cases w.destroyed) [
  | inl e ↦ rw e h
  | inr e ↦ rw e h
]

sessions-wait_for_approval :
    (now : ℕ) (sid : String) (meets : Meets) (cp : ControlPlane)
    → (wait_for_approval now sid meets cp).1.sessions ≡ cp.sessions
unfolding wait_for_approval audit
sessions-wait_for_approval now sid (no_subscription name e) cp = refl
sessions-wait_for_approval now sid (answered true p) cp = ground arith
sessions-wait_for_approval now sid (answered false p) cp = ground arith
sessions-wait_for_approval now sid timed_out cp = ground arith
sessions-wait_for_approval now sid context_done cp = refl

sessions-publish_approval_request :
    (now : ℕ) (sid : String) (m : MatchResult) (others : List MatchResult) (cp : ControlPlane)
    → (publish_approval_request now sid m others cp).sessions ≡ cp.sessions
unfolding publish_approval_request audit
sessions-publish_approval_request now sid m others cp = ground arith

gate-IsOpen :
    (w : World) (sid sbx : String) (m : MatchResult) (others : List MatchResult) (c : Coordinator)
    → Undone sid c
    → Undone sid (gate w sid sbx m others c) ⊎ IsOpen w (m ∷ others)
unfolding gate
gate-IsOpen w sid sbx m others c h =
    let moved = transition w.now sid approval c.cp in
    let still = transition-IsUndone w.now sid approval c.cp (λ e. ground arith) h in
    elim (Result-cases moved.0) [
      | inr (x, f) ↦
          inl (rw (f, gate) (cleanup_sandbox-Undone w sid sbx (record c { cp = moved.1 }) still))
      | inl (_, f) ↦
          let asked = publish_approval_request w.now sid m others moved.1 in
          let waited = wait_for_approval w.now sid (w.meets (default_timeout m.policy)) asked in
          let c' = record c { cp = waited.1 } in
          elim (Result-cases waited.0) [
            | inr (x, g) ↦ inl (
                rw (f, g, gate)
                  (cleanup_sandbox-Undone w sid sbx (fail_session w.now sid (wrap "approval" x) c')
                    (fail_session-Undone w.now sid (wrap "approval" x) c'
                      (rw (sessions-wait_for_approval, sessions-publish_approval_request) still))))
            | inl (_, g) ↦
                inr
                  ((wait_for_approval_iff w.now sid (w.meets (default_timeout m.policy)) asked).0 g)
          ]
    ]

finish-IsOpen :
    (w : World) (sid sbx : String) (ms : List MatchResult) (c : Coordinator)
    → Undone sid c
    → Undone sid (finish w sid sbx ms c) ⊎ IsOpen w ms
unfolding finish
finish-IsOpen w sid sbx [] c h = inr tt
finish-IsOpen w sid sbx (m ∷ others) c h = gate-IsOpen w sid sbx m others c h

-- The command exited with 0, and every tool call of its output that asks for a human was let through.
abbrev pub Allows : Config → World → Adapter → Output → Type 0
Allows cfg w a out =
    (out.exit_code ≡ 0)
    × IsOpen w (check_policies cfg.policies (tool_calls a.parse_event (split_on 10 out.stdout)))

pub handle_output-Allows :
    (cfg : Config) (w : World) (sid : String) (a : Adapter) (sbx : String) (out : Output)
    (c : Coordinator)
    → Undone sid c
    → Undone sid (handle_output cfg w sid a sbx out c) ⊎ Allows cfg w a out
unfolding handle_output read_output
handle_output-Allows cfg w sid a sbx out c h =
    let read = read_output w.now sid a.parse_event out.stdout c.cp in
    let c' = record c { cp = read.1 } in
    let (calls, kept) =
      read_lines-tool_calls w.now sid a.parse_event (split_on 10 out.stdout) c.cp in
    let still : Undone sid c' = rw kept h in
    elim (Bool-cases (out.exit_code == 0)) [
      | inr f ↦ inl (
          rw (f, handle_output)
            (cleanup_sandbox-Undone w sid sbx _ (
              fail_session-Undone w.now sid (agent_exited out.exit_code (trim_space out.stderr)) c'
                still)))
      | inl f ↦ elim (finish-IsOpen w sid sbx (check_policies cfg.policies read.0) c' still) [
        | inl u ↦ inl (rw (f, handle_output) u)
        | inr o ↦ inr (
          ground arith,
          subst (λ (l : List ToolUse). IsOpen w (check_policies cfg.policies l)) calls o,
        )
      ]
    ]
