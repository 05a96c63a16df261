-- ===== src/Coordinator/Run/Finish.antt =====
-- The part of `runAgent` that follows a finished command: its output, its exit code, the approval
-- gate and the session's end.
use foreman.Prelude.{
  ℕ, String, Bool, Option, none, some, List, [], ◌∷◌, Result, ok, err, wrap, agent_exited, str_eq,
  ◌==◌, if◌then◌else◌,
}
use foreman.Prelude.Dict.{lookup}
use foreman.Prelude.Text.{split_on, trim_space}
use foreman.Schemas.{same_status, running, approval, completed}
use foreman.Policy.{ToolUse, default_timeout}
use foreman.ControlPlane.{ControlPlane, transition}
use foreman.Coordinator.{Config, Coordinator, Adapter, Parsed, fail_session}
use foreman.Coordinator.Approval.{
  MatchResult, Meets, check_policies, extract_tool_use, publish_agent_event,
  publish_approval_request, wait_for_approval,
}

-- What `Execute` gives.
pub record Output : Type 0 where
  pub stdout : String
  pub exit_code : ℕ
  pub stderr : String

-- The fields of `SandboxSpec` that differ between runs: the image (empty for the default one) and
-- the token in the environment.
pub record SandboxSpec : Type 0 where
  pub image : String
  pub agent_token : Option String

-- What the environment answers: the issuer (`none` where there is none), the sandbox, the human (for
-- the timeout that the gate is given), and whether the context lasts through the backoff.
pub record World : Type 0 where
  pub now : ℕ
  pub token : Option (Result String)
  pub provision : SandboxSpec → Result String
  pub verify_exec : String → Result (ℕ × String)
  pub beats : List (ℕ × Bool)
  pub execute : List String → ℕ → Result Output
  pub meets : ℕ → Meets
  pub destroyed : Bool
  pub backed_off : Bool

unfoldable pub remove_first : String → List String → List String
remove_first x [] = []
remove_first x (y ∷ ys) = let rest = remove_first x ys in if str_eq y x then ys else y ∷ rest

-- An error of `Destroy` is logged, and the sandbox stays.
unfoldable pub cleanup_sandbox : World → String → Coordinator → Coordinator
unfolding remove_first
cleanup_sandbox w sandbox_id c =
    if w.destroyed then record c { sandboxes = remove_first sandbox_id c.sandboxes } else c

-- The loop over the lines: the tool calls, and the events published.
unfoldable pub read_lines :
    ℕ → String → (String → Option Parsed) → List String → ControlPlane → List ToolUse × ControlPlane
unfolding trim_space extract_tool_use publish_agent_event
read_lines now session_id parse [] cp = ([], cp)
read_lines now session_id parse (line ∷ lines) cp =
    let skipped = read_lines now session_id parse lines cp in
    if str_eq (trim_space line) "" then skipped else (elim (parse (trim_space line)) [
      | none ↦ skipped
      | some parsed ↦
          let (calls, cp') =
            read_lines now session_id parse lines (publish_agent_event now session_id parsed cp) in
          elim (extract_tool_use parsed) [ none ↦ (calls, cp') | some tc ↦ (tc ∷ calls, cp') ]
    ])

-- Empty output has no lines in the code; here it has one empty line, which is skipped.
unfoldable pub read_output :
    ℕ → String → (String → Option Parsed) → String → ControlPlane → List ToolUse × ControlPlane
unfolding read_lines split_on
read_output now session_id parse stdout cp = read_lines now session_id parse (split_on 10 stdout) cp

-- A session in APPROVAL goes back through RUNNING.
unfoldable pub leave_approval : ℕ → String → ControlPlane → Result (Unit {0}) × ControlPlane
leave_approval now session_id cp = elim (lookup session_id cp.sessions) [
  | none ↦ (ok tt, cp)
  | some s ↦
      if same_status s.status approval then transition now session_id running cp else (ok tt, cp)
]

unfoldable pub complete : World → String → String → Coordinator → Coordinator
unfolding leave_approval
complete w session_id sandbox_id c =
    let (left, cp') = leave_approval w.now session_id c.cp in
    elim left [
      | err e ↦ cleanup_sandbox w sandbox_id (record c { cp = cp' })
      | ok _ ↦
          cleanup_sandbox w sandbox_id
            (record c { cp = (transition w.now session_id completed cp').1 })
    ]

unfoldable pub gate :
    World → String → String → MatchResult → List MatchResult → Coordinator → Coordinator
unfolding complete
gate w session_id sandbox_id m others c =
    let (moved, cp') = transition w.now session_id approval c.cp in
    elim moved [
      | err e ↦ cleanup_sandbox w sandbox_id (record c { cp = cp' })
      | ok _ ↦
          let (answer, cp2) =
            wait_for_approval w.now session_id (w.meets (default_timeout m.policy))
              (publish_approval_request w.now session_id m others cp') in
          let c' = record c { cp = cp2 } in
          elim answer [
            | err e ↦
                cleanup_sandbox w sandbox_id (fail_session w.now session_id (wrap "approval" e) c')
            | ok _ ↦ complete w session_id sandbox_id c'
          ]
    ]

unfoldable pub finish : World → String → String → List MatchResult → Coordinator → Coordinator
unfolding gate
finish w session_id sandbox_id [] c = complete w session_id sandbox_id c
finish w session_id sandbox_id (m ∷ others) c = gate w session_id sandbox_id m others c

unfoldable pub handle_output :
    Config → World → String → Adapter → String → Output → Coordinator → Coordinator
unfolding read_output finish
handle_output cfg w session_id a sandbox_id out c =
    let (calls, cp') = read_output w.now session_id a.parse_event out.stdout c.cp in
    let c' = record c { cp = cp' } in
    if out.exit_code == 0
    then finish w session_id sandbox_id (check_policies cfg.policies calls) c'
    else cleanup_sandbox w sandbox_id
        (fail_session w.now session_id (agent_exited out.exit_code (trim_space out.stderr)) c')
