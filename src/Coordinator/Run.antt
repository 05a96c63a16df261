-- ===== src/Coordinator/Run.antt =====
-- `runAgent` and `handleCrash` of internal/coordinator/coordinator.go. What the sandbox, the token
-- issuer and the human answer during one run is a record, `World`.
pub mod Finish
pub mod Cleans
pub mod Cleanup
pub mod Allows
pub mod Approved
pub mod Retries
pub mod Rounds
use foreman.Prelude.{
  within, ℕ, suc, ◌+◌, ◌*◌, String, Bool, true, false, not, Option, none, some, List, [], ◌∷◌, ◌++◌,
  Result, ok, err, Error, message, wrap, heartbeat_lost, agent_exited, retries_exhausted, str_eq,
  leb, ltb, ◌==◌, if◌then◌else◌, ◌>>=◌,
}
use foreman.Prelude.Dict.{Dict, lookup, insert, delete}
use foreman.Prelude.Text.{first_field}
use foreman.Schemas.{Status, same_status, running, approval, completed}
use foreman.StateStore.{Metadata, Value, text, number, failure}
use foreman.Policy.{second, ToolUse, default_timeout}
use foreman.ControlPlane.{ControlPlane, transition, audit, save_checkpoint}
use foreman.Coordinator.{Config, Coordinator, Adapter, AgentConfig, Spawn, fail_session}
use foreman.Coordinator.Heartbeat.{monitor_heartbeat}
use foreman.Coordinator.Approval.{Meets, check_policies}
use foreman.Coordinator.Run.Finish.{World, SandboxSpec, cleanup_sandbox, handle_output}

unfoldable pub pick_adapter : Config → String → Result Adapter
pick_adapter cfg agent_name =
    if str_eq agent_name ""
    then (elim cfg.adapter_list [ [] ↦ err (message "no agent adapter configured") | a ∷ _ ↦ ok a ])
    else (elim (lookup agent_name cfg.adapters) [
      | none ↦ err (message "agent adapter not found")
      | some a ↦ ok a
    ])

-- The configuration with an image of its own, of an agent that is verified in the sandbox.
unfoldable pub sandbox_config : Config → Adapter → Option AgentConfig
sandbox_config cfg a = elim (lookup a.name cfg.agent_configs) [
  | none ↦ none
  | some ac ↦ if str_eq ac.sandbox_image "" then none else some ac
]

abbrev image_of : Option AgentConfig → String
image_of none = ""
image_of (some ac) = ac.sandbox_image

abbrev host_verify : Option AgentConfig → Adapter → Result (Unit {0})
host_verify none a = a.verify
host_verify (some ac) a = ok tt

abbrev issue : Option (Result String) → Result (Option String)
issue none = ok none
issue (some (ok token)) = ok (some token)
issue (some (err e)) = err e

-- Everything that comes before the sandbox: the host's verification, the command and the token.
unfoldable pub prepare :
    Config → World → String → String → Adapter → Result (List String × SandboxSpec)
unfolding sandbox_config
prepare cfg w session_id description a = do
  verified ← within "adapter verify" (host_verify (sandbox_config cfg a) a)
  args ← within "build config" (a.build_config description session_id)
  token ← within "issue scoped token" (issue w.token)
  ok (args, record { image = image_of (sandbox_config cfg a); agent_token = token })

-- `command -v` inside the sandbox.
unfoldable pub verify_binary : World → String → Result (Unit {0})
verify_binary w binary = elim (w.verify_exec binary) [
  | err e ↦ err (wrap "sandbox verify" e)
  | ok (exit_code, stderr) ↦
      if exit_code == 0 then ok tt else err (wrap "sandbox verify" (agent_exited exit_code stderr))
]

-- `none` is the panic of `strings.Fields(agentCmd)[0]`.
unfoldable pub verify_sandbox : World → Option AgentConfig → Option (Result (Unit {0}))
unfolding verify_binary
verify_sandbox w none = some (ok tt)
verify_sandbox w (some ac) = elim (first_field ac.cmd) [
  | none ↦ none
  | some binary ↦ some (verify_binary w binary)
]

-- Idempotent: a session that is already RUNNING stays as it is.
unfoldable pub enter_running : ℕ → String → ControlPlane → Result (Unit {0}) × ControlPlane
enter_running now session_id cp = elim (lookup session_id cp.sessions) [
  | none ↦ transition now session_id running cp
  | some s ↦
      if same_status s.status running then (ok tt, cp) else transition now session_id running cp
]

unfoldable pub attempt_of : String → Dict ℕ → ℕ
attempt_of session_id attempts = elim (lookup session_id attempts) [ none ↦ 0 | some n ↦ n ]

unfoldable pub agent_of : String → ControlPlane → String
agent_of session_id cp = elim (lookup session_id cp.sessions) [ none ↦ "" | some s ↦ s.agent ]

unfoldable pub audit_retry : ℕ → String → ℕ → ControlPlane → ControlPlane
audit_retry now session_id attempt cp =
    audit now session_id "coordinator.agent_retrying" (("attempt", number attempt) ∷ []) cp

unfoldable pub retry_spawn : String → String → ControlPlane → Spawn
unfolding agent_of
retry_spawn session_id description cp = record {
  session_id = session_id;
  description = description;
  agent = agent_of session_id cp;
}

-- The rest of `handleCrash`, once the dead sandbox is gone.
unfoldable pub retry_or_fail :
    Config → World → String → String → ℕ → Error → Coordinator → Coordinator
unfolding audit_retry retry_spawn
retry_or_fail cfg w session_id description attempt crash c =
    if ltb cfg.max_retries attempt
    then fail_session w.now session_id (retries_exhausted attempt crash) (record c {
      cp =
          audit w.now session_id "coordinator.retries_exhausted"
            (("error", failure crash) ∷ ("attempt", number attempt) ∷ []) c.cp;
    })
    else (let cp' = audit_retry w.now session_id attempt c.cp in
        if w.backed_off
        then record c {
          cp = cp';
          spawned = c.spawned ++ retry_spawn session_id description cp' ∷ [];
        }
        else record c { cp = cp' })

-- The next attempt, and its checkpoint.
unfoldable pub count_crash : ℕ → String → Error → Coordinator → Coordinator
unfolding attempt_of
count_crash now session_id crash c =
    let attempt = attempt_of session_id c.attempts + 1 in
    let snapshot : Metadata =
      ("session_id", text session_id)
      ∷ ("step", text "crashed")
      ∷ ("error", failure crash)
      ∷ ("attempt", number attempt)
      ∷ [] in
    record c {
      attempts = insert session_id attempt c.attempts;
      cp = (save_checkpoint now session_id snapshot c.cp).1;
    }

unfoldable pub handle_crash :
    Config → World → String → String → String → Error → Coordinator → Coordinator
unfolding retry_or_fail attempt_of count_crash
handle_crash cfg w session_id description sandbox_id crash c =
    retry_or_fail cfg w session_id description (attempt_of session_id c.attempts + 1) crash
      (cleanup_sandbox w sandbox_id (count_crash w.now session_id crash c))

abbrev pub exec_timeout : Config → ℕ
exec_timeout cfg = if leb cfg.default_timeout 0 then 30 * 60 * second else cfg.default_timeout

-- The run's end, by the heartbeats that came during it: a crash, an error of the execution, or the
-- agent's output.
abbrev pub audit_crash : ℕ → String → Error → Coordinator → Coordinator
audit_crash now session_id crash c = record c {
  cp = audit now session_id "coordinator.agent_crashed" (("error", failure crash) ∷ []) c.cp;
}

unfoldable pub supervise :
    Config → World → String → String → Adapter → List String → String → Coordinator → Coordinator
supervise cfg w session_id description a args sandbox_id c =
    let (crashed, heartbeats') = monitor_heartbeat cfg session_id w.beats c.heartbeats in
    let c' = record c { heartbeats = heartbeats' } in
    elim crashed [
      | some failures ↦
          let crash = heartbeat_lost failures in
          handle_crash cfg w session_id description sandbox_id crash
            (audit_crash w.now session_id crash c')
      | none ↦ elim (w.execute args (exec_timeout cfg)) [
        | err e ↦
            cleanup_sandbox w sandbox_id (fail_session w.now session_id (wrap "execute agent" e) c')
        | ok out ↦ handle_output cfg w session_id a sandbox_id out c'
      ]
    ]

unfoldable pub audit_sandbox : ℕ → String → Adapter → String → ControlPlane → ControlPlane
audit_sandbox now session_id a sandbox_id cp =
    audit now session_id "coordinator.sandbox_provisioned"
      (("sandbox_id", text sandbox_id) ∷ ("agent", text a.name) ∷ []) cp

-- An error of the baseline checkpoint is logged.
unfoldable pub save_baseline : ℕ → String → String → Adapter → String → ControlPlane → ControlPlane
save_baseline now session_id description a sandbox_id cp =
    let snapshot : Metadata =
      ("session_id", text session_id)
      ∷ ("description", text description)
      ∷ ("sandbox_id", text sandbox_id)
      ∷ ("step", text "allocated")
      ∷ ("agent", text a.name)
      ∷ [] in
    (save_checkpoint now session_id snapshot cp).1

-- From the audit of the sandbox on.
unfoldable pub run_in_sandbox :
    Config → World → String → String → Adapter → List String → String → Coordinator → Coordinator
unfolding supervise audit_sandbox save_baseline enter_running
run_in_sandbox cfg w session_id description a args sandbox_id c =
    let (moved, cp') =
      enter_running w.now session_id (audit_sandbox w.now session_id a sandbox_id c.cp) in
    elim moved [
      | err e ↦ cleanup_sandbox w sandbox_id (record c { cp = cp' })
      | ok _ ↦
          supervise cfg w session_id description a args sandbox_id
            (record c { cp = save_baseline w.now session_id description a sandbox_id cp' })
    ]

-- From the provisioning on.
unfoldable pub run_provisioned :
    Config
    → World
    → String
    → String
    → Adapter
    → List String × SandboxSpec
    → Coordinator
    → Option Coordinator
unfolding sandbox_config verify_sandbox run_in_sandbox
run_provisioned cfg w session_id description a (args, spec) c = elim (w.provision spec) [
  | err e ↦ some (fail_session w.now session_id (wrap "provision sandbox" e) c)
  | ok sandbox_id ↦
      let c' = record c { sandboxes = sandbox_id ∷ c.sandboxes } in
      elim (verify_sandbox w (sandbox_config cfg a)) [
        | none ↦ none
        | some (err e) ↦ some (fail_session w.now session_id e (cleanup_sandbox w sandbox_id c'))
        | some (ok _) ↦ some (run_in_sandbox cfg w session_id description a args sandbox_id c')
      ]
]

abbrev pub audit_adapter : ℕ → String → Adapter → Coordinator → Coordinator
audit_adapter now session_id a c = record c {
  cp = audit now session_id "coordinator.adapter_selected" (("adapter", text a.name) ∷ []) c.cp;
}

-- `runAgent` less its deferred function.
unfoldable pub run_body :
    Config → World → String → String → String → Coordinator → Option Coordinator
unfolding pick_adapter prepare run_provisioned
run_body cfg w session_id description agent_name c = elim (pick_adapter cfg agent_name) [
  | err e ↦ some (fail_session w.now session_id e c)
  | ok a ↦
      let c' = audit_adapter w.now session_id a c in
      elim (prepare cfg w session_id description a) [
        | err e ↦ some (fail_session w.now session_id e c')
        | ok prepared ↦ run_provisioned cfg w session_id description a prepared c'
      ]
]

-- The session leaves the active ones at the end. `none` is a panic, which ends the program.
unfoldable pub run_agent :
    Config → World → String → String → String → Coordinator → Option Coordinator
unfolding run_body
run_agent cfg w session_id description agent_name c =
    elim (run_body cfg w session_id description agent_name c) [
      | none ↦ none
      | some c' ↦ some (record c' { active = delete session_id c'.active })
    ]
