-- ===== src/Coordinator/Run/Approved.antt =====
-- `runAgent` of internal/coordinator/coordinator.go: what a session went through that it completed.

use foreman.Prelude.{
  ℕ, ◌+◌, String, ◌≡◌, refl, subst, Option, none, some, List, ◌∷◌, ◌⊎◌, ok, Error, wrap,
  heartbeat_lost, retries_exhausted, ltb, arith, inl, inr, Bool-cases, Option-cases, Result-cases,
}
use foreman.Prelude.Dict.{lookup}
use foreman.Schemas.{running, completed, same_status}
use foreman.ControlPlane.{ControlPlane}
use foreman.ControlPlane.Undone.{
  IsUndone, status_in, transition-IsUndone, save_checkpoint-IsUndone, sessions-audit,
}
use foreman.Coordinator.{Config, Coordinator, Adapter}
use foreman.Coordinator.Heartbeat.{monitor_heartbeat}
use foreman.Coordinator.Run.Finish.{World, Output, SandboxSpec, cleanup_sandbox}
use foreman.Coordinator.Run.Allows.{
  Undone, fail_session-Undone, cleanup_sandbox-Undone, Allows, handle_output-Allows,
}
use foreman.Coordinator.Run.{
  run_agent, run_body, run_provisioned, run_in_sandbox, supervise, handle_crash, retry_or_fail,
  enter_running, verify_sandbox, count_crash, audit_crash, audit_sandbox, save_baseline,
  audit_adapter, audit_retry, attempt_of, exec_timeout, sandbox_config, pick_adapter, prepare,
}

retry_or_fail-Undone :
    (cfg : Config) (w : World) (sid desc : String) (n : ℕ) (x : Error) (c : Coordinator)
    → Undone sid c
    → Undone sid (retry_or_fail cfg w sid desc n x c)
unfolding retry_or_fail audit_retry
retry_or_fail-Undone cfg w sid desc n x c h = elim (Bool-cases (ltb cfg.max_retries n)) [
  | inl e ↦
      rw (e, retry_or_fail)
        (fail_session-Undone w.now sid (retries_exhausted n x) _ (rw sessions-audit h))
  | inr e ↦
      rw (e, retry_or_fail)
        (elim (Bool-cases w.backed_off) [
          | inl f ↦ rw (f, sessions-audit) h
          | inr f ↦ rw (f, sessions-audit) h
        ])
]

handle_crash-Undone :
    (cfg : Config) (w : World) (sid desc sbx : String) (x : Error) (c : Coordinator)
    → Undone sid c
    → Undone sid (handle_crash cfg w sid desc sbx x c)
unfolding handle_crash count_crash
handle_crash-Undone cfg w sid desc sbx x c h =
    let counted = count_crash w.now sid x c in
    retry_or_fail-Undone cfg w sid desc (attempt_of sid c.attempts + 1) x
      (cleanup_sandbox w sbx counted)
      (cleanup_sandbox-Undone w sid sbx counted (save_checkpoint-IsUndone w.now sid _ c.cp h))

-- The command that the adapter made ran, and its output allows the session to complete.
abbrev pub Permits : Config → World → Adapter → List String → Type 0
Permits cfg w a args =
    (out : Output) × (w.execute args (exec_timeout cfg) ≡ ok out) × Allows cfg w a out

supervise-Permits :
    (cfg : Config) (w : World) (sid desc : String) (a : Adapter) (args : List String) (sbx : String)
    (c : Coordinator)
    → Undone sid c
    → Undone sid (supervise cfg w sid desc a args sbx c) ⊎ Permits cfg w a args
unfolding supervise
supervise-Permits cfg w sid desc a args sbx c h =
    let seen = monitor_heartbeat cfg sid w.beats c.heartbeats in
    let c' = record c { heartbeats = seen.1 } in
    elim (Option-cases seen.0) [
      | inr (n, f) ↦ inl (
          rw (f, supervise)
            (handle_crash-Undone cfg w sid desc sbx (heartbeat_lost n)
              (audit_crash w.now sid (heartbeat_lost n) c') (rw sessions-audit h)))
      | inl f ↦ elim (Result-cases (w.execute args (exec_timeout cfg))) [
        | inr (x, g) ↦ inl (
            rw (f, g, supervise)
              (cleanup_sandbox-Undone w sid sbx _
                (fail_session-Undone w.now sid (wrap "execute agent" x) c' h)))
        | inl (out, g) ↦ elim (handle_output-Allows cfg w sid a sbx out c' h) [
          | inl u ↦ inl (rw (f, g, supervise) u)
          | inr al ↦ inr (out, g, al)
        ]
      ]
    ]

enter_running-Undone :
    (now : ℕ) (sid : String) (cp : ControlPlane)
    → IsUndone sid cp.sessions
    → IsUndone sid (enter_running now sid cp).1.sessions
unfolding enter_running
enter_running-Undone now sid cp h =
    let moved = transition-IsUndone now sid running cp (λ e. ground arith) h in
    elim (Option-cases (lookup sid cp.sessions)) [
      | inl e ↦ rw (e, enter_running) moved
      | inr (s, e) ↦
          rw (e, enter_running)
            (elim (Bool-cases (same_status s.status running)) [
              | inl f ↦ rw f h
              | inr f ↦ rw f moved
            ])
    ]

run_in_sandbox-Permits :
    (cfg : Config) (w : World) (sid desc : String) (a : Adapter) (args : List String) (sbx : String)
    (c : Coordinator)
    → Undone sid c
    → Undone sid (run_in_sandbox cfg w sid desc a args sbx c) ⊎ Permits cfg w a args
unfolding run_in_sandbox audit_sandbox save_baseline
run_in_sandbox-Permits cfg w sid desc a args sbx c h =
    let entered = enter_running w.now sid (audit_sandbox w.now sid a sbx c.cp) in
    let still =
      enter_running-Undone w.now sid (audit_sandbox w.now sid a sbx c.cp) (rw sessions-audit h) in
    elim (Result-cases entered.0) [
      | inr (x, f) ↦ inl (
          rw (f, run_in_sandbox)
            (cleanup_sandbox-Undone w sid sbx (record c { cp = entered.1 }) still))
      | inl (_, f) ↦
          elim (supervise-Permits cfg w sid desc a args sbx
            (record c { cp = save_baseline w.now sid desc a sbx entered.1 })
            (save_checkpoint-IsUndone w.now sid _ entered.1 still)) [
              | inl u ↦ inl (rw (f, run_in_sandbox) u)
              | inr p ↦ inr p
            ]
    ]

-- What holds of the coordinator of an answer, where there is one.
abbrev Then : (Coordinator → Type 0) → Option Coordinator → Type 0
Then P none = Unit
Then P (some c) = P c

Then-map :
    {P Q : Coordinator → Type 0} (o : Option Coordinator)
    → ((c : Coordinator) → P c → Q c)
    → Then P o
    → Then Q o
Then-map none f h = tt
Then-map (some c) f h = f c h

run_provisioned-Permits :
    (cfg : Config) (w : World) (sid desc : String) (a : Adapter) (args : List String)
    (spec : SandboxSpec) (c : Coordinator)
    → Undone sid c
    → Then
        (λ c'. Undone sid c' ⊎ Permits cfg w a args)
        (run_provisioned cfg w sid desc a (args, spec) c)
unfolding run_provisioned
run_provisioned-Permits cfg w sid desc a args spec c h = elim (Result-cases (w.provision spec)) [
  | inr (x, f) ↦
      rw (f, run_provisioned) (inl (fail_session-Undone w.now sid (wrap "provision sandbox" x) c h))
  | inl (sbx, f) ↦
      let c' = record c { sandboxes = sbx ∷ c.sandboxes } in
      rw (f, run_provisioned)
        (elim (Option-cases (verify_sandbox w (sandbox_config cfg a))) [
          | inl g ↦ rw g tt
          | inr (r, g) ↦ rw g (elim (Result-cases r) [
            | inr (x, k) ↦ rw k (
                inl (
                  fail_session-Undone w.now sid x (cleanup_sandbox w sbx c')
                    (cleanup_sandbox-Undone w sid sbx c' h)))
            | inl (_, k) ↦ rw k (run_in_sandbox-Permits cfg w sid desc a args sbx c' h)
          ])
        ])
]

-- What a run that completes its session did: the adapter and the command, and why it was allowed.
abbrev pub Ran : Config → World → String → String → String → Type 0
Ran cfg w sid desc agent =
    (a : Adapter) × (args : List String) × (spec : SandboxSpec) × (pick_adapter cfg agent ≡ ok a)
    × (prepare cfg w sid desc a ≡ ok (args, spec))
    × Permits cfg w a args

run_body-Ran :
    (cfg : Config) (w : World) (sid desc agent : String) (c : Coordinator)
    → Undone sid c
    → Then (λ c'. Undone sid c' ⊎ Ran cfg w sid desc agent) (run_body cfg w sid desc agent c)
unfolding run_body
run_body-Ran cfg w sid desc agent c h = elim (Result-cases (pick_adapter cfg agent)) [
  | inr (x, f) ↦ rw (f, run_body) (inl (fail_session-Undone w.now sid x c h))
  | inl (a, f) ↦
      let c' = audit_adapter w.now sid a c in
      let h' : Undone sid c' = rw sessions-audit h in
      rw (f, run_body)
        (elim (Result-cases (prepare cfg w sid desc a)) [
          | inr (x, g) ↦ rw g (inl (fail_session-Undone w.now sid x c' h'))
          | inl ((args, spec), g) ↦ rw g (
              Then-map (run_provisioned cfg w sid desc a (args, spec) c')
                (λ d k. elim k [ inl u ↦ inl u | inr p ↦ inr (a, args, spec, refl, g, p) ])
                (run_provisioned-Permits cfg w sid desc a args spec c' h'))
        ])
]

-- Where a run returns and has completed a session that had not completed, the command of the chosen
-- adapter was built and executed, it exited with 0, and no tool call of its output asks for a human,
-- or a human granted the first that does.
pub run_agent_completed :
    (cfg : Config) (w : World) (sid desc agent : String) (c c' : Coordinator)
    → run_agent cfg w sid desc agent c ≡ some c'
    → IsUndone sid c.cp.sessions
    → status_in sid c'.cp.sessions ≡ some completed
    → Ran cfg w sid desc agent
unfolding run_agent
run_agent_completed cfg w sid desc agent c c' e h done =
    elim (Option-cases (run_body cfg w sid desc agent c)) [
      | inl f ↦ absurd (ground arith)
      | inr (d, f) ↦
          let same : d.cp ≡ c'.cp = ground arith in
          elim (subst (Then (λ c'. Undone sid c' ⊎ Ran cfg w sid desc agent)) f
            (run_body-Ran cfg w sid desc agent c h)) [
              | inl u ↦ absurd (u (rw same done))
              | inr r ↦ r
            ]
    ]
