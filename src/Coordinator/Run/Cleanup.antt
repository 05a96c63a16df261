-- ===== src/Coordinator/Run/Cleanup.antt =====
-- `runAgent` of internal/coordinator/coordinator.go: what a run leaves behind.
use foreman.Prelude.{
  String, ◌≡◌, ◌≢◌, refl, subst, eq_iff, true, Option, none, some, List, ◌∷◌, Result, ok, wrap,
  arith, inl, inr, Bool-cases, Option-cases, Result-cases, str_eq, eq_refl,
}
use foreman.Prelude.Dict.{lookup, delete, lookup-delete}
use foreman.Prelude.Text.{first_field}
use foreman.Coordinator.{Config, Coordinator, Adapter, AgentConfig, fail_session}
use foreman.Coordinator.Run.Finish.{World, SandboxSpec, cleanup_sandbox}
use foreman.Coordinator.Run.{
  run_agent, run_body, run_provisioned, run_in_sandbox, verify_sandbox, verify_binary,
  audit_adapter, sandbox_config, pick_adapter, prepare,
}
use foreman.Coordinator.Run.Cleans.{cleanup_sandbox-Cleans, run_in_sandbox-Cleans}

-- The command of every agent that has an image of its own has a first word.
abbrev pub HasBinaries : Config → Type 0
HasBinaries cfg =
    (name : String) (ac : AgentConfig)
    → lookup name cfg.agent_configs ≡ some ac
    → ac.sandbox_image ≢ ""
    → first_field ac.cmd ≢ none

sandbox_config-cmd :
    (cfg : Config) (a : Adapter) (ac : AgentConfig)
    → HasBinaries cfg
    → sandbox_config cfg a ≡ some ac
    → first_field ac.cmd ≢ none
unfolding sandbox_config
sandbox_config-cmd cfg a ac has e = elim (Option-cases (lookup a.name cfg.agent_configs)) [
  | inl f ↦ absurd (ground arith)
  | inr (b, f) ↦ elim (Bool-cases (str_eq b.sandbox_image "")) [
    | inl g ↦ absurd (ground arith)
    | inr g ↦
        (let same : b ≡ ac = ground arith in
          subst (λ (z : AgentConfig). first_field z.cmd ≢ none) same
            (has a.name b f (λ h. ground (arith, eq_iff b.sandbox_image ""))))
  ]
]

verify_sandbox-some :
    (cfg : Config) (w : World) (a : Adapter)
    → HasBinaries cfg
    → (r : Result (Unit {0})) × (verify_sandbox w (sandbox_config cfg a) ≡ some r)
unfolding verify_sandbox
verify_sandbox-some cfg w a has = elim (Option-cases (sandbox_config cfg a)) [
  | inl e ↦ (ok tt, rw e)
  | inr (ac, e) ↦ elim (Option-cases (first_field ac.cmd)) [
    | inl f ↦ absurd (sandbox_config-cmd cfg a ac has e f)
    | inr (b, f) ↦ (verify_binary w b, rw (e, f, verify_sandbox))
  ]
]

-- The answer is there, and its sandboxes are the ones of before.
abbrev Returns : Coordinator → Option Coordinator → Type 0
Returns c answer = (c' : Coordinator) × (answer ≡ some c') × (c'.sandboxes ≡ c.sandboxes)

run_provisioned-Returns :
    (cfg : Config) (w : World) (sid desc : String) (a : Adapter) (p : List String × SandboxSpec)
    (c : Coordinator)
    → HasBinaries cfg
    → w.destroyed ≡ true
    → Returns c (run_provisioned cfg w sid desc a p c)
unfolding run_provisioned fail_session
run_provisioned-Returns cfg w sid desc a (args, spec) c has d =
    elim (Result-cases (w.provision spec)) [
      | inr (x, f) ↦
          (fail_session w.now sid (wrap "provision sandbox" x) c, rw (f, run_provisioned), refl)
      | inl (sbx, f) ↦
          let c' = record c { sandboxes = sbx ∷ c.sandboxes } in
          let (r, g) = verify_sandbox-some cfg w a has in
          elim (Result-cases r) [
            | inr (x, h) ↦ (
              fail_session w.now sid x (cleanup_sandbox w sbx c'),
              rw (f, g, h, run_provisioned),
              cleanup_sandbox-Cleans w sbx c' d c.sandboxes refl,
            )
            | inl (_, h) ↦ (
              run_in_sandbox cfg w sid desc a args sbx c',
              rw (f, g, h, run_provisioned),
              run_in_sandbox-Cleans cfg w sid desc a args sbx c' d c.sandboxes refl,
            )
          ]
    ]

run_body-Returns :
    (cfg : Config) (w : World) (sid desc agent : String) (c : Coordinator)
    → HasBinaries cfg
    → w.destroyed ≡ true
    → Returns c (run_body cfg w sid desc agent c)
unfolding run_body fail_session
run_body-Returns cfg w sid desc agent c has d = elim (Result-cases (pick_adapter cfg agent)) [
  | inr (x, f) ↦ (fail_session w.now sid x c, rw (f, run_body), refl)
  | inl (a, f) ↦
      let c' = audit_adapter w.now sid a c in
      elim (Result-cases (prepare cfg w sid desc a)) [
        | inr (x, g) ↦ (fail_session w.now sid x c', rw (f, g, run_body), refl)
        | inl (p, g) ↦
            (let r = run_provisioned-Returns cfg w sid desc a p c' has d in
              (r.0, rw (f, g, run_body) r.1, r.2))
      ]
]

-- Where every agent with an image of its own has a command and Destroy succeeds, a run returns
-- whatever its world answers, the sandboxes that exist at its end are those of before, and the
-- session is no longer active.
pub run_agent_cleanup :
    (cfg : Config) (w : World) (sid desc agent : String) (c : Coordinator)
    → HasBinaries cfg
    → w.destroyed ≡ true
    → (c' : Coordinator) × (run_agent cfg w sid desc agent c ≡ some c')
      × (c'.sandboxes ≡ c.sandboxes)
      × (lookup sid c'.active ≡ none)
unfolding run_agent
run_agent_cleanup cfg w sid desc agent c has d =
    let (c', e, same) = run_body-Returns cfg w sid desc agent c has d in
    (
      record c' { active = delete sid c'.active },
      rw (e, run_agent),
      same,
      ground (arith, lookup-delete sid sid c'.active, eq_refl sid),
    )
