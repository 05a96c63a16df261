-- ===== src/Coordinator/Run/Retries.antt =====
-- `handleCrash` of internal/coordinator/coordinator.go: when a run starts another one.
use foreman.Prelude.{
  ℕ, subst, ◌+◌, ◌≤◌, String, ◌≡◌, refl, Option, none, some, List, [], ◌∷◌, ◌++◌, Error, wrap,
  heartbeat_lost, arith, inl, inr, Bool-cases, Option-cases, Result-cases, eq_refl, ltb, ◌==◌,
}
use foreman.Prelude.Dict.{lookup, insert, Dict, lookup-delete}
use foreman.Coordinator.{Config, Coordinator, Adapter, Spawn, fail_session}
use foreman.Coordinator.Approval.{MatchResult, check_policies}
use foreman.Coordinator.Heartbeat.{monitor_heartbeat}
use foreman.Coordinator.Run.Finish.{
  World, Output, SandboxSpec, cleanup_sandbox, complete, gate, finish, handle_output, read_output,
}
use foreman.Coordinator.Run.{
  run_agent, run_body, run_provisioned, run_in_sandbox, supervise, handle_crash, retry_or_fail,
  enter_running, verify_sandbox, count_crash, audit_crash, audit_sandbox, save_baseline,
  audit_adapter, exec_timeout, retry_spawn, attempt_of, sandbox_config, pick_adapter, prepare,
}

-- What a stage does to the goroutines and the attempts: nothing; or it uses up an attempt and starts
-- nothing; or it uses one up that is within the limit and starts the given goroutine.
pub data Change (cfg : Config) (sid : String) (s : Spawn) (ss : List Spawn) (tries : Dict ℕ)
    (ss' : List Spawn) (tries' : Dict ℕ) : Type 0 where
  same : ss' ≡ ss → tries' ≡ tries → Change cfg sid s ss tries ss' tries'
  gives_up :
      ss' ≡ ss
      → tries' ≡ insert sid (attempt_of sid tries + 1) tries
      → Change cfg sid s ss tries ss' tries'
  again :
      attempt_of sid tries + 1 ≤ cfg.max_retries
      → ss' ≡ ss ++ s ∷ []
      → tries' ≡ insert sid (attempt_of sid tries + 1) tries
      → Change cfg sid s ss tries ss' tries'

-- The goroutine that would be started again: the session's, with the description of the run and the
-- agent that the session has in the end.
abbrev pub respawn : String → String → Coordinator → Spawn
respawn sid desc c = record {
  session_id = sid;
  description = desc;
  agent = elim (lookup sid c.cp.sessions) [ none ↦ "" | some t ↦ t.agent ];
}

abbrev pub Retries : Config → String → String → Coordinator → Coordinator → Type 0
Retries cfg sid desc c c' =
    Change cfg sid (respawn sid desc c') c.spawned c.attempts c'.spawned c'.attempts

-- The stage leaves the goroutines and the attempts alone.
abbrev Quiet : Coordinator → Coordinator → Type 0
Quiet c c' = (c'.spawned ≡ c.spawned) × (c'.attempts ≡ c.attempts)

cleanup_sandbox-Quiet :
    (w : World) (sbx : String) (c : Coordinator) → Quiet c (cleanup_sandbox w sbx c)
unfolding cleanup_sandbox
cleanup_sandbox-Quiet w sbx c = ground arith

complete-Quiet : (w : World) (sid sbx : String) (c : Coordinator) → Quiet c (complete w sid sbx c)
unfolding complete cleanup_sandbox
complete-Quiet w sid sbx c = ground arith

gate-Quiet :
    (w : World) (sid sbx : String) (m : MatchResult) (others : List MatchResult) (c : Coordinator)
    → Quiet c (gate w sid sbx m others c)
unfolding gate complete cleanup_sandbox fail_session
gate-Quiet w sid sbx m others c = ground arith

finish-Quiet :
    (w : World) (sid sbx : String) (ms : List MatchResult) (c : Coordinator)
    → Quiet c (finish w sid sbx ms c)
unfolding finish
finish-Quiet w sid sbx [] c = complete-Quiet w sid sbx c
finish-Quiet w sid sbx (m ∷ others) c = gate-Quiet w sid sbx m others c

handle_output-Quiet :
    (cfg : Config) (w : World) (sid : String) (a : Adapter) (sbx : String) (out : Output)
    (c : Coordinator)
    → Quiet c (handle_output cfg w sid a sbx out c)
unfolding handle_output fail_session cleanup_sandbox
handle_output-Quiet cfg w sid a sbx out c =
    let read = read_output w.now sid a.parse_event out.stdout c.cp in
    let c' = record c { cp = read.1 } in
    elim (Bool-cases (out.exit_code == 0)) [
      | inl f ↦
          rw (f, handle_output) (finish-Quiet w sid sbx (check_policies cfg.policies read.0) c')
      | inr f ↦ ground arith
    ]

handle_crash-Retries :
    (cfg : Config) (w : World) (sid desc sbx : String) (x : Error) (c : Coordinator)
    → Retries cfg sid desc c (handle_crash cfg w sid desc sbx x c)
unfolding handle_crash retry_spawn retry_or_fail cleanup_sandbox count_crash fail_session
handle_crash-Retries cfg w sid desc sbx x c =
    elim (Bool-cases (ltb cfg.max_retries (attempt_of sid c.attempts + 1))) [
      | inl f ↦ gives_up (ground arith) (ground arith)
      | inr f ↦ elim (Bool-cases w.backed_off) [
        | inl g ↦ again (ground arith) (ground arith) (ground arith)
        | inr g ↦ gives_up (ground arith) (ground arith)
      ]
    ]

supervise-Retries :
    (cfg : Config) (w : World) (sid desc : String) (a : Adapter) (args : List String) (sbx : String)
    (c : Coordinator)
    → Retries cfg sid desc c (supervise cfg w sid desc a args sbx c)
unfolding supervise fail_session attempt_of
supervise-Retries cfg w sid desc a args sbx c =
    let seen = monitor_heartbeat cfg sid w.beats c.heartbeats in
    let c' = record c { heartbeats = seen.1 } in
    let ran = w.execute args (exec_timeout cfg) in
    elim (Option-cases seen.0) [
      | inr (n, f) ↦
          rw (f, supervise)
            (handle_crash-Retries cfg w sid desc sbx (heartbeat_lost n)
              (audit_crash w.now sid (heartbeat_lost n) c'))
      | inl f ↦
          rw (f, supervise)
            (elim (Result-cases ran) [
              | inr (x, g) ↦ rw g (
                  let q =
                    cleanup_sandbox-Quiet w sbx
                      (fail_session w.now sid (wrap "execute agent" x) c') in
                  same q.0 q.1)
              | inl (out, g) ↦
                  rw g (let q = handle_output-Quiet cfg w sid a sbx out c' in same q.0 q.1)
            ])
    ]

run_in_sandbox-Retries :
    (cfg : Config) (w : World) (sid desc : String) (a : Adapter) (args : List String) (sbx : String)
    (c : Coordinator)
    → Retries cfg sid desc c (run_in_sandbox cfg w sid desc a args sbx c)
unfolding run_in_sandbox
run_in_sandbox-Retries cfg w sid desc a args sbx c =
    let entered = enter_running w.now sid (audit_sandbox w.now sid a sbx c.cp) in
    elim (Result-cases entered.0) [
      | inr (x, f) ↦
          rw (f, run_in_sandbox)
            (let q = cleanup_sandbox-Quiet w sbx (record c { cp = entered.1 }) in same q.0 q.1)
      | inl (_, f) ↦
          rw (f, run_in_sandbox)
            (supervise-Retries cfg w sid desc a args sbx
              (record c { cp = save_baseline w.now sid desc a sbx entered.1 }))
    ]

-- What holds of the coordinator of an answer, where there is one.
abbrev Then : (Coordinator → Type 0) → Option Coordinator → Type 0
Then P none = Unit
Then P (some c) = P c

run_provisioned-Retries :
    (cfg : Config) (w : World) (sid desc : String) (a : Adapter) (p : List String × SandboxSpec)
    (c : Coordinator)
    → Then (Retries cfg sid desc c) (run_provisioned cfg w sid desc a p c)
unfolding run_provisioned fail_session
run_provisioned-Retries cfg w sid desc a (args, spec) c = elim (Result-cases (w.provision spec)) [
  | inr (x, f) ↦ rw (f, run_provisioned) (same refl refl)
  | inl (sbx, f) ↦
      let c' = record c { sandboxes = sbx ∷ c.sandboxes } in
      rw (f, run_provisioned)
        (elim (Option-cases (verify_sandbox w (sandbox_config cfg a))) [
          | inl g ↦ rw g tt
          | inr (r, g) ↦ rw g (elim (Result-cases r) [
            | inr (x, h) ↦ rw h (let q = cleanup_sandbox-Quiet w sbx c' in same q.0 q.1)
            | inl (_, h) ↦ rw h (run_in_sandbox-Retries cfg w sid desc a args sbx c')
          ])
        ])
]

run_body-Retries :
    (cfg : Config) (w : World) (sid desc agent : String) (c : Coordinator)
    → Then (Retries cfg sid desc c) (run_body cfg w sid desc agent c)
unfolding run_body fail_session
run_body-Retries cfg w sid desc agent c = elim (Result-cases (pick_adapter cfg agent)) [
  | inr (x, f) ↦ rw (f, run_body) (same refl refl)
  | inl (a, f) ↦
      rw (f, run_body)
        (elim (Result-cases (prepare cfg w sid desc a)) [
          | inr (x, g) ↦ rw g (same refl refl)
          | inl (p, g) ↦
              rw g (run_provisioned-Retries cfg w sid desc a p (audit_adapter w.now sid a c))
        ])
]

-- A run that returns starts at most one goroutine, and then only within the limit of retries, having
-- counted the attempt: it is for the same session, with the description of the run and the agent
-- that the session has in memory in the end. The session is then not among the active ones.
pub run_agent-Retries :
    (cfg : Config) (w : World) (sid desc agent : String) (c c' : Coordinator)
    → run_agent cfg w sid desc agent c ≡ some c'
    → Retries cfg sid desc c c' × (lookup sid c'.active ≡ none)
unfolding run_agent
run_agent-Retries cfg w sid desc agent c c' h =
    let P : Coordinator → Type 0 = λ d. Retries cfg sid desc c d × (lookup sid d.active ≡ none) in
    subst (Then P) h (elim (Option-cases (run_body cfg w sid desc agent c)) [
      | inl e ↦ rw (e, run_agent) tt
      | inr (d, e) ↦
          rw (e, run_agent)
            (
              subst (Then (Retries cfg sid desc c)) e (run_body-Retries cfg w sid desc agent c),
              ground (arith, lookup-delete sid sid d.active, eq_refl sid),
            )
    ])
