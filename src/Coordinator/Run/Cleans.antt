-- ===== src/Coordinator/Run/Cleans.antt =====
-- What the stages of `runAgent` in internal/coordinator/coordinator.go do to the sandboxes.
use foreman.Prelude.{
  ℕ, ◌+◌, String, ◌≡◌, ◌∙◌, true, List, [], ◌∷◌, Error, wrap, heartbeat_lost, agent_exited, arith,
  inl, inr, Bool-cases, Option-cases, Result-cases, eq_refl, ◌==◌,
}
use foreman.Prelude.Text.{trim_space}
use foreman.Schemas.{approval, completed}
use foreman.Policy.{default_timeout}
use foreman.ControlPlane.{transition}
use foreman.Coordinator.{Config, Coordinator, Adapter, fail_session}
use foreman.Coordinator.Approval.{
  MatchResult, wait_for_approval, publish_approval_request, check_policies,
}
use foreman.Coordinator.Heartbeat.{monitor_heartbeat}
use foreman.Coordinator.Run.Finish.{
  World, Output, remove_first, cleanup_sandbox, complete, gate, finish, handle_output, read_output,
  leave_approval,
}
use foreman.Coordinator.Run.{
  run_in_sandbox, supervise, handle_crash, retry_or_fail, enter_running, count_crash, audit_crash,
  audit_sandbox, save_baseline, attempt_of, exec_timeout,
}

-- The stage takes the sandbox out of those that exist.
abbrev pub Cleans : String → Coordinator → Coordinator → Type 0
Cleans sbx c c' = ((rest : List String) → c.sandboxes ≡ sbx ∷ rest → c'.sandboxes ≡ rest)

pub cleanup_sandbox-Cleans :
    (w : World) (sbx : String) (c : Coordinator)
    → w.destroyed ≡ true
    → Cleans sbx c (cleanup_sandbox w sbx c)
unfolding cleanup_sandbox remove_first
cleanup_sandbox-Cleans w sbx c d rest e = rw (d, e) (ground (arith, eq_refl sbx))

complete-Cleans :
    (w : World) (sid sbx : String) (c : Coordinator)
    → w.destroyed ≡ true
    → Cleans sbx c (complete w sid sbx c)
unfolding complete
complete-Cleans w sid sbx c d rest e = elim (Result-cases (leave_approval w.now sid c.cp).0) [
  | inr (x, f) ↦
      rw (f, complete)
        (cleanup_sandbox-Cleans w sbx (record c { cp = (leave_approval w.now sid c.cp).1 }) d rest
          e)
  | inl (_, f) ↦
      rw (f, complete)
        (cleanup_sandbox-Cleans w sbx
          (record c { cp = (transition w.now sid completed (leave_approval w.now sid c.cp).1).1 }) d
          rest e)
]

gate-Cleans :
    (w : World) (sid sbx : String) (m : MatchResult) (others : List MatchResult) (c : Coordinator)
    → w.destroyed ≡ true
    → Cleans sbx c (gate w sid sbx m others c)
unfolding gate fail_session
gate-Cleans w sid sbx m others c d rest e =
    let moved = transition w.now sid approval c.cp in
    elim (Result-cases moved.0) [
      | inr (x, f) ↦
          rw (f, gate) (cleanup_sandbox-Cleans w sbx (record c { cp = moved.1 }) d rest e)
      | inl (_, f) ↦
          let waited =
            wait_for_approval w.now sid (w.meets (default_timeout m.policy))
              (publish_approval_request w.now sid m others moved.1) in
          let c' = record c { cp = waited.1 } in
          rw (f, gate)
            (elim (Result-cases waited.0) [
              | inr (x, g) ↦ rw g (
                  cleanup_sandbox-Cleans w sbx (fail_session w.now sid (wrap "approval" x) c') d
                    rest e)
              | inl (_, g) ↦ rw g (complete-Cleans w sid sbx c' d rest e)
            ])
    ]

finish-Cleans :
    (w : World) (sid sbx : String) (ms : List MatchResult) (c : Coordinator)
    → w.destroyed ≡ true
    → Cleans sbx c (finish w sid sbx ms c)
unfolding finish
finish-Cleans w sid sbx [] c d = complete-Cleans w sid sbx c d
finish-Cleans w sid sbx (m ∷ others) c d = gate-Cleans w sid sbx m others c d

handle_output-Cleans :
    (cfg : Config) (w : World) (sid : String) (a : Adapter) (sbx : String) (out : Output)
    (c : Coordinator)
    → w.destroyed ≡ true
    → Cleans sbx c (handle_output cfg w sid a sbx out c)
unfolding handle_output fail_session
handle_output-Cleans cfg w sid a sbx out c d rest e =
    let read = read_output w.now sid a.parse_event out.stdout c.cp in
    let c' = record c { cp = read.1 } in
    elim (Bool-cases (out.exit_code == 0)) [
      | inl f ↦
          rw (f, handle_output)
            (finish-Cleans w sid sbx (check_policies cfg.policies read.0) c' d rest e)
      | inr f ↦
          rw (f, handle_output)
            (cleanup_sandbox-Cleans w sbx
              (fail_session w.now sid (agent_exited out.exit_code (trim_space out.stderr)) c') d
              rest e)
    ]

retry_or_fail-sandboxes :
    (cfg : Config) (w : World) (sid desc : String) (n : ℕ) (x : Error) (c : Coordinator)
    → (retry_or_fail cfg w sid desc n x c).sandboxes ≡ c.sandboxes
unfolding retry_or_fail fail_session
retry_or_fail-sandboxes cfg w sid desc n x c = ground arith

handle_crash-Cleans :
    (cfg : Config) (w : World) (sid desc sbx : String) (x : Error) (c : Coordinator)
    → w.destroyed ≡ true
    → Cleans sbx c (handle_crash cfg w sid desc sbx x c)
unfolding handle_crash count_crash
handle_crash-Cleans cfg w sid desc sbx x c d rest e =
    let counted = count_crash w.now sid x c in
    retry_or_fail-sandboxes cfg w sid desc (attempt_of sid c.attempts + 1) x
      (cleanup_sandbox w sbx counted)
    ∙ cleanup_sandbox-Cleans w sbx counted d rest e

supervise-Cleans :
    (cfg : Config) (w : World) (sid desc : String) (a : Adapter) (args : List String) (sbx : String)
    (c : Coordinator)
    → w.destroyed ≡ true
    → Cleans sbx c (supervise cfg w sid desc a args sbx c)
unfolding supervise fail_session
supervise-Cleans cfg w sid desc a args sbx c d rest e =
    let seen = monitor_heartbeat cfg sid w.beats c.heartbeats in
    let c' = record c { heartbeats = seen.1 } in
    let ran = w.execute args (exec_timeout cfg) in
    elim (Option-cases seen.0) [
      | inr (n, f) ↦
          rw (f, supervise)
            (handle_crash-Cleans cfg w sid desc sbx (heartbeat_lost n)
              (audit_crash w.now sid (heartbeat_lost n) c') d rest e)
      | inl f ↦
          rw (f, supervise)
            (elim (Result-cases ran) [
              | inr (x, g) ↦ rw g (
                  cleanup_sandbox-Cleans w sbx (fail_session w.now sid (wrap "execute agent" x) c')
                    d rest e)
              | inl (out, g) ↦ rw g (handle_output-Cleans cfg w sid a sbx out c' d rest e)
            ])
    ]

pub run_in_sandbox-Cleans :
    (cfg : Config) (w : World) (sid desc : String) (a : Adapter) (args : List String) (sbx : String)
    (c : Coordinator)
    → w.destroyed ≡ true
    → Cleans sbx c (run_in_sandbox cfg w sid desc a args sbx c)
unfolding run_in_sandbox
run_in_sandbox-Cleans cfg w sid desc a args sbx c d rest e =
    let entered = enter_running w.now sid (audit_sandbox w.now sid a sbx c.cp) in
    elim (Result-cases entered.0) [
      | inr (x, f) ↦
          rw (f, run_in_sandbox)
            (cleanup_sandbox-Cleans w sbx (record c { cp = entered.1 }) d rest e)
      | inl (_, f) ↦
          rw (f, run_in_sandbox)
            (supervise-Cleans cfg w sid desc a args sbx
              (record c { cp = save_baseline w.now sid desc a sbx entered.1 }) d rest e)
    ]
