-- ===== src/Coordinator/Starting.antt =====
-- `SubmitTask` of internal/coordinator/coordinator.go: what a submission starts.
use foreman.Prelude.{
  ℕ, String, ◌≡◌, refl, some, [], ◌∷◌, ◌++◌, Result, Result-cases, ok, err, eq_refl, arith, inl,
  inr,
}
use foreman.Prelude.Dict.{lookup, lookup-insert}
use foreman.Schemas.{allocating}
use foreman.ControlPlane
use foreman.ControlPlane.{ControlPlane, transition}
use foreman.Coordinator.{
  Config, Coordinator, submit_task, start_task, admission, launch, resolve_and_launch,
  session_of_task, fail_session,
}

-- The session of the task is active, and its goroutine, with this description and agent, is the
-- last that was started.
pub record IsStarted (task_id description agent : String) (c c' : Coordinator) : Type 0 where
  pub active : lookup (session_of_task task_id) c'.active ≡ some tt
  pub spawned :
      c'.spawned
      ≡ c.spawned
        ++ record { session_id = session_of_task task_id; description = description; agent = agent }
          ∷ []

-- Nothing has been started.
pub record IsUnchanged (c c' : Coordinator) : Type 0 where
  pub active : c'.active ≡ c.active
  pub spawned : c'.spawned ≡ c.spawned

-- A success has started the task, an error nothing.
abbrev pub Starts :
    String → String → String → Coordinator → Result (Unit {0}) × Coordinator → Type 0
Starts task_id description agent c (ok _, c') = IsStarted task_id description agent c c'
Starts task_id description agent c (err e, c') = IsUnchanged c c'

module _ (cfg : Config) (now : ℕ) (task_id description agent : String) where
  resolve_and_launch-Starts :
      (c : Coordinator)
      → Starts task_id description agent c
          (resolve_and_launch cfg now (session_of_task task_id) description agent c)
  unfolding resolve_and_launch launch fail_session
  resolve_and_launch-Starts c = elim (Result-cases (cfg.resolve_tools (session_of_task task_id))) [
    | inr (e, p) ↦ rw (p, resolve_and_launch) (record { active = refl; spawned = refl })
    | inl (u, p) ↦
        rw (p, resolve_and_launch)
          (record {
            active = ground (
              arith,
              lookup-insert (session_of_task task_id) (session_of_task task_id) tt c.active,
              eq_refl (session_of_task task_id),
            );
            spawned = refl;
          })
  ]

  -- The control plane has no part in it.
  Starts-elsewhere :
      (c : Coordinator) (cp : ControlPlane) (reply : Result (Unit {0}) × Coordinator)
      → Starts task_id description agent (record c { cp = cp }) reply
      → Starts task_id description agent c reply
  Starts-elsewhere c cp (ok _, c') s = record { active = s.active; spawned = s.spawned }
  Starts-elsewhere c cp (err e, c') s = record { active = s.active; spawned = s.spawned }

  start_task-Starts :
      (c : Coordinator)
      → Starts task_id description agent c
          (start_task cfg now (session_of_task task_id) description agent c)
  unfolding start_task
  start_task-Starts c = elim (Result-cases (admission cfg c)) [
    | inr (e, p) ↦ rw (p, start_task) (record { active = refl; spawned = refl })
    | inl (u, p) ↦
        elim (Result-cases (transition now (session_of_task task_id) allocating c.cp).0) [
          | inr (e, q) ↦ rw (p, q, start_task) (record { active = refl; spawned = refl })
          | inl (v, q) ↦
              rw (p, q, start_task)
                (Starts-elsewhere c (transition now (session_of_task task_id) allocating c.cp).1 _ (
                  resolve_and_launch-Starts (record c {
                    cp = (transition now (session_of_task task_id) allocating c.cp).1;
                  })))
        ]
  ]

  -- A submission that succeeds has started the task, and one that fails nothing.
  pub submit_task-Starts :
      (c : Coordinator)
      → Starts task_id description agent c (submit_task cfg now task_id description agent c)
  unfolding submit_task
  submit_task-Starts c =
      elim (Result-cases
        (ControlPlane.create_session now (session_of_task task_id) task_id description agent
          c.cp).0) [
            | inr (e, p) ↦ rw (p, submit_task) (record { active = refl; spawned = refl })
            | inl (u, p) ↦
                rw (p, submit_task)
                  (Starts-elsewhere c
                    (ControlPlane.create_session now (session_of_task task_id) task_id description
                      agent c.cp).1
                    _
                    (start_task-Starts (record c {
                      cp =
                          (ControlPlane.create_session now (session_of_task task_id) task_id
                            description agent c.cp).1;
                    })))
          ]
