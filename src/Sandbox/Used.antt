-- ===== src/Sandbox/Used.antt =====
-- `Execute` and `Heartbeat` of internal/sandbox/docker.go, and the containers of the daemon.
use foreman.Prelude.{
  String, List, refl, inl, inr, none, some, Option, Option-cases, Bool, Bool-cases, str_eq, ◌∙◌, ap,
}
use foreman.Prelude.Dict.{lookup}
use foreman.Sandbox.{
  DockerSandbox, ContainerState, execute, heartbeat, run_exec, exec_outcome, inspect_running,
  require_running, within_sandbox, within_sandbox-missing, within_sandbox-found,
}
use foreman.Sandbox.Client.{Docker, Call, Reading, copied, broken, interrupted, named}
use foreman.Sandbox.Containers.{Keeps, IsDocker, >>=-Keeps, named-Keeps}

module _ {D : Type 0} (docker : Docker D) (has : D → String → Bool)
    (laws : IsDocker has docker) where
  within_sandbox-Keeps :
      {A : Type 0} (name : String) (call : ContainerState → Call D A) (s : DockerSandbox)
      → ((cs : ContainerState) → Keeps has (call cs))
      → Keeps has (within_sandbox name call s)
  within_sandbox-Keeps name call s keeps d other = elim (Option-cases (lookup name s.containers)) [
    | inl e ↦ ap (λ r. has r.1 other) (within_sandbox-missing name call s d e)
    | inr (cs, e) ↦
        ap (λ r. has r.1 other) (within_sandbox-found name call s d cs e) ∙ keeps cs d other
  ]

  exec_outcome-Keeps :
      (exec_id : String) (reading : Reading) → Keeps has (exec_outcome docker exec_id reading)
  unfolding exec_outcome
  exec_outcome-Keeps exec_id (broken e) = λ d other. refl
  exec_outcome-Keeps exec_id (interrupted e) = λ d other. refl
  exec_outcome-Keeps exec_id (copied stdout stderr) =
      >>=-Keeps has (named "exec inspect" (docker.exec_inspect exec_id)) _
        (named-Keeps has "exec inspect" (docker.exec_inspect exec_id)
          (laws.keeps_exec_inspect exec_id))
        (λ code d other. refl)

  pub execute-Keeps :
      (name : String) (cmd : List String) (s : DockerSandbox)
      → Keeps has (execute docker name cmd s)
  unfolding execute run_exec
  execute-Keeps name cmd s =
      within_sandbox-Keeps name (λ cs. run_exec docker cs.id cmd) s
        (λ cs.
          >>=-Keeps has (named "exec create" (docker.exec_create cs.id cmd)) _
            (named-Keeps has "exec create" (docker.exec_create cs.id cmd)
              (laws.keeps_exec_create cs.id cmd))
            (λ exec_id.
              >>=-Keeps has (named "exec attach" (docker.exec_attach exec_id)) _
                (named-Keeps has "exec attach" (docker.exec_attach exec_id)
                  (laws.keeps_exec_attach exec_id))
                (λ reading. exec_outcome-Keeps exec_id reading)))

  require_running-Keeps : (state : Option String) → Keeps has (require_running state)
  require_running-Keeps none d other = refl
  require_running-Keeps (some status) d other = elim (Bool-cases (str_eq status "running")) [
    | inl e ↦ rw e refl
    | inr e ↦ rw e refl
  ]

  pub heartbeat-Keeps : (name : String) (s : DockerSandbox) → Keeps has (heartbeat docker name s)
  unfolding heartbeat inspect_running
  heartbeat-Keeps name s =
      within_sandbox-Keeps name (λ cs. inspect_running docker cs.id) s
        (λ cs.
          >>=-Keeps has (named "container inspect" (docker.container_inspect cs.id)) _
            (named-Keeps has "container inspect" (docker.container_inspect cs.id)
              (laws.keeps_inspect cs.id))
            require_running-Keeps)
