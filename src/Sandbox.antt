-- ===== src/Sandbox.antt =====
-- internal/sandbox/docker.go: sandboxes as Docker containers.
pub mod Client
pub mod Containers
pub mod Leaks
pub mod Tracking
pub mod Removal
pub mod Used
pub mod Runs
pub mod Frames
pub mod Gateway
pub mod Hosts
pub mod Files
mod Examples
use foreman.Prelude.{
  ◌≡◌, refl, ℕ, String, Bool, Option, none, some, List, [], ◌∷◌, Result, ok, err, Error, message,
  wrap, concat, str_eq, length, ◌==◌, if◌then◌else◌,
}
use foreman.Prelude.Dict.{Dict, lookup, insert, delete}
use foreman.Sandbox.Client.{
  Docker, ContainerConfig, Call, Reading, copied, broken, interrupted, return, fail, ◌>>=◌, named,
  wrapped,
}

pub record SandboxSpec : Type 0 where
  pub image : String
  pub memory : String
  pub cpu : String
  pub env : Dict String
  pub work_dir : String
  pub network : String
  pub extra_hosts : List String

pub record ExecutionResult : Type 0 where
  pub exit_code : ℕ
  pub stdout : String
  pub stderr : String

pub record ContainerState : Type 0 where
  pub id : String
  pub created_at : ℕ

pub record DockerSandbox : Type 0 where
  pub image : String
  pub default_network : String
  pub containers : Dict ContainerState

-- `units.RAMInBytes`, and `fmt.Sscanf` with the product by 1e9.
pub record Units : Type 0 where
  pub ram_in_bytes : String → Result ℕ
  pub scan_nano_cpus : String → Result ℕ

abbrev pub or_text : String → String → String
or_text t d = if str_eq t "" then d else t

abbrev env_lines : Dict String → List String
env_lines [] = []
env_lines ((k, v) ∷ env) = concat k (concat "=" v) ∷ env_lines env

abbrev pub limit : {D : Type 0} → String → (String → Result ℕ) → String → Call D ℕ
limit text parse value d = if str_eq value "" then (ok 0, d) else wrapped text (parse value, d)

unfoldable pub find_container : String → DockerSandbox → Result ContainerState
find_container session_id s = elim (lookup session_id s.containers) [
  | none ↦ err (message (concat "sandbox not found: " session_id))
  | some cs ↦ ok cs
]

-- A call that needs the sandbox to be registered.
unfoldable pub within_sandbox :
    {D A : Type 0} → String → (ContainerState → Call D A) → DockerSandbox → Call D A
unfolding find_container
within_sandbox session_id call s d = elim (find_container session_id s) [
  | err e ↦ (err e, d)
  | ok cs ↦ call cs d
]

abbrev pub not_found : String → Error
not_found session_id = message (concat "sandbox not found: " session_id)

module _ {D A : Type 0} (name : String) (call : ContainerState → Call D A) (s : DockerSandbox)
    (d : D) where
  pub within_sandbox-missing :
      lookup name s.containers ≡ none → within_sandbox name call s d ≡ (err (not_found name), d)
  unfolding within_sandbox find_container
  within_sandbox-missing e = rw (e, within_sandbox) refl

  pub within_sandbox-found :
      (cs : ContainerState)
      → lookup name s.containers ≡ some cs
      → within_sandbox name call s d ≡ call cs d
  unfolding within_sandbox find_container
  within_sandbox-found cs e = rw (e, within_sandbox) refl

unfoldable pub endpoint : String → String → Option String
endpoint network default =
    if str_eq (or_text network default) "" then none else some (or_text network default)

unfoldable pub container_config :
    {D : Type 0} → Units → SandboxSpec → String → String → Call D ContainerConfig
unfolding endpoint
container_config u spec image default_network = do
  memory ← limit "invalid memory spec" u.ram_in_bytes spec.memory
  cpu ← limit "invalid cpu spec" u.scan_nano_cpus spec.cpu
  return (record {
    image = image;
    cmd = "tail" ∷ "-f" ∷ "/dev/null" ∷ [];
    working_dir = spec.work_dir;
    env = env_lines spec.env;
    memory = memory;
    nano_cpus = cpu;
    extra_hosts = spec.extra_hosts;
    network = endpoint spec.network default_network;
  })

abbrev pub require_running : {D : Type 0} → Option String → Call D (Unit {0})
require_running none = fail (message "container state is nil")
require_running (some status) =
    if str_eq status "running"
    then return tt
    else fail (message (concat "container status is " status))

module _ {D : Type 0} (docker : Docker D) where
  abbrev pub pull_unless : String → Result (Unit {0}) × D → Result (Unit {0}) × D
  pull_unless image (ok _, d) = (ok tt, d)
  pull_unless image (err _, d) = named "image pull" (docker.image_pull image) d

  unfoldable pub ensure_image : String → Call D (Unit {0})
  ensure_image image d = pull_unless image (docker.image_inspect image d)

  abbrev pub removing : {A : Type 0} → String → Result A × D → Result A × D
  removing id (ok a, d) = (ok a, d)
  removing id (err e, d) = (err e, (docker.container_remove id d).1)

  -- On an error, the container is removed; what the removal answers is dropped.
  unfoldable pub or_remove : {A : Type 0} → String → Call D A → Call D A
  or_remove id call d = removing id (call d)

  unfoldable pub make_work_dir : String → String → Call D (Unit {0})
  make_work_dir id work_dir d =
      if str_eq work_dir ""
      then (ok tt, d)
      else (do
        exec_id ← named "create mkdir exec" (docker.exec_create id ("mkdir" ∷ "-p" ∷ work_dir ∷ []))
        named "start mkdir exec" (docker.exec_start exec_id))
          d

  unfoldable pub run_container : ContainerConfig → String → Call D String
  unfolding or_remove make_work_dir
  run_container cfg session_id = do
    id ← named "container create" (docker.container_create cfg session_id)
    _ ← or_remove id (named "container start" (docker.container_start id))
    _ ← or_remove id (make_work_dir id cfg.working_dir)
    return id

  unfoldable pub boot : Units → SandboxSpec → String → String → String → Call D String
  unfolding ensure_image container_config run_container
  boot u spec image default_network session_id = do
    _ ← named "ensure image" (ensure_image image)
    cfg ← container_config u spec image default_network
    run_container cfg session_id

  abbrev pub registered :
      ℕ → String → DockerSandbox → Result String × D → Result String × (DockerSandbox × D)
  registered now session_id s (err e, d) = (err e, (s, d))
  registered now session_id s (ok id, d) = (
    ok session_id,
    (
      record s {
        containers = insert session_id (record { id = id; created_at = now }) s.containers;
      },
      d,
    ),
  )

  -- `nanos` is the text of the clock's nanoseconds, which the name ends with.
  unfoldable pub provision :
      Units → ℕ → String → SandboxSpec → DockerSandbox × D → Result String × (DockerSandbox × D)
  unfolding boot
  provision u now nanos spec (s, d) =
      let image = or_text spec.image s.image in
      let session_id = concat "foreman-sbox-" nanos in
      if str_eq image ""
      then (err (message "no container image specified (set in config or SandboxSpec)"), (s, d))
      else registered now session_id s (boot u spec image s.default_network session_id d)

  abbrev pub unregistered :
      String → DockerSandbox → Result (Unit {0}) × D → Result (Unit {0}) × (DockerSandbox × D)
  unregistered session_id s (err e, d) = (err (wrap "container remove" e), (s, d))
  unregistered session_id s (ok _, d) =
      (ok tt, (record s { containers = delete session_id s.containers }, d))

  unfoldable pub destroy : String → DockerSandbox × D → Result (Unit {0}) × (DockerSandbox × D)
  unfolding find_container
  destroy session_id (s, d) = elim (find_container session_id s) [
    | err e ↦ (err e, (s, d))
    | ok cs ↦ unregistered session_id s (docker.container_remove cs.id d)
  ]

  unfoldable pub exec_outcome : String → Reading → Call D ExecutionResult
  exec_outcome exec_id (broken e) = fail (wrap "exec read" e)
  exec_outcome exec_id (interrupted e) = fail (wrap "exec cancelled" e)
  exec_outcome exec_id (copied stdout stderr) = do
    code ← named "exec inspect" (docker.exec_inspect exec_id)
    return (record { exit_code = code; stdout = stdout; stderr = stderr })

  unfoldable pub run_exec : String → List String → Call D ExecutionResult
  unfolding exec_outcome
  run_exec id cmd = do
    exec_id ← named "exec create" (docker.exec_create id cmd)
    reading ← named "exec attach" (docker.exec_attach exec_id)
    exec_outcome exec_id reading

  unfoldable pub inspect_running : String → Call D (Unit {0})
  inspect_running id = do
    state ← named "container inspect" (docker.container_inspect id)
    require_running state

  unfoldable pub execute : String → List String → DockerSandbox → Call D ExecutionResult
  unfolding within_sandbox run_exec
  execute session_id cmd = within_sandbox session_id (λ cs. run_exec cs.id cmd)

  unfoldable pub heartbeat : String → DockerSandbox → Call D (Unit {0})
  unfolding within_sandbox inspect_running
  heartbeat session_id = within_sandbox session_id (λ cs. inspect_running cs.id)
