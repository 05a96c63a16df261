-- ===== src/Sandbox/Removal.antt =====
-- `Destroy` of internal/sandbox/docker.go, and what the other operations answer for a sandbox that is
-- not registered.
use foreman.Prelude.{
  Bool, subst, sym, ◌∙◌, String, ◌≡◌, refl, inl, inr, Option-cases, none, some, Result, ok, err,
  eq_refl, arith, List, ap,
}
use foreman.Prelude.Dict.{lookup, delete, lookup-delete}
use foreman.Sandbox.{
  DockerSandbox, ContainerState, destroy, execute, heartbeat, find_container,
  within_sandbox-missing, not_found, run_exec, inspect_running, unregistered,
}
use foreman.Sandbox.Client.{Docker}
use foreman.Sandbox.Containers.{Same, Removed, Removes, IsDocker}

module _ {D : Type 0} (docker : Docker D) (name : String) (s : DockerSandbox) (d : D) where
  destroy-missing :
      lookup name s.containers ≡ none → destroy docker name (s, d) ≡ (err (not_found name), (s, d))
  unfolding destroy find_container
  destroy-missing e = rw (e, destroy) refl

  destroy-found :
      (cs : ContainerState)
      → lookup name s.containers ≡ some cs
      → destroy docker name (s, d) ≡ unregistered docker name s (docker.container_remove cs.id d)
  unfolding destroy find_container
  destroy-found cs e = rw (e, destroy) refl

module _ {D : Type 0} (docker : Docker D) (has : D → String → Bool)
    (laws : IsDocker has docker) where
  -- A success removes the container of the sandbox and its entry; an error changes neither the
  -- sandboxes nor the containers.
  unfoldable pub Destroys :
      String → DockerSandbox × D → Result (Unit {0}) × (DockerSandbox × D) → Type 0
  Destroys name (s, d) (err e, (s', d')) = (s' ≡ s) × Same has d d'
  Destroys name (s, d) (ok _, (s', d')) =
      (cs : ContainerState) × (lookup name s.containers ≡ some cs)
      × Removed has cs.id d d'
      × (s' ≡ record s { containers = delete name s.containers })

  unregistered-Destroys :
      (name : String) (s : DockerSandbox) (d : D) (cs : ContainerState)
      (reply : Result (Unit {0}) × D)
      → lookup name s.containers ≡ some cs
      → Removes has cs.id d reply
      → Destroys name (s, d) (unregistered docker name s reply)
  unfolding Destroys
  unregistered-Destroys name s d cs (ok _, d') found removed = (cs, found, removed, refl)
  unregistered-Destroys name s d cs (err e, d') found same = (refl, same)

  pub destroy-Destroys :
      (name : String) (s : DockerSandbox) (d : D)
      → Destroys name (s, d) (destroy docker name (s, d))
  unfolding Destroys destroy find_container
  destroy-Destroys name s d = elim (Option-cases (lookup name s.containers)) [
    | inl e ↦
        subst (Destroys name (s, d)) (sym (destroy-missing docker name s d e)) (refl, λ other. refl)
    | inr (cs, e) ↦ subst (Destroys name (s, d)) (sym (destroy-found docker name s d cs e)) (
        unregistered-Destroys name s d cs (docker.container_remove cs.id d) e
          (laws.removes cs.id d))
  ]

module _ {D : Type 0} (docker : Docker D) where
  -- Every operation answers the same error, and calls nothing of the daemon.
  pub record Unknown (name : String) (s : DockerSandbox) : Type 0 where
    pub not_executed :
        (cmd : List String) (d : D) → execute docker name cmd s d ≡ (err (not_found name), d)
    pub no_heartbeat : (d : D) → heartbeat docker name s d ≡ (err (not_found name), d)
    pub not_destroyed : (d : D) → destroy docker name (s, d) ≡ (err (not_found name), (s, d))

  missing-Unknown :
      (name : String) (s : DockerSandbox) → lookup name s.containers ≡ none → Unknown name s
  unfolding execute heartbeat destroy find_container
  missing-Unknown name s e = record {
    not_executed = λ cmd d. within_sandbox-missing name (λ cs. run_exec docker cs.id cmd) s d e;
    no_heartbeat = λ d. within_sandbox-missing name (λ cs. inspect_running docker cs.id) s d e;
    not_destroyed = λ d. destroy-missing docker name s d e;
  }

  unregistered-gone :
      (name : String) (s s' : DockerSandbox) (d' : D) (reply : Result (Unit {0}) × D)
      → unregistered docker name s reply ≡ (ok tt, (s', d'))
      → lookup name s'.containers ≡ none
  unregistered-gone name s s' d' (err e, d) h = ground arith
  unregistered-gone name s s' d' (ok _, d) h =
      ap (λ r. lookup name r.1.0.containers) (sym h)
      ∙ ground (arith, lookup-delete name name s.containers, eq_refl name)

  -- Once a sandbox has been destroyed, executing in it, its heartbeat and destroying it again answer
  -- that it is not found, and call nothing of the daemon.
  destroy-Unknown :
      (name : String) (s s' : DockerSandbox) (d d' : D)
      → destroy docker name (s, d) ≡ (ok tt, (s', d'))
      → Unknown name s'
  destroy-Unknown name s s' d d' h = elim (Option-cases (lookup name s.containers)) [
    | inl e ↦ ground (arith, destroy-missing docker name s d e)
    | inr (cs, e) ↦ missing-Unknown name s' (
        unregistered-gone name s s' d' (docker.container_remove cs.id d)
          (sym (destroy-found docker name s d cs e) ∙ h))
  ]
