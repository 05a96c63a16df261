-- ===== src/Sandbox/Leaks.antt =====
-- `Provision` of internal/sandbox/docker.go: what each of its ends leaves on the daemon.
use foreman.Prelude.{
  eq_refl, ℕ, String, ◌≡◌, refl, sym, ◌∙◌, inl, inr, Bool, true, Bool-cases, Result, ok, err, ◌∷◌,
  [], Result-cases, str_eq, arith, concat,
}
use foreman.Sandbox.{
  SandboxSpec, DockerSandbox, Units, ensure_image, pull_unless, or_remove, removing, make_work_dir,
  run_container, container_config, boot, provision, limit, registered, or_text,
}
use foreman.Prelude.Dict.{insert}
use foreman.Sandbox.Client.{Docker, ContainerConfig, Call, ◌>>=◌, return, named, wrapped, after}
use foreman.Sandbox.Containers.{
  Same, Added, Removed, Creates, Removes, Keeps, IsDocker, Reliable, >>=-Keeps, named-Keeps,
  Removed-undoes, Added-Same,
}

module _ {D : Type 0} (docker : Docker D) (has : D → String → Bool)
    (laws : IsDocker has docker) where
  make_dir_exec-Keeps :
      (id work_dir : String)
      → Keeps has (
          named "create mkdir exec" (docker.exec_create id ("mkdir" ∷ "-p" ∷ work_dir ∷ []))
          >>= (λ exec_id. named "start mkdir exec" (docker.exec_start exec_id)))
  make_dir_exec-Keeps id work_dir =
      >>=-Keeps has
        (named "create mkdir exec" (docker.exec_create id ("mkdir" ∷ "-p" ∷ work_dir ∷ [])))
        (λ exec_id. named "start mkdir exec" (docker.exec_start exec_id))
        (named-Keeps has "create mkdir exec"
          (docker.exec_create id ("mkdir" ∷ "-p" ∷ work_dir ∷ []))
          (laws.keeps_exec_create id ("mkdir" ∷ "-p" ∷ work_dir ∷ [])))
        (λ exec_id.
          named-Keeps has "start mkdir exec" (docker.exec_start exec_id)
            (laws.keeps_exec_start exec_id))

  make_work_dir-Keeps : (id work_dir : String) → Keeps has (make_work_dir docker id work_dir)
  unfolding make_work_dir
  make_work_dir-Keeps id work_dir d other = elim (Bool-cases (str_eq work_dir "")) [
    | inl e ↦ rw e refl
    | inr e ↦ rw e (make_dir_exec-Keeps id work_dir d other)
  ]

  pull_unless-Same :
      (image : String) (d : D) (reply : Result (Unit {0}) × D)
      → Same has d reply.1
      → Same has d (pull_unless docker image reply).1
  pull_unless-Same image d (ok _, d') same = same
  pull_unless-Same image d (err _, d') same = λ other.
      named-Keeps has "image pull" (docker.image_pull image) (laws.keeps_pull image) d' other
      ∙ same other

  ensure_image-Keeps : (image : String) → Keeps has (ensure_image docker image)
  unfolding ensure_image
  ensure_image-Keeps image d =
      pull_unless-Same image d (docker.image_inspect image d) (laws.keeps_inspect_image image d)

  limit-Keeps :
      (text : String) (parse : String → Result ℕ) (value : String)
      → Keeps has (limit text parse value)
  limit-Keeps text parse value d other = elim (Bool-cases (str_eq value "")) [
    | inl e ↦ rw e refl
    | inr e ↦ elim (Result-cases (parse value)) [
      | inl (n, p) ↦ rw (e, p) refl
      | inr (x, p) ↦ rw (e, p) refl
    ]
  ]

  container_config-Keeps :
      (u : Units) (spec : SandboxSpec) (image default_network : String)
      → Keeps has (container_config u spec image default_network)
  unfolding container_config
  container_config-Keeps u spec image default_network =
      >>=-Keeps has (limit "invalid memory spec" u.ram_in_bytes spec.memory) _
        (limit-Keeps "invalid memory spec" u.ram_in_bytes spec.memory)
        (λ memory.
          >>=-Keeps has (limit "invalid cpu spec" u.scan_nano_cpus spec.cpu) _
            (limit-Keeps "invalid cpu spec" u.scan_nano_cpus spec.cpu) (λ cpu d other. refl))

  -- Past the creation: the container still exists, or an error has removed it.
  abbrev Guards : {A : Type 0} → String → D → Result A × D → Type 0
  Guards id d (ok a, d') = Added has id d d'
  Guards id d (err e, d') = Same has d d'

  Removes-ok :
      (id : String) (d : D) (reply : Result (Unit {0}) × D)
      → Removes has id d reply
      → reply.0 ≡ ok tt
      → Removed has id d reply.1
  Removes-ok id d (ok _, d') removed e = removed
  Removes-ok id d (err x, d') removed e = ground arith

  Added-has : (id : String) (d d' : D) → Added has id d d' → has d' id ≡ true
  Added-has id d d' added = ground (arith, added.others id, eq_refl id)

  module _ (reliable : Reliable has docker) where
    removing-Guards :
        {A : Type 0} (id : String) (d : D) (reply : Result A × D)
        → Added has id d reply.1
        → Guards id d (removing docker id reply)
    removing-Guards id d (ok a, d') added = added
    removing-Guards id d (err e, d') added =
        Removed-undoes has id d d' (docker.container_remove id d').1 added (
          Removes-ok id d' (docker.container_remove id d') (laws.removes id d')
            (reliable id d' (Added-has id d d' added)))

    or_remove-Guards :
        {A : Type 0} (id : String) (d d' : D) (call : Call D A)
        → Keeps has call
        → Added has id d d'
        → Guards id d (or_remove docker id call d')
    unfolding or_remove
    or_remove-Guards id d d' call keeps added =
        removing-Guards id d (call d') (Added-Same has id d d' (call d').1 added (keeps d'))

    after-Creates :
        {A : Type 0} (id : String) (d : D) (f : A → Call D String) (reply : Result A × D)
        → Guards id d reply
        → ((a : A) (d' : D) → Added has id d d' → Creates has d (f a d'))
        → Creates has d (after f reply)
    after-Creates id d f (ok a, d') added next = next a d' added
    after-Creates id d f (err e, d') same next = same

    created-Creates :
        (work_dir : String) (d : D) (reply : Result String × D)
        → Creates has d reply
        → Creates has d (
            after
              (λ id. (do
                _ ← or_remove docker id (named "container start" (docker.container_start id))
                _ ← or_remove docker id (make_work_dir docker id work_dir)
                return id))
              (wrapped "container create" reply))
    created-Creates work_dir d (err e, d') same = same
    created-Creates work_dir d (ok id, d') added =
        after-Creates id d
          (λ _. (or_remove docker id (make_work_dir docker id work_dir) >>= (λ _. return id)))
          (or_remove docker id (named "container start" (docker.container_start id)) d')
          (or_remove-Guards id d d' (named "container start" (docker.container_start id))
            (named-Keeps has "container start" (docker.container_start id) (laws.keeps_start id))
            added)
          (λ _ d₁ added₁.
            after-Creates id d (λ _. return id)
              (or_remove docker id (make_work_dir docker id work_dir) d₁)
              (or_remove-Guards id d d₁ (make_work_dir docker id work_dir)
                (make_work_dir-Keeps id work_dir) added₁)
              (λ _ d₂ added₂. added₂))

    run_container-Creates :
        (cfg : ContainerConfig) (name : String) (d : D)
        → Creates has d (run_container docker cfg name d)
    unfolding run_container
    run_container-Creates cfg name d =
        created-Creates cfg.working_dir d (docker.container_create cfg name d)
          (laws.creates cfg name d)

    Creates-Same :
        (d d' : D) (reply : Result String × D)
        → Same has d d'
        → Creates has d' reply
        → Creates has d reply
    Creates-Same d d' (err e, d'') same same' = λ other. same' other ∙ same other
    Creates-Same d d' (ok id, d'') same added = record {
      fresh = sym (same id) ∙ added.fresh;
      others = λ other. ground (arith, added.others other, same other);
    }

    kept-Creates :
        {A : Type 0} (d : D) (f : A → Call D String) (reply : Result A × D)
        → Same has d reply.1
        → ((a : A) (d' : D) → Creates has d' (f a d'))
        → Creates has d (after f reply)
    kept-Creates d f (ok a, d') same next = Creates-Same d d' (f a d') same (next a d')
    kept-Creates d f (err e, d') same next = same

    boot-Creates :
        (u : Units) (spec : SandboxSpec) (image default_network name : String) (d : D)
        → Creates has d (boot docker u spec image default_network name d)
    unfolding boot
    boot-Creates u spec image default_network name d =
        kept-Creates d
          (λ _.
            container_config u spec image default_network
            >>= (λ cfg. run_container docker cfg name))
          (named "ensure image" (ensure_image docker image) d)
          (named-Keeps has "ensure image" (ensure_image docker image) (ensure_image-Keeps image) d)
          (λ _ d₁.
            kept-Creates d₁ (λ cfg. run_container docker cfg name)
              (container_config u spec image default_network d₁)
              (container_config-Keeps u spec image default_network d₁)
              (λ cfg d₂. run_container-Creates cfg name d₂))

    -- A success registers one new container of the daemon under the name that is answered; an error
    -- changes neither the sandboxes nor the containers.
    unfoldable pub Leaves :
        ℕ → String → DockerSandbox × D → Result String × (DockerSandbox × D) → Type 0
    Leaves now nanos (s, d) (err e, (s', d')) = (s' ≡ s) × Same has d d'
    Leaves now nanos (s, d) (ok name, (s', d')) =
        (name ≡ concat "foreman-sbox-" nanos)
        × ((id : String) × Added has id d d'
            × (s' ≡ record s {
              containers = insert name (record { id = id; created_at = now }) s.containers;
            }))

    registered-Leaves :
        (now : ℕ) (nanos : String) (s : DockerSandbox) (d : D) (reply : Result String × D)
        → Creates has d reply
        → Leaves now nanos (s, d) (registered docker now (concat "foreman-sbox-" nanos) s reply)
    unfolding Leaves
    registered-Leaves now nanos s d (ok id, d') added = (refl, (id, added, refl))
    registered-Leaves now nanos s d (err e, d') same = (refl, same)

    -- Where the daemon creates and removes single containers, no other call makes or removes any and
    -- removals of containers that exist succeed, a sandbox that is provisioned is registered under
    -- its new name with one new container, and a provisioning that fails at any of its calls leaves
    -- the sandboxes and the containers as they were.
    pub provision-Leaves :
        (u : Units) (now : ℕ) (nanos : String) (spec : SandboxSpec) (s : DockerSandbox) (d : D)
        → Leaves now nanos (s, d) (provision docker u now nanos spec (s, d))
    unfolding provision Leaves
    provision-Leaves u now nanos spec s d =
        elim (Bool-cases (str_eq (or_text spec.image s.image) "")) [
          | inl e ↦ rw e (refl, λ other. refl)
          | inr e ↦ rw e (
              registered-Leaves now nanos s d _ (
                boot-Creates u spec (or_text spec.image s.image) s.default_network
                  (concat "foreman-sbox-" nanos) d))
        ]
