-- ===== src/Sandbox/Runs.antt =====
-- Runs of the operations of internal/sandbox/docker.go on one daemon, and the invariant that the map
-- of sandboxes tracks the daemon's containers.
use foreman.Prelude.{ℕ, String, ◌≡◌, sym, ◌∙◌, ap, Bool, none, Result, ok, err, List, concat, subst}
use foreman.Prelude.Dict.{lookup}
use foreman.Sandbox.{SandboxSpec, DockerSandbox, Units, provision, destroy, execute, heartbeat}
use foreman.Sandbox.Client.{Docker}
use foreman.Sandbox.Containers.{IsDocker, Reliable}
use foreman.Sandbox.Leaks.{Leaves, provision-Leaves}
use foreman.Sandbox.Removal.{Destroys, destroy-Destroys}
use foreman.Sandbox.Used.{execute-Keeps, heartbeat-Keeps}
use foreman.Sandbox.Tracking.{IsTracking, Same-IsTracking, Added-IsTracking, Removed-IsTracking}

module _ {D : Type 0} (docker : Docker D) where
  -- One operation; the name that `Provision` takes from the clock is not in use.
  pub data Step : DockerSandbox → D → DockerSandbox → D → Type 0 where
    provisioned :
        (u : Units) (now : ℕ) (nanos : String) (spec : SandboxSpec) {s s' : DockerSandbox}
        {d d' : D} {reply : Result String}
        → lookup (concat "foreman-sbox-" nanos) s.containers ≡ none
        → provision docker u now nanos spec (s, d) ≡ (reply, (s', d'))
        → Step s d s' d'
    destroyed :
        {s s' : DockerSandbox} {d d' : D} {reply : Result (Unit {0})} (name : String)
        → destroy docker name (s, d) ≡ (reply, (s', d'))
        → Step s d s' d'
    used :
        {s : DockerSandbox} {d : D} (name : String) (cmd : List String)
        → Step s d s (execute docker name cmd s d).1
    watched : {s : DockerSandbox} {d : D} (name : String) → Step s d s (heartbeat docker name s d).1

  pub data Run : DockerSandbox → D → DockerSandbox → D → Type 0 where
    start : {s : DockerSandbox} {d : D} → Run s d s d
    step :
        {s s' s'' : DockerSandbox} {d d' d'' : D}
        → Run s d s' d'
        → Step s' d' s'' d''
        → Run s d s'' d''

module _ {D : Type 0} (docker : Docker D) (has : D → String → Bool) (laws : IsDocker has docker)
    (reliable : Reliable has docker) (base : String → Bool) where
  Leaves-IsTracking :
      (now : ℕ) (nanos : String) (s s' : DockerSandbox) (d d' : D) (reply : Result String)
      → lookup (concat "foreman-sbox-" nanos) s.containers ≡ none
      → Leaves docker has laws reliable now nanos (s, d) (reply, (s', d'))
      → IsTracking has base s d
      → IsTracking has base s' d'
  unfolding Leaves
  Leaves-IsTracking now nanos s s' d d' (err e) free (same_s, same) t =
      subst (λ z. IsTracking has base z d') (sym same_s) (Same-IsTracking has base s d d' same t)
  Leaves-IsTracking now nanos s s' d d' (ok name) free (e, (id, added, e')) t =
      subst (λ z. IsTracking has base z d') (sym e')
        (Added-IsTracking has base s d d' name id now (ap (λ n. lookup n s.containers) e ∙ free)
          added t)

  Destroys-IsTracking :
      (name : String) (s s' : DockerSandbox) (d d' : D) (reply : Result (Unit {0}))
      → Destroys docker has laws name (s, d) (reply, (s', d'))
      → IsTracking has base s d
      → IsTracking has base s' d'
  unfolding Destroys
  Destroys-IsTracking name s s' d d' (err e) (same_s, same) t =
      subst (λ z. IsTracking has base z d') (sym same_s) (Same-IsTracking has base s d d' same t)
  Destroys-IsTracking name s s' d d' (ok _) (cs, found, removed, e) t =
      subst (λ z. IsTracking has base z d') (sym e)
        (Removed-IsTracking has base s d d' name cs found removed t)

  Step-IsTracking :
      {s s' : DockerSandbox} {d d' : D}
      → Step docker s d s' d'
      → IsTracking has base s d
      → IsTracking has base s' d'
  Step-IsTracking (provisioned u now nanos spec {s} {s'} {d} {d'} {reply} free e) t =
      Leaves-IsTracking now nanos s s' d d' reply free
        (subst (λ r. Leaves docker has laws reliable now nanos (s, d) r) e
          (provision-Leaves docker has laws reliable u now nanos spec s d))
        t
  Step-IsTracking (destroyed {s} {s'} {d} {d'} {reply} name e) t =
      Destroys-IsTracking name s s' d d' reply
        (subst (λ r. Destroys docker has laws name (s, d) r) e
          (destroy-Destroys docker has laws name s d))
        t
  Step-IsTracking (used {s} {d} name cmd) t =
      Same-IsTracking has base s d _ (execute-Keeps docker has laws name cmd s d) t
  Step-IsTracking (watched {s} {d} name) t =
      Same-IsTracking has base s d _ (heartbeat-Keeps docker has laws name s d) t

  -- Where the daemon creates and removes single containers, no other call makes or removes any,
  -- removals of containers that exist succeed and names are taken from the clock only while they are
  -- free, the containers of the daemon after any run of operations are those of before, and one for
  -- each registered sandbox.
  pub Run-IsTracking :
      {s s' : DockerSandbox} {d d' : D}
      → Run docker s d s' d'
      → IsTracking has base s d
      → IsTracking has base s' d'
  Run-IsTracking start t = t
  Run-IsTracking (step r one) t = Step-IsTracking one (Run-IsTracking r t)
