-- ===== src/Sandbox/Client.antt =====
-- The calls that internal/sandbox/docker.go makes of the Docker client. The client and its daemon,
-- whose state is a type of their own, are a parameter; a context that ends shows as an error of a call.
use foreman.Prelude.{ℕ, String, Option, List, Result, ok, err, Error, wrap}

pub record ContainerConfig : Type 0 where
  pub image : String
  pub cmd : List String
  pub working_dir : String
  pub env : List String
  pub memory : ℕ
  pub nano_cpus : ℕ
  pub extra_hosts : List String
  pub network : Option String

-- How the goroutine that reads an attached exec ends: the output has been copied, the copy fails,
-- or the context is done first.
pub data Reading : Type 0 where
  copied : String → String → Reading
  broken : Error → Reading
  interrupted : Error → Reading

-- A call changes the daemon, and answers.
abbrev pub Call : Type 0 → Type 0 → Type 0
Call D A = D → Result A × D

pub record Docker (D : Type 0) : Type 0 where
  pub image_inspect : String → Call D (Unit {0})
  pub image_pull : String → Call D (Unit {0})
  pub container_create : ContainerConfig → String → Call D String
  pub container_start : String → Call D (Unit {0})
  pub container_remove : String → Call D (Unit {0})
  pub container_inspect : String → Call D (Option String)
  pub exec_create : String → List String → Call D String
  pub exec_start : String → Call D (Unit {0})
  pub exec_attach : String → Call D Reading
  pub exec_inspect : String → Call D ℕ
  pub copy_to_container : String → String → List ℕ → Call D (Unit {0})
  pub copy_from_container : String → String → Call D (List ℕ)

module _ {D : Type 0} where
  abbrev pub return : {A : Type 0} → A → Call D A
  return a d = (ok a, d)

  abbrev pub fail : {A : Type 0} → Error → Call D A
  fail e d = (err e, d)

  abbrev pub after : {A B : Type 0} → (A → Call D B) → Result A × D → Result B × D
  after f (ok a, d) = f a d
  after f (err e, d) = (err e, d)

  infixl 5 ◌>>=◌
  abbrev pub ◌>>=◌ : {A B : Type 0} → Call D A → (A → Call D B) → Call D B
  (call >>= f) d = after f (call d)

  abbrev pub wrapped : {A : Type 0} → String → Result A × D → Result A × D
  wrapped text (ok a, d) = (ok a, d)
  wrapped text (err e, d) = (err (wrap text e), d)

  -- `if err != nil { return fmt.Errorf("text: %w", err) }`
  abbrev pub named : {A : Type 0} → String → Call D A → Call D A
  named text call d = wrapped text (call d)
