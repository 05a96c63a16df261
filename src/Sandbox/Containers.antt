-- ===== src/Sandbox/Containers.antt =====
-- What internal/sandbox/docker.go relies on of a Docker daemon, as laws of the containers that it
-- has, and what a call of the client does to them.
use foreman.Prelude.{
  String, ◌≡◌, ◌∙◌, inl, inr, Bool, true, false, Result, ok, err, str_eq, List, if◌then◌else◌,
  arith, subst, eq_iff, Bool-cases,
}
use foreman.Sandbox.Client.{Docker, ContainerConfig, Call, ◌>>=◌, named, wrapped, after}

module _ {D : Type 0} (has : D → String → Bool) where
  -- The same containers before as after.
  abbrev pub Same : D → D → Type 0
  Same d d' = (other : String) → has d' other ≡ has d other

  -- One container more, of an id that no container had.
  pub record Added (id : String) (d d' : D) : Type 0 where
    pub fresh : has d id ≡ false
    pub others : (other : String) → has d' other ≡ (if str_eq id other then true else has d other)

  abbrev pub Removed : String → D → D → Type 0
  Removed id d d' =
      (other : String) → has d' other ≡ (if str_eq id other then false else has d other)

  abbrev pub Keeps : {A : Type 0} → Call D A → Type 0
  Keeps call = (d : D) → Same d (call d).1

  -- A creation that fails leaves no container.
  abbrev pub Creates : D → Result String × D → Type 0
  Creates d (ok id, d') = Added id d d'
  Creates d (err e, d') = Same d d'

  abbrev pub Removes : String → D → Result (Unit {0}) × D → Type 0
  Removes id d (ok _, d') = Removed id d d'
  Removes id d (err e, d') = Same d d'

  -- A creation makes one container, a removal removes one, and no other call makes or removes any.
  pub record IsDocker (docker : Docker D) : Type 0 where
    pub keeps_inspect_image : (image : String) → Keeps (docker.image_inspect image)
    pub keeps_pull : (image : String) → Keeps (docker.image_pull image)
    pub keeps_start : (id : String) → Keeps (docker.container_start id)
    pub keeps_inspect : (id : String) → Keeps (docker.container_inspect id)
    pub keeps_exec_create : (id : String) (cmd : List String) → Keeps (docker.exec_create id cmd)
    pub keeps_exec_start : (exec_id : String) → Keeps (docker.exec_start exec_id)
    pub keeps_exec_attach : (exec_id : String) → Keeps (docker.exec_attach exec_id)
    pub keeps_exec_inspect : (exec_id : String) → Keeps (docker.exec_inspect exec_id)
    pub creates :
        (cfg : ContainerConfig) (name : String) (d : D)
        → Creates d (docker.container_create cfg name d)
    pub removes : (id : String) (d : D) → Removes id d (docker.container_remove id d)

  -- A forced removal of a container that exists succeeds.
  abbrev pub Reliable : Docker D → Type 0
  Reliable docker =
      (id : String) (d : D) → has d id ≡ true → (docker.container_remove id d).0 ≡ ok tt

  wrapped-Same :
      {A : Type 0} (text : String) (d : D) (reply : Result A × D)
      → Same d reply.1
      → Same d (wrapped text reply).1
  wrapped-Same text d (ok a, d') same = same
  wrapped-Same text d (err e, d') same = same

  pub named-Keeps :
      {A : Type 0} (text : String) (call : Call D A) → Keeps call → Keeps (named text call)
  named-Keeps text call keeps d = wrapped-Same text d (call d) (keeps d)

  after-Same :
      {A B : Type 0} (f : A → Call D B) (d : D) (reply : Result A × D)
      → ((a : A) → Keeps (f a))
      → Same d reply.1
      → Same d (after f reply).1
  after-Same f d (ok a, d') keeps same = λ other. keeps a d' other ∙ same other
  after-Same f d (err e, d') keeps same = same

  pub >>=-Keeps :
      {A B : Type 0} (call : Call D A) (f : A → Call D B)
      → Keeps call
      → ((a : A) → Keeps (f a))
      → Keeps (call >>= f)
  >>=-Keeps call f keeps rest d = after-Same f d (call d) rest (keeps d)

  absent :
      (id other : String) (d : D) → has d id ≡ false → str_eq id other ≡ true → has d other ≡ false
  absent id other d fresh same = subst (λ t. has d t ≡ false) ((eq_iff id other).0 same) fresh

  pub Removed-undoes : (id : String) (d d' d'' : D) → Added id d d' → Removed id d' d'' → Same d d''
  Removed-undoes id d d' d'' added removed = λ other. elim (Bool-cases (str_eq id other)) [
    | inl same ↦ ground (arith, removed other, absent id other d added.fresh same)
    | inr differs ↦ ground (arith, removed other, added.others other)
  ]

  pub Added-Same : (id : String) (d d' d'' : D) → Added id d d' → Same d' d'' → Added id d d''
  Added-Same id d d' d'' added same = record {
    fresh = added.fresh;
    others = λ other. same other ∙ added.others other;
  }
