-- ===== src/Sandbox/Tracking.antt =====
-- The map of sandboxes that internal/sandbox/docker.go keeps, against the containers of the daemon,
-- over the steps of `Provision`, `Destroy`, `Execute` and `Heartbeat`.
use foreman.Prelude.{
  ℕ, String, ◌≡◌, sym, ◌∙◌, ◌⊎◌, inl, inr, Bool, true, false, Bool-cases, none, some, str_eq,
  eq_iff, eq_refl, arith,
}
use foreman.Prelude.Dict.{Dict, lookup, insert, delete, lookup-insert, lookup-delete}
use foreman.Sandbox.{DockerSandbox, ContainerState}
use foreman.Sandbox.Containers.{Same, Added, Removed}

lookup-inserted :
    (name n : String) (new cs : ContainerState) (entries : Dict ContainerState)
    → lookup n (insert name new entries) ≡ some cs
    → ((name ≡ n) × (cs ≡ new)) ⊎ (lookup n entries ≡ some cs)
lookup-inserted name n new cs entries h = elim (Bool-cases (str_eq name n)) [
  | inl e ↦ inl ((eq_iff name n).0 e, ground (arith, lookup-insert name n new entries))
  | inr e ↦ inr (ground (arith, lookup-insert name n new entries))
]

lookup-deleted :
    (name n : String) (cs : ContainerState) (entries : Dict ContainerState)
    → lookup n (delete name entries) ≡ some cs
    → (str_eq name n ≡ false) × (lookup n entries ≡ some cs)
lookup-deleted name n cs entries h = elim (Bool-cases (str_eq name n)) [
  | inl e ↦ ground (arith, lookup-delete name n entries)
  | inr e ↦ (e, ground (arith, lookup-delete name n entries))
]

module _ {D : Type 0} (has : D → String → Bool) where
  -- The containers of the daemon are those of `base`, and one for each registered sandbox.
  pub record IsTracking (base : String → Bool) (s : DockerSandbox) (d : D) : Type 0 where
    pub exists :
        (n : String) (cs : ContainerState) → lookup n s.containers ≡ some cs → has d cs.id ≡ true
    pub ours :
        (n : String) (cs : ContainerState) → lookup n s.containers ≡ some cs → base cs.id ≡ false
    pub apart :
        (n m : String) (a b : ContainerState)
        → lookup n s.containers ≡ some a
        → lookup m s.containers ≡ some b
        → a.id ≡ b.id
        → n ≡ m
    pub kept : (id : String) → base id ≡ true → has d id ≡ true
    pub owned :
        (id : String)
        → has d id ≡ true
        → base id ≡ false
        → ((n : String) × (cs : ContainerState) × (lookup n s.containers ≡ some cs) × (cs.id ≡ id))

  pub Same-IsTracking :
      (base : String → Bool) (s : DockerSandbox) (d d' : D)
      → Same has d d'
      → IsTracking base s d
      → IsTracking base s d'
  Same-IsTracking base s d d' same t = record {
    exists = λ n cs h. same cs.id ∙ t.exists n cs h;
    ours = t.ours;
    apart = t.apart;
    kept = λ id h. same id ∙ t.kept id h;
    owned = λ id h. t.owned id (sym (same id) ∙ h);
  }

  pub Added-IsTracking :
      (base : String → Bool) (s : DockerSandbox) (d d' : D) (name id : String) (now : ℕ)
      → lookup name s.containers ≡ none
      → Added has id d d'
      → IsTracking base s d
      → IsTracking base
          (record s {
            containers = insert name (record { id = id; created_at = now }) s.containers;
          })
          d'
  Added-IsTracking base s d d' name id now free added t = record {
    exists = λ n cs h. elim (lookup-inserted name n _ cs s.containers h) [
      | inl (e, same) ↦ ground (arith, added.others id, eq_refl id)
      | inr old ↦ ground (arith, added.others cs.id, t.exists n cs old)
    ];
    ours = λ n cs h. elim (lookup-inserted name n _ cs s.containers h) [
      | inl (e, same) ↦ ground (arith, t.kept id)
      | inr old ↦ t.ours n cs old
    ];
    apart = λ n m a b h k e. elim (lookup-inserted name n _ a s.containers h) [
      | inl (en, ea) ↦ elim (lookup-inserted name m _ b s.containers k) [
        | inl (em, eb) ↦ sym en ∙ em
        | inr old ↦ ground (arith, t.exists m b old)
      ]
      | inr old_n ↦ elim (lookup-inserted name m _ b s.containers k) [
        | inl (em, eb) ↦ ground (arith, t.exists n a old_n)
        | inr old_m ↦ t.apart n m a b old_n old_m e
      ]
    ];
    kept = λ other h. ground (arith, added.others other, t.kept other h);
    owned = λ other h k. elim (Bool-cases (str_eq id other)) [
      | inl same ↦ (
        name,
        record { id = id; created_at = now },
        ground (
          arith,
          lookup-insert name name (record { id = id; created_at = now }) s.containers,
          eq_refl name,
        ),
        (eq_iff id other).0 same,
      )
      | inr differs ↦
          owned_before other differs (t.owned other (ground (arith, added.others other)) k)
    ];
  }
    where
      owned_before :
          (other : String)
          → str_eq id other ≡ false
          → ((n : String) × (cs : ContainerState) × (lookup n s.containers ≡ some cs)
              × (cs.id ≡ other))
          → ((n : String) × (cs : ContainerState) × (lookup n
                  (insert name (record { id = id; created_at = now }) s.containers)
                ≡ some cs)
              × (cs.id ≡ other))
      owned_before other differs (n, cs, found, e) = (
        n,
        cs,
        ground (
          arith,
          lookup-insert name n (record { id = id; created_at = now }) s.containers,
          eq_iff name n,
        ),
        e,
      )

  pub Removed-IsTracking :
      (base : String → Bool) (s : DockerSandbox) (d d' : D) (name : String) (cs : ContainerState)
      → lookup name s.containers ≡ some cs
      → Removed has cs.id d d'
      → IsTracking base s d
      → IsTracking base (record s { containers = delete name s.containers }) d'
  Removed-IsTracking base s d d' name cs found removed t = record {
    exists = λ n c h.
        (let (e, old) = lookup-deleted name n c s.containers h in
          ground (
            arith,
            removed c.id,
            t.exists n c old,
            t.apart name n cs c found old,
            eq_iff cs.id c.id,
            eq_iff name n,
          ));
    ours = λ n c h. t.ours n c (lookup-deleted name n c s.containers h).1;
    apart = λ n m a b h k.
        t.apart n m a b (lookup-deleted name n a s.containers h).1
          (lookup-deleted name m b s.containers k).1;
    kept = λ id h. ground (arith, removed id, t.kept id h, t.ours name cs found, eq_iff cs.id id);
    owned = λ id h k. elim (Bool-cases (str_eq cs.id id)) [
      | inl same ↦ ground (arith, removed id)
      | inr differs ↦
          (let (n, c, l, e) = t.owned id (ground (arith, removed id)) k in
            (
              n,
              c,
              ground (arith, lookup-delete name n s.containers, eq_iff name n, eq_iff cs.id id),
              e,
            ))
    ];
  }
