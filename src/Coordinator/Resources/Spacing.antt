-- ===== src/Coordinator/Resources/Spacing.antt =====
-- `monitorResources` of internal/coordinator/coordinator.go: how often a session's alerts are raised.
use mathlib.Core.List.{append_assoc, append-nil}
use foreman.Prelude.{
  ℕ, ◌+◌, ◌≤◌, String, ◌≡◌, refl, sym, ap, ◌∙◌, subst, false, Option, none, some, List, [], ◌∷◌,
  ◌++◌, ◌⊎◌, arith, Bool-cases, inl, inr, eq_refl, if◌then◌else◌,
}
use foreman.Prelude.Dict.{lookup, lookup-insert}
use foreman.Coordinator.Resources.{
  Floats, Stats, unsupported, unavailable, usage, Alerts, one_minute, raise, is_recent, debounce,
  alerts_of, resource_loop, monitor_resources,
}

-- The first alert comes at least a minute after the last one before, if there was one, and each other
-- one at least a minute after the one before it.
abbrev pub Spaced : Option ℕ → List (ℕ × List String) → Type 0
Spaced last [] = Unit
Spaced none ((now, alerts) ∷ more) = Spaced (some now) more
Spaced (some last) ((now, alerts) ∷ more) = (last + one_minute ≤ now) × Spaced (some now) more

module _ (session_id : String) where
  -- What one tick adds.
  abbrev Adds : ℕ → Alerts → Alerts → Type 0
  Adds now s s' =
      (s' ≡ s)
      ⊎ ((is_recent now (lookup session_id s.last) ≡ false)
          × (lookup session_id s'.last ≡ some now)
          × (alerts : List String) × (s'.logged ≡ s.logged ++ (now, alerts) ∷ []))

  raise-last :
      (now : ℕ) (alerts : List String) (s : Alerts)
      → lookup session_id (raise now session_id alerts s).last ≡ some now
  raise-last now alerts s =
      lookup-insert session_id session_id now s.last ∙ rw (eq_refl session_id) refl

  debounce-Adds :
      (now : ℕ) (alerts : List String) (s : Alerts) → Adds now s (debounce now session_id alerts s)
  unfolding debounce
  debounce-Adds now [] s = inl refl
  debounce-Adds now (a ∷ alerts) s = elim (Bool-cases (is_recent now (lookup session_id s.last))) [
    | inl e ↦ inl (ap (λ b. if b then s else raise now session_id (a ∷ alerts) s) e)
    | inr e ↦
        let raised = ap (λ b. if b then s else raise now session_id (a ∷ alerts) s) e in
        inr (
          e,
          ap (λ (t : Alerts). lookup session_id t.last) raised ∙ raise-last now (a ∷ alerts) s,
          a ∷ alerts,
          ap (λ (t : Alerts). t.logged) raised,
        )
  ]

  -- What more ticks log.
  abbrev Logs : Alerts → Alerts → Type 0
  Logs s s' =
      (added : List (ℕ × List String)) × (s'.logged ≡ s.logged ++ added)
      × Spaced (lookup session_id s.last) added

  Spaced-cons :
      (last : Option ℕ) (now : ℕ) (alerts : List String) (more : List (ℕ × List String))
      → is_recent now last ≡ false
      → Spaced (some now) more
      → Spaced last ((now, alerts) ∷ more)
  Spaced-cons none now alerts more e h = h
  Spaced-cons (some last) now alerts more e h = (ground arith, h)

  Adds-Logs : (now : ℕ) (s t s' : Alerts) → Adds now s t → Logs t s' → Logs s s'
  Adds-Logs now s t s' (inl same) logs = subst (λ u. Logs u s') same logs
  Adds-Logs now s t s' (inr (late, last, alerts, logged)) (added, all, spaced) = (
    (now, alerts) ∷ added,
    all ∙ (ap (λ l. l ++ added) logged ∙ append_assoc s.logged ((now, alerts) ∷ []) added),
    Spaced-cons (lookup session_id s.last) now alerts added late
        (subst (λ l. Spaced l added) last spaced),
  )

  module _ (floats : Floats) where
    open floats use {F, positive}

    resource_loop-Logs :
        (cpu_limit memory_limit : F) (ticks : List (ℕ × Stats F)) (s : Alerts)
        → Logs s (resource_loop floats cpu_limit memory_limit session_id ticks s)
    unfolding resource_loop
    resource_loop-Logs cpu_limit memory_limit [] s = ([], sym (append-nil s.logged), tt)
    resource_loop-Logs cpu_limit memory_limit ((now, unsupported) ∷ ticks) s =
        ([], sym (append-nil s.logged), tt)
    resource_loop-Logs cpu_limit memory_limit ((now, unavailable) ∷ ticks) s =
        resource_loop-Logs cpu_limit memory_limit ticks s
    resource_loop-Logs cpu_limit memory_limit ((now, usage cpu bytes limit) ∷ ticks) s =
        let alerts = alerts_of floats cpu_limit memory_limit cpu bytes limit in
        let t = debounce now session_id alerts s in
        Adds-Logs now s t (resource_loop floats cpu_limit memory_limit session_id ticks t)
          (debounce-Adds now alerts s) (resource_loop-Logs cpu_limit memory_limit ticks t)

    -- Whatever the ticks bring, the monitor keeps the alerts that were logged and adds alerts that
    -- come at least a minute after one another, the first at least a minute after the last one of
    -- the session, if there was one.
    pub monitor_resources-Spaced :
        (cpu_limit memory_limit : F) (ticks : List (ℕ × Stats F)) (s : Alerts)
        → (added : List (ℕ × List String)) × ((monitor_resources floats cpu_limit memory_limit
              session_id ticks s).logged
            ≡ s.logged ++ added)
          × Spaced (lookup session_id s.last) added
    unfolding monitor_resources
    monitor_resources-Spaced cpu_limit memory_limit ticks s =
        elim (Bool-cases (positive cpu_limit)) [
          | inl e ↦ rw e (resource_loop-Logs cpu_limit memory_limit ticks s)
          | inr e ↦ elim (Bool-cases (positive memory_limit)) [
            | inl f ↦ rw (e, f) (resource_loop-Logs cpu_limit memory_limit ticks s)
            | inr f ↦ rw (e, f) ([], sym (append-nil s.logged), tt)
          ]
        ]
