-- ===== src/ControlPlane/Undone.antt =====
-- The status of a session of internal/controlplane/session.go after a transition, a checkpoint, or a call
-- that concerns neither.
use mathlib.Core.Option
use mathlib.Core.Option.{some-injective}
use foreman.Prelude.{
  ℕ, String, ◌≡◌, ◌≢◌, Option, some, arith, inl, inr, Bool-cases, Option-cases, eq_refl,
}
use foreman.Prelude.Dict.{Dict, lookup, lookup-insert}
use foreman.Schemas.{Status, completed}
use foreman.StateStore.{Metadata}
use foreman.ControlPlane.{
  Session, ControlPlane, transition, save_checkpoint, audit, valid_transitions,
}
use foreman.ControlPlane.Steps.{allows}
use foreman.ControlPlane.Lifecycle.{
  lookup-transition, sessions-transition, sessions-save_checkpoint, after_transition,
}

abbrev pub status_in : String → Dict Session → Option Status
status_in id sessions = Option.map (λ s. s.status) (lookup id sessions)

-- The session has not completed.
abbrev pub IsUndone : String → Dict Session → Type 0
IsUndone id sessions = status_in id sessions ≢ some completed

pub transition-IsUndone :
    (now : ℕ) (id : String) (to : Status) (cp : ControlPlane)
    → to ≢ completed
    → IsUndone id cp.sessions
    → IsUndone id (transition now id to cp).1.sessions
transition-IsUndone now id to cp ne h = elim (Option-cases (lookup id cp.sessions)) [
  | inl e ↦ rw (sessions-transition, e, after_transition) h
  | inr (s, e) ↦
      rw (lookup-transition now id id to cp s e, eq_refl id)
        (elim (Bool-cases (allows (valid_transitions s.status) to)) [
          | inl y ↦ rw y (λ k. ne (some-injective to completed k))
          | inr n ↦ rw n (rw e at h)
        ])
]

pub save_checkpoint-IsUndone :
    (now : ℕ) (id : String) (snapshot : Metadata) (cp : ControlPlane)
    → IsUndone id cp.sessions
    → IsUndone id (save_checkpoint now id snapshot cp).1.sessions
save_checkpoint-IsUndone now id snapshot cp h = elim (sessions-save_checkpoint now id snapshot cp) [
  | inl e ↦ rw e h
  | inr (s, ref, e, f) ↦ rw (f, lookup-insert, eq_refl) (rw e at h)
]

pub sessions-audit :
    (now : ℕ) (id action : String) (m : Metadata) (cp : ControlPlane)
    → (audit now id action m cp).sessions ≡ cp.sessions
unfolding audit
sessions-audit now id action m cp = ground arith
