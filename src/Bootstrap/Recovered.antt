-- ===== src/Bootstrap/Recovered.antt =====
-- The loop of internal/core/builder.go over recovered sessions: what becomes of those that cannot go on.

use mathlib.Core.List.{Memᴰ}
use foreman.Prelude.{
  ℕ, ◌-◌, ◌<◌, String, ◌≡◌, ◌⊎◌, refl, sym, subst, ap, ◌∙◌, true, false, Option, some, List, [],
  ◌∷◌, arith, inl, inr, Bool-cases, Option-cases, Result-cases, eq_refl, eq_iff, str_eq, ltb, All,
}
use foreman.Prelude.Dict.{lookup, lookup-insert}
use foreman.Schemas.{Status, allocating, running, approval, cancelling, failed}
use foreman.StateStore
use foreman.ControlPlane.{ControlPlane, transition}
use foreman.ControlPlane.Steps.{Step, Step_complete, live_allocating, live_cancelling, live_running}
use foreman.ControlPlane.Lifecycle.{sessions-transition, after_transition, moved, lookup-transition}
use foreman.ControlPlane.Undone.{sessions-audit, status_in}
use foreman.Coordinator.{
  Config, Coordinator, resume_session, resolve_and_launch, launch, admission, fail_session,
}
use foreman.Bootstrap.{
  move, note, recover_running, recover_by_status, recover_session, recover_sessions, take_up,
  heartbeat_timeout_or_default,
}

-- The status in memory of the session.
abbrev pub status_of : String → Coordinator → Option Status
status_of id c = status_in id c.cp.sessions

-- A transition of another session leaves this one's status.
status_of-transition_other :
    (now : ℕ) (id j : String) (to : Status) (cp : ControlPlane)
    → str_eq id j ≡ false
    → status_in j (transition now id to cp).1.sessions ≡ status_in j cp.sessions
status_of-transition_other now id j to cp differ =
    rw sessions-transition (elim (Option-cases (lookup id cp.sessions)) [
      | inl e ↦ rw (e, after_transition) refl
      | inr (s, e) ↦ ground (arith, lookup-insert id j (moved now to s) cp.sessions)
    ])

-- A step of the state machine from the session's status.
status_of-transition :
    (now : ℕ) (id : String) (from to : Status) (cp : ControlPlane)
    → status_in id cp.sessions ≡ some from
    → Step from to
    → status_in id (transition now id to cp).1.sessions ≡ some to
status_of-transition now id from to cp h step = elim (Option-cases (lookup id cp.sessions)) [
  | inl e ↦ absurd (ground arith)
  | inr (s, e) ↦
      let same : s.status ≡ from = ground arith in
      rw (lookup-transition now id id to cp s e, eq_refl id, same, Step_complete step) refl
]

-- A session that was being allocated, waited for a human, was being cancelled, or was running without
-- a sign of life for longer than the timeout.
abbrev pub IsDead : ℕ → ℕ → StateStore.Session → Type 0
IsDead timeout now s =
    (s.status ≡ allocating)
    ⊎ ((s.status ≡ approval)
        ⊎ ((s.status ≡ cancelling) ⊎ ((s.status ≡ running) × (timeout < now - s.updated_at))))

-- The audit leaves every status.
status_of-note :
    (now : ℕ) (j id action : String) (m : StateStore.Metadata) (c : Coordinator)
    → status_of j (note now id action m c) ≡ status_of j c
unfolding note
status_of-note now j id action m c = rw sessions-audit refl

recover_session-fails :
    (cfg : Config) (timeout now : ℕ) (s : StateStore.Session) (c : Coordinator)
    → status_of s.id c ≡ some s.status
    → IsDead timeout now s
    → status_of s.id (recover_session cfg timeout now s c) ≡ some failed
unfolding recover_session recover_by_status recover_running move
recover_session-fails cfg timeout now s c h (inl e) =
    rw (e, recover_session, status_of-note)
      (status_of-transition now s.id allocating failed c.cp (h ∙ ap some e)
        (Step.fail live_allocating))
recover_session-fails cfg timeout now s c h (inr (inl e)) =
    rw (e, recover_session, status_of-note)
      (status_of-transition now s.id cancelling failed (transition now s.id cancelling c.cp).1
        (status_of-transition now s.id approval cancelling c.cp (h ∙ ap some e)
          Step.cancel_approval)
        (Step.fail live_cancelling))
recover_session-fails cfg timeout now s c h (inr (inr (inl e))) =
    rw (e, recover_session)
      (status_of-transition now s.id cancelling failed c.cp (h ∙ ap some e)
        (Step.fail live_cancelling))
recover_session-fails cfg timeout now s c h (inr (inr (inr (e, stale)))) =
    let late : ltb timeout (now - s.updated_at) ≡ true = ground arith in
    rw (e, recover_session, late, status_of-note)
      (status_of-transition now s.id running failed c.cp (h ∙ ap some e) (Step.fail live_running))

status_of-resume_session_other :
    (cfg : Config) (now : ℕ) (id j d : String) (c : Coordinator)
    → str_eq id j ≡ false
    → status_of j (resume_session cfg now id d c).1 ≡ status_of j c
unfolding resume_session resolve_and_launch launch fail_session
status_of-resume_session_other cfg now id j d c differ = elim (Result-cases (admission cfg c)) [
  | inr (x, e) ↦ rw (e, resume_session) refl
  | inl (_, e) ↦
      rw (e, resume_session)
        (elim (Option-cases (lookup id c.cp.sessions)) [
          | inl f ↦ rw f refl
          | inr (s, f) ↦ rw f (elim (Result-cases (cfg.resolve_tools id)) [
            | inl (_, g) ↦ rw (g, resolve_and_launch) refl
            | inr (x, g) ↦
                rw
                  (
                    g,
                    resolve_and_launch,
                    status_of-transition_other now id j failed _ differ,
                    sessions-audit,
                  )
                  refl
          ])
        ])
]

recover_by_status-other :
    (cfg : Config) (timeout now : ℕ) (status : Status) (s : StateStore.Session) (j : String)
    (c : Coordinator)
    → str_eq s.id j ≡ false
    → status_of j (recover_by_status cfg timeout now status s c) ≡ status_of j c
unfolding recover_by_status recover_running move
recover_by_status-other cfg timeout now allocating s j c differ =
    rw status_of-note (status_of-transition_other now s.id j failed c.cp differ)
recover_by_status-other cfg timeout now running s j c differ =
    elim (Bool-cases (ltb timeout (now - s.updated_at))) [
      | inl e ↦ rw (e, status_of-note) (status_of-transition_other now s.id j failed c.cp differ)
      | inr e ↦ rw e (status_of-resume_session_other cfg now s.id j s.description c differ)
    ]
recover_by_status-other cfg timeout now approval s j c differ = rw status_of-note (
    status_of-transition_other now s.id j failed _ differ
    ∙ status_of-transition_other now s.id j cancelling c.cp differ)
recover_by_status-other cfg timeout now cancelling s j c differ =
    status_of-transition_other now s.id j failed c.cp differ
recover_by_status-other cfg timeout now _ s j c differ = refl

-- No two of the sessions have one id.
abbrev pub Distinct : List StateStore.Session → Type 0
Distinct [] = Unit {0}
Distinct (s ∷ ss) = All (λ t. str_eq t.id s.id ≡ false) ss × Distinct ss

recover_sessions-other :
    (cfg : Config) (timeout now : ℕ) (ss : List StateStore.Session) (j : String) (c : Coordinator)
    → All (λ t. str_eq t.id j ≡ false) ss
    → status_of j (recover_sessions cfg timeout now ss c) ≡ status_of j c
unfolding recover_sessions recover_session
recover_sessions-other cfg timeout now [] j c h = refl
recover_sessions-other cfg timeout now (s ∷ ss) j c h =
    recover_sessions-other cfg timeout now ss j (recover_session cfg timeout now s c) h.1
    ∙ recover_by_status-other cfg timeout now s.status s j c h.0

differs :
    (x s : StateStore.Session) (ss : List StateStore.Session)
    → All (λ t. str_eq t.id x.id ≡ false) ss
    → Memᴰ s ss
    → str_eq x.id s.id ≡ false
differs x s [] h m = elim m [ ]
differs x s (t ∷ ss) h (Memᴰ.head e) =
    let apart = h.0 in
    let same : s.id ≡ t.id = ap (λ (u : StateStore.Session). u.id) e in
    ground (arith, eq_iff t.id x.id, eq_iff x.id s.id)
differs x s (t ∷ ss) h (Memᴰ.tail m) = differs x s ss h.1 m

recover_sessions-fails :
    (cfg : Config) (timeout now : ℕ) (ss : List StateStore.Session) (s : StateStore.Session)
    (c : Coordinator)
    → Distinct ss
    → Memᴰ s ss
    → status_of s.id c ≡ some s.status
    → IsDead timeout now s
    → status_of s.id (recover_sessions cfg timeout now ss c) ≡ some failed
unfolding recover_sessions recover_session
recover_sessions-fails cfg timeout now [] s c d m h dead = elim m [ ]
recover_sessions-fails cfg timeout now (x ∷ ss) s c d (Memᴰ.head e) h dead =
    recover_sessions-other cfg timeout now ss s.id (recover_session cfg timeout now x c)
      (subst (λ (y : StateStore.Session). All (λ t. str_eq t.id y.id ≡ false) ss) (sym e) d.0)
    ∙ subst
        (λ (y : StateStore.Session).
          status_of s.id (recover_session cfg timeout now y c) ≡ some failed)
        e (recover_session-fails cfg timeout now s c h dead)
recover_sessions-fails cfg timeout now (x ∷ ss) s c d (Memᴰ.tail m) h dead =
    recover_sessions-fails cfg timeout now ss s (recover_session cfg timeout now x c) d.1 m
      (recover_by_status-other cfg timeout now x.status x s.id c (differs x s ss d.0 m) ∙ h) dead

-- Of recovered sessions with distinct ids, each that has its stored status in memory and that was
-- being allocated, waited for a human, was being cancelled, or was running and last updated longer
-- ago than the timeout, has failed afterwards.
pub take_up_dead :
    (cfg : Config) (timeout now : ℕ) (ss : List StateStore.Session) (s : StateStore.Session)
    (c : Coordinator)
    → Distinct ss
    → Memᴰ s ss
    → status_of s.id c ≡ some s.status
    → IsDead (heartbeat_timeout_or_default timeout) now s
    → status_of s.id (take_up cfg timeout now ss c) ≡ some failed
unfolding take_up
take_up_dead cfg timeout now ss s c =
    recover_sessions-fails cfg (heartbeat_timeout_or_default timeout) now ss s c
