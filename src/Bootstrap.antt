-- ===== src/Bootstrap.antt =====
-- The part of internal/core/builder.go that takes up the sessions that `Recover` has loaded. The time
-- of the process is its argument `now`; differences of times that are negative in the code count as 0,
-- and the seconds in the audit trail are whole.
pub mod Chat
pub mod Wiring
pub mod Recovered
mod Examples
use foreman.Prelude.{
  ℕ, ◌-◌, ◌/◌, ◌*◌, String, Bool, true, false, List, [], ◌∷◌, leb, ltb, if◌then◌else◌,
}
use foreman.Schemas.{Status, allocating, running, approval, cancelling, completed, created, failed}
use foreman.StateStore
use foreman.StateStore.{Metadata, text, number}
use foreman.Policy.{second}
use foreman.ControlPlane.{ControlPlane, transition, audit}
use foreman.Coordinator.{Config, Coordinator, resume_session}

-- An error of the transition is dropped.
unfoldable pub move : ℕ → String → Status → Coordinator → Coordinator
move now id to c = record c { cp = (transition now id to c.cp).1 }

unfoldable pub note : ℕ → String → String → Metadata → Coordinator → Coordinator
note now id action metadata c = record c { cp = audit now id action metadata c.cp }

unfoldable pub heartbeat_timeout_or_default : ℕ → ℕ
heartbeat_timeout_or_default timeout = if leb timeout 0 then 90 * second else timeout

-- The case of a RUNNING session.
unfoldable pub recover_running : Config → ℕ → ℕ → StateStore.Session → Coordinator → Coordinator
unfolding move note
recover_running cfg timeout now s c =
    let age = now - s.updated_at in
    if ltb timeout age
    then note now s.id "recovery.stale_session_failed"
        (("age_seconds", number (age / second)) ∷ ("timeout", number (timeout / second)) ∷ [])
        (move now s.id failed c)
    else (resume_session cfg now s.id s.description c).1

unfoldable pub recover_by_status :
    Config → ℕ → ℕ → Status → StateStore.Session → Coordinator → Coordinator
unfolding move note recover_running
recover_by_status cfg timeout now allocating s c =
    note now s.id "recovery.allocating_session_failed"
      (("reason", text "allocation never completed before restart") ∷ []) (move now s.id failed c)
recover_by_status cfg timeout now running s c = recover_running cfg timeout now s c
recover_by_status cfg timeout now approval s c =
    note now s.id "recovery.orphaned_approval_cancelled" []
      (move now s.id failed (move now s.id cancelling c))
recover_by_status cfg timeout now cancelling s c = move now s.id failed c
recover_by_status cfg timeout now _ s c = c

-- One round of the loop.
unfoldable pub recover_session : Config → ℕ → ℕ → StateStore.Session → Coordinator → Coordinator
unfolding recover_by_status
recover_session cfg timeout now s c = recover_by_status cfg timeout now s.status s c

unfoldable pub recover_sessions :
    Config → ℕ → ℕ → List StateStore.Session → Coordinator → Coordinator
unfolding recover_session
recover_sessions cfg timeout now [] c = c
recover_sessions cfg timeout now (s ∷ ss) c =
    recover_sessions cfg timeout now ss (recover_session cfg timeout now s c)

unfoldable pub take_up : Config → ℕ → ℕ → List StateStore.Session → Coordinator → Coordinator
unfolding recover_sessions heartbeat_timeout_or_default
take_up cfg timeout now recovered c =
    recover_sessions cfg (heartbeat_timeout_or_default timeout) now recovered c
