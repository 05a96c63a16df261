-- ===== src/Coordinator/Approval/Answers.antt =====
-- `waitForApproval` and `DenySession` of internal/coordinator/coordinator.go: what the gate lets through,
-- and what it makes of an answer.
use foreman.Prelude.{ℕ, String, ◌≡◌, ◌↔◌, refl, true, false, [], ◌∷◌, ◌++◌, ok, err, arith, denied}
use foreman.EventBus.Bus.{Bus, publish}
use foreman.Schemas.{Payload, Event, approval_denied}
use foreman.Schemas.Subjects.{subject}
use foreman.ControlPlane.{ControlPlane}
use foreman.Coordinator.Approval.{
  Meets, answered, no_subscription, timed_out, context_done, wait_for_approval, extract_user_id,
  deny_session,
}

-- The approval gate succeeds exactly when what it meets is an event of the granted subject.
pub wait_for_approval_iff :
    (now : ℕ) (sid : String) (meets : Meets) (cp : ControlPlane)
    → ((wait_for_approval now sid meets cp).0 ≡ ok tt) ↔ ((p : Payload) × (meets ≡ answered true p))
unfolding wait_for_approval
wait_for_approval_iff now sid (no_subscription name e) cp =
    (λ h. absurd (ground arith), λ h. let e = h.1 in absurd (ground arith))
wait_for_approval_iff now sid (answered true p) cp = (λ h. (p, refl), λ h. refl)
wait_for_approval_iff now sid (answered false p) cp =
    (λ h. absurd (ground arith), λ h. let e = h.1 in absurd (ground arith))
wait_for_approval_iff now sid timed_out cp =
    (λ h. absurd (ground arith), λ h. let e = h.1 in absurd (ground arith))
wait_for_approval_iff now sid context_done cp =
    (λ h. absurd (ground arith), λ h. let e = h.1 in absurd (ground arith))

-- Where the bus takes it, the event that DenySession publishes carries the user and the reason, but
-- the error of the gate that receives it names the user and an empty reason.
deny_session_reason :
    (now : ℕ) (sid user reason : String) (bus : Bus) (cp : ControlPlane)
    → bus.outcomes ≡ []
    → (e : Event) × ((deny_session now sid user reason bus).1.published
        ≡ bus.published ++ (subject ("approval" ∷ sid ∷ "denied" ∷ []), e) ∷ [])
      × (e.payload ≡ Payload.answer user reason)
      × ((wait_for_approval now sid (answered false e.payload) cp).0 ≡ err (denied user ""))
unfolding deny_session wait_for_approval publish extract_user_id
deny_session_reason now sid user reason bus cp up = (
  record {
    type = approval_denied;
    session_id = sid;
    timestamp = now;
    payload = Payload.answer user reason;
  },
  ground arith,
  refl,
  refl,
)
