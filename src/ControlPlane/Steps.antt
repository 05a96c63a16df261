-- ===== src/ControlPlane/Steps.antt =====
-- `validTransitions` of internal/controlplane/session.go, and the state machine of a session as a relation.
use foreman.Prelude.{
  ◌≡◌, refl, sym, subst, Bool, true, false, Option, none, some, List, ◌↔◌, ◌⊎◌, inl, inr, any,
  arith,
}
use foreman.Schemas.{
  Status, same_status, created, allocating, running, approval, cancelling, completed, failed,
}
use foreman.ControlPlane.{valid_transitions}

-- The statuses that a session can fail in.
pub data IsLive : Status → Type 0 where
  live_created : IsLive created
  live_allocating : IsLive allocating
  live_running : IsLive running
  live_approval : IsLive approval
  live_cancelling : IsLive cancelling

-- One step in the life of a session.
pub data Step : Status → Status → Type 0 where
  allocate : Step created allocating
  start : Step allocating running
  ask : Step running approval
  resume : Step approval running
  complete : Step running completed
  cancel : Step running cancelling
  cancel_approval : Step approval cancelling
  finish : Step cancelling completed
  fail : {s : Status} → IsLive s → Step s failed

pub data Reach (s : Status) : Status → Type 0 where
  here : Reach s s
  next : {t u : Status} → Reach s t → Step t u → Reach s u

abbrev pub allows : Option (List Status) → Status → Bool
allows none to = false
allows (some allowed) to = any (same_status to) allowed

pub Step_complete : {from to : Status} → Step from to → allows (valid_transitions from) to ≡ true
unfolding valid_transitions
Step_complete (fail live_created) = refl
Step_complete (fail live_allocating) = refl
Step_complete (fail live_running) = refl
Step_complete (fail live_approval) = refl
Step_complete (fail live_cancelling) = refl
Step_complete allocate = refl
Step_complete start = refl
Step_complete ask = refl
Step_complete resume = refl
Step_complete complete = refl
Step_complete cancel = refl
Step_complete cancel_approval = refl
Step_complete finish = refl

pub Step_sound : (from to : Status) → allows (valid_transitions from) to ≡ true → Step from to
unfolding valid_transitions
Step_sound created allocating h = allocate
Step_sound created failed h = fail live_created
Step_sound allocating running h = start
Step_sound allocating failed h = fail live_allocating
Step_sound running approval h = ask
Step_sound running completed h = complete
Step_sound running cancelling h = cancel
Step_sound running failed h = fail live_running
Step_sound approval running h = resume
Step_sound approval cancelling h = cancel_approval
Step_sound approval failed h = fail live_approval
Step_sound cancelling failed h = fail live_cancelling
Step_sound cancelling completed h = finish
Step_sound _ _ h = absurd (ground arith)

-- The table of transitions allows exactly the steps of the state machine.
valid_transitions-Step :
    (from to : Status) → (allows (valid_transitions from) to ≡ true) ↔ Step from to
valid_transitions-Step from to = (Step_sound from to, λ s. Step_complete s)

abbrev pub IsTerminal : Status → Type 0
IsTerminal s = (s ≡ completed) ⊎ (s ≡ failed)

not_live_completed : {s : Status} → IsLive s → s ≡ completed → ⊥
not_live_completed live_created e = cc
not_live_completed _ e = cc

not_live_failed : {s : Status} → IsLive s → s ≡ failed → ⊥
not_live_failed live_created e = cc
not_live_failed _ e = cc

no_step_completed : {s t : Status} → Step s t → s ≡ completed → ⊥
no_step_completed (fail l) e = not_live_completed l e
no_step_completed _ e = cc

no_step_failed : {s t : Status} → Step s t → s ≡ failed → ⊥
no_step_failed (fail l) e = not_live_failed l e
no_step_failed _ e = cc

pub no_step_terminal : {s t : Status} → IsTerminal s → Step s t → ⊥
no_step_terminal (inl e) st = no_step_completed st e
no_step_terminal (inr e) st = no_step_failed st e

-- Nothing is reached from a terminal status but itself.
pub Reach-terminal : {s t : Status} → IsTerminal s → Reach s t → t ≡ s
Reach-terminal h here = refl
Reach-terminal {s} h (next {t} r st) =
    absurd (no_step_terminal (subst IsTerminal (sym (Reach-terminal h r)) h) st)

pub Reach-trans : {s t u : Status} → Reach s t → Reach t u → Reach s u
Reach-trans r here = r
Reach-trans r (next q st) = next (Reach-trans r q) st
