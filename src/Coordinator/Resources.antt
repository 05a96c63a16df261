-- ===== src/Coordinator/Resources.antt =====
-- `monitorResources` of internal/coordinator/coordinator.go. Go's floating point numbers are outside:
-- they come with their comparison and their text. Differences of times that are negative in the code
-- count as 0.
pub mod Spacing
mod Examples
use foreman.Prelude.{
  ℕ, ◌-◌, ◌*◌, String, Bool, true, false, ◌&&◌, Option, none, some, List, [], ◌∷◌, ◌++◌, concat,
  ltb, if◌then◌else◌,
}
use foreman.Prelude.Dict.{Dict, lookup, insert}
use foreman.StateStore.{texts}
use foreman.Policy.{second}
use foreman.ControlPlane.{ControlPlane, audit}

-- float64, with the percentage of some bytes of a limit, and the text of `%.1f`.
pub record Floats : Type 1 where
  pub F : Type 0
  pub positive : F → Bool
  pub above : F → F → Bool
  pub percent : ℕ → ℕ → F
  pub show : F → String

pub data Stats (F : Type 0) : Type 0 where
  unsupported : Stats F
  unavailable : Stats F
  usage : F → ℕ → ℕ → Stats F

-- The times of the last alerts, the control plane, and the alerts that were logged, with their times.
pub record Alerts : Type 0 where
  pub last : Dict ℕ
  pub cp : ControlPlane
  pub logged : List (ℕ × List String)

abbrev pub one_minute : ℕ
one_minute = 60 * second

abbrev pub raise : ℕ → String → List String → Alerts → Alerts
raise now session_id alerts s = record s {
  last = insert session_id now s.last;
  cp = audit now session_id "coordinator.resource_alert" (("alerts", texts alerts) ∷ []) s.cp;
  logged = s.logged ++ (now, alerts) ∷ [];
}

-- Not more than once a minute.
abbrev pub is_recent : ℕ → Option ℕ → Bool
is_recent now none = false
is_recent now (some last) = ltb (now - last) one_minute

unfoldable pub debounce : ℕ → String → List String → Alerts → Alerts
debounce now session_id [] s = s
debounce now session_id (a ∷ alerts) s =
    if is_recent now (lookup session_id s.last) then s else raise now session_id (a ∷ alerts) s

module _ (floats : Floats) where
  open floats use {F, positive, above, percent, show}

  abbrev exceeds : String → F → F → List String
  exceeds name value limit =
      if positive limit && above value limit
      then concat name (concat " " (concat (show value) (concat "% > " (concat (show limit) "%"))))
        ∷ []
      else []

  -- The alerts of the processor and of the memory.
  unfoldable pub alerts_of : F → F → F → ℕ → ℕ → List String
  alerts_of cpu_limit memory_limit cpu bytes limit =
      exceeds "CPU" cpu cpu_limit ++ exceeds "memory" (percent bytes limit) memory_limit

  -- The loop over the ticks that come before the context is done, with their times.
  unfoldable pub resource_loop : F → F → String → List (ℕ × Stats F) → Alerts → Alerts
  unfolding alerts_of debounce
  resource_loop cpu_limit memory_limit session_id [] s = s
  resource_loop cpu_limit memory_limit session_id ((now, unsupported) ∷ ticks) s = s
  resource_loop cpu_limit memory_limit session_id ((now, unavailable) ∷ ticks) s =
      resource_loop cpu_limit memory_limit session_id ticks s
  resource_loop cpu_limit memory_limit session_id ((now, usage cpu bytes limit) ∷ ticks) s =
      resource_loop cpu_limit memory_limit session_id ticks
        (debounce now session_id (alerts_of cpu_limit memory_limit cpu bytes limit) s)

  unfoldable pub monitor_resources : F → F → String → List (ℕ × Stats F) → Alerts → Alerts
  unfolding resource_loop
  monitor_resources cpu_limit memory_limit session_id ticks s =
      if positive cpu_limit
      then resource_loop cpu_limit memory_limit session_id ticks s
      else if positive memory_limit
      then resource_loop cpu_limit memory_limit session_id ticks s
      else s
