-- ===== src/Coordinator/Resources/Examples.antt =====
-- The theorem about alerts at three ticks.
use foreman.Prelude.{ℕ, ◌*◌, String, ◌≡◌, refl, [], ◌∷◌, none, List, ltb}
use foreman.Prelude.Dict.{lookup, insert}
use foreman.Policy.{second}
use foreman.Coordinator.Resources.{Floats, Stats, usage, unavailable, Alerts, monitor_resources}
use foreman.Coordinator.Resources.Spacing.{Spaced, monitor_resources-Spaced}

abbrev whole : Floats
whole = record {
  F = ℕ;
  positive = λ n. ltb 0 n;
  above = λ a b. ltb b a;
  percent = λ bytes limit. bytes;
  show = λ n. "n";
}

abbrev quiet : Alerts
quiet = record {
  last = [];
  cp = record { bus = record { published = []; outcomes = [] }; store = none; sessions = [] };
  logged = [];
}

abbrev ticks : List (ℕ × Stats ℕ)
ticks =
    (60 * second, usage 95 1 2)
    ∷ (90 * second, usage 95 1 2)
    ∷ (120 * second, unavailable)
    ∷ (150 * second, usage 5 99 2)
    ∷ []

-- The second tick comes too early for an alert.
monitor_resources_test :
    (monitor_resources whole 90 80 "ses_1" ticks quiet).logged
    ≡ (60 * second, "CPU n% > n%" ∷ []) ∷ (150 * second, "memory n% > n%" ∷ []) ∷ []
unfolding monitor_resources lookup insert
monitor_resources_test = refl

monitor_resources-Spaced_example :
    (added : List (ℕ × List String)) × ((monitor_resources whole 90 80 "ses_1" ticks quiet).logged
      ≡ added)
    × Spaced none added
unfolding lookup
monitor_resources-Spaced_example = monitor_resources-Spaced "ses_1" whole 90 80 ticks quiet
