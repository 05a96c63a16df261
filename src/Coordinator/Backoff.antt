-- ===== src/Coordinator/Backoff.antt =====
-- `backoffDuration` of internal/coordinator/coordinator.go. Go's floating point numbers are outside, and
-- the random number is an input.
use foreman.Prelude.{ℕ, ◌+◌, ◌-◌, ◌*◌, ◌^◌, ◌≡◌, refl}

-- float64, with its conversions from and to a duration that is not negative.
pub record Durations : Type 1 where
  pub F : Type 0
  pub from_duration : ℕ → F
  pub to_duration : F → ℕ
  pub times : F → F → F
  pub power : F → ℕ → F

-- `draw` is `rand.Int63n(jitter)`. Attempts count from 1.
unfoldable pub backoff_duration : (d : Durations) → ℕ → Durations.F d → ℕ → ℕ → ℕ
backoff_duration d base multiplier attempt draw =
    d.to_duration (d.times (d.from_duration base) (d.power multiplier (attempt - 1))) + draw

abbrev whole : Durations
whole = record {
  F = ℕ;
  from_duration = λ n. n;
  to_duration = λ n. n;
  times = λ a b. a * b;
  power = λ a n. a ^ n;
}

backoff_duration_test : backoff_duration whole 5 2 3 1 ≡ 21
unfolding backoff_duration
backoff_duration_test = refl
