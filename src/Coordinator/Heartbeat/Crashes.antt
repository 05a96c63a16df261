-- ===== src/Coordinator/Heartbeat/Crashes.antt =====
-- `monitorHeartbeat` of internal/coordinator/coordinator.go: when it reports a crash.
use foreman.Prelude.{
  ℕ, zero, suc, ◌+◌, ◌≤◌, ◌<◌, String, ◌≡◌, refl, Bool, true, false, ◌||◌, none, some, List, [],
  ◌∷◌, arith, if◌then◌else◌,
}
use foreman.Prelude.Dict.{Dict, insert}
use foreman.Coordinator.{Config}
use foreman.Coordinator.Heartbeat.{max_failures, monitor_loop, monitor_heartbeat}

-- The first `n` beats all fail.
unfoldable pub fails : ℕ → List (ℕ × Bool) → Bool
fails zero beats = true
fails (suc n) [] = false
fails (suc n) ((_, true) ∷ beats) = false
fails (suc n) ((_, false) ∷ beats) = fails n beats

-- Somewhere `n` beats in a row fail.
unfoldable pub has_run : ℕ → List (ℕ × Bool) → Bool
unfolding fails
has_run n [] = fails n []
has_run n (b ∷ beats) = fails n (b ∷ beats) || has_run n beats

fails_mono :
    (m n : ℕ) (beats : List (ℕ × Bool)) → m ≤ n → fails n beats ≡ true → fails m beats ≡ true
unfolding fails
fails_mono zero n beats le h = refl
fails_mono (suc m) zero beats le h = absurd (omega (arith, le))
fails_mono (suc m) (suc n) [] le h = h
fails_mono (suc m) (suc n) ((_, true) ∷ beats) le h = h
fails_mono (suc m) (suc n) ((_, false) ∷ beats) le h = fails_mono m n beats (omega (arith, le)) h

fails-has_run : (n : ℕ) (beats : List (ℕ × Bool)) → fails n beats ≡ true → has_run n beats ≡ true
unfolding has_run
fails-has_run n [] h = h
fails-has_run n (b ∷ beats) h = ground arith

monitor_loop-has_run :
    (m e k : ℕ) (sid : String) (beats : List (ℕ × Bool)) (hb : Dict ℕ)
    → k + e ≡ m
    → (monitor_loop (suc m) sid k beats hb).0
      ≡ (if fails (suc e) beats || has_run (suc m) beats then some (suc m) else none)
unfolding monitor_loop has_run fails
monitor_loop-has_run m e k sid [] hb h = refl
monitor_loop-has_run m e k sid ((now, true) ∷ beats) hb h = ground (
  arith,
  monitor_loop-has_run m m 0 sid beats (insert sid now hb) (omega arith),
  fails-has_run (suc m) beats,
)
monitor_loop-has_run m zero k sid ((now, false) ∷ beats) hb h = ground arith
monitor_loop-has_run m (suc e) k sid ((now, false) ∷ beats) hb h = ground (
  arith,
  monitor_loop-has_run m e (k + 1) sid beats hb (omega (arith, h)),
  fails_mono (suc e) m beats (omega (arith, h)),
)

max_failures_pos : (cfg : Config) → 1 ≤ max_failures cfg
unfolding max_failures
max_failures_pos cfg = ground arith

monitor_loop_from_zero :
    (max : ℕ) (sid : String) (beats : List (ℕ × Bool)) (hb : Dict ℕ)
    → 1 ≤ max
    → (monitor_loop max sid 0 beats hb).0 ≡ (if has_run max beats then some max else none)
monitor_loop_from_zero zero sid beats hb h = absurd (omega (arith, h))
monitor_loop_from_zero (suc m) sid beats hb h =
    ground
      (arith, monitor_loop-has_run m m 0 sid beats hb (omega arith), fails-has_run (suc m) beats)

-- While monitoring is on, a crash is reported exactly when as many beats in a row fail as the limit
-- says, and the number reported is then the limit.
pub monitor_heartbeat-has_run :
    (cfg : Config) (sid : String) (beats : List (ℕ × Bool)) (hb : Dict ℕ)
    → 0 < cfg.heartbeat_interval
    → (monitor_heartbeat cfg sid beats hb).0
      ≡ (if has_run (max_failures cfg) beats then some (max_failures cfg) else none)
unfolding monitor_heartbeat
monitor_heartbeat-has_run cfg sid beats hb on =
    ground (arith, monitor_loop_from_zero (max_failures cfg) sid beats hb (max_failures_pos cfg))
