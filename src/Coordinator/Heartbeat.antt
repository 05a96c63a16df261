-- ===== src/Coordinator/Heartbeat.antt =====
-- `monitorHeartbeat` of internal/coordinator/coordinator.go. The ticks that come before the context
-- is done are a list: the time of each, and whether the sandbox answered.
pub mod Crashes
use foreman.Prelude.{
  ℕ, suc, ◌+◌, ◌/◌, String, Bool, true, false, Option, none, some, List, [], ◌∷◌, leb, ltb,
  if◌then◌else◌,
}
use foreman.Prelude.Dict.{Dict, insert}
use foreman.Coordinator.{Config}

unfoldable pub max_failures : Config → ℕ
max_failures cfg =
    let n = cfg.heartbeat_timeout / cfg.heartbeat_interval in if ltb n 1 then 3 else n

-- The number of failures sent to `crashCh`, and the times of the last beats.
unfoldable pub monitor_loop : ℕ → String → ℕ → List (ℕ × Bool) → Dict ℕ → Option ℕ × Dict ℕ
monitor_loop max session_id failures [] heartbeats = (none, heartbeats)
monitor_loop max session_id failures ((now, true) ∷ beats) heartbeats =
    monitor_loop max session_id 0 beats (insert session_id now heartbeats)
monitor_loop max session_id failures ((now, false) ∷ beats) heartbeats =
    let rest = monitor_loop max session_id (failures + 1) beats heartbeats in
    if leb max (failures + 1) then (some (failures + 1), heartbeats) else rest

unfoldable pub monitor_heartbeat : Config → String → List (ℕ × Bool) → Dict ℕ → Option ℕ × Dict ℕ
unfolding max_failures
monitor_heartbeat cfg session_id beats heartbeats =
    let watched = monitor_loop (max_failures cfg) session_id 0 beats heartbeats in
    if leb cfg.heartbeat_interval 0 then (none, heartbeats) else watched
