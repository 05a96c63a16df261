-- ===== src/Coordinator/Submitted.antt =====
-- The handler of `Start` of internal/coordinator/coordinator.go: the events that submit tasks.
use foreman.Prelude.{ℕ, Result, ok, err, message, ◌≡◌, refl}
use foreman.Schemas.{Payload}
use foreman.Coordinator.{Config, Coordinator, submit_task}

-- What the handler answers, and the coordinator after the goroutine that it starts, whose error is
-- logged.
unfoldable pub on_task_submitted :
    Config → ℕ → Payload → Coordinator → Result (Unit {0}) × Coordinator
on_task_submitted cfg now (Payload.task pay) c =
    (ok tt, (submit_task cfg now pay.task_id pay.description pay.agent c).1)
on_task_submitted cfg now _ c = (err (message "unexpected payload type"), c)

refused_test :
    (cfg : Config) (c : Coordinator)
    → on_task_submitted cfg 1 (Payload.plain "fix") c ≡ (err (message "unexpected payload type"), c)
unfolding on_task_submitted
refused_test cfg c = refl
