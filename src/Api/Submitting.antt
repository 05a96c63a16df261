-- ===== src/Api/Submitting.antt =====
-- `handleSubmitTask` of internal/core/builder.go: what its answer says of the task.
use foreman.Prelude.{
  ℕ, String, ◌≡◌, refl, Bool-cases, Option, none, some, Result, ok, err, str_eq, inl, inr, ◌⊎◌,
  ◌||◌,
}
use foreman.Coordinator.{Config, Coordinator, submit_task, session_of_task}
use foreman.Api.{session_id, Answer, handle_submit_task, submitted, mentions_max_concurrent}
use foreman.Coordinator.Starting.{IsStarted, IsUnchanged, Starts, submit_task-Starts}

-- What is said of the task: it was accepted and has been started, or it was refused and nothing has.
abbrev pub Reports : Option (String × String) → Coordinator → Answer × Coordinator → Type 0
Reports sent c (a, c') =
    ((a.code ≡ 202)
      × ((task_id : String) × (description : String) × (sent ≡ some (task_id, description))
          × (a.body ≡ session_id (session_of_task task_id))
          × IsStarted task_id description "" c c'))
    ⊎ (((a.code ≡ 400) ⊎ ((a.code ≡ 429) ⊎ (a.code ≡ 500))) × IsUnchanged c c')

submitted-Reports :
    (task_id description : String) (c : Coordinator) (reply : Result (Unit {0}) × Coordinator)
    → Starts task_id description "" c reply
    → Reports (some (task_id, description)) c (submitted task_id reply)
submitted-Reports task_id description c (ok _, c') s =
    inl (refl, (task_id, description, refl, refl, s))
submitted-Reports task_id description c (err e, c') s =
    elim (Bool-cases (mentions_max_concurrent e)) [
      | inl m ↦ inr (inr (inl (rw m refl)), s)
      | inr m ↦ inr (inr (inr (rw m refl)), s)
    ]

-- Whatever body is sent, either the answer is 202 and names the session of the task, the session is
-- active and its goroutine is the last that was started, or the answer is 400, 429 or 500, and no
-- session became active and no goroutine started.
pub handle_submit_task-Reports :
    (cfg : Config) (now : ℕ) (sent : Option (String × String)) (c : Coordinator)
    → Reports sent c (handle_submit_task cfg now sent c)
unfolding handle_submit_task
handle_submit_task-Reports cfg now none c = inr (inl refl, record { active = refl; spawned = refl })
handle_submit_task-Reports cfg now (some (task_id, description)) c =
    elim (Bool-cases (str_eq task_id "" || str_eq description "")) [
      | inl e ↦ rw e (inr (inl refl, record { active = refl; spawned = refl }))
      | inr e ↦ rw e (
          submitted-Reports task_id description c (submit_task cfg now task_id description "" c)
            (submit_task-Starts cfg now task_id description "" c))
    ]
