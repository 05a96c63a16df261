-- ===== src/Api.antt =====
-- The HTTP handlers of internal/core/builder.go for tasks, sessions and approvals. What the decoder of
-- JSON makes of a body is an input; times stay numbers where the code formats them.
pub mod Submitting
pub mod Answering
mod Examples
use foreman.Prelude.{
  ℕ, String, Bool, true, false, ◌||◌, Option, none, some, Result, ok, err, Error, max_concurrent,
  wrap, retries_exhausted, str_eq, if◌then◌else◌, message,
}
use foreman.Prelude.Dict.{lookup}
use foreman.Schemas.{Status}
use foreman.StateStore
use foreman.ControlPlane.{ControlPlane}
use foreman.Coordinator.{Config, Coordinator, submit_task, session_of_task}
use foreman.Coordinator.Approval.{approve_session, deny_session}

-- `SessionInfo`
pub record SessionInfo : Type 0 where
  pub id : String
  pub status : Status
  pub task_id : String
  pub description : String
  pub created_at : ℕ
  pub updated_at : ℕ

pub data Body : Type 0 where
  error_text : String → Body
  error_of : Error → Body
  session_id : String → Body
  status : String → Body
  info : SessionInfo → Body

pub record Answer : Type 0 where
  pub code : ℕ
  pub body : Body

abbrev pub answer : ℕ → Body → Answer
answer code body = record { code = code; body = body }

abbrev pub bad_request : String → Answer
bad_request text = answer 400 (error_text text)

-- The test of the error's text for "max concurrent tasks reached", which only this error's text has of
-- those that `SubmitTask` makes itself.
abbrev pub mentions_max_concurrent : Error → Bool
mentions_max_concurrent (max_concurrent n) = true
mentions_max_concurrent (wrap text e) = mentions_max_concurrent e
mentions_max_concurrent (retries_exhausted n e) = mentions_max_concurrent e
mentions_max_concurrent _ = false

abbrev pub submitted : String → Result (Unit {0}) × Coordinator → Answer × Coordinator
submitted task_id (ok _, c) = (answer 202 (session_id (session_of_task task_id)), c)
submitted task_id (err e, c) =
    (answer (if mentions_max_concurrent e then 429 else 500) (error_of e), c)

-- The decoded body is the task's identifier and its description.
unfoldable pub handle_submit_task :
    Config → ℕ → Option (String × String) → Coordinator → Answer × Coordinator
handle_submit_task cfg now none c = (bad_request "invalid JSON body", c)
handle_submit_task cfg now (some (task_id, description)) c =
    if str_eq task_id "" || str_eq description ""
    then (bad_request "task_id and description are required", c)
    else submitted task_id (submit_task cfg now task_id description "" c)

-- `Coordinator.GetSession`
unfoldable pub get_session : String → Coordinator → Option SessionInfo
get_session id c = elim (lookup id c.cp.sessions) [
  | none ↦ none
  | some s ↦ some (record {
    id = s.id;
    status = s.status;
    task_id = s.task_id;
    description = s.description;
    created_at = s.created_at;
    updated_at = s.updated_at;
  })
]

unfoldable pub handle_get_session : String → Coordinator → Answer
unfolding get_session
handle_get_session id c =
    if str_eq id "" then bad_request "session id is required" else elim (get_session id c) [
      | none ↦ answer 404 (error_text "session not found")
      | some found ↦ answer 200 (info found)
    ]

-- A field of the optional body, and its default where it is missing, empty or not decoded.
abbrev pub field_or : String → String → String
field_or value default = if str_eq value "" then default else value

abbrev pub told : String → Coordinator → Result (Unit {0}) × ControlPlane → Answer × Coordinator
told text c (ok _, cp) = (answer 200 (status text), record c { cp = cp })
told text c (err e, cp) = (answer 500 (error_of e), record c { cp = cp })

unfoldable pub handle_approve_session : ℕ → String → String → Coordinator → Answer × Coordinator
handle_approve_session now id user_id c =
    if str_eq id ""
    then (bad_request "session id is required", c)
    else let (sent, bus) = approve_session now id (field_or user_id "api-user") c.cp.bus in
      told "approved" c (sent, record c.cp { bus = bus })

unfoldable pub handle_deny_session :
    ℕ → String → String → String → Coordinator → Answer × Coordinator
handle_deny_session now id user_id reason c =
    if str_eq id ""
    then (bad_request "session id is required", c)
    else let (sent, bus) =
        deny_session now id (field_or user_id "api-user") (field_or reason "denied via API")
          c.cp.bus in
      told "denied" c (sent, record c.cp { bus = bus })
