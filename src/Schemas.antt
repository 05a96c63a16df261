-- ===== src/Schemas.antt =====
-- internal/schemas: the statuses, the event types, the events and the subjects they go to.
pub mod Subjects
use mathlib.Core.Path.{◌≡◌, refl}
use foreman.Prelude.{ℕ, String, Option, Bool, true, false, List, arith, str_eq, eq_iff, eq_refl}

-- `SessionStatus` is a Go string: the seven constants, and any other text.
pub data Status : Type 0 where
  created allocating running approval cancelling completed failed : Status
  other : String → Status

-- Go's `==` on two statuses.
abbrev pub same_status : Status → Status → Bool
same_status created created = true
same_status allocating allocating = true
same_status running running = true
same_status approval approval = true
same_status cancelling cancelling = true
same_status completed completed = true
same_status failed failed = true
same_status (other s) (other t) = str_eq s t
same_status _ _ = false

pub same_status→eq : (s t : Status) → same_status s t ≡ true → s ≡ t
same_status→eq (other s) (other t) h = ground (arith, eq_iff s t)
same_status→eq _ _ h = ground arith

pub same_status_refl : (s : Status) → same_status s s ≡ true
same_status_refl (other s) = eq_refl s
same_status_refl _ = refl

-- The text of a status.
abbrev pub status_text : Status → String
status_text created = "CREATED"
status_text allocating = "ALLOCATING"
status_text running = "RUNNING"
status_text approval = "APPROVAL"
status_text cancelling = "CANCELLING"
status_text completed = "COMPLETED"
status_text failed = "FAILED"
status_text (other s) = s

-- The event types that the modelled code publishes.
pub data EventType : Type 0 where
  session_created session_allocating session_running session_approval : EventType
  session_cancelling session_completed session_failed : EventType
  agent_output approval_request approval_granted approval_denied : EventType
  task_submitted user_message agent_done : EventType

abbrev pub event_text : EventType → String
event_text session_created = "session.created"
event_text session_allocating = "session.allocating"
event_text session_running = "session.running"
event_text session_approval = "session.approval"
event_text session_cancelling = "session.cancelling"
event_text session_completed = "session.completed"
event_text session_failed = "session.failed"
event_text agent_output = "agent.output"
event_text approval_request = "approval.request"
event_text approval_granted = "approval.granted"
event_text approval_denied = "approval.denied"
event_text task_submitted = "task.submitted"
event_text user_message = "user.message"
event_text agent_done = "agent.done"

-- `SessionPayload`.
pub record SessionPayload : Type 0 where
  pub session_id : String
  pub task_id : String
  pub status : Status

-- A message of a chat user. No plugin sets the field ThreadTS, which is left out.
pub record UserMessage : Type 0 where
  pub plugin : String
  pub user_id : String
  pub channel : String
  pub text : String
  pub agent : String

-- `TaskPayload`, less its status.
pub record TaskPayload : Type 0 where
  pub task_id : String
  pub description : String
  pub agent : String

-- `Message`
pub record Message : Type 0 where
  pub text : String
  pub thread : String

-- The payloads that the modelled code publishes: a session, an approval request with its tools and
-- policy, an answer with its user and reason (empty where the map has none), a pressed button with its
-- user, channel and action, what an adapter made of a line with the text of its part where that is an
-- event of opencode with a part, a message of a chat user, a task, and nil. The two called `fields` and
-- `plain` are what a subscriber can get from elsewhere too: a map of any values, where `none` is a
-- value that is not a string, and a string. `opaque` is any other value that JSON has.
pub data Payload : Type 0 where
  session : SessionPayload → Payload
  request : List String → String → Payload
  answer : String → String → Payload
  pressed : String → String → String → Payload
  output : String → Option String → Payload
  message : UserMessage → Payload
  task : TaskPayload → Payload
  nil : Payload
  opaque : Payload
  fields : List (String × Option String) → Payload
  plain : String → Payload

-- `Event`, less the ID, which is the session's ID with a time stamp.
pub record Event : Type 0 where
  pub type : EventType
  pub session_id : String
  pub timestamp : ℕ
  pub payload : Payload
