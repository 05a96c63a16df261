-- ===== src/Coordinator.antt =====
-- internal/coordinator/coordinator.go: the state of the coordinator, admission of tasks, and the
-- helpers that its parts share.
pub mod Admission
pub mod Reaping
mod Examples
pub mod Heartbeat
pub mod Resources
pub mod Submitted
pub mod Starting
pub mod Backoff
pub mod Approval
pub mod Run
use foreman.Prelude.{
  ℕ, ◌*◌, String, Bool, true, false, Option, none, some, List, [], ◌∷◌, ◌++◌, Result, ok, err,
  Error, not_accepting, max_concurrent, session_not_found, wrap, concat, length, str_eq, leb, ltb,
  ◌==◌, if◌then◌else◌,
}
use foreman.Prelude.Dict.{Dict, lookup, insert, delete}
use foreman.Schemas.{Status, allocating, failed}
use foreman.StateStore.{failure}
use foreman.Policy.{Policy, second}
use foreman.ControlPlane
use foreman.ControlPlane.{ControlPlane, transition, audit}

-- What an adapter made of a line, as the JSON that `extractToolUse` reads: its type, its part with
-- the tool's name and state, the whole, and the text of the part where it is an event of opencode with
-- a part.
pub record Parsed : Type 0 where
  pub type : String
  pub part : Option (String × Dict String)
  pub whole : String
  pub text : Option String

-- `AgentAdapter`: the answers of the methods that the coordinator calls. A line that does not parse,
-- or that gives nil, gives `none`.
pub record Adapter : Type 0 where
  pub name : String
  pub verify : Result (Unit {0})
  pub build_config : String → String → Result (List String)
  pub parse_event : String → Option Parsed

pub record AgentConfig : Type 0 where
  pub name : String
  pub cmd : String
  pub sandbox_image : String

-- The fields of `Coordinator` that do not change. The tools are those of `mcpHub.ResolveTools`.
pub record Config : Type 0 where
  pub adapters : Dict Adapter
  pub adapter_list : List Adapter
  pub agent_configs : Dict AgentConfig
  pub policies : List Policy
  pub max_concurrent : ℕ
  pub heartbeat_interval : ℕ
  pub heartbeat_timeout : ℕ
  pub max_retries : ℕ
  pub default_timeout : ℕ
  pub resolve_tools : String → Result (Unit {0})

-- The arguments of a `go c.runAgent(…)`.
pub record Spawn : Type 0 where
  pub session_id : String
  pub description : String
  pub agent : String

-- The fields that change, with the sandboxes that exist and the goroutines started so far.
pub record Coordinator : Type 0 where
  pub cp : ControlPlane
  pub accepting : Bool
  pub active : Dict (Unit {0})
  pub attempts : Dict ℕ
  pub heartbeats : Dict ℕ
  pub sandboxes : List String
  pub spawned : List Spawn

adapter_map : List Adapter → Dict Adapter → Dict Adapter
adapter_map [] m = m
adapter_map (a ∷ as') m = adapter_map as' (insert a.name a m)

agent_config_map : List AgentConfig → Dict AgentConfig → Dict AgentConfig
agent_config_map [] m = m
agent_config_map (a ∷ as') m = agent_config_map as' (insert a.name a m)

abbrev or_default : ℕ → ℕ → ℕ
or_default n d = if leb n 0 then d else n

-- The limits that `New` sets where it is given none.
unfoldable pub new_config :
    List Adapter
    → List AgentConfig
    → List Policy
    → ℕ
    → ℕ
    → ℕ
    → ℕ
    → ℕ
    → (String → Result (Unit {0}))
    → Config
unfolding adapter_map agent_config_map
new_config adapters agent_configs policies max interval timeout retries default_timeout tools =
    record {
      adapters = adapter_map adapters [];
      adapter_list = adapters;
      agent_configs = agent_config_map agent_configs [];
      policies = policies;
      max_concurrent = or_default max 1;
      heartbeat_interval = interval;
      heartbeat_timeout = or_default timeout (60 * second);
      max_retries = or_default retries 3;
      default_timeout = default_timeout;
      resolve_tools = tools;
    }

unfoldable pub new_state : ControlPlane → Coordinator
new_state cp = record {
  cp = cp;
  accepting = true;
  active = [];
  attempts = [];
  heartbeats = [];
  sandboxes = [];
  spawned = [];
}

pub stop_accepting : Coordinator → Coordinator
stop_accepting c = record c { accepting = false }

abbrev pub active_count : Coordinator → ℕ
active_count c = length c.active

-- An error of the transition is logged.
unfoldable pub fail_session : ℕ → String → Error → Coordinator → Coordinator
fail_session now session_id e c = record c {
  cp =
      (transition now session_id failed
        (audit now session_id "coordinator.session_failed" (("error", failure e) ∷ []) c.cp)).1;
}

-- The test at the head of `startTask` and of `ResumeSession`.
unfoldable pub admission : Config → Coordinator → Result (Unit {0})
admission cfg c =
    if c.accepting
    then if leb cfg.max_concurrent (active_count c)
      then err (max_concurrent cfg.max_concurrent)
      else ok tt
    else err not_accepting

-- The end of both: the session becomes active, and its goroutine starts.
unfoldable pub launch : String → String → String → Coordinator → Coordinator
launch session_id description agent c = record c {
  active = insert session_id tt c.active;
  spawned =
      c.spawned
      ++ record { session_id = session_id; description = description; agent = agent } ∷ [];
}

-- `ResolveTools`, and the launch if it succeeds.
unfoldable pub resolve_and_launch :
    Config → ℕ → String → String → String → Coordinator → Result (Unit {0}) × Coordinator
unfolding launch
resolve_and_launch cfg now session_id description agent c = elim (cfg.resolve_tools session_id) [
  | err e ↦ (err (wrap "resolve tools" e), fail_session now session_id (wrap "resolve tools" e) c)
  | ok _ ↦ (ok tt, launch session_id description agent c)
]

unfoldable pub start_task :
    Config → ℕ → String → String → String → Coordinator → Result (Unit {0}) × Coordinator
unfolding admission resolve_and_launch
start_task cfg now session_id description agent c = elim (admission cfg c) [
  | err e ↦ (err e, c)
  | ok _ ↦
      let (moved, cp') = transition now session_id allocating c.cp in
      let c' = record c { cp = cp' } in
      elim moved [
        | err e ↦ (err (wrap "transition to allocating" e), c')
        | ok _ ↦ resolve_and_launch cfg now session_id description agent c'
      ]
]

abbrev pub session_of_task : String → String
session_of_task task_id = concat "ses_" task_id

unfoldable pub submit_task :
    Config → ℕ → String → String → String → Coordinator → Result (Unit {0}) × Coordinator
submit_task cfg now task_id description agent c =
    let session_id = session_of_task task_id in
    let (created, cp') =
      ControlPlane.create_session now session_id task_id description agent c.cp in
    let c' = record c { cp = cp' } in
    elim created [
      | err e ↦ (err (wrap "create session" e), c')
      | ok _ ↦ start_task cfg now session_id description agent c'
    ]

unfoldable pub resume_session :
    Config → ℕ → String → String → Coordinator → Result (Unit {0}) × Coordinator
resume_session cfg now session_id description c = elim (admission cfg c) [
  | err e ↦ (err e, c)
  | ok _ ↦ elim (lookup session_id c.cp.sessions) [
    | none ↦ (err (session_not_found session_id), c)
    | some s ↦ resolve_and_launch cfg now session_id description s.agent c
  ]
]
