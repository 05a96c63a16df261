-- ===== src/Bootstrap/Wiring.antt =====
-- The wiring of internal/core/builder.go: the kinds of the parts that are chosen, the routes of the
-- server, the order in which the parts are opened, and what a failure and the shutdown close. What the
-- constructors of the parts answer is an input.
pub mod Opening
mod Examples
use foreman.Prelude.{
  ℕ, String, Bool, true, false, ◌||◌, Option, none, some, List, [], ◌∷◌, ◌++◌, Result, ok, err,
  Error, message, wrap, within, concat, str_eq, if◌then◌else◌, map,
}
use foreman.Coordinator.{AgentConfig, Adapter}
use foreman.Adapters.{Host, open_code_adapter, exec_adapter}
use foreman.Policy.{Policy}
use foreman.Policy
use foreman.McpHub.{McpServerConfig, StaticHub, new_static_hub}

-- What `newEventBus` makes: the in-process bus, a bus at a URL, or an embedded one.
pub data BusKind : Type 0 where
  in_process : BusKind
  external : String → BusKind
  embedded : BusKind

unfoldable pub new_event_bus : String → String → Result BusKind
new_event_bus kind url =
    if str_eq kind "memory" || str_eq kind ""
    then ok in_process
    else if str_eq kind "nats"
    then (if str_eq url "" then ok embedded else ok (external url))
    else err (message (concat "unknown eventbus kind: " kind))

-- Whether there is a sandbox; `docker` is the outcome of its constructor.
unfoldable pub new_sandbox : String → Result (Unit {0}) → Result Bool
new_sandbox kind docker =
    if str_eq kind "docker"
    then (elim docker [ err e ↦ err e | ok _ ↦ ok true ])
    else if str_eq kind ""
    then ok false
    else err (message (concat "unknown sandbox kind: " kind))

-- Whether there is a store; `postgres` is the outcome of its constructor.
unfoldable pub new_state_store : String → Result (Unit {0}) → Result Bool
new_state_store kind postgres =
    if str_eq kind "postgres"
    then (elim postgres [ err e ↦ err e | ok _ ↦ ok true ])
    else if str_eq kind "" || str_eq kind "memory"
    then ok false
    else err (message (concat "unknown statestore kind: " kind))

-- The kind of an agent, with the rest of its configuration.
pub record AgentEntry : Type 0 where
  pub kind : String
  pub config : AgentConfig

-- An agent of an unknown kind is logged and left out.
abbrev adapter_of : Host → AgentEntry → List Adapter → List Adapter
adapter_of h a adapters =
    if str_eq a.kind "opencode"
    then open_code_adapter h a.config.cmd ∷ adapters
    else if str_eq a.kind "exec"
    then exec_adapter h a.config.cmd ∷ adapters
    else adapters

unfoldable pub new_adapters : Host → List AgentEntry → List Adapter
unfolding open_code_adapter exec_adapter
new_adapters h [] = []
new_adapters h (a ∷ agents) = adapter_of h a (new_adapters h agents)

-- No policies where there are no configurations; `compile` is `policy.CompileConfigs`.
unfoldable pub new_policies :
    (List Policy.Config → Result (List Policy)) → List Policy.Config → Result (List Policy)
new_policies compile [] = ok []
new_policies compile (c ∷ configs) = compile (c ∷ configs)

abbrev named_if : Bool → String → List String → List String
named_if true name names = name ∷ names
named_if false name names = names

-- The names of the plugins that are configured.
unfoldable pub new_plugins : Bool → Bool → List String
new_plugins slack discord = named_if slack "slack" (named_if discord "discord" [])

-- What the configuration of the identity says: whether there is any, the address, whether there is an
-- issuer, and the endpoint of the webhook where there is an App.
pub record ServerConfig : Type 0 where
  pub present : Bool
  pub listen_addr : String
  pub issuer : Bool
  pub webhook : Option String

-- What comes of the server: none, one with its address and its routes, or a panic of the mux, which
-- does so for a route that it does not take.
pub data Server : Type 0 where
  no_server : Server
  server : String → List (String × String) → Server
  panicked : Server

abbrev issuer_routes : Bool → List (String × String)
issuer_routes true =
    ("GET", "/.well-known/jwks.json") ∷ ("GET", "/.well-known/openid-configuration") ∷ []
issuer_routes false = []

abbrev task_routes : List (String × String)
task_routes =
    ("POST", "/api/v1/tasks")
    ∷ ("GET", "/api/v1/sessions/{id}")
    ∷ ("POST", "/api/v1/sessions/{id}/approve")
    ∷ ("POST", "/api/v1/sessions/{id}/deny")
    ∷ []

abbrev webhook_routes : Option String → List (String × String)
webhook_routes none = []
webhook_routes (some endpoint) = ("POST", endpoint) ∷ []

-- The routes in the order of their registration.
unfoldable pub routes : ServerConfig → List (String × String)
routes cfg =
    ("GET", "/healthz") ∷ (issuer_routes cfg.issuer ++ (task_routes ++ webhook_routes cfg.webhook))

-- `takes` is whether the mux takes a route with those it has.
unfoldable pub register :
    (List (String × String) → String × String → Bool)
    → String
    → List (String × String)
    → List (String × String)
    → Server
register takes addr registered [] = server addr registered
register takes addr registered (r ∷ routes) =
    let rest = register takes addr (registered ++ r ∷ []) routes in
    if takes registered r then rest else panicked

unfoldable pub new_api_server :
    (List (String × String) → String × String → Bool) → ServerConfig → Server
unfolding routes register
new_api_server takes cfg =
    if cfg.present
    then register takes (if str_eq cfg.listen_addr "" then ":8080" else cfg.listen_addr) []
        (routes cfg)
    else no_server

-- `keys` is the outcome of the manager of the signing key, whose error is logged.
unfoldable pub new_issuer {ℓ} : {K : Type ℓ} → Bool → Result K → Option K
new_issuer false keys = none
new_issuer true (err e) = none
new_issuer true (ok manager) = some manager

-- `parse` is `strconv.ParseFloat`.
unfoldable pub parse_float64 {ℓ} : {F : Type ℓ} → (String → Option F) → String → F → F
parse_float64 parse text fallback =
    if str_eq text ""
    then fallback
    else (elim (parse text) [ none ↦ fallback | some value ↦ value ])

-- The servers of the configuration, as the hub has them.
unfoldable pub new_mcp_hub : List McpServerConfig → StaticHub
unfolding new_static_hub
new_mcp_hub servers = new_static_hub servers
