-- ===== src/Bootstrap/Wiring/Opening.antt =====
-- `Bootstrap` and `Shutdown` of internal/core/builder.go: the order in which the parts are opened, and
-- what is left open.
pub mod Leaves
use foreman.Prelude.{
  String, Bool, true, false, List, [], ◌∷◌, ◌++◌, Result, ok, err, Error, wrap, concat, map,
  if◌then◌else◌,
}

-- What is open: the bus, the store, the server, the plugins that were started and the subjects that
-- were subscribed to.
pub record Open : Type 0 where
  pub bus : Bool
  pub store : Bool
  pub server : Bool
  pub plugins : List String
  pub subjects : List String

abbrev pub nothing : Open
nothing = record { bus = false; store = false; server = false; plugins = []; subjects = [] }

-- The outcomes of the steps that can fail, in their order. Those of the store and of newAPIServer say
-- whether there is one. What stands between them cannot fail: the hub, the adapters, the coordinator,
-- the containers to be reaped, and the sessions to be taken up again.
pub record Steps : Type 0 where
  pub bus : Result (Unit {0})
  pub store : Result Bool
  pub sandbox : Result (Unit {0})
  pub recovery : Result (Unit {0})
  pub policies : Result (Unit {0})
  pub server : Result Bool
  pub server_start : Result (Unit {0})
  pub plugins : List (String × Result (Unit {0}))
  pub subjects : List (String × Result (Unit {0}))

-- The deferred functions of an error: the bus and the store are closed.
abbrev pub fail : Error → Open → Result (Unit {0}) × Open
fail e o = (err e, record o { bus = false; store = false })

abbrev pub step :
    {A : Type 0}
    → String
    → Result A
    → (A → Open → Open)
    → (Open → Result (Unit {0}) × Open)
    → Open
    → Result (Unit {0}) × Open
step name (err e) keep next o = fail (wrap name e) o
step name (ok a) keep next o = next (keep a o)

abbrev pub kept : Unit {0} → Open → Open
kept u o = o

unfoldable pub subscribe_all : List (String × Result (Unit {0})) → Open → Result (Unit {0}) × Open
subscribe_all [] o = (ok tt, o)
subscribe_all ((subject, outcome) ∷ subjects) o =
    step (concat "subscribe to " subject) outcome
      (λ u (p : Open). record p { subjects = p.subjects ++ subject ∷ [] }) (subscribe_all subjects)
      o

-- The loop that starts the plugins, and what comes after it.
unfoldable pub start_plugins :
    (Open → Result (Unit {0}) × Open)
    → List (String × Result (Unit {0}))
    → Open
    → Result (Unit {0}) × Open
start_plugins next [] o = next o
start_plugins next ((name, outcome) ∷ plugins) o =
    step (concat "plugin " (concat name ": start")) outcome
      (λ u (p : Open). record p { plugins = p.plugins ++ name ∷ [] }) (start_plugins next plugins) o

-- newAPIServer, and the start of the server where there is one.
unfoldable pub open_server :
    Result Bool
    → Result (Unit {0})
    → (Open → Result (Unit {0}) × Open)
    → Open
    → Result (Unit {0}) × Open
open_server (err e) start next o = fail (wrap "api server" e) o
open_server (ok false) start next o = next o
open_server (ok true) start next o =
    step "api server start" start (λ u (p : Open). record p { server = true }) next o

-- `Bootstrap`: its steps in their order, with its early returns. What it does with a recovered session
-- is in Bootstrap, and what the subscribed handlers do in Bootstrap.Chat.
unfoldable pub bootstrap : Steps → Result (Unit {0}) × Open
unfolding open_server start_plugins subscribe_all
bootstrap s = elim s.bus [
  | err e ↦ (err (wrap "eventbus" e), nothing)
  | ok _ ↦
      step "statestore" s.store (λ has (o : Open). record o { store = has })
        (step "sandbox" s.sandbox kept (
          step "recover sessions" s.recovery kept (
            step "policies" s.policies kept (
              open_server s.server s.server_start
                (start_plugins (subscribe_all s.subjects) s.plugins)))))
        (record nothing { bus = true })
]

-- The plugins whose Stop fails. The error is logged, and the next one is stopped.
unfoldable pub stop_plugins : (String → Bool) → List String → List String
stop_plugins stops [] = []
stop_plugins stops (name ∷ names) =
    let rest = stop_plugins stops names in if stops name then rest else name ∷ rest

-- The third phase of `Shutdown`, after no more tasks are accepted and the sessions are drained. The
-- subscriptions end with the bus.
unfoldable pub shutdown : (String → Bool) → Open → Open
unfolding stop_plugins
shutdown stops o = record nothing { plugins = stop_plugins stops o.plugins }
