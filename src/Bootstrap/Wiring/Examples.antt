-- ===== src/Bootstrap/Wiring/Examples.antt =====
-- Tests of the wiring, and the theorems about it at concrete outcomes.
use foreman.Prelude.{
  String, Bool, ◌≡◌, refl, true, some, [], ◌∷◌, not, List, ok, err, message, wrap, concat, str_eq,
}
use foreman.Bootstrap.Wiring.{new_event_bus, embedded, new_api_server, panicked}
use foreman.Bootstrap.Wiring.Opening.{nothing, Steps, bootstrap, shutdown}
use foreman.Bootstrap.Wiring.Opening.Leaves.{bootstrap_leaks}

new_event_bus_test : new_event_bus "nats" "" ≡ ok embedded
unfolding new_event_bus
new_event_bus_test = refl

-- A mux that refuses a route without a path.
abbrev needs_path : List (String × String) → String × String → Bool
needs_path registered (method, path) = not (str_eq path "")

-- An App without an endpoint makes the start of the process panic.
new_api_server_test :
    new_api_server needs_path
      (record { present = true; listen_addr = ""; issuer = true; webhook = some "" })
    ≡ panicked
unfolding new_api_server
new_api_server_test = refl

abbrev steps : Steps
steps = record {
  bus = ok tt;
  store = ok true;
  sandbox = ok tt;
  recovery = ok tt;
  policies = ok tt;
  server = ok true;
  server_start = ok tt;
  plugins = ("slack", ok tt) ∷ ("discord", err (message "refused")) ∷ [];
  subjects = [];
}

bootstrap_leaks_example : bootstrap steps ≡ (
  err (wrap (concat "plugin " (concat "discord" ": start")) (message "refused")),
  record nothing { server = true; plugins = "slack" ∷ [] },
)
bootstrap_leaks_example =
    bootstrap_leaks true true (("slack", ok tt) ∷ []) "discord" (message "refused") [] [] (refl, tt)

shutdown_test :
    shutdown
      (λ name. true)
      (record { bus = true; store = true; server = true; plugins = "slack" ∷ []; subjects = [] })
    ≡ nothing
unfolding shutdown
shutdown_test = refl
