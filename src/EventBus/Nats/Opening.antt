-- ===== src/EventBus/Nats/Opening.antt =====
-- What `NewNATSBus`, `NewEmbeddedNATSBus` and `Close` of internal/eventbus/nats.go leave open.
use foreman.Prelude.{◌≡◌, refl, Bool, true, false, Result, ok, err}
use foreman.EventBus.Nats.{Resources, NatsBus, new_from_conn, new_embedded_nats_bus, close}

abbrev pub nothing_open : Resources
nothing_open = record { connection = false; server = false }

abbrev pub all_open : Resources
all_open = record { connection = true; server = true }

-- A bus whose closing closes everything, or an error with everything closed.
abbrev pub Clean : Result NatsBus × Resources → Type 0
Clean (ok bus, r) = (r.connection ≡ true) × (r.server ≡ bus.embedded) × (close bus r ≡ nothing_open)
Clean (err e, r) = r ≡ nothing_open

-- Whatever step of the opening of an embedded bus fails, nothing is left open, and where none fails
-- both the connection and the server are, and closing the bus closes both.
new_embedded_nats_bus-Clean :
    (server : Result (Unit {0})) (ready : Bool) (connect jetstream stream : Result (Unit {0}))
    → Clean (new_embedded_nats_bus server ready connect jetstream stream nothing_open)
unfolding new_embedded_nats_bus new_from_conn close
new_embedded_nats_bus-Clean (err e) ready connect jetstream stream = refl
new_embedded_nats_bus-Clean (ok _) false connect jetstream stream = refl
new_embedded_nats_bus-Clean (ok _) true (err e) jetstream stream = refl
new_embedded_nats_bus-Clean (ok _) true (ok _) (err e) stream = refl
new_embedded_nats_bus-Clean (ok _) true (ok _) (ok _) (err e) = refl
new_embedded_nats_bus-Clean (ok _) true (ok _) (ok _) (ok _) = (refl, refl, refl)
