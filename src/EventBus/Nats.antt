-- ===== src/EventBus/Nats.antt =====
-- `NATSBus` of internal/eventbus/nats.go. The client and the server of NATS are outside: the outcomes
-- of their calls are inputs, and what they have open is a state. The encoder and the decoder of JSON
-- are parameters.
pub mod Opening
pub mod Consuming
mod Examples
use foreman.Prelude.{
  String, Bool, true, false, List, [], ◌∷◌, ◌++◌, Result, ok, err, Error, message, wrap,
  if◌then◌else◌,
}
use foreman.Schemas.{Event}

-- What is open: the connection, and the embedded server.
pub record Resources : Type 0 where
  pub connection : Bool
  pub server : Bool

abbrev pub close_connection : Resources → Resources
close_connection r = record r { connection = false }

abbrev pub shut_down : Resources → Resources
shut_down r = record r { server = false }

-- `embedded` says whether the bus has its own server.
pub record NatsBus : Type 0 where
  pub embedded : Bool

-- The outcomes of making the JetStream context and of creating the stream.
unfoldable pub new_from_conn :
    Result (Unit {0}) → Result (Unit {0}) → Resources → Result NatsBus × Resources
new_from_conn (err e) stream r = (err (wrap "jetstream" e), close_connection r)
new_from_conn (ok _) (err e) r = (err (wrap "create stream" e), close_connection r)
new_from_conn (ok _) (ok _) r = (ok (record { embedded = false }), r)

unfoldable pub new_nats_bus :
    Result (Unit {0})
    → Result (Unit {0})
    → Result (Unit {0})
    → Resources
    → Result NatsBus × Resources
unfolding new_from_conn
new_nats_bus (err e) jetstream stream r = (err (wrap "nats connect" e), r)
new_nats_bus (ok _) jetstream stream r =
    new_from_conn jetstream stream (record r { connection = true })

-- The end of `NewEmbeddedNATSBus`.
abbrev pub embed : Result NatsBus × Resources → Result NatsBus × Resources
embed (err e, r) = (err e, shut_down (close_connection r))
embed (ok bus, r) = (ok (record { embedded = true }), r)

-- The outcomes of making the server, of its coming up in time, and of the connection to it.
unfoldable pub new_embedded_nats_bus :
    Result (Unit {0})
    → Bool
    → Result (Unit {0})
    → Result (Unit {0})
    → Result (Unit {0})
    → Resources
    → Result NatsBus × Resources
unfolding new_from_conn
new_embedded_nats_bus (err e) ready connect jetstream stream r =
    (err (wrap "embedded nats server" e), r)
new_embedded_nats_bus (ok _) false connect jetstream stream r =
    (err (message "embedded nats server not ready"), shut_down (record r { server = true }))
new_embedded_nats_bus (ok _) true (err e) jetstream stream r =
    (err (wrap "connect to embedded nats" e), shut_down (record r { server = true }))
new_embedded_nats_bus (ok _) true (ok _) jetstream stream r =
    embed (new_from_conn jetstream stream (record r { server = true; connection = true }))

unfoldable pub close : NatsBus → Resources → Resources
close bus r = if bus.embedded then shut_down (close_connection r) else close_connection r

-- encoding/json on events.
pub record Json : Type 0 where
  pub encode : Event → Result String
  pub decode : String → Result Event

-- `outcome` is that of the server, whose stream is a list of subjects and texts.
unfoldable pub publish :
    Json
    → Result (Unit {0})
    → String
    → Event
    → List (String × String)
    → Result (Unit {0}) × List (String × String)
publish json outcome subject evt stream = elim (json.encode evt) [
  | err e ↦ (err (wrap "marshal event" e), stream)
  | ok text ↦ (elim outcome [
    | err e ↦ (err (wrap "jetstream publish" e), stream)
    | ok _ ↦ (ok tt, stream ++ (subject, text) ∷ [])
  ])
]

-- What the server is told of a message.
pub data Reply : Type 0 where
  ack nak : Reply

-- What a round of the loop meets: whether its context is done, and a failed fetch or a batch of texts.
pub data Fetch : Type 0 where
  failed : Bool → Fetch
  batch : Bool → List String → Fetch

module _ {ℓ} {S : Type ℓ} (json : Json) (handler : Event → S → Result (Unit {0}) × S) where
  abbrev pub reply_of : Result (Unit {0}) × S → Reply × S
  reply_of (ok _, s) = (ack, s)
  reply_of (err e, s) = (nak, s)

  -- One message of a batch. An error of the reply itself is logged.
  abbrev pub handle_decoded : Result Event → S → Reply × S
  handle_decoded (err e) s = (nak, s)
  handle_decoded (ok evt) s = reply_of (handler evt s)

  unfoldable pub handle_messages : List String → S → List Reply × S
  handle_messages [] s = ([], s)
  handle_messages (text ∷ texts) s =
      let (reply, s') = handle_decoded (json.decode text) s in
      let (replies, s'') = handle_messages texts s' in (reply ∷ replies, s'')

  -- The loop over the rounds that come. A failed fetch ends it where the context is done.
  unfoldable pub consume : List Fetch → S → List Reply × S
  unfolding handle_messages
  consume [] s = ([], s)
  consume (failed true ∷ fetches) s = ([], s)
  consume (failed false ∷ fetches) s = consume fetches s
  consume (batch done texts ∷ fetches) s =
      let (replies, s') = handle_messages texts s in
      let (later, s'') = consume fetches s' in (replies ++ later, s'')

  -- The creation of the consumer, and the goroutine.
  unfoldable pub subscribe : Result (Unit {0}) → List Fetch → S → Result (List Reply) × S
  unfolding consume
  subscribe (err e) fetches s = (err (wrap "create consumer" e), s)
  subscribe (ok _) fetches s = let (replies, s') = consume fetches s in (ok replies, s')
