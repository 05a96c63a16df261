-- ===== src/Bootstrap/Chat/OverNats.antt =====
-- The subscription of internal/core/builder.go to the messages of chat users, made on the bus of
-- internal/eventbus/nats.go.
use foreman.Prelude.{
  ℕ, String, ◌≡◌, refl, ap, ◌∙◌, ◌⊎◌, inl, inr, List, [], ◌∷◌, ◌++◌, Result, ok, err, Option,
  message, none, some, Result-cases, map,
}
use foreman.Prelude.Dict.{Dict}
use foreman.Schemas.{Event, Payload}
use foreman.EventBus.Nats.{
  Json, Reply, nak, Fetch, reply_of, handle_decoded, handle_messages, consume,
}
use foreman.EventBus.Nats.Consuming.{texts_read, consume-texts_read}
use foreman.Coordinator.{Config, Coordinator}
use foreman.Bootstrap.Chat.{Waiter, on_user_message}

-- A payload as the decoder gives it: it stores into an `any`, and so it makes maps, texts, nil,
-- numbers, truth values and lists, but never a value of a struct type.
abbrev pub IsUntyped : Payload → Type 0
IsUntyped p =
    ((m : Dict (Option String)) × (p ≡ Payload.fields m))
    ⊎ (((s : String) × (p ≡ Payload.plain s)) ⊎ ((p ≡ Payload.nil) ⊎ (p ≡ Payload.opaque)))

-- What the documentation of encoding/json promises of a field of type `any`.
pub record DecodesUntyped (json : Json) : Type 0 where
  pub untyped : (text : String) (e : Event) → json.decode text ≡ ok e → IsUntyped e.payload

-- The handler, with the goroutines that it starts.
abbrev pub onto :
    List Waiter × Coordinator
    → Result (Option Waiter × Coordinator)
    → Result (Unit {0}) × (List Waiter × Coordinator)
onto (ws, c) (err e) = (err e, (ws, c))
onto (ws, c) (ok (none, c')) = (ok tt, (ws, c'))
onto (ws, c) (ok (some w, c')) = (ok tt, (ws ++ w ∷ [], c'))

unfoldable pub user_handler :
    Config
    → ℕ
    → String
    → List String
    → Event
    → List Waiter × Coordinator
    → Result (Unit {0}) × (List Waiter × Coordinator)
user_handler cfg now stamp plugs evt (ws, c) =
    onto (ws, c) (on_user_message cfg now stamp plugs evt.payload c)

module _ (json : Json) (law : DecodesUntyped json) (cfg : Config) (now : ℕ) (stamp : String)
    (plugs : List String) where
  refuses :
      (p : Payload) (c : Coordinator)
      → IsUntyped p
      → on_user_message cfg now stamp plugs p c ≡ err (message "unexpected payload type")
  unfolding on_user_message
  refuses p c (inl (m, e)) = ap (λ q. on_user_message cfg now stamp plugs q c) e
  refuses p c (inr (inl (t, e))) = ap (λ q. on_user_message cfg now stamp plugs q c) e
  refuses p c (inr (inr (inl e))) = ap (λ q. on_user_message cfg now stamp plugs q c) e
  refuses p c (inr (inr (inr e))) = ap (λ q. on_user_message cfg now stamp plugs q c) e

  handled-refuses :
      (text : String) (s : List Waiter × Coordinator)
      → handle_decoded json (user_handler cfg now stamp plugs) (json.decode text) s ≡ (nak, s)
  unfolding user_handler
  handled-refuses text s = elim (Result-cases (json.decode text)) [
    | inr (x, e) ↦ ap (λ r. handle_decoded json (user_handler cfg now stamp plugs) r s) e
    | inl (evt, e) ↦
        ap (λ r. handle_decoded json (user_handler cfg now stamp plugs) r s) e
        ∙ ap (λ r. reply_of json (user_handler cfg now stamp plugs) (onto s r))
            (refuses evt.payload s.1 (law.untyped text evt e))
  ]

  messages_refused :
      (texts : List String) (s : List Waiter × Coordinator)
      → handle_messages json (user_handler cfg now stamp plugs) texts s ≡ (map (λ t. nak) texts, s)
  unfolding handle_messages
  messages_refused [] s = refl
  messages_refused (t ∷ ts) s =
      let h = user_handler cfg now stamp plugs in
      ap
        (λ (r : Reply × (List Waiter × Coordinator)).
          (r.0 ∷ (handle_messages json h ts r.1).0, (handle_messages json h ts r.1).1))
        (handled-refuses t s)
      ∙ ap (λ (p : List Reply × (List Waiter × Coordinator)). (nak ∷ p.0, p.1))
          (messages_refused ts s)

  -- Where the decoder gives payloads without a struct type, the handler of the messages of chat
  -- users on the bus of NATS refuses each message that the loop reads, whatever it is: no task is
  -- submitted, nobody waits, and each is answered with nak.
  pub consume-refuses :
      (fetches : List Fetch) (s : List Waiter × Coordinator)
      → consume json (user_handler cfg now stamp plugs) fetches s
        ≡ (map (λ t. nak) (texts_read fetches), s)
  consume-refuses fetches s =
      consume-texts_read json (user_handler cfg now stamp plugs) fetches s
      ∙ messages_refused (texts_read fetches) s
