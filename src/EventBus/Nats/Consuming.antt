-- ===== src/EventBus/Nats/Consuming.antt =====
-- The loop of `NATSBus.Subscribe` of internal/eventbus/nats.go: which messages are handled, and how the
-- handlers of the two buses agree.
use foreman.Prelude.{
  String, ◌≡◌, refl, sym, ap, ◌∙◌, true, false, List, [], ◌∷◌, ◌++◌, Result, ok, err,
}
use foreman.Schemas.{Event}
use foreman.EventBus.Subject.{match_subject}
use foreman.EventBus.Memory
use foreman.EventBus.Nats.{
  Json, Reply, Fetch, failed, batch, reply_of, handle_decoded, handle_messages, consume,
}

-- The texts of the batches that come before the first failed fetch at which the context is done.
abbrev pub texts_read : List Fetch → List String
texts_read [] = []
texts_read (failed true ∷ fetches) = []
texts_read (failed false ∷ fetches) = texts_read fetches
texts_read (batch done texts ∷ fetches) = texts ++ texts_read fetches

-- Each text is one of the event at its place.
abbrev pub Decodes : Json → List String → List Event → Type 0
Decodes json [] [] = Unit
Decodes json (t ∷ ts) (e ∷ es) = (json.decode t ≡ ok e) × Decodes json ts es
Decodes json _ _ = ⊥

module _ {S : Type 0} (json : Json) (handler : Event → S → Result (Unit {0}) × S) where
  handle_messages-append :
      (xs ys : List String) (s : S)
      → handle_messages json handler (xs ++ ys) s ≡ (
          let (first, s') = handle_messages json handler xs s in
          let (later, s'') = handle_messages json handler ys s' in (first ++ later, s''))
  unfolding handle_messages
  handle_messages-append [] ys s = refl
  handle_messages-append (x ∷ xs) ys s =
      let (reply, s') = handle_decoded json handler (json.decode x) s in
      ap (λ (p : List Reply × S). (reply ∷ p.0, p.1)) (handle_messages-append xs ys s')

  -- The loop handles the messages of all batches in order, up to the first failed fetch at which the
  -- context is done: a context that is done stops nothing while fetches succeed.
  pub consume-texts_read :
      (fetches : List Fetch) (s : S)
      → consume json handler fetches s ≡ handle_messages json handler (texts_read fetches) s
  unfolding consume handle_messages
  consume-texts_read [] s = refl
  consume-texts_read (failed true ∷ fetches) s = refl
  consume-texts_read (failed false ∷ fetches) s = consume-texts_read fetches s
  consume-texts_read (batch done texts ∷ fetches) s =
      let (replies, s') = handle_messages json handler texts s in
      ap (λ (p : List Reply × S). (replies ++ p.0, p.1)) (consume-texts_read fetches s')
      ∙ sym (handle_messages-append texts (texts_read fetches) s)

  -- The in-process bus with this handler alone, subscribed with a pattern, taking events one by one.
  unfoldable pub publish_in_turn : String → String → List Event → S → S
  publish_in_turn pattern subject [] s = s
  publish_in_turn pattern subject (e ∷ es) s =
      publish_in_turn pattern subject es
        (Memory.publish (λ (h : Unit {0}). handler) ((pattern, tt ∷ []) ∷ []) subject e s)

  reply_of-state : (r : Result (Unit {0}) × S) → (reply_of json handler r).1 ≡ r.1
  reply_of-state (ok _, s) = refl
  reply_of-state (err e, s) = refl

  handled-state :
      (text : String) (e : Event) (s : S)
      → json.decode text ≡ ok e
      → (handle_decoded json handler (json.decode text) s).1 ≡ (handler e s).1
  handled-state text e s d =
      ap (λ r. (handle_decoded json handler r s).1) d ∙ reply_of-state (handler e s)

  published_state :
      (pattern subject : String) (e : Event) (s : S)
      → match_subject pattern subject ≡ true
      → Memory.publish (λ (h : Unit {0}). handler) ((pattern, tt ∷ []) ∷ []) subject e s
        ≡ (handler e s).1
  unfolding Memory.publish
  published_state pattern subject e s fits = rw fits refl

  handle_messages-publish :
      (pattern subject : String) (texts : List String) (events : List Event) (s : S)
      → match_subject pattern subject ≡ true
      → Decodes json texts events
      → (handle_messages json handler texts s).1 ≡ publish_in_turn pattern subject events s
  unfolding handle_messages publish_in_turn
  handle_messages-publish pattern subject [] [] s fits d = refl
  handle_messages-publish pattern subject [] (e ∷ es) s fits d = elim d [ ]
  handle_messages-publish pattern subject (t ∷ ts) [] s fits d = elim d [ ]
  handle_messages-publish pattern subject (t ∷ ts) (e ∷ es) s fits d =
      ap (λ u. (handle_messages json handler ts u).1)
        (handled-state t e s d.0 ∙ sym (published_state pattern subject e s fits))
      ∙ handle_messages-publish pattern subject ts es
          (Memory.publish (λ (h : Unit {0}). handler) ((pattern, tt ∷ []) ∷ []) subject e s) fits
          d.1

  -- Where the messages that the loop of the bus of NATS reads, up to the first failed fetch at which
  -- its context is done, decode to some events, its handler ends in the state in which it ends as
  -- the one handler of the in-process bus, subscribed with a pattern that matches the subject, when
  -- the same events are published there one by one; how the messages come in batches and when the
  -- context is done make no other difference.
  pub consume-publish_in_turn :
      (pattern subject : String) (fetches : List Fetch) (events : List Event) (s : S)
      → match_subject pattern subject ≡ true
      → Decodes json (texts_read fetches) events
      → (consume json handler fetches s).1 ≡ publish_in_turn pattern subject events s
  consume-publish_in_turn pattern subject fetches events s fits d =
      ap (λ (p : List Reply × S). p.1) (consume-texts_read fetches s)
      ∙ handle_messages-publish pattern subject (texts_read fetches) events s fits d
