-- ===== src/EventBus/Nats/Examples.antt =====
-- The theorems about the bus of NATS at concrete messages.
use foreman.Prelude.{String, ◌≡◌, refl, true, false, [], ◌∷◌, ◌++◌, List, Result, ok}
use foreman.Schemas.{Event, user_message, Payload}
use foreman.EventBus.Subject.{match_subject}
use foreman.EventBus.Nats.{Json, batch, failed, consume}
use foreman.EventBus.Nats.Consuming.{publish_in_turn, consume-publish_in_turn}

abbrev event : String → Event
event text = record {
  type = user_message;
  session_id = "";
  timestamp = 1;
  payload = Payload.plain text;
}

abbrev json : Json
json = record { encode = λ evt. ok "m"; decode = λ text. ok (event text) }

abbrev remember : Event → List Event → Result (Unit {0}) × List Event
remember evt seen = (ok tt, seen ++ evt ∷ [])

subjects_match : match_subject "foreman.a" "foreman.a" ≡ true
unfolding match_subject
subjects_match = refl

consume-publish_in_turn_example :
    (consume json remember (batch true ("a" ∷ []) ∷ failed false ∷ batch true ("b" ∷ []) ∷ []) []).1
    ≡ publish_in_turn json remember "foreman.a" "foreman.a" (event "a" ∷ event "b" ∷ []) []
consume-publish_in_turn_example =
    consume-publish_in_turn json remember "foreman.a" "foreman.a"
      (batch true ("a" ∷ []) ∷ failed false ∷ batch true ("b" ∷ []) ∷ [])
      (event "a" ∷ event "b" ∷ []) [] subjects_match (refl, (refl, tt))
