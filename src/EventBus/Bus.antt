-- ===== src/EventBus/Bus.antt =====
-- The `EventBus` interface of internal/eventbus/eventbus.go as its publishers see it: a log of what
-- was published, and the outcomes of the calls to come, which the environment chooses. With no
-- outcome left, a call succeeds.
use foreman.Prelude.{
  String, Bool, true, false, List, [], ◌∷◌, ◌++◌, Result, ok, err, publish_failed,
}
use foreman.Schemas.{Event}

pub record Bus : Type 0 where
  pub published : List (String × Event)
  pub outcomes : List Bool

-- The next outcome, and the ones after it.
abbrev pub next_outcome : List Bool → Bool × List Bool
next_outcome [] = (true, [])
next_outcome (b ∷ bs) = (b, bs)

publish_as : Bool → List Bool → String → Event → Bus → Result (Unit {0}) × Bus
publish_as true rest subject evt bus =
    (ok tt, record { published = bus.published ++ (subject, evt) ∷ []; outcomes = rest })
publish_as false rest subject evt bus = (err publish_failed, record bus { outcomes = rest })

unfoldable pub publish : String → Event → Bus → Result (Unit {0}) × Bus
unfolding publish_as
publish subject evt bus =
    let (outcome, rest) = next_outcome bus.outcomes in publish_as outcome rest subject evt bus
