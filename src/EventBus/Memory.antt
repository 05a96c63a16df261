-- ===== src/EventBus/Memory.antt =====
-- `MemoryBus` of internal/eventbus/memory.go. Handlers are values of a type `H`. Go ranges over the
-- map of subscriptions in any order; the model has the order of the association list, and the
-- theorems about deliveries hold up to that order.
pub mod Deliveries
pub mod Cancel
use foreman.Prelude.{
  ℕ, zero, suc, String, Bool, List, [], ◌∷◌, ◌++◌, none, some, Result, length, ltb, if◌then◌else◌,
}
use foreman.Prelude.Dict.{Dict, lookup, insert}
use foreman.Schemas.{Event}
use foreman.EventBus.Subject.{match_subject}

-- What the function that `Subscribe` returns has captured.
pub record Subscription : Type 0 where
  pub subject : String
  pub id : ℕ

module _ {ℓ} {H : Type ℓ} where
  -- b.subs[subject], nil where the key is missing
  unfoldable pub handlers_of : String → Dict (List H) → List H
  handlers_of s subs = elim (lookup s subs) [ none ↦ [] | some hs ↦ hs ]

  -- The handlers that `Publish` collects.
  unfoldable pub matching : Dict (List H) → String → List H
  matching [] subject = []
  matching ((pattern, hs) ∷ subs) subject =
      if match_subject pattern subject then hs ++ matching subs subject else matching subs subject

  -- The calls of the handlers, in a world `S`; an error is logged and the next handler is called.
  unfoldable pub deliver {κ} :
      {S : Type κ} → (H → Event → S → Result (Unit {0}) × S) → List H → Event → S → S
  deliver call [] evt s = s
  deliver call (h ∷ hs) evt s = deliver call hs evt (call h evt s).1

  unfoldable pub publish {κ} :
      {S : Type κ}
      → (H → Event → S → Result (Unit {0}) × S)
      → Dict (List H)
      → String
      → Event
      → S
      → S
  unfolding matching deliver
  publish call subs subject evt s = deliver call (matching subs subject) evt s

  unfoldable pub subscribe : String → H → Dict (List H) → Dict (List H) × Subscription
  subscribe subject handler subs = (
    insert subject (handlers_of subject subs ++ handler ∷ []) subs,
    record { subject = subject; id = length (handlers_of subject subs) },
  )

  -- append(handlers[:id], handlers[id+1:]...)
  abbrev pub remove_at : ℕ → List H → List H
  remove_at i [] = []
  remove_at zero (h ∷ hs) = hs
  remove_at (suc i) (h ∷ hs) = h ∷ remove_at i hs

  -- The function that `Subscribe` returns.
  unfoldable pub cancel : Subscription → Dict (List H) → Dict (List H)
  cancel c subs =
      let handlers = handlers_of c.subject subs in
      if ltb c.id (length handlers) then insert c.subject (remove_at c.id handlers) subs else subs
