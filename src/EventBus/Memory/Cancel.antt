-- ===== src/EventBus/Memory/Cancel.antt =====
-- The function that `Subscribe` of internal/eventbus/memory.go returns: what it removes.
use mathlib.Core.List.{append-nil, append_assoc}
use foreman.Prelude.{
  ◌∙◌, ℕ, String, ◌≡◌, refl, sym, ap, List, [], ◌∷◌, ◌++◌, arith, length, length-append, ltb,
  eq_refl, if◌then◌else◌,
}
use foreman.Prelude.Dict.{Dict, insert, lookup-insert}
use foreman.EventBus.Memory.{handlers_of, subscribe, remove_at, cancel, Subscription}

module _ {ℓ} {H : Type ℓ} where
  remove_at-end : (hs ts : List H) (h : H) → remove_at (length hs) (hs ++ h ∷ ts) ≡ hs ++ ts
  remove_at-end [] ts h = refl
  remove_at-end (x ∷ hs) ts h = ap (◌∷◌ x) (remove_at-end hs ts h)

  handlers_of-insert :
      (s : String) (hs : List H) (subs : Dict (List H)) → handlers_of s (insert s hs subs) ≡ hs
  unfolding handlers_of
  handlers_of-insert s hs subs = ground (arith, lookup-insert s s hs subs, eq_refl s)

  pub handlers_of-subscribe :
      (s : String) (h : H) (subs : Dict (List H))
      → handlers_of s (subscribe s h subs).0 ≡ handlers_of s subs ++ h ∷ []
  unfolding subscribe
  handlers_of-subscribe s h subs = handlers_of-insert s _ subs

  -- The id picks a handler of the list as it is at the time of the cancellation.
  handlers_of-cancel :
      (s : String) (i : ℕ) (hs : List H) (subs : Dict (List H))
      → handlers_of s subs ≡ hs
      → handlers_of s (cancel (record { subject = s; id = i }) subs)
        ≡ (if ltb i (length hs) then remove_at i hs else hs)
  unfolding cancel
  handlers_of-cancel s i hs subs e = ground (arith, handlers_of-insert s (remove_at i hs) subs)

  cancel_at :
      (s : String) (hs ts : List H) (h : H) (subs : Dict (List H))
      → handlers_of s subs ≡ hs ++ h ∷ ts
      → handlers_of s (cancel (record { subject = s; id = length hs }) subs) ≡ hs ++ ts
  cancel_at s hs ts h subs e = ground (
    arith,
    handlers_of-cancel s (length hs) (hs ++ h ∷ ts) subs e,
    length-append hs (h ∷ ts),
    remove_at-end hs ts h,
  )

module _ {ℓ} {H : Type ℓ} (s : String) (first second : H) (subs : Dict (List H)) where
  abbrev pub both : Dict (List H)
  both = (subscribe s second (subscribe s first subs).0).0

  abbrev pub first_subscription : Subscription
  first_subscription = (subscribe s first subs).1

  abbrev pub second_subscription : Subscription
  second_subscription = (subscribe s second (subscribe s first subs).0).1

  handlers_of-both : handlers_of s both ≡ handlers_of s subs ++ first ∷ second ∷ []
  handlers_of-both =
      rw
        (
          handlers_of-subscribe s second (subscribe s first subs).0,
          handlers_of-subscribe s first subs,
          append_assoc,
        )
        refl

  abbrev at : ℕ → Subscription
  at i = record { subject = s; id = i }

  first_id : first_subscription ≡ at (length (handlers_of s subs))
  unfolding subscribe
  first_id = refl

  second_id : second_subscription ≡ at (length (handlers_of s subs ++ first ∷ []))
  unfolding subscribe
  second_id = ap (λ hs. at (length hs)) (handlers_of-subscribe s first subs)

  after_first : handlers_of s (cancel first_subscription both) ≡ handlers_of s subs ++ second ∷ []
  after_first =
      rw first_id (cancel_at s (handlers_of s subs) (second ∷ []) first both handlers_of-both)

  -- Cancelled the last one first, two subscriptions to one subject leave the handlers as they were.
  cancel_in_reverse :
      handlers_of s (cancel first_subscription (cancel second_subscription both))
      ≡ handlers_of s subs
  cancel_in_reverse =
      rw (first_id, second_id)
        (cancel_at s (handlers_of s subs) [] first _ (
            cancel_at s (handlers_of s subs ++ first ∷ []) [] second both (
              handlers_of-both ∙ sym (append_assoc (handlers_of s subs) (first ∷ []) (second ∷ [])))
            ∙ append-nil _)
          ∙ append-nil _)

  -- Cancelled in the order in which they were made, two subscriptions to one subject leave the
  -- second handler subscribed.
  cancel_in_order :
      handlers_of s (cancel second_subscription (cancel first_subscription both))
      ≡ handlers_of s subs ++ second ∷ []
  cancel_in_order = rw second_id (
      handlers_of-cancel s (length (handlers_of s subs ++ first ∷ []))
        (handlers_of s subs ++ second ∷ []) (cancel first_subscription both) after_first
      ∙ ground (
        arith,
        length-append (handlers_of s subs) (first ∷ []),
        length-append (handlers_of s subs) (second ∷ []),
      ))

  -- Cancelling the first of two subscriptions to one subject twice removes both handlers.
  cancel_twice :
      handlers_of s (cancel first_subscription (cancel first_subscription both))
      ≡ handlers_of s subs
  cancel_twice = rw first_id (
      cancel_at s (handlers_of s subs) [] second (cancel (at (length (handlers_of s subs))) both)
        (rw first_id at after_first)
      ∙ append-nil _)
