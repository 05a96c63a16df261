-- ===== src/EventBus/Memory/Deliveries.antt =====
-- `Subscribe` and `Publish` of internal/eventbus/memory.go: which handlers an event reaches.
use mathlib.Core.List.{Perm, perm_middle, append_assoc}
use mathlib.Core.List.Perm
use foreman.Prelude.{
  String, ◌≡◌, refl, Bool, true, false, List, [], ◌∷◌, ◌++◌, arith, str_eq, eq_iff, eq_refl, inl,
  inr, Bool-cases, if◌then◌else◌,
}
use foreman.Prelude.Dict.{Dict, lookup, insert}
use foreman.EventBus.Subject.{match_subject}
use foreman.EventBus.Memory.{handlers_of, matching, subscribe}

module _ {ℓ} {H : Type ℓ} where
  -- A handler in front, if there is a match.
  abbrev pub with_handler : Bool → H → List H → List H
  with_handler b h hs = if b then h ∷ hs else hs

  with_handler-append :
      (b : Bool) (h : H) (xs ys zs : List H)
      → Perm ys (with_handler b h zs)
      → Perm (xs ++ ys) (with_handler b h (xs ++ zs))
  with_handler-append true h xs ys zs p =
      Perm.trans (Perm.append (Perm.refl xs) p) (perm_middle xs zs)
  with_handler-append false h xs ys zs p = Perm.append (Perm.refl xs) p

  handlers_of-cons :
      (p j : String) (w : List H) (subs : Dict (List H))
      → handlers_of p ((j, w) ∷ subs) ≡ (if str_eq j p then w else handlers_of p subs)
  unfolding handlers_of lookup
  handlers_of-cons p j w subs = ground arith

  matching-insert :
      (p s : String) (h : H) (subs : Dict (List H)) (hs : List H)
      → hs ≡ handlers_of p subs
      → Perm
          (matching (insert p (hs ++ h ∷ []) subs) s)
          (with_handler (match_subject p s) h (matching subs s))
  unfolding matching insert
  matching-insert p s h [] hs e = rw e (
      unfold handlers_of lookup in
      elim (Bool-cases (match_subject p s)) [
        | inl yes_match ↦ rw yes_match (Perm.refl (h ∷ []))
        | inr no_match ↦ rw no_match (Perm.refl [])
      ])
  matching-insert p s h ((j, w) ∷ subs) hs e = elim (Bool-cases (str_eq j p)) [
    | inl same ↦
        let e' : hs ≡ w = ground (arith, handlers_of-cons p j w subs) in
        rw (e', (eq_iff j p).0 same, eq_refl p)
          (elim (Bool-cases (match_subject p s)) [
            | inl m ↦ rw m (rw append_assoc (perm_middle w (matching subs s)))
            | inr m ↦ rw m (Perm.refl (matching subs s))
          ])
    | inr differ ↦
        let ih = matching-insert p s h subs hs (ground (arith, handlers_of-cons p j w subs)) in
        rw differ (elim (Bool-cases (match_subject j s)) [
          | inl m ↦ rw m (with_handler-append (match_subject p s) h w _ _ ih)
          | inr m ↦ rw m ih
        ])
  ]

  -- After a subscription, the handlers that an event reaches are, up to their order, those of before
  -- and, exactly when the pattern matches its subject, the new one.
  matching-subscribe :
      (pattern subject : String) (h : H) (subs : Dict (List H))
      → Perm
          (matching (subscribe pattern h subs).0 subject)
          (with_handler (match_subject pattern subject) h (matching subs subject))
  unfolding subscribe
  matching-subscribe p s h subs = matching-insert p s h subs (handlers_of p subs) refl
