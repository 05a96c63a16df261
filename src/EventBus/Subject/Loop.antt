-- ===== src/EventBus/Subject/Loop.antt =====
-- The loop of `matchSubject` in internal/eventbus/memory.go and the meaning of a pattern.
use foreman.Prelude.{
  ℕ, zero, suc, ◌+◌, ◌≤◌, ◌<◌, ◌≡◌, refl, ap, String, Bool, true, false, List, [], ◌∷◌, length,
  arith, str_eq, eq_iff, ◌==◌, if◌then◌else◌, inl, inr, Bool-cases,
}
use native.Mathlib.Numerals.{add-one}
use native.Mathlib.Decide.{dec_lt}
use foreman.EventBus.Subject.{
  match_subject, match_loop, part_at, split, has_wildcard, Matches, done, remainder, star, literal,
}

-- The parts from the i-th on.
abbrev drop : ℕ → List String → List String
drop zero ss = ss
drop (suc i) [] = []
drop (suc i) (s ∷ ss) = drop i ss

drop-nil : (i : ℕ) (ss : List String) → length ss ≤ i → drop i ss ≡ []
drop-nil zero [] h = refl
drop-nil zero (s ∷ ss) h = absurd (omega arith)
drop-nil (suc i) [] h = refl
drop-nil (suc i) (s ∷ ss) h = drop-nil i ss (omega arith)

drop-cons : (i : ℕ) (ss : List String) → i < length ss → drop i ss ≡ part_at ss i ∷ drop (suc i) ss
drop-cons zero [] h = absurd (omega arith)
drop-cons zero (s ∷ ss) h = refl
drop-cons (suc i) [] h = absurd (omega arith)
drop-cons (suc i) (s ∷ ss) h = drop-cons i ss (omega arith)

-- The loop without an index.
unfoldable pub match_parts : List String → List String → Bool
match_parts [] [] = true
match_parts [] (s ∷ ss) = false
match_parts (p ∷ ps) [] = str_eq p ">"
match_parts (p ∷ ps) (s ∷ ss) =
    if str_eq p ">"
    then true
    else if str_eq p "*"
    then match_parts ps ss
    else if str_eq p s
    then match_parts ps ss
    else false

length-drop : (i : ℕ) (ss : List String) → i ≤ length ss → length (drop i ss) + i ≡ length ss
length-drop zero ss h = omega arith
length-drop (suc i) [] h = absurd (omega arith)
length-drop (suc i) (s ∷ ss) h = omega (arith, length-drop i ss)

match_parts-nil : (ss : List String) → match_parts [] ss ≡ (0 == length ss)
unfolding match_parts
match_parts-nil [] = refl
match_parts-nil (s ∷ ss) = ground arith

-- From the i-th part on, with `total` parts in all, the loop is the one without an index.
match_loop-eq-match_parts :
    (total : ℕ) (ss : List String) (i : ℕ) (ps : List String)
    → i ≤ length ss
    → i + length ps ≡ total
    → match_loop total ss i ps ≡ match_parts ps (drop i ss)
unfolding match_loop
match_loop-eq-match_parts total ss i [] h e =
    ground (arith, match_parts-nil (drop i ss), length-drop i ss h)
match_loop-eq-match_parts total ss i (p ∷ ps) h e = elim (dec_lt i (length ss)) [
  | yes more ↦
      let step : drop (i + 1) ss ≡ drop (suc i) ss = ap (λ k. drop k ss) (add-one i) in
      rw
        (
          drop-cons i ss more,
          match_loop-eq-match_parts total ss (i + 1) ps (omega arith) (omega arith),
          step,
        )
        (unfold match_parts in ground arith)
  | no end ↦ rw (drop-nil i ss (omega arith)) (unfold match_parts in ground arith)
]

-- The code without the index.
pub match_subject_lem :
    (pattern subject : String)
    → match_subject pattern subject ≡ (
        if str_eq pattern subject
        then true
        else if has_wildcard pattern
        then match_parts (split pattern) (split subject)
        else false)
unfolding match_subject
match_subject_lem p s =
    rw (
      match_loop-eq-match_parts (length (split p)) (split s) 0 (split p) (omega arith)
        (omega arith))

match_parts-remainder :
    (p : String) (ps ss : List String) → str_eq p ">" ≡ true → match_parts (p ∷ ps) ss ≡ true
unfolding match_parts
match_parts-remainder p ps [] h = h
match_parts-remainder p ps (s ∷ ss) h = rw h

pub match_parts_complete : {ps ss : List String} → Matches ps ss → match_parts ps ss ≡ true
unfolding match_parts
match_parts_complete done = refl
match_parts_complete (remainder {p} {ps} {ss} e) =
    match_parts-remainder p ps ss ((eq_iff p ">").1 e)
match_parts_complete (star {p} e m) = ground (arith, (eq_iff p "*").1 e, match_parts_complete m)
match_parts_complete (literal {p} {s} e m) =
    ground (arith, (eq_iff p s).1 e, match_parts_complete m)

pub match_parts_sound : (ps ss : List String) → match_parts ps ss ≡ true → Matches ps ss
unfolding match_parts
match_parts_sound [] [] h = done
match_parts_sound [] (s ∷ ss) h = cc
match_parts_sound (p ∷ ps) [] h = remainder ((eq_iff p ">").0 h)
match_parts_sound (p ∷ ps) (s ∷ ss) h = elim (Bool-cases (str_eq p ">")) [
  | inl e ↦ remainder ((eq_iff p ">").0 e)
  | inr n ↦ elim (Bool-cases (str_eq p "*")) [
    | inl e ↦ star ((eq_iff p "*").0 e) (match_parts_sound ps ss (ground arith))
    | inr k ↦ elim (Bool-cases (str_eq p s)) [
      | inl e ↦ literal ((eq_iff p s).0 e) (match_parts_sound ps ss (ground arith))
      | inr d ↦ absurd (ground arith)
    ]
  ]
]
