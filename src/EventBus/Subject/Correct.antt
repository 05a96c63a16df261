-- ===== src/EventBus/Subject/Correct.antt =====
-- `matchSubject` of internal/eventbus/memory.go and the meaning of a pattern.
use foreman.Prelude.{
  ◌++◌, ◌≢◌, subst, String, concat, ◌≡◌, refl, sym, ap₂, true, false, List, [], ◌∷◌, ◌↔◌, All,
  arith, str_eq, eq_iff, Bool-cases, inl, inr,
}
use foreman.EventBus.Subject.{
  match_subject, split, has_wildcard, Matches, done, remainder, star, literal,
}
use foreman.EventBus.Subject.Split.{IsPlain, split-IsPlain, split-dotted, split_injective}
use foreman.EventBus.Subject.Loop.{match_parts_sound, match_parts_complete, match_subject_lem}

Matches-refl : (ps : List String) → Matches ps ps
Matches-refl [] = done
Matches-refl (p ∷ ps) = literal refl (Matches-refl ps)

star_not_plain : (p : String) → IsPlain p → p ≢ "*"
unfolding has_wildcard
star_not_plain p h e = cc (subst IsPlain e h)

remainder_not_plain : (p : String) → IsPlain p → p ≢ ">"
unfolding has_wildcard
remainder_not_plain p h e = cc (subst IsPlain e h)

-- Plain parts match themselves only.
plain_parts : {ps ss : List String} → All IsPlain ps → Matches ps ss → ps ≡ ss
plain_parts a done = refl
plain_parts a (remainder {p} e) = absurd (remainder_not_plain p a.0 e)
plain_parts a (star {p} e m) = absurd (star_not_plain p a.0 e)
plain_parts a (literal e m) = ap₂ ◌∷◌ e (plain_parts a.1 m)

-- Without a wildcard in the pattern, only the same text matches.
pub plain_eq : (p s : String) → IsPlain p → Matches (split p) (split s) → p ≡ s
plain_eq p s h m = split_injective p s (plain_parts (split-IsPlain p h) m)

tail_parts : (p : String) → split (concat p (concat "." ">")) ≡ split p ++ ">" ∷ []
unfolding split
tail_parts p = split-dotted p ">"

sound : (p s : String) → match_subject p s ≡ true → Matches (split p) (split s)
sound p s h = elim (Bool-cases (str_eq p s)) [
  | inl e ↦ subst (λ t. Matches (split p) (split t)) ((eq_iff p s).0 e) (Matches-refl (split p))
  | inr n ↦ elim (Bool-cases (has_wildcard p)) [
    | inl w ↦ match_parts_sound (split p) (split s) (ground (arith, match_subject_lem p s))
    | inr l ↦ absurd (ground (arith, match_subject_lem p s))
  ]
]

complete : (p s : String) → Matches (split p) (split s) → match_subject p s ≡ true
complete p s m = elim (Bool-cases (has_wildcard p)) [
  | inl w ↦ ground (arith, match_subject_lem p s, match_parts_complete m)
  | inr l ↦ ground (arith, match_subject_lem p s, (eq_iff p s).1 (plain_eq p s l m))
]

-- matchSubject says yes exactly when the parts of the subject match the parts of the pattern, as the
-- relation Matches has it.
pub match_subject-Matches :
    (pattern subject : String)
    → (match_subject pattern subject ≡ true) ↔ Matches (split pattern) (split subject)
match_subject-Matches p s = (sound p s, complete p s)

-- A pattern with no wildcard character matches its own text and nothing else.
match_subject_plain :
    (pattern subject : String)
    → has_wildcard pattern ≡ false
    → (match_subject pattern subject ≡ true) ↔ (pattern ≡ subject)
match_subject_plain p s h = (
  λ e. plain_eq p s h (sound p s e),
  λ e. ground (arith, match_subject_lem p s, (eq_iff p s).1 e),
)

Matches-prefix : (ps rest : List String) → Matches (ps ++ ">" ∷ []) (ps ++ rest)
Matches-prefix [] rest = remainder refl
Matches-prefix (p ∷ ps) rest = literal refl (Matches-prefix ps rest)

prefix-Matches :
    (ps ss : List String)
    → All IsPlain ps
    → Matches (ps ++ ">" ∷ []) ss
    → (rest : List String) × (ss ≡ ps ++ rest)
prefix-Matches [] ss a m = (ss, refl)
prefix-Matches (p ∷ ps) _ a (remainder e) = absurd (remainder_not_plain p a.0 e)
prefix-Matches (p ∷ ps) _ a (star e m) = absurd (star_not_plain p a.0 e)
prefix-Matches (p ∷ ps) _ a (literal {ss} e m) =
    let (rest, f) = prefix-Matches ps ss a.1 m in (rest, ap₂ ◌∷◌ (sym e) f)

-- A text with no wildcard character, followed by ".>", matches exactly the subjects whose parts
-- begin with those of the text, the text itself included.
match_subject_prefix :
    (text subject : String)
    → has_wildcard text ≡ false
    → (match_subject (concat text (concat "." ">")) subject ≡ true)
      ↔ ((rest : List String) × (split subject ≡ split text ++ rest))
match_subject_prefix p s h = (
  λ e.
      prefix-Matches (split p) (split s) (split-IsPlain p h)
        (subst (λ ps. Matches ps (split s)) (tail_parts p) (sound (concat p (concat "." ">")) s e)),
  λ r. complete (concat p (concat "." ">")) s (
      subst (λ ps. Matches ps (split s)) (sym (tail_parts p))
        (subst (Matches (split p ++ ">" ∷ [])) (sym r.1) (Matches-prefix (split p) r.0))),
)
