-- ===== src/EventBus/Subject/Split.antt =====
-- `strings.Split` on the subjects of internal/eventbus/memory.go, and the texts without wildcards.
use Prim.Native.Char.{Char, code}
use Prim.Native.String.append as append_clauses
use text.Mathlib.TextEquality.{Char-path}
use foreman.Prelude.{
  String, ◌≡◌, refl, sym, ap, ◌∙◌, false, ◌||◌, List, [], ◌∷◌, ◌++◌, All, arith, concat, ◌==◌, inl,
  inr, Bool-cases,
}
use foreman.EventBus.Subject.{split, attach, has_wildcard}

-- strings.Join(parts, ".")
join : List String → String
join [] = ""
join (t ∷ []) = t
join (t ∷ u ∷ ts) = concat t (concat "." (join (u ∷ ts)))

join-attach : (c : Char) (ts : List String) → join (attach c ts) ≡ String.◌∷◌ c (join ts)
unfolding join
join-attach c [] = refl
join-attach c (t ∷ []) = refl
join-attach c (t ∷ u ∷ ts) = append_clauses.cons c t (concat "." (join (u ∷ ts)))

-- `split` has at least one part.
split-cons : (s : String) → (t : String) × (ts : List String) × (split s ≡ t ∷ ts)
unfolding split
split-cons String.[] = ("", [], refl)
split-cons (String.◌∷◌ c s) = elim (Bool-cases (code c == b'.')) [
  | inl dot ↦ ("", split s, rw dot refl)
  | inr other ↦ let (t, ts, e) = split-cons s in (String.◌∷◌ c t, ts, rw (other, e) refl)
]

join-dot :
    (c : Char) (t : String) (ts : List String)
    → code c ≡ b'.'
    → join ("" ∷ t ∷ ts) ≡ String.◌∷◌ c (join (t ∷ ts))
unfolding join
join-dot c t ts h =
    let rest : String = join (t ∷ ts) in
    rw (Char-path c "." h) (
      append_clauses.nil (concat "." rest)
      ∙ (append_clauses.cons "." String.[] rest ∙ ap (String.◌∷◌ ".") (append_clauses.nil rest)))

join-split : (s : String) → join (split s) ≡ s
unfolding split join
join-split String.[] = refl
join-split (String.◌∷◌ c s) = elim (Bool-cases (code c == b'.')) [
  | inl dot ↦
      let (t, ts, e) = split-cons s in
      rw (dot, e)
        (join-dot c t ts (ground arith) ∙ ap (String.◌∷◌ c) (ap join (sym e) ∙ join-split s))
  | inr other ↦ rw other (join-attach c (split s) ∙ ap (String.◌∷◌ c) (join-split s))
]

pub split_injective : (s t : String) → split s ≡ split t → s ≡ t
split_injective s t e = sym (join-split s) ∙ (ap join e ∙ join-split t)

abbrev pub IsPlain : String → Type 0
IsPlain s = has_wildcard s ≡ false

All-attach :
    (c : Char) (ts : List String)
    → (code c == b'*' || code c == b'>') ≡ false
    → All IsPlain ts
    → All IsPlain (attach c ts)
unfolding has_wildcard
All-attach c [] h a = (ground arith, tt)
All-attach c (t ∷ ts) h a = (ground arith, a.1)

pub split-IsPlain : (s : String) → IsPlain s → All IsPlain (split s)
unfolding split has_wildcard
split-IsPlain String.[] h = (refl, tt)
split-IsPlain (String.◌∷◌ c s) h = elim (Bool-cases (code c == b'.')) [
  | inl dot ↦ rw dot (refl, split-IsPlain s (ground arith))
  | inr other ↦ rw other (All-attach c (split s) (ground arith) (split-IsPlain s (ground arith)))
]

attach-append :
    (c : Char) (s : String) (ts : List String) → attach c (split s ++ ts) ≡ attach c (split s) ++ ts
attach-append c s ts = let (t, us, e) = split-cons s in rw e refl

-- A dot between two texts puts their parts one after the other.
pub split-dotted : (s t : String) → split (concat s (concat "." t)) ≡ split s ++ split t
unfolding split
split-dotted String.[] t =
    rw
      (append_clauses.nil (concat "." t), append_clauses.cons "." String.[] t, append_clauses.nil t)
      refl
split-dotted (String.◌∷◌ c s) t =
    rw (append_clauses.cons c s (concat "." t)) (elim (Bool-cases (code c == b'.')) [
      | inl dot ↦ rw (dot, split-dotted s t) refl
      | inr other ↦ rw (other, split-dotted s t) (attach-append c s (split t))
    ])
