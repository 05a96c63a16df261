-- ===== src/EventBus/Subject.antt =====
-- `matchSubject` of internal/eventbus/memory.go, with `strings.Split` and `strings.ContainsAny` as
-- the code calls them.
mod Split
mod Loop
pub mod Correct
use Prim.Native.Char.{Char, code}
use Prim.Native.String
use foreman.Prelude.{
  ℕ, ◌+◌, ◌≡◌, String, Bool, true, false, ◌||◌, List, [], ◌∷◌, length, str_eq, leb, ◌==◌,
  if◌then◌else◌,
}

-- Put a character in front of the first part.
abbrev pub attach : Char → List String → List String
attach c [] = (String.◌∷◌ c String.[]) ∷ []
attach c (t ∷ ts) = (String.◌∷◌ c t) ∷ ts

-- strings.Split(s, ".")
unfoldable pub split : String → List String
split String.[] = String.[] ∷ []
split (String.◌∷◌ c s) = if code c == b'.' then String.[] ∷ split s else attach c (split s)

-- strings.ContainsAny(s, "*>")
unfoldable pub has_wildcard : String → Bool
has_wildcard String.[] = false
has_wildcard (String.◌∷◌ c s) = (code c == b'*' || code c == b'>') || has_wildcard s

-- s[i], or the empty text past the end (the code tests the index first).
abbrev pub part_at : List String → ℕ → String
part_at [] i = ""
part_at (s ∷ ss) ℕ.zero = s
part_at (s ∷ ss) (ℕ.suc i) = part_at ss i

-- The loop over the pattern's parts: `total` parts in all, those from the i-th on still to come.
match_loop : ℕ → List String → ℕ → List String → Bool
match_loop total ss i [] = total == length ss
match_loop total ss i (p ∷ ps) =
    let next = match_loop total ss (i + 1) ps in
    if str_eq p ">"
    then leb i (length ss)
    else if leb (length ss) i
    then false
    else if str_eq p "*"
    then next
    else if str_eq p (part_at ss i)
    then next
    else false

unfoldable pub match_subject : String → String → Bool
unfolding match_loop split has_wildcard
match_subject pattern subject =
    if str_eq pattern subject
    then true
    else if has_wildcard pattern
    then match_loop (length (split pattern)) (split subject) 0 (split pattern)
    else false

-- What a pattern means, by its parts: `>` takes what is left, nothing included, `*` takes one part,
-- and any part takes itself.
pub data Matches : List String → List String → Type 0 where
  done : Matches [] []
  remainder : {p : String} {ps ss : List String} → ◌≡◌ {A = String} p ">" → Matches (p ∷ ps) ss
  star :
      {p s : String} {ps ss : List String}
      → ◌≡◌ {A = String} p "*"
      → Matches ps ss
      → Matches (p ∷ ps) (s ∷ ss)
  literal : {p s : String} {ps ss : List String} → p ≡ s → Matches ps ss → Matches (p ∷ ps) (s ∷ ss)
