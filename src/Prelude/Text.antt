-- ===== src/Prelude/Text.antt =====
-- The functions of Go's `strings` that the program walks texts with.
use Prim.Native.Char.{Char, code}
use Prim.Native.String.{String}
use Prim.Native.Nat.{ℕ}
use mathlib.Core.Bool.{Bool, true, false, ◌&&◌, ◌||◌}
use mathlib.Core.Path.{◌≡◌, refl}
use mathlib.Core.Option.{Option, none, some}
use mathlib.Core.List.{List, [], ◌∷◌}
use foreman.Prelude.Tests.{leb, ◌==◌, if◌then◌else◌}

-- unicode.IsSpace
unfoldable pub is_space : ℕ → Bool
is_space c =
    (leb 9 c && leb c 13)
    || (c == 32
        || (c == 0x85
            || (c == 0xa0
                || (c == 0x1680
                    || ((leb 0x2000 c && leb c 0x200a)
                        || (c == 0x2028
                            || (c == 0x2029 || (c == 0x202f || (c == 0x205f || c == 0x3000)))))))))

abbrev attach : Char → List String → List String
attach c [] = (String.◌∷◌ c String.[]) ∷ []
attach c (t ∷ ts) = (String.◌∷◌ c t) ∷ ts

-- strings.Split(s, sep) for a separator of one character.
unfoldable pub split_on : ℕ → String → List String
split_on sep String.[] = String.[] ∷ []
split_on sep (String.◌∷◌ c s) =
    if code c == sep then String.[] ∷ split_on sep s else attach c (split_on sep s)

trim_left : String → String
unfolding is_space
trim_left String.[] = String.[]
trim_left (String.◌∷◌ c s) =
    let rest = trim_left s in if is_space (code c) then rest else String.◌∷◌ c s

abbrev cons_trimmed : Char → String → String
cons_trimmed c String.[] = if is_space (code c) then String.[] else String.◌∷◌ c String.[]
cons_trimmed c (String.◌∷◌ d s) = String.◌∷◌ c (String.◌∷◌ d s)

trim_right : String → String
unfolding is_space
trim_right String.[] = String.[]
trim_right (String.◌∷◌ c s) = cons_trimmed c (trim_right s)

-- strings.TrimSpace
unfoldable pub trim_space : String → String
unfolding trim_left trim_right
trim_space s = trim_right (trim_left s)

-- The text up to the first space.
take_word : String → String
unfolding is_space
take_word String.[] = String.[]
take_word (String.◌∷◌ c s) =
    let rest = take_word s in if is_space (code c) then String.[] else String.◌∷◌ c rest

abbrev some_word : String → Option String
some_word String.[] = none
some_word (String.◌∷◌ c s) = some (String.◌∷◌ c s)

-- strings.Fields(s)[0], `none` where there is no field
unfoldable pub first_field : String → Option String
unfolding trim_left take_word
first_field s = some_word (take_word (trim_left s))

first_field_test : first_field "  opencode run " ≡ some "opencode"
unfolding first_field
first_field_test = refl

trim_space_test : trim_space " a b\r" ≡ "a b"
unfolding trim_space
trim_space_test = refl

abbrev some_cons : Option String → List String → List String
some_cons none words = words
some_cons (some word) words = word ∷ words

-- The word being read, and the words after it.
abbrev next_word : Bool → Char → String × List String → String × List String
next_word true c (word, words) = (String.[], some_cons (some_word word) words)
next_word false c (word, words) = (String.◌∷◌ c word, words)

words_of : String → String × List String
unfolding is_space
words_of String.[] = (String.[], [])
words_of (String.◌∷◌ c s) = next_word (is_space (code c)) c (words_of s)

-- strings.Fields
unfoldable pub fields : String → List String
unfolding words_of
fields s = let (word, words) = words_of s in some_cons (some_word word) words

fields_test : fields " eth0\t00000000  0101A8C0 " ≡ "eth0" ∷ "00000000" ∷ "0101A8C0" ∷ []
unfolding fields
fields_test = refl
