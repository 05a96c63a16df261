-- ===== src/Plugins/Blocks.antt =====
-- `Block` of internal/schemas/event.go, and the readings of its values that the plugins share.
use foreman.Prelude.{ℕ, String, Option, none, some, List, ◌≡◌, refl, [], ◌∷◌}
use foreman.Prelude.Dict.{Dict, lookup}

-- A value of a field: a string, an int (by its bit pattern), or anything else.
pub data Value : Type 0 where
  text : String → Value
  number : ℕ → Value
  other : Value

-- A value of an element: a map, with `none` for the values that are not strings, or anything else.
pub data ElementValue : Type 0 where
  map : Dict (Option String) → ElementValue
  unreadable : ElementValue

pub record Block : Type 0 where
  pub type : String
  pub fields : Dict Value
  pub elements : List (Dict ElementValue)

abbrev pub text_of : Option Value → Option String
text_of (some (text s)) = some s
text_of _ = none

-- b.Fields[name].(string)
unfoldable pub text_field : String → Dict Value → Option String
text_field name fields = text_of (lookup name fields)

abbrev pub number_of : Option Value → Option ℕ
number_of (some (number n)) = some n
number_of _ = none

-- b.Fields[name].(int)
unfoldable pub number_field : String → Dict Value → Option ℕ
number_field name fields = number_of (lookup name fields)

abbrev pub map_of : Option ElementValue → Option (Dict (Option String))
map_of (some (map button)) = some button
map_of _ = none

-- e["button"].(map[string]any)
unfoldable pub button_of : Dict ElementValue → Option (Dict (Option String))
button_of element = map_of (lookup "button" element)

abbrev pub to_string : Option (Option String) → String
to_string (some (some s)) = s
to_string _ = ""

-- toString(btn[name])
unfoldable pub string_or_empty : String → Dict (Option String) → String
string_or_empty name button = to_string (lookup name button)

abbrev approve_button : Dict ElementValue
approve_button = ("button", map (("action_id", some "approve") ∷ ("value", none) ∷ [])) ∷ []

button_of_test :
    button_of approve_button ≡ some (("action_id", some "approve") ∷ ("value", none) ∷ [])
unfolding button_of lookup
button_of_test = refl
