-- ===== src/Plugins/Command.antt =====
-- The agent prefix of a command, which internal/plugins/slack/plugin.go and
-- internal/plugins/discord/plugin.go read in the same way.
pub mod Reading
use Prim.Native.Char.{Char, code}
use foreman.Prelude.{
  ℕ, ◌+◌, String, Bool, ◌&&◌, ◌||◌, Option, none, some, ◌≡◌, refl, str_eq, ltb, ◌==◌, if◌then◌else◌,
}
use foreman.Prelude.Text.{trim_space}

-- The bytes of a character in UTF-8.
abbrev pub byte_width : ℕ → ℕ
byte_width c = if ltb c 0x80 then 1 else if ltb c 0x800 then 2 else if ltb c 0x1_0000 then 3 else 4

unfoldable pub byte_length : String → ℕ
byte_length String.[] = 0
byte_length (String.◌∷◌ c s) = byte_width (code c) + byte_length s

abbrev pub after_char : Char → Option (String × String) → Option (String × String)
after_char c none = none
after_char c (some (before, after)) = some (String.◌∷◌ c before, after)

-- text[:idx] and text[idx+1:] for idx := strings.Index(text, sep), `none` where idx is -1. The length
-- of the first is idx.
unfoldable pub cut_at : ℕ → String → Option (String × String)
cut_at sep String.[] = none
cut_at sep (String.◌∷◌ c s) =
    if code c == sep then some (String.[], s) else after_char c (cut_at sep s)

abbrev pub known_agent : String → Bool
known_agent name = str_eq name "opencode" || str_eq name "exec"

abbrev pub passes : String → Bool
passes before =
    (ltb 0 (byte_length before) && ltb (byte_length before) 20) && known_agent (trim_space before)

-- What becomes of a text that was cut at its first colon.
abbrev pub chosen : String → Option (String × String) → String × String
chosen text none = (text, "")
chosen text (some (before, after)) =
    if passes before then (trim_space after, trim_space before) else (text, "")

-- The text and the agent of a command.
unfoldable pub read_command : String → String × String
unfolding cut_at byte_length trim_space
read_command text = chosen text (cut_at 58 text)

read_command_test : read_command " exec : ls -la" ≡ ("ls -la", "exec")
unfolding read_command
read_command_test = refl

read_command_plain_test : read_command "note: fix it" ≡ ("note: fix it", "")
unfolding read_command
read_command_plain_test = refl
