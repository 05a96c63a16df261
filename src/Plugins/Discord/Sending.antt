-- ===== src/Plugins/Discord/Sending.antt =====
-- What internal/plugins/discord/plugin.go sends: texts, and messages of blocks.
use foreman.Prelude.{String, Option, none, some, List, [], ◌∷◌, ◌++◌, Result, str_eq, if◌then◌else◌}
use foreman.Prelude.Dict.{Dict, lookup, delete}
use foreman.Schemas.{Message}
use foreman.Plugins.Blocks.{
  Block, ElementValue, text_field, number_field, button_of, string_or_empty,
}
use foreman.Plugins.Discord.{
  ButtonStyle, Button, Embed, MessageSend, Plugin, call, not_connected, primary, secondary, success,
  danger, send, edit_response,
}

abbrev pub plain_message : String → Option String → MessageSend
plain_message text reference = record {
  content = text;
  reference = reference;
  embeds = [];
  components = [];
}

abbrev pub send_text : String → Message → Plugin → Plugin
send_text channel msg p =
    if str_eq msg.thread ""
    then call (send channel (plain_message msg.text none)) p
    else call (send msg.thread (plain_message msg.text (some msg.thread))) p

abbrev pub without_pending : String → Plugin → Plugin
without_pending channel p = record p {
  pending_interactions = delete channel p.pending_interactions;
}

-- A pending interaction is taken from the map also where there is no session.
unfoldable pub send_message :
    Result (Unit {0}) → String → Message → Plugin → Result (Unit {0}) × Plugin
send_message outcome channel msg p = elim (lookup channel p.pending_interactions) [
  | none ↦ if p.connected then (outcome, send_text channel msg p) else (not_connected, p)
  | some interaction ↦
      let p' = without_pending channel p in
      if p.connected
      then (outcome, call (edit_response interaction msg.text) p')
      else (not_connected, p')
]

unfoldable pub button_style : String → ButtonStyle
button_style style =
    if str_eq style "primary"
    then primary
    else if str_eq style "secondary"
    then secondary
    else if str_eq style "success"
    then success
    else if str_eq style "danger"
    then danger
    else primary

abbrev pub button : Dict (Option String) → Button
button btn = record {
  label = string_or_empty "text" btn;
  custom_id = string_or_empty "action_id" btn;
  style = button_style (string_or_empty "style" btn);
}

abbrev pub add_button : Option (Dict (Option String)) → List Button → List Button
add_button none row = row
add_button (some btn) row = button btn ∷ row

-- The buttons of the elements.
unfoldable pub discord_buttons : List (Dict ElementValue) → List Button
unfolding button_of string_or_empty button_style
discord_buttons [] = []
discord_buttons (e ∷ elements) = add_button (button_of e) (discord_buttons elements)

abbrev pub or_else {ℓ} : {A : Type ℓ} → A → Option A → A
or_else a none = a
or_else a (some b) = b

-- A footer on the last embed, if there is one.
unfoldable pub set_footer : String → List Embed → List Embed
set_footer text [] = []
set_footer text (e ∷ []) = record e { footer = some text } ∷ []
set_footer text (e ∷ f ∷ embeds) = e ∷ set_footer text (f ∷ embeds)

abbrev pub section_embed : Block → Embed
section_embed b = record {
  title = or_else "" (text_field "title" b.fields);
  description = or_else "" (text_field "text" b.fields);
  color = or_else 0 (number_field "color" b.fields);
  footer = none;
}

abbrev pub add_row : List Button → List (List Button) → List (List Button)
add_row [] rows = rows
add_row (b ∷ row) rows = rows ++ (b ∷ row) ∷ []

abbrev pub add_footer : Option String → List Embed → List Embed
add_footer none embeds = embeds
add_footer (some text) embeds = set_footer text embeds

-- One block added to the message.
unfoldable pub add_block : Block → MessageSend → MessageSend
unfolding text_field number_field discord_buttons set_footer
add_block b params =
    if str_eq b.type "section"
    then record params { embeds = params.embeds ++ section_embed b ∷ [] }
    else if str_eq b.type "actions"
    then record params { components = add_row (discord_buttons b.elements) params.components }
    else if str_eq b.type "context"
    then record params { embeds = add_footer (text_field "text" b.fields) params.embeds }
    else params

unfoldable pub add_blocks : List Block → MessageSend → MessageSend
unfolding add_block
add_blocks [] params = params
add_blocks (b ∷ blocks) params = add_blocks blocks (add_block b params)

unfoldable pub send_block_message :
    Result (Unit {0}) → String → List Block → Plugin → Result (Unit {0}) × Plugin
unfolding add_blocks
send_block_message outcome channel blocks p =
    if p.connected
    then (outcome, call (send channel (add_blocks blocks (plain_message "" none))) p)
    else (not_connected, p)
