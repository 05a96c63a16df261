-- ===== src/Plugins/Buttons.antt =====
-- What Discord is told of the buttons of a block message.
use foreman.Prelude.{
  ℕ, String, ◌≡◌, refl, sym, ap, ◌∙◌, Bool, true, false, Option, none, some, List, [], ◌∷◌, Result,
  arith, str_eq, inl, inr, Option-cases, map,
}
use foreman.Prelude.Dict.{Dict, lookup, insert, delete, lookup-insert, lookup-delete}
use foreman.Plugins.Blocks.{Block, ElementValue, button_of, string_or_empty, to_string, map_of}
use foreman.Plugins.Blocks
use foreman.Plugins.Command.{cut_at}
use foreman.Plugins.Command.Reading.{NoColon}
use foreman.Plugins.Discord.{Plugin, MessageSend, Button, call, defer_update}
use foreman.Plugins.Discord.Receiving.{
  Interaction, handle_component, action_and_session, answer_component, action_of_cut,
}
use foreman.Plugins.Discord.Sending.{
  button, add_button, discord_buttons, add_block, add_blocks, send_block_message,
}

abbrev pub lose_value : Option (Dict (Option String)) → Dict ElementValue → Dict ElementValue
lose_value none e = e
lose_value (some btn) e = insert "button" (Blocks.map (delete "value" btn)) e

-- An element whose button has lost its value.
abbrev pub without_value : Dict ElementValue → Dict ElementValue
without_value e = lose_value (button_of e) e

abbrev pub block_without_values : Block → Block
block_without_values b = record b { elements = map without_value b.elements }

string_or_empty-delete :
    (name : String) (btn : Dict (Option String))
    → str_eq "value" name ≡ false
    → string_or_empty name (delete "value" btn) ≡ string_or_empty name btn
unfolding string_or_empty
string_or_empty-delete name btn other =
    ap to_string {y = lookup name btn} (lookup-delete "value" name btn ∙ rw other refl)

button_of-lose_value :
    (e : Dict ElementValue) (btn : Dict (Option String))
    → button_of (lose_value (some btn) e) ≡ some (delete "value" btn)
unfolding button_of
button_of-lose_value e btn =
    ap map_of (lookup-insert "button" "button" (Blocks.map (delete "value" btn)) e)

button-delete : (btn : Dict (Option String)) → button (delete "value" btn) ≡ button btn
button-delete btn =
    rw
      (
        string_or_empty-delete "text" btn refl,
        string_or_empty-delete "action_id" btn refl,
        string_or_empty-delete "style" btn refl,
      )
      refl

add_button-without_value :
    (e : Dict ElementValue) (row : List Button)
    → add_button (button_of (without_value e)) row ≡ add_button (button_of e) row
add_button-without_value e row = elim (Option-cases (button_of e)) [
  | inl h ↦ ap (λ b. add_button (button_of (lose_value b e)) row) h ∙ refl
  | inr (btn, h) ↦
      ap (λ b. add_button (button_of (lose_value b e)) row) h
      ∙ ap (λ b. add_button b row) (button_of-lose_value e btn)
      ∙ ap (λ b. b ∷ row) (button-delete btn)
      ∙ sym (ap (λ b. add_button b row) h)
]

discord_buttons-without_value :
    (es : List (Dict ElementValue)) → discord_buttons (map without_value es) ≡ discord_buttons es
unfolding discord_buttons
discord_buttons-without_value [] = refl
discord_buttons-without_value (e ∷ es) =
    ap (add_button (button_of (without_value e))) (discord_buttons-without_value es)
    ∙ add_button-without_value e (discord_buttons es)

add_block-without_values :
    (b : Block) (params : MessageSend)
    → add_block (block_without_values b) params ≡ add_block b params
unfolding add_block
add_block-without_values b params = rw (discord_buttons-without_value b.elements) refl

cut_at-NoColon : (s : String) → NoColon s → cut_at 58 s ≡ none
unfolding cut_at
cut_at-NoColon String.[] h = refl
cut_at-NoColon (String.◌∷◌ c s) h = ground (arith, cut_at-NoColon s h.1)

add_blocks-without_values :
    (bs : List Block) (params : MessageSend)
    → add_blocks (map block_without_values bs) params ≡ add_blocks bs params
unfolding add_blocks
add_blocks-without_values [] params = refl
add_blocks-without_values (b ∷ bs) params =
    ap (add_blocks (map block_without_values bs)) (add_block-without_values b params)
    ∙ add_blocks-without_values bs (add_block b params)

sent :
    (outcome : Result (Unit {0})) (channel : String) (blocks : List Block) (p : Plugin)
    → send_block_message outcome channel (map block_without_values blocks) p
      ≡ send_block_message outcome channel blocks p
unfolding send_block_message
sent outcome channel blocks p = rw (add_blocks-without_values blocks) refl

unpressed :
    (now : ℕ) (deferred : Bool) (i : Interaction) (custom_id message_id : String) (q : Plugin)
    → NoColon custom_id
    → (handle_component now deferred i custom_id message_id q).bus ≡ q.bus
unfolding handle_component action_and_session
unpressed now true i custom_id message_id q plain =
    let q' = call (defer_update i.interaction) q in
    ap (λ c. (answer_component now i message_id (action_of_cut c) q').bus)
      (cut_at-NoColon custom_id plain)
unpressed now false i custom_id message_id q plain = refl

-- A block message is sent to Discord as if its buttons had no values, and a press of a button whose
-- custom identifier has no colon leaves the bus of the plugin as it is.
pub send_block_message-valueless :
    (outcome : Result (Unit {0})) (channel : String) (blocks : List Block) (p q : Plugin) (now : ℕ)
    (deferred : Bool) (i : Interaction) (custom_id message_id : String)
    → NoColon custom_id
    → (send_block_message outcome channel (map block_without_values blocks) p
        ≡ send_block_message outcome channel blocks p)
      × ((handle_component now deferred i custom_id message_id q).bus ≡ q.bus)
send_block_message-valueless outcome channel blocks p q now deferred i custom_id message_id plain =
    (sent outcome channel blocks p, unpressed now deferred i custom_id message_id q plain)
