-- ===== src/Plugins/Slack/Sending.antt =====
-- What internal/plugins/slack/plugin.go sends: texts, and messages of blocks.
use foreman.Prelude.{
  String, Option, none, some, List, [], ◌∷◌, Result, err, message, concat, str_eq, if◌then◌else◌,
  map,
}
use foreman.Schemas.{Message}
use foreman.Prelude.Dict.{Dict}
use foreman.Plugins.Blocks.{Block, ElementValue, text_field, button_of, string_or_empty}
use foreman.Plugins.Slack.{
  Button, SlackBlock, Plugin, call, section, actions, context, divider, post, post_blocks,
}

abbrev pub not_initialized : Result (Unit {0})
not_initialized = err (message "slack: client not initialized (call Start first)")

-- `outcome` is that of the call.
unfoldable pub send_message :
    Result (Unit {0}) → String → Message → Plugin → Result (Unit {0}) × Plugin
send_message outcome channel msg p =
    if p.connected
    then (outcome, call (post channel msg.text msg.thread) p)
    else (not_initialized, p)

abbrev pub button : Dict (Option String) → Button
button btn = record {
  action_id = string_or_empty "action_id" btn;
  value = string_or_empty "value" btn;
  text = string_or_empty "text" btn;
}

abbrev pub add_button : Option (Dict (Option String)) → List Button → List Button
add_button none row = row
add_button (some btn) row = button btn ∷ row

-- The buttons of the elements.
unfoldable pub slack_buttons : List (Dict ElementValue) → List Button
unfolding button_of string_or_empty
slack_buttons [] = []
slack_buttons (e ∷ elements) = add_button (button_of e) (slack_buttons elements)

abbrev pub texts_of : Option String → List String
texts_of none = []
texts_of (some text) = text ∷ []

unfoldable pub to_slack_block : Block → SlackBlock
unfolding slack_buttons text_field
to_slack_block b =
    if str_eq b.type "section"
    then section (text_field "text" b.fields)
    else if str_eq b.type "actions"
    then actions (slack_buttons b.elements)
    else if str_eq b.type "context"
    then context (texts_of (text_field "text" b.fields))
    else if str_eq b.type "divider"
    then divider
    else section (some (concat "unknown block type: " b.type))

unfoldable pub send_block_message :
    Result (Unit {0}) → String → List Block → Plugin → Result (Unit {0}) × Plugin
unfolding to_slack_block
send_block_message outcome channel blocks p =
    if p.connected
    then (outcome, call (post_blocks channel (map to_slack_block blocks)) p)
    else (not_initialized, p)
