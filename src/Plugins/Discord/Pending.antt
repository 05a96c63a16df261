-- ===== src/Plugins/Discord/Pending.antt =====
-- The interactions that the Discord plugin keeps to answer later: which answer goes where.
use mathlib.Core.List.{append_assoc}
use foreman.Prelude.{
  ℕ, String, ◌≡◌, refl, ap, ◌∙◌, true, none, some, List, [], ◌∷◌, ◌++◌, Result, arith, eq_refl,
  eq_iff,
}
use foreman.Prelude.Dict.{lookup, insert, delete, lookup-insert, lookup-delete}
use foreman.Schemas.{Message}
use foreman.Plugins.Discord.{Plugin, send, edit_response, defer_response}
use foreman.Plugins.Discord.Receiving.{Interaction, handle_slash_command, publish_user_message}
use foreman.Plugins.Discord.Sending.{send_message, plain_message}

-- The command of a member, deferred.
module _ (now : ℕ) (user name : String) (options : List (String × String)) (i : Interaction)
    (p : Plugin) (member : i.member ≡ some user) where
  handle_slash_command-keeps :
      (((handle_slash_command now true i "foreman" options p).pending_interactions
        ≡ insert i.channel_id i.interaction p.pending_interactions))
      × ((handle_slash_command now true i "foreman" options p).connected ≡ p.connected)
      × ((handle_slash_command now true i "foreman" options p).calls
          ≡ p.calls ++ defer_response i.interaction ∷ [])
  unfolding handle_slash_command publish_user_message
  handle_slash_command-keeps = ground arith

-- What a send does where an interaction is pending for its channel, and where none is.
module _ (outcome : Result (Unit {0})) (channel : String) (msg : Message) (p : Plugin)
    (up : p.connected ≡ true) where
  send_message-pending :
      (k : ℕ)
      → lookup channel p.pending_interactions ≡ some k
      → ((send_message outcome channel msg p).1.calls ≡ p.calls ++ edit_response k msg.text ∷ [])
        × ((send_message outcome channel msg p).1.pending_interactions
            ≡ delete channel p.pending_interactions)
        × ((send_message outcome channel msg p).1.connected ≡ true)
  unfolding send_message
  send_message-pending k e = ground (arith, e)

  send_message-plain :
      lookup channel p.pending_interactions ≡ none
      → msg.thread ≡ ""
      → (send_message outcome channel msg p).1.calls
        ≡ p.calls ++ send channel (plain_message msg.text none) ∷ []
  unfolding send_message
  send_message-plain e t = ground (arith, e, eq_iff msg.thread "")

-- Where the plugin is connected and two members give the command in one channel before either is
-- answered, with both responses deferred, the first message that is sent to the channel edits the
-- response to the second command, a second one without a thread is a message of its own, and nothing
-- edits the response to the first command.
pub send_message_overtaken :
    (now then_ : ℕ) (user other channel : String) (options more : List (String × String))
    (i j : Interaction) (p : Plugin) (outcome result : Result (Unit {0})) (m n : Message)
    → p.connected ≡ true
    → i.channel_id ≡ channel
    → j.channel_id ≡ channel
    → i.member ≡ some user
    → j.member ≡ some other
    → n.thread ≡ ""
    → (send_message result channel n
        (send_message outcome channel m (
          handle_slash_command then_ true j "foreman" more
            (handle_slash_command now true i "foreman" options p))).1).1.calls
      ≡ p.calls
        ++ defer_response i.interaction
          ∷ defer_response j.interaction
          ∷ edit_response j.interaction m.text
          ∷ send channel (plain_message n.text none)
          ∷ []
send_message_overtaken now then_ user other channel options more i j p outcome result m n up at
      there first second plain =
    let p1 = handle_slash_command now true i "foreman" options p in
    let p2 = handle_slash_command then_ true j "foreman" more p1 in
    let p3 = (send_message outcome channel m p2).1 in
    let (k1, c1, l1) = handle_slash_command-keeps now user "foreman" options i p first in
    let (k2, c2, l2) = handle_slash_command-keeps then_ other "foreman" more j p1 second in
    let up2 : p2.connected ≡ true = c2 ∙ (c1 ∙ up) in
    let held : lookup channel p2.pending_interactions ≡ some j.interaction =
      ap (lookup channel) k2
      ∙ (lookup-insert j.channel_id channel j.interaction p1.pending_interactions
          ∙ rw (there, eq_refl channel) refl) in
    let (l3, k3, up3) = send_message-pending outcome channel m p2 up2 j.interaction held in
    let gone : lookup channel p3.pending_interactions ≡ none =
      ap (lookup channel) k3
      ∙ (lookup-delete channel channel p2.pending_interactions ∙ rw (eq_refl channel) refl) in
    let l4 = send_message-plain result channel n p3 up3 gone plain in
    l4 ∙ simp (l3, l2, l1, append_assoc)
