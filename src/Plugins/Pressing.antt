-- ===== src/Plugins/Pressing.antt =====
-- The buttons of an approval, pressed in Slack and in Discord, and what the gate makes of it.

use foreman.Prelude.{
  ℕ, String, ◌≡◌, refl, sym, ap, ◌∙◌, Bool, true, false, some, [], ◌∷◌, ◌++◌, ok, err, denied,
  arith, str_eq, concat, if◌then◌else◌,
}
use foreman.Schemas.{Event, approval_granted, approval_denied, Payload}
use foreman.Schemas.Subjects.{subject}
use foreman.EventBus.Bus.{Bus, publish}
use foreman.ControlPlane.{ControlPlane}
use foreman.Coordinator.Approval.{wait_for_approval, answered, extract_user_id}
use foreman.Plugins.Command.Reading.{NoColon, cut_at-joined}
use foreman.Plugins.Slack
use foreman.Plugins.Slack.Receiving as SlackReceiving
use foreman.Plugins.Discord
use foreman.Plugins.Discord.Receiving as DiscordReceiving

abbrev pub action_of : Bool → String
action_of granted = if granted then "approve" else "deny"

-- The event of a pressed button, and its subject.
abbrev pub press : ℕ → String → String → String → Bool → Event
press now session_id user channel granted = record {
  type = if granted then approval_granted else approval_denied;
  session_id = session_id;
  timestamp = now;
  payload = Payload.pressed user channel (action_of granted);
}

abbrev pub press_subject : String → Bool → String
press_subject session_id granted =
    subject ("approval" ∷ session_id ∷ (if granted then "granted" else "denied") ∷ [])

-- A Slack interaction with one button.
abbrev pub one_button : String → String → String → Bool → SlackReceiving.Interaction
one_button session_id user channel granted = record {
  block_actions = true;
  actions = record { action_id = action_of granted; value = session_id } ∷ [];
  user_id = user;
  channel_id = channel;
}

acknowledge-bus :
    (envelope : String) (p : Slack.Plugin) → (SlackReceiving.acknowledge envelope p).bus ≡ p.bus
unfolding SlackReceiving.acknowledge
acknowledge-bus envelope p = ground arith

slack_press :
    (now : ℕ) (envelope session_id user channel : String) (granted : Bool) (p : Slack.Plugin)
    → str_eq session_id "" ≡ false
    → (SlackReceiving.handle_interactive now envelope
        (some (one_button session_id user channel granted))
        p).bus
      ≡ (publish
          (press_subject session_id granted)
          (press now session_id user channel granted)
          p.bus).1
unfolding SlackReceiving.handle_interactive SlackReceiving.handle_actions
    SlackReceiving.publish_answer
slack_press now envelope session_id user channel true p some_id =
    rw (some_id, acknowledge-bus envelope p) refl
slack_press now envelope session_id user channel false p some_id =
    rw (some_id, acknowledge-bus envelope p) refl

NoColon-approve : NoColon "approve"
NoColon-approve = omega arith

NoColon-deny : NoColon "deny"
NoColon-deny = omega arith

-- The custom identifier of an action and a session.
abbrev pub custom_id : Bool → String → String
custom_id granted session_id = concat (action_of granted) (concat ":" session_id)

answered_press :
    (now : ℕ) (session_id user message_id : String) (granted : Bool)
    (i : DiscordReceiving.Interaction) (p : Discord.Plugin) (bus : Bus)
    → str_eq session_id "" ≡ false
    → i.member ≡ some user
    → p.bus ≡ some bus
    → (DiscordReceiving.answer_component now i message_id (action_of granted, session_id) p).bus
      ≡ some
          (publish
            (press_subject session_id granted)
            (press now session_id user i.channel_id granted)
            bus).1
unfolding DiscordReceiving.publish_answer
answered_press now session_id user message_id true i p bus some_id member set =
    rw (some_id, member, set) refl
answered_press now session_id user message_id false i p bus some_id member set =
    rw (some_id, member, set) refl

action_and_session-custom_id :
    (granted : Bool) (session_id : String)
    → DiscordReceiving.action_and_session (custom_id granted session_id)
      ≡ (action_of granted, session_id)
unfolding DiscordReceiving.action_and_session
action_and_session-custom_id true session_id =
    ap DiscordReceiving.action_of_cut (cut_at-joined "approve" session_id NoColon-approve)
action_and_session-custom_id false session_id =
    ap DiscordReceiving.action_of_cut (cut_at-joined "deny" session_id NoColon-deny)

discord_press :
    (now : ℕ) (session_id user message_id : String) (granted : Bool)
    (i : DiscordReceiving.Interaction) (p : Discord.Plugin) (bus : Bus)
    → str_eq session_id "" ≡ false
    → i.member ≡ some user
    → p.bus ≡ some bus
    → (DiscordReceiving.handle_component now true i (custom_id granted session_id) message_id p).bus
      ≡ some
          (publish
            (press_subject session_id granted)
            (press now session_id user i.channel_id granted)
            bus).1
unfolding DiscordReceiving.handle_component
discord_press now session_id user message_id granted i p bus some_id member set =
    let p' = Discord.call (Discord.defer_update i.interaction) p in
    ap (λ (r : String × String). (DiscordReceiving.answer_component now i message_id r p').bus)
      (action_and_session-custom_id granted session_id)
    ∙ answered_press now session_id user message_id granted i p' bus some_id member set

-- The gate that receives the press: granted, it lets the session pass, and denied, it fails with the
-- user and no reason.
gate_press :
    (later now : ℕ) (session_id user channel : String) (granted : Bool) (cp : ControlPlane)
    → (wait_for_approval later session_id
        (answered granted (press now session_id user channel granted).payload)
        cp).0
      ≡ (if granted then ok tt else err (denied user ""))
unfolding wait_for_approval extract_user_id
gate_press later now session_id user channel true cp = refl
gate_press later now session_id user channel false cp = refl

published_one :
    (subject : String) (e : Event) (b : Bus)
    → b.outcomes ≡ []
    → (publish subject e b).1.published ≡ b.published ++ (subject, e) ∷ []
unfolding publish
published_one subject e b up = ground arith

-- A press of the approving or the denying button of a session with an identifier, which is the value
-- of the button in Slack and stands in Discord behind the action and a colon in the custom
-- identifier, leaves the same bus in both, where the user of Discord is a member of the guild, the
-- response is deferred and both begin with the same bus, which takes what is published: one event is
-- published, of the kind of the button, for the session, at the time of the press and with the user,
-- the channel and the action, under the approval subject of the session, and the gate that receives
-- it as an answer of its kind succeeds where it grants, and fails with the identifier of the user
-- and no reason where it denies.
pub press_agrees :
    (now later : ℕ) (envelope session_id user message_id : String) (granted : Bool)
    (i : DiscordReceiving.Interaction) (s : Slack.Plugin) (d : Discord.Plugin) (cp : ControlPlane)
    → str_eq session_id "" ≡ false
    → i.member ≡ some user
    → d.bus ≡ some s.bus
    → s.bus.outcomes ≡ []
    → ((DiscordReceiving.handle_component now true i
          (custom_id granted session_id)
          message_id
          d).bus
        ≡ some
            (SlackReceiving.handle_interactive now envelope
              (some (one_button session_id user i.channel_id granted))
              s).bus)
      × ((SlackReceiving.handle_interactive now envelope
            (some (one_button session_id user i.channel_id granted))
            s).bus.published
          ≡ s.bus.published
            ++ (press_subject session_id granted, press now session_id user i.channel_id granted)
              ∷ [])
      × ((wait_for_approval later session_id
            (answered granted (press now session_id user i.channel_id granted).payload)
            cp).0
          ≡ (if granted then ok tt else err (denied user "")))
press_agrees now later envelope session_id user message_id granted i s d cp some_id member set up =
    let slack = slack_press now envelope session_id user i.channel_id granted s some_id in
    (
      discord_press now session_id user message_id granted i d s.bus some_id member set
          ∙ ap some (sym slack),
      ap (λ (b : Bus). b.published) slack
          ∙ published_one (press_subject session_id granted)
              (press now session_id user i.channel_id granted) s.bus up,
      gate_press later now session_id user i.channel_id granted cp,
    )
