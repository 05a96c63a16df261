-- ===== src/Bootstrap/Chat/Answered.antt =====
-- When the goroutine that waits for a chat user's task sends its answer.
use foreman.Prelude.{
  ℕ, String, ◌≡◌, refl, sym, ap, subst, ◌∙◌, ◌⊎◌, inl, inr, Bool, true, false, ◌||◌, none, some,
  List, [], ◌∷◌, ◌++◌, Bool-cases, if◌then◌else◌, arith, eq_refl,
}
use foreman.Prelude.Dict.{lookup}
use foreman.Schemas.{
  Status, completed, failed, Event, EventType, session_completed, session_failed, Payload,
  SessionPayload,
}
use foreman.EventBus.Subject.{match_subject}
use foreman.ControlPlane.{Session, ControlPlane, transition, session_event_subject, event_type}
use foreman.ControlPlane.Steps.{Step}
use foreman.ControlPlane.Lifecycle.{moved}
use foreman.ControlPlane.Transition.{session_event, transition_publishes}
use foreman.Bootstrap.Chat.{
  Waiter, on_output, output_subject, ends, receive, receive_all, reply, answer,
}

-- A subject matches itself.
pub match_subject_refl : (s : String) → match_subject s s ≡ true
unfolding match_subject
match_subject_refl s = rw (eq_refl s) refl

pub receive_all-append :
    (xs ys : List (String × Event)) (w : Waiter)
    → receive_all (xs ++ ys) w ≡ receive_all ys (receive_all xs w)
unfolding receive_all
receive_all-append [] ys w = refl
receive_all-append (x ∷ xs) ys w = receive_all-append xs ys (receive x w)

on_output-fixed :
    (p : Payload) (w : Waiter)
    → ((on_output p w).session_id ≡ w.session_id) × ((on_output p w).done ≡ w.done)
unfolding on_output
on_output-fixed (Payload.output whole (some text)) w = ground arith
on_output-fixed _ w = (refl, refl)

-- An event changes neither the session, nor a value in `done`, and it puts one there where it is an end.
pub receive-done :
    (e : String × Event) (w : Waiter)
    → ((receive e w).session_id ≡ w.session_id)
      × ((receive e w).done ≡ (ends w.session_id e.0 || w.done))
unfolding receive
receive-done (s, evt) w = ground (arith, on_output-fixed evt.payload w)

pub receive_all-session_id :
    (events : List (String × Event)) (w : Waiter) → (receive_all events w).session_id ≡ w.session_id
unfolding receive_all
receive_all-session_id [] w = refl
receive_all-session_id (e ∷ events) w =
    receive_all-session_id events (receive e w) ∙ (receive-done e w).0

receive-end :
    (subject : String) (evt : Event) (p : SessionPayload) (w : Waiter)
    → ends w.session_id subject ≡ true
    → evt.payload ≡ Payload.session p
    → receive (subject, evt) w ≡ record w { done = true }
unfolding receive on_output
receive-end subject evt p w end carries =
    elim (Bool-cases (match_subject (output_subject w.session_id) subject)) [
      | inl y ↦ rw (end, y, carries) refl
      | inr n ↦ rw (end, n) refl
    ]

-- An end that carries a session makes the goroutine send what it has collected.
pub answer-ended :
    (seen : List (String × Event)) (subject : String) (evt : Event) (p : SessionPayload)
    (w : Waiter)
    → ends w.session_id subject ≡ true
    → evt.payload ≡ Payload.session p
    → answer (seen ++ (subject, evt) ∷ []) w ≡ some (reply (receive_all seen w))
unfolding answer receive_all
answer-ended seen subject evt p w end carries =
    let w' = receive_all seen w in
    let end' = subst (λ id. ends id subject ≡ true) (sym (receive_all-session_id seen w)) end in
    let all : receive_all (seen ++ (subject, evt) ∷ []) w ≡ record w' { done = true } =
      receive_all-append seen ((subject, evt) ∷ []) w ∙ receive-end subject evt p w' end' carries in
    ap (λ (v : Waiter). if v.done then some (reply v) else none) all

or_right : (a : Bool) {b : Bool} → b ≡ true → (a || b) ≡ true
or_right true h = refl
or_right false h = h

final-ends :
    (to : Status) (type : EventType) (sid : String)
    → event_type to ≡ some type
    → (to ≡ completed) ⊎ (to ≡ failed)
    → ends sid (session_event_subject sid type) ≡ true
unfolding event_type
final-ends to type sid is (inl e) =
    let same : session_completed ≡ type = ground arith in
    subst (λ t. ends sid (session_event_subject sid t) ≡ true) same
      (rw (match_subject_refl (session_event_subject sid session_completed)) refl)
final-ends to type sid is (inr e) =
    let same : session_failed ≡ type = ground arith in
    subst (λ t. ends sid (session_event_subject sid t) ≡ true) same
      (or_right
        (match_subject (session_event_subject sid session_completed)
          (session_event_subject sid session_failed))
        (match_subject_refl (session_event_subject sid session_failed)))

-- Where a goroutine waits for a session that the control plane has, and the session completes or
-- fails by a step of the state machine whose event the bus takes, one event is published, and
-- whatever the goroutine received before, that event makes it send the plugin the text that it has
-- collected.
pub transition-answer :
    (now : ℕ) (id : String) (to : Status) (cp : ControlPlane) (s : Session)
    (seen : List (String × Event)) (w : Waiter)
    → lookup id cp.sessions ≡ some s
    → Step s.status to
    → (to ≡ completed) ⊎ (to ≡ failed)
    → cp.bus.outcomes ≡ []
    → w.session_id ≡ s.id
    → (e : String × Event) × ((transition now id to cp).1.bus.published
        ≡ cp.bus.published ++ e ∷ [])
      × (answer (seen ++ e ∷ []) w ≡ some (reply (receive_all seen w)))
unfolding event_type
transition-answer now id to cp s seen w found step final up same =
    let (type, is, sent, published) = transition_publishes now id to cp s found step up in
    let e = session_event now (moved now to s) type in
    let end =
      subst (λ i. ends i (session_event_subject s.id type) ≡ true) (sym same)
        (final-ends to type s.id is final) in
    (
      (session_event_subject s.id type, e),
      published,
      answer-ended seen (session_event_subject s.id type) e
          (record { session_id = s.id; task_id = s.task_id; status = to }) w end refl,
    )
