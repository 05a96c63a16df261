-- ===== src/ControlPlane/Lifecycle.antt =====
-- The calls of internal/controlplane/session.go: what they do to the sessions in memory.
use mathlib.Core.Option
use foreman.Prelude.{
  ℕ, String, ◌≡◌, refl, false, Option, none, some, List, [], ◌∷◌, arith, ◌&&◌, ap, All, eq_iff,
  str_eq, if◌then◌else◌, inl, inr, Bool-cases, Option-cases, Result-cases, ◌⊎◌, ◌∙◌,
}
use foreman.Prelude.Dict.{Dict, lookup, insert, lookup-insert}
use foreman.Schemas.{Status}
use foreman.StateStore
use foreman.StateStore.{Metadata}
use foreman.ControlPlane.{
  Session, ControlPlane, transition, apply_transition, valid_transitions, audit, emit,
  create_session, save_checkpoint, new_session,
}
use foreman.ControlPlane.Steps.{
  allows, Reach, here, next, Step_sound, Reach-trans, Reach-terminal, IsTerminal,
}

-- The session after a transition that is allowed.
abbrev pub moved : ℕ → Status → Session → Session
moved now to s = record s { status = to; updated_at = now }

abbrev pub after_transition : ℕ → String → Status → Dict Session → Dict Session
after_transition now id to sessions = elim (lookup id sessions) [
  | none ↦ sessions
  | some s ↦
      if allows (valid_transitions s.status) to
      then insert id (moved now to s) sessions
      else sessions
]

pub sessions-apply_transition :
    (now : ℕ) (id : String) (s : Session) (to : Status) (cp : ControlPlane)
    → (apply_transition now id s to cp).1.sessions ≡ insert id (moved now to s) cp.sessions
unfolding apply_transition audit emit
sessions-apply_transition now id s to cp = ground arith

pub sessions-transition :
    (now : ℕ) (id : String) (to : Status) (cp : ControlPlane)
    → (transition now id to cp).1.sessions ≡ after_transition now id to cp.sessions
unfolding transition audit emit
sessions-transition now id to cp = ground arith

-- A transition changes nothing, or is the one of the session that it finds.
pub transition-cases :
    (now : ℕ) (id : String) (to : Status) (cp : ControlPlane)
    → ((transition now id to cp).1 ≡ cp)
      ⊎ ((s : Session) × (lookup id cp.sessions ≡ some s)
          × (transition now id to cp ≡ apply_transition now id s to cp))
unfolding transition
transition-cases now id to cp = elim (Option-cases (lookup id cp.sessions)) [
  | inl missing ↦ inl (rw (missing, transition))
  | inr (s, found) ↦ elim (Bool-cases (allows (valid_transitions s.status) to)) [
    | inl y ↦ inr (s, found, ground arith)
    | inr n ↦ inl (ground arith)
  ]
]

-- Each session after a call, the one of the call and every other.
pub lookup-transition :
    (now : ℕ) (j id : String) (to : Status) (cp : ControlPlane) (s : Session)
    → lookup id cp.sessions ≡ some s
    → lookup id (transition now j to cp).1.sessions ≡ (
        if str_eq j id && allows (valid_transitions s.status) to
        then some (moved now to s)
        else some s)
lookup-transition now j id to cp s h =
    rw sessions-transition (elim (Option-cases (lookup j cp.sessions)) [
      | inl missing ↦ ground (arith, eq_iff j id)
      | inr (t, found) ↦
          ground (arith, eq_iff j id, lookup-insert j id (moved now to t) cp.sessions)
    ])

-- A call of the control plane, with its arguments.
pub data Call : Type 0 where
  creates : String → String → String → String → Call
  transitions : String → Status → Call
  checkpoints : String → Metadata → Call

unfoldable pub perform : ℕ × Call → ControlPlane → ControlPlane
perform (now, creates id task_id description agent) cp =
    (create_session now id task_id description agent cp).1
perform (now, transitions id to) cp = (transition now id to cp).1
perform (now, checkpoints id snapshot) cp = (save_checkpoint now id snapshot cp).1

unfoldable pub run : List (ℕ × Call) → ControlPlane → ControlPlane
run [] cp = cp
run (c ∷ cs) cp = run cs (perform c cp)

-- The call creates no session of this id.
abbrev pub Spares : String → ℕ × Call → Type 0
Spares id (now, creates j task_id description agent) = str_eq j id ≡ false
Spares id (now, _) = Unit {0}

-- The session is still there, for the same task, in a status reached from its old one.
pub record Follows (s : Session) (found : Option Session) : Type 0 where
  pub session : Session
  pub is_there : found ≡ some session
  pub same_task : session.task_id ≡ s.task_id
  pub same_description : session.description ≡ s.description
  pub same_agent : session.agent ≡ s.agent
  pub same_birth : session.created_at ≡ s.created_at
  pub reached : Reach s.status session.status

lookup-create_session :
    (now : ℕ) (id j task_id description agent : String) (cp : ControlPlane)
    → str_eq j id ≡ false
    → lookup id (create_session now j task_id description agent cp).1.sessions
      ≡ lookup id cp.sessions
unfolding create_session audit emit
lookup-create_session now id j t d a cp h =
    ground (arith, lookup-insert j id (new_session now j t d a) cp.sessions)

-- A checkpoint changes nothing in memory, or the reference of its session.
pub sessions-save_checkpoint :
    (now : ℕ) (j : String) (snapshot : Metadata) (cp : ControlPlane)
    → let after = (save_checkpoint now j snapshot cp).1.sessions in
      (after ≡ cp.sessions)
      ⊎ ((s : Session) × (ref : ℕ) × (lookup j cp.sessions ≡ some s)
          × (after ≡ insert j (record s { checkpoint_ref = ref }) cp.sessions))
unfolding save_checkpoint
sessions-save_checkpoint now j snapshot cp = elim (Option-cases cp.store) [
  | inl e ↦ inl (ground arith)
  | inr (db, e) ↦ elim (Option-cases (lookup j cp.sessions)) [
    | inl missing ↦ inl (ground arith)
    | inr (s, found) ↦ elim (Result-cases (StateStore.save_checkpoint j snapshot 0 now db).0) [
      | inr (x, failed_to_save) ↦ inl (ground arith)
      | inl (ref, saved) ↦
          elim (Result-cases
            (StateStore.update_checkpoint_ref j ref
              (StateStore.save_checkpoint j snapshot 0 now db).1).0) [
                | inr (x, failed_to_refer) ↦ inl (ground arith)
                | inl (_, referred) ↦ inr (s, ref, found, ground arith)
              ]
    ]
  ]
]

lookup-save_checkpoint :
    (now : ℕ) (id j : String) (snapshot : Metadata) (cp : ControlPlane) (s : Session)
    → lookup id cp.sessions ≡ some s
    → (ref : ℕ) × (lookup id (save_checkpoint now j snapshot cp).1.sessions
        ≡ some (record s { checkpoint_ref = ref }))
lookup-save_checkpoint now id j snapshot cp s h =
    elim (sessions-save_checkpoint now j snapshot cp) [
      | inl e ↦ (s.checkpoint_ref, rw e h)
      | inr (t, ref, found, e) ↦ elim (Bool-cases (str_eq j id)) [
        | inl same ↦
            let t' : t ≡ s = ground (arith, eq_iff j id) in
            (ref, rw (e, lookup-insert) (ground (arith, eq_iff j id)))
        | inr differ ↦ (s.checkpoint_ref, rw (e, lookup-insert, differ) h)
      ]
    ]

perform-Follows :
    (c : ℕ × Call) (id : String) (cp : ControlPlane) (s : Session)
    → Spares id c
    → lookup id cp.sessions ≡ some s
    → Follows s (lookup id (perform c cp).sessions)
unfolding perform
perform-Follows (now, creates j t d a) id cp s spare h = record {
  session = s;
  is_there = lookup-create_session now id j t d a cp spare ∙ h;
  same_task = refl;
  same_description = refl;
  same_agent = refl;
  same_birth = refl;
  reached = here;
}
perform-Follows (now, checkpoints j snapshot) id cp s spare h =
    let (ref, e) = lookup-save_checkpoint now id j snapshot cp s h in
    record {
      session = record s { checkpoint_ref = ref };
      is_there = e;
      same_task = refl;
      same_description = refl;
      same_agent = refl;
      same_birth = refl;
      reached = here;
    }
perform-Follows (now, transitions j to) id cp s spare h =
    elim (Bool-cases (str_eq j id && allows (valid_transitions s.status) to)) [
      | inl yes_moved ↦ record {
        session = moved now to s;
        is_there = lookup-transition now j id to cp s h ∙ ground arith;
        same_task = refl;
        same_description = refl;
        same_agent = refl;
        same_birth = refl;
        reached = next here (Step_sound s.status to (ground arith));
      }
      | inr stayed ↦ record {
        session = s;
        is_there = lookup-transition now j id to cp s h ∙ ground arith;
        same_task = refl;
        same_description = refl;
        same_agent = refl;
        same_birth = refl;
        reached = here;
      }
    ]

Follows-trans :
    {s : Session} {found later : Option Session} (f : Follows s found)
    → Follows f.session later
    → Follows s later
Follows-trans f g = record {
  session = g.session;
  is_there = g.is_there;
  same_task = g.same_task ∙ f.same_task;
  same_description = g.same_description ∙ f.same_description;
  same_agent = g.same_agent ∙ f.same_agent;
  same_birth = g.same_birth ∙ f.same_birth;
  reached = Reach-trans f.reached g.reached;
}

-- After any sequence of calls of CreateSession, Transition and SaveCheckpoint, a session that is
-- there and that none of them creates anew is still there, with the same task, description, agent
-- and time of creation, and its status is reached from its old one by steps of the state machine.
pub run-Follows :
    (cs : List (ℕ × Call)) (id : String) (cp : ControlPlane) (s : Session)
    → All (Spares id) cs
    → lookup id cp.sessions ≡ some s
    → Follows s (lookup id (run cs cp).sessions)
unfolding run
run-Follows [] id cp s spare h = record {
  session = s;
  is_there = h;
  same_task = refl;
  same_description = refl;
  same_agent = refl;
  same_birth = refl;
  reached = here;
}
run-Follows (c ∷ cs) id cp s spare h =
    let f = perform-Follows c id cp s spare.0 h in
    Follows-trans f (run-Follows cs id (perform c cp) f.session spare.1 f.is_there)

-- A session that has completed or failed keeps its status, whatever calls are made that do not
-- create it anew.
run-IsTerminal :
    (cs : List (ℕ × Call)) (id : String) (cp : ControlPlane) (s : Session)
    → All (Spares id) cs
    → lookup id cp.sessions ≡ some s
    → IsTerminal s.status
    → Option.map (λ t. t.status) (lookup id (run cs cp).sessions) ≡ some s.status
run-IsTerminal cs id cp s spare h end =
    let f = run-Follows cs id cp s spare h in rw f.is_there (ap some (Reach-terminal end f.reached))
