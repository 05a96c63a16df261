-- ===== src/ControlPlane/SyncRun.antt =====
-- Sequences of calls of internal/controlplane/session.go, and the rows of the sessions in the store.

use foreman.Prelude.{ℕ, String, ◌≡◌, List, [], ◌∷◌}
use foreman.Prelude.Dict.{lookup}
use foreman.ControlPlane.{ControlPlane, recover}
use foreman.ControlPlane.Lifecycle.{Call, creates, transitions, checkpoints, perform, run}
use foreman.ControlPlane.Recovery.{
  Keeps, InSync, recover-InSync, unfinished, restarted, lookup-recover,
}
use foreman.ControlPlane.Sync.{transition-InSync}
use foreman.ControlPlane.SyncCreate.{create_session-InSync}
use foreman.ControlPlane.SyncCheckpoint.{save_checkpoint-InSync}

perform-InSync :
    {times : ℕ → ℕ} (c : ℕ × Call) (cp : ControlPlane)
    → InSync times cp
    → InSync times (perform c cp)
unfolding perform
perform-InSync (now, creates id t d a) cp sync = create_session-InSync now id t d a cp sync
perform-InSync (now, transitions id to) cp sync = transition-InSync now id to cp sync
perform-InSync (now, checkpoints id snapshot) cp sync =
    save_checkpoint-InSync now id snapshot cp sync

-- Where the store is up and memory and store agree about every session, but for its agent and its
-- checkpoint and as far as a TIMESTAMPTZ keeps its times, they agree so after any sequence of calls
-- of CreateSession, Transition and SaveCheckpoint.
run-InSync :
    {times : ℕ → ℕ} (cs : List (ℕ × Call)) (cp : ControlPlane)
    → InSync times cp
    → InSync times (run cs cp)
unfolding run
run-InSync [] cp sync = sync
run-InSync (c ∷ cs) cp sync = run-InSync cs (perform c cp) (perform-InSync c cp sync)

-- A call that changes sessions, or Recover.
pub data Move : Type 0 where
  calls : ℕ × Call → Move
  recovers : Move

unfoldable pub move : Move → ControlPlane → ControlPlane
move (calls c) cp = perform c cp
move recovers cp = (recover cp).1

unfoldable pub run_moves : List Move → ControlPlane → ControlPlane
run_moves [] cp = cp
run_moves (m ∷ ms) cp = run_moves ms (move m cp)

move-InSync :
    (times : ℕ → ℕ) (m : Move) (cp : ControlPlane)
    → Keeps times
    → InSync times cp
    → InSync times (move m cp)
unfolding move
move-InSync times (calls c) cp keeps sync = perform-InSync c cp sync
move-InSync times recovers cp keeps sync = recover-InSync times cp keeps sync

-- Where the store is up, a TIMESTAMPTZ that is written back unchanged keeps its value, and memory
-- and store agree about every session, but for its agent and its checkpoint and as far as a
-- TIMESTAMPTZ keeps its times, they agree so after any sequence of calls of CreateSession,
-- Transition, SaveCheckpoint and Recover.
pub run_moves-InSync :
    (times : ℕ → ℕ) (ms : List Move) (cp : ControlPlane)
    → Keeps times
    → InSync times cp
    → InSync times (run_moves ms cp)
unfolding run_moves
run_moves-InSync times [] cp keeps sync = sync
run_moves-InSync times (m ∷ ms) cp keeps sync =
    run_moves-InSync times ms (move m cp) keeps (move-InSync times m cp keeps sync)

-- Where the store is up and memory and store agree at first, but for agents and checkpoints and as
-- far as a TIMESTAMPTZ keeps times, recovery after any calls of CreateSession, Transition and
-- SaveCheckpoint and a restart has exactly the unfinished sessions, each as it was but for its agent
-- and its checkpoint, which are lost, and for its times, which are those that the columns keep.
pub lookup-recover-run :
    {times : ℕ → ℕ} (cs : List (ℕ × Call)) (cp : ControlPlane) (id : String)
    → InSync times cp
    → lookup id (recover (restarted (run cs cp))).1.sessions
      ≡ unfinished times (lookup id (run cs cp).sessions)
lookup-recover-run {times} cs cp id sync =
    lookup-recover times (run cs cp) id (run-InSync cs cp sync)
