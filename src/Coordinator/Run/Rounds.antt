-- ===== src/Coordinator/Run/Rounds.antt =====
-- `runAgent` and `handleCrash` of internal/coordinator/coordinator.go: the runs of a session, one after
-- the other.
use foreman.Prelude.{
  ℕ, zero, suc, ◌≢◌, ◌+◌, ◌≤◌, String, ◌≡◌, refl, none, some, List, [], ◌∷◌, arith, inl, inr,
  Option-cases, List-cases, eq_refl,
}
use foreman.Prelude.Dict.{Dict, lookup-insert}
use foreman.Coordinator.{Config, Coordinator, Spawn}
use foreman.Coordinator.Run.Finish.{World}
use foreman.Coordinator.Run.{run_agent, attempt_of}
use foreman.Coordinator.Run.Retries.{Change, same, gives_up, again, respawn, run_agent-Retries}

-- How the runs of one session end: the last one returns, one panics, or the fuel is used up.
pub data Chain : Type 0 where
  ends : Coordinator → Chain
  panics : Chain
  goes_on : Chain

-- A run, and the retries that come of it, each in a world of its own.
unfoldable pub chain : ℕ → Config → (ℕ → World) → Spawn → Coordinator → Chain
chain zero cfg worlds s c = goes_on
chain (suc n) cfg worlds s c =
    elim (run_agent cfg (worlds n) s.session_id s.description s.agent (record c { spawned = [] })) [
      | none ↦ panics
      | some c' ↦ elim c'.spawned [ [] ↦ ends c' | s' ∷ _ ↦ chain n cfg worlds s' c' ]
    ]

-- The goroutine that a run starts is the session's next attempt, within the limit.
next_attempt :
    (cfg : Config) (sid : String) (t : Spawn) (tries tries' : Dict ℕ) (s : Spawn)
    (rest ss' : List Spawn)
    → t.session_id ≡ sid
    → Change cfg sid t [] tries ss' tries'
    → ss' ≡ s ∷ rest
    → (attempt_of sid tries + 1 ≤ cfg.max_retries)
      × (attempt_of s.session_id tries' ≡ attempt_of sid tries + 1)
unfolding attempt_of
next_attempt cfg sid t tries tries' s rest ss' named (same e f) h = absurd (ground arith)
next_attempt cfg sid t tries tries' s rest ss' named (gives_up e f) h = absurd (ground arith)
next_attempt cfg sid t tries tries' s rest ss' named (again within e f) h =
    let is : s ≡ t = ground arith in
    (within, rw (f, is, named) (rw (lookup-insert, eq_refl, attempt_of) refl))

-- The runs of a session come to an end, whatever the worlds are: with at least one run of fuel, and
-- as many as the limit of retries leaves after the attempts so far, the fuel is not used up.
pub chain_ends :
    (n : ℕ) (cfg : Config) (worlds : ℕ → World) (s : Spawn) (c : Coordinator)
    → cfg.max_retries + 1 ≤ n + attempt_of s.session_id c.attempts
    → 1 ≤ n
    → chain n cfg worlds s c ≢ goes_on
unfolding chain
chain_ends zero cfg worlds s c enough pos = absurd (omega (arith, pos))
chain_ends (suc n) cfg worlds s c enough pos =
    let fresh = record c { spawned = [] } in
    let ran = run_agent cfg (worlds n) s.session_id s.description s.agent fresh in
    elim (Option-cases ran) [
      | inl e ↦ rw (e, chain) (λ h. ground arith)
      | inr (c', e) ↦
          rw (e, chain)
            (elim (List-cases c'.spawned) [
              | inl f ↦ rw f (λ h. ground arith)
              | inr (s', rest, f) ↦
                  let change =
                    (run_agent-Retries cfg (worlds n) s.session_id s.description s.agent fresh c'
                      e).0 in
                  let (within, counted) =
                    next_attempt cfg s.session_id (respawn s.session_id s.description c') c.attempts
                      c'.attempts s' rest c'.spawned refl change f in
                  rw f (
                    chain_ends n cfg worlds s' c' (omega (arith, enough, within, counted))
                      (omega (arith, enough, within)))
            ])
    ]
