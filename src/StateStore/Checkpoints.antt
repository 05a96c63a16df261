-- ===== src/StateStore/Checkpoints.antt =====
-- `SaveCheckpoint` and `LastCheckpoint` of internal/statestore/postgres.go, one after the other.
use foreman.Prelude.{
  ℕ, ◌<◌, ◌≤◌, String, ◌≡◌, subst, true, some, List, [], ◌∷◌, ok, All, arith, inl, inr, Bool-cases,
  Option-cases, str_eq, eq_refl, ltb, ◌==◌, ◌||◌, ◌&&◌,
}
use foreman.StateStore.{
  Db, Checkpoint, Metadata, has_row, latest, save_checkpoint, last_checkpoint, query,
}

-- The checkpoint is older than the number to come, and its step is not after the given one.
abbrev pub IsBefore : ℕ → ℕ → Checkpoint → Type 0
IsBefore next step c = (c.id < next) × (c.step_number ≤ step)

latest-IsBefore :
    (next step : ℕ) (id : String) (cs : List Checkpoint) (d : Checkpoint)
    → All (IsBefore next step) cs
    → latest id cs ≡ some d
    → IsBefore next step d
unfolding latest
latest-IsBefore next step id [] d h e = absurd (ground arith)
latest-IsBefore next step id (c ∷ cs) d h e = elim (Bool-cases (str_eq c.session_id id)) [
  | inr other ↦ latest-IsBefore next step id cs d h.1 (ground arith)
  | inl own ↦ elim (Option-cases (latest id cs)) [
    | inl f ↦ (let is : c ≡ d = ground arith in subst (IsBefore next step) is h.0)
    | inr (b, f) ↦
        elim (Bool-cases
          (ltb c.step_number b.step_number || (c.step_number == b.step_number && ltb c.id b.id))) [
            | inl g ↦
                (let is : b ≡ d = ground arith in
                  subst (IsBefore next step) is (latest-IsBefore next step id cs b h.1 f))
            | inr g ↦ (let is : c ≡ d = ground arith in subst (IsBefore next step) is h.0)
          ]
  ]
]

-- Where the pool is up, the session has a row, and every checkpoint has a number below the next one
-- and a step not after the given one, SaveCheckpoint succeeds with the next number, and
-- LastCheckpoint then gives the checkpoint with that number, the session, the step, the snapshot as
-- a JSONB keeps it and the time as a TIMESTAMPTZ keeps it.
pub last_checkpoint-save_checkpoint :
    (id : String) (snapshot : Metadata) (step at : ℕ) (db : Db)
    → db.pool ≡ []
    → has_row id db.sessions ≡ true
    → All (IsBefore db.next_checkpoint step) db.checkpoints
    → let saved = save_checkpoint id snapshot step at db in
      (saved.0 ≡ ok db.next_checkpoint)
      × ((last_checkpoint id saved.1).0
          ≡ ok (
              some (record {
                id = db.next_checkpoint;
                session_id = id;
                snapshot = db.jsonb snapshot;
                step_number = step;
                created_at = db.timestamptz at;
              })))
unfolding save_checkpoint last_checkpoint query latest
last_checkpoint-save_checkpoint id snapshot step at db up there before =
    elim (Option-cases (latest id db.checkpoints)) [
      | inl e ↦ (ground arith, ground (arith, eq_refl id))
      | inr (d, e) ↦ (
        ground arith,
        (let older = latest-IsBefore db.next_checkpoint step id db.checkpoints d before e in
            ground (arith, eq_refl id)),
      )
    ]
