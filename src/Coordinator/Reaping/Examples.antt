-- ===== src/Coordinator/Reaping/Examples.antt =====
-- The theorem about the reaping in internal/coordinator/coordinator.go at one session.
use foreman.Prelude.{◌≡◌, refl, true, some, [], ◌∷◌, ok}
use foreman.Coordinator.Reaping.{reap_orphaned_containers, removed}

-- The session is among the active ones, and its container is removed all the same.
reap_test :
    reap_orphaned_containers ("ses_t1" ∷ []) true (
      ok (
        record { id = "0123456789abcdef"; names = "/foreman-sbox-7" ∷ [] }
        ∷ record { id = "fedcba9876543210"; names = "/postgres" ∷ [] }
        ∷ []))
    ≡ some ("0123456789abcdef" ∷ [])
unfolding reap_orphaned_containers removed
reap_test = refl
