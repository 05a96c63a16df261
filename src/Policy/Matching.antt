-- ===== src/Policy/Matching.antt =====
-- `Matches` of internal/policy/policy.go: when a policy matches a tool call.
use foreman.Prelude.{
  String, ◌≡◌, ◌↔◌, refl, Bool, true, some, [], ◌∷◌, All, arith, inl, inr, Option-cases, some,
}
use foreman.Prelude.Dict.{Dict, lookup}
use foreman.Policy.{Policy, matches, matches_inputs}

-- The call has the field, and its text passes the test.
pub record Passes (inputs : Dict String) (test : String × (String → Bool)) : Type 0 where
  pub value : String
  pub is_there : lookup test.0 inputs ≡ some value
  pub passes : test.1 value ≡ true

sound :
    (rs : Dict (String → Bool)) (inputs : Dict String)
    → matches_inputs rs inputs ≡ true
    → All (Passes inputs) rs
unfolding matches_inputs
sound [] inputs h = tt
sound ((field, re) ∷ rs) inputs h = elim (Option-cases (lookup field inputs)) [
  | inl e ↦ absurd (ground arith)
  | inr (v, e) ↦
      (record { value = v; is_there = e; passes = ground arith }, sound rs inputs (ground arith))
]

complete :
    (rs : Dict (String → Bool)) (inputs : Dict String)
    → All (Passes inputs) rs
    → matches_inputs rs inputs ≡ true
unfolding matches_inputs
complete [] inputs h = refl
complete ((field, re) ∷ rs) inputs h =
    let p = h.0 in
    let there = p.is_there in let good = p.passes in ground (arith, complete rs inputs h.1)

-- A policy matches a call exactly when its glob takes the tool and each of its tests finds its field
-- in the call and passes on it.
matches_iff :
    (p : Policy) (tool : String) (inputs : Dict String)
    → (matches p tool inputs ≡ true)
      ↔ ((p.tool_glob tool ≡ true) × All (Passes inputs) p.input_regex)
unfolding matches
matches_iff p tool inputs = (
  λ h. (ground arith, sound p.input_regex inputs (ground arith)),
  λ h. let takes = h.0 in ground (arith, complete p.input_regex inputs h.1),
)
