-- ===== src/Coordinator/Approval/Matches.antt =====
-- `checkPolicies` of internal/coordinator/coordinator.go: which tool calls reach a human.
use mathlib.Core.List.{Memᴰ}
use mathlib.Core.List.Memᴰ
use foreman.Prelude.{
  ◌≡◌, ◌↔◌, ◌⊎◌, ap, sym, subst, true, List, [], ◌∷◌, arith, inl, inr, Bool-cases, str_eq, eq_iff,
}
use foreman.Policy.{Policy, ToolUse, matches}
use foreman.Coordinator.Approval.{MatchResult, matches_of, check_policies}

-- The policy asks for a human, and matches the call.
abbrev pub Asks : MatchResult → Type 0
Asks m =
    (m.policy.action ≡ "require_approval")
    × (matches m.policy m.tool_use.tool m.tool_use.inputs ≡ true)

abbrev pair : Policy → ToolUse → MatchResult
pair p tc = record { policy = p; tool_use = tc }

-- What the inner loop does with one policy.
matches_of-cons :
    (tc : ToolUse) (p : Policy) (ps : List Policy)
    → (Asks (pair p tc) × (matches_of tc (p ∷ ps) ≡ pair p tc ∷ matches_of tc ps))
      ⊎ ((¬ Asks (pair p tc)) × (matches_of tc (p ∷ ps) ≡ matches_of tc ps))
unfolding matches_of
matches_of-cons tc p ps = elim (Bool-cases (str_eq p.action "require_approval")) [
  | inr n ↦
      inr
        (λ asks. let a = asks.0 in ground (arith, eq_iff p.action "require_approval"), ground arith)
  | inl y ↦ elim (Bool-cases (matches p tc.tool tc.inputs)) [
    | inl fits ↦ inl ((ground (arith, eq_iff p.action "require_approval"), fits), ground arith)
    | inr n ↦ inr (λ asks. let a = asks.1 in ground arith, ground arith)
  ]
]

matches_of_sound :
    (tc : ToolUse) (ps : List Policy) (m : MatchResult)
    → Memᴰ m (matches_of tc ps)
    → (m.tool_use ≡ tc) × Memᴰ m.policy ps × Asks m
unfolding matches_of
matches_of_sound tc [] m h = elim h [ ]
matches_of_sound tc (p ∷ ps) m h =
    let further : Memᴰ m (matches_of tc ps) → (m.tool_use ≡ tc) × Memᴰ m.policy (p ∷ ps) × Asks m =
      λ k. let r = matches_of_sound tc ps m k in (r.0, Memᴰ.tail r.1, r.2) in
    elim (matches_of-cons tc p ps) [
      | inr same ↦ further (subst (Memᴰ m) same.1 h)
      | inl more ↦ elim (Memᴰ.cases_cons (subst (Memᴰ m) more.1 h)) [
        | inl e ↦ (
          ap (λ (n : MatchResult). n.tool_use) e,
          Memᴰ.head (ap (λ (n : MatchResult). n.policy) e),
          subst Asks (sym e) more.0,
        )
        | inr k ↦ further k
      ]
    ]

matches_of_complete :
    (tc : ToolUse) (ps : List Policy) (m : MatchResult)
    → m.tool_use ≡ tc
    → Memᴰ m.policy ps
    → Asks m
    → Memᴰ m (matches_of tc ps)
matches_of_complete tc [] m e h asks = elim h [ ]
matches_of_complete tc (p ∷ ps) m e (Memᴰ.head same) asks =
    let is : m ≡ pair p tc = ground arith in
    elim (matches_of-cons tc p ps) [
      | inl more ↦ subst (Memᴰ m) (sym more.1) (Memᴰ.head is)
      | inr less ↦ absurd (less.0 (subst Asks is asks))
    ]
matches_of_complete tc (p ∷ ps) m e (Memᴰ.tail there) asks =
    let below = matches_of_complete tc ps m e there asks in
    elim (matches_of-cons tc p ps) [
      | inl more ↦ subst (Memᴰ m) (sym more.1) (Memᴰ.tail below)
      | inr less ↦ subst (Memᴰ m) (sym less.1) below
    ]

-- checkPolicies gives the pairs of a call and a policy of which the policy asks for approval and
-- matches the call, all of them and no others.
pub check_policies_iff :
    (ps : List Policy) (calls : List ToolUse) (m : MatchResult)
    → Memᴰ m (check_policies ps calls) ↔ (Memᴰ m.tool_use calls × Memᴰ m.policy ps × Asks m)
unfolding check_policies
check_policies_iff ps [] m = (λ h. elim h [ ], λ h. elim h.0 [ ])
check_policies_iff ps (tc ∷ calls) m = (
  λ h. elim (Memᴰ.append_cases (matches_of tc ps) h) [
    | inl here ↦ (let r = matches_of_sound tc ps m here in (Memᴰ.head r.0, r.1, r.2))
    | inr later ↦ (let r = (check_policies_iff ps calls m).0 later in (Memᴰ.tail r.0, r.1, r.2))
  ],
  λ h. elim (Memᴰ.cases_cons h.0) [
    | inl e ↦ Memᴰ.append_left (check_policies ps calls) (matches_of_complete tc ps m e h.1 h.2)
    | inr k ↦ Memᴰ.append_right (matches_of tc ps) ((check_policies_iff ps calls m).1 (k, h.1, h.2))
  ],
)
