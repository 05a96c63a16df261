-- ===== src/Policy/Compiling.antt =====
-- `CompileConfigs` of internal/policy/policy.go: what compilation keeps of the configuration.
use foreman.Prelude.{
  String, ◌≡◌, ◌↔◌, refl, ap₂, Bool, Option, some, List, [], ◌∷◌, map, All, arith, inl, inr,
  Option-cases, Result-cases, ok,
}
use foreman.Prelude.Dict.{Dict}
use foreman.Policy.{Policy, Config, compile_configs, compile_config, compile_inputs, compile_glob}

module _ (glob : String → String → Bool) (compile_regex : String → Option (String → Bool)) where
  -- A pattern with its test.
  abbrev Compiles : String × String → Type 0
  Compiles (field, pattern) = (re : String → Bool) × (compile_regex pattern ≡ some re)

  -- Every pattern of the configuration is one that the compiler takes.
  abbrev pub IsSound : Config → Type 0
  IsSound c = All Compiles c.match.inputs

  compile_inputs_total :
      (name : String) (inputs : Dict String)
      → All Compiles inputs
      → (rs : Dict (String → Bool)) × (compile_inputs glob compile_regex name inputs ≡ ok rs)
  unfolding compile_inputs
  compile_inputs_total name [] h = ([], refl)
  compile_inputs_total name ((field, pattern) ∷ inputs) h =
      let (re, e) = h.0 in
      let (rs, f) = compile_inputs_total name inputs h.1 in ((field, re) ∷ rs, ground arith)

  compile_inputs_sound :
      (name : String) (inputs : Dict String) (rs : Dict (String → Bool))
      → compile_inputs glob compile_regex name inputs ≡ ok rs
      → All Compiles inputs
  unfolding compile_inputs
  compile_inputs_sound name [] rs h = tt
  compile_inputs_sound name ((field, pattern) ∷ inputs) rs h =
      elim (Option-cases (compile_regex pattern)) [
        | inl e ↦ absurd (ground arith)
        | inr (re, e) ↦ elim (Result-cases (compile_inputs glob compile_regex name inputs)) [
          | inl (qs, f) ↦ ((re, e), compile_inputs_sound name inputs qs f)
          | inr (x, f) ↦ absurd (ground arith)
        ]
      ]

  compile_config_total :
      (c : Config) → IsSound c → (p : Policy) × (compile_config glob compile_regex c ≡ ok p)
  unfolding compile_config
  compile_config_total c h =
      let (rs, e) = compile_inputs_total c.name c.match.inputs h in
      (
        record {
          config = c;
          tool_glob = compile_glob glob compile_regex c.match.tool;
          input_regex = rs;
        },
        rw (e, compile_config) refl,
      )

  compile_config-IsSound :
      (c : Config) (p : Policy)
      → compile_config glob compile_regex c ≡ ok p
      → IsSound c × (p.config ≡ c)
  unfolding compile_config
  compile_config-IsSound c p h =
      elim (Result-cases (compile_inputs glob compile_regex c.name c.match.inputs)) [
        | inl (rs, e) ↦ (compile_inputs_sound c.name c.match.inputs rs e, ground arith)
        | inr (x, e) ↦ absurd (ground arith)
      ]

  total :
      (cs : List Config)
      → All IsSound cs
      → (ps : List Policy) × (compile_configs glob compile_regex cs ≡ ok ps)
  unfolding compile_configs
  total [] h = ([], refl)
  total (c ∷ cs) h =
      let (p, e) = compile_config_total c h.0 in
      let (ps, f) = total cs h.1 in (p ∷ ps, rw (e, f) refl)

  -- Where compilation succeeds, every pattern compiles, and the policies have the given
  -- configurations, in their order.
  compile_configs-IsSound :
      (cs : List Config) (ps : List Policy)
      → compile_configs glob compile_regex cs ≡ ok ps
      → All IsSound cs × (map (λ p. p.config) ps ≡ cs)
  unfolding compile_configs
  compile_configs-IsSound [] ps h = (tt, let e : ps ≡ [] = ground arith in rw e refl)
  compile_configs-IsSound (c ∷ cs) ps h =
      elim (Result-cases (compile_config glob compile_regex c)) [
        | inr (x, e) ↦ absurd (ground arith)
        | inl (p, e) ↦ elim (Result-cases (compile_configs glob compile_regex cs)) [
          | inr (x, f) ↦ absurd (ground arith)
          | inl (qs, f) ↦
              let (first, same) = compile_config-IsSound c p e in
              let (rest, sames) = compile_configs-IsSound cs qs f in
              (
                (first, rest),
                let built : ps ≡ p ∷ qs = ground arith in rw built (ap₂ ◌∷◌ same sames),
              )
        ]
      ]

  -- The configurations compile exactly when each of their patterns does.
  compile_configs_iff :
      (cs : List Config)
      → ((ps : List Policy) × (compile_configs glob compile_regex cs ≡ ok ps)) ↔ All IsSound cs
  compile_configs_iff cs = (λ h. (compile_configs-IsSound cs h.0 h.1).0, total cs)
