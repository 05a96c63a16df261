-- ===== src/Plugins/Command/Reading.antt =====
-- The agent prefix of a command: which texts have one, and what becomes of the others.
use foreman.Prelude.{
  ◌<◌, String, true, false, Option, none, some, ◌≡◌, ◌⊎◌, inl, inr, refl, ap, ap₂, concat, arith,
  str_eq, eq_iff, ltb, ◌==◌, Bool-cases, Option-cases, ◌≢◌, ◌∙◌, sym, subst,
}
use Prim.Native.Char.{Char, code}
use text.Mathlib.TextLemmas.{cons-append, nil-append}
use text.Mathlib.TextEquality.{Char-path}
use foreman.Prelude.Text.{trim_space}
use foreman.Plugins.Command.{
  byte_length, cut_at, after_char, known_agent, passes, chosen, read_command,
}

-- No character of the text is a colon.
abbrev pub NoColon : String → Type 0
NoColon String.[] = Unit
NoColon (String.◌∷◌ c s) = (code c ≢ 58) × NoColon s

abbrev pub joined : String → String → String
joined before after = concat before (concat ":" after)

-- The text is a prefix of fewer than 20 bytes without a colon, a colon and more; the prefix is the
-- agent's name but for spaces around it, and the rest is what follows but for such spaces.
pub record Prefixed (text rest agent : String) : Type 0 where
  pub before : String
  pub after : String
  pub whole : text ≡ concat before (concat ":" after)
  pub first : NoColon before
  pub short : byte_length before < 20
  pub named : trim_space before ≡ agent
  pub known : (agent ≡ "opencode") ⊎ (agent ≡ "exec")
  pub trimmed : trim_space after ≡ rest

joined-cons :
    (c : Char) (before after : String)
    → joined (String.◌∷◌ c before) after ≡ String.◌∷◌ c (joined before after)
joined-cons c before after = cons-append c before (concat ":" after)

joined-nil : (after : String) → joined "" after ≡ String.◌∷◌ ":" after
joined-nil after =
    nil-append (concat ":" after)
    ∙ (cons-append ":" "" after ∙ ap (String.◌∷◌ ":") (nil-append after))

-- A cut is a text of the first part, a colon and the second.
abbrev Cut : String → Option (String × String) → Type 0
Cut s none = Unit
Cut s (some (before, after)) = (s ≡ joined before after) × NoColon before

Cut-after_char :
    (c : Char) (s : String) (cut : Option (String × String))
    → code c ≢ 58
    → Cut s cut
    → Cut (String.◌∷◌ c s) (after_char c cut)
Cut-after_char c s none other h = tt
Cut-after_char c s (some (before, after)) other h =
    (ap (String.◌∷◌ c) h.0 ∙ sym (joined-cons c before after), (other, h.1))

cut_at-Cut : (s : String) → Cut s (cut_at 58 s)
unfolding cut_at
cut_at-Cut String.[] = tt
cut_at-Cut (String.◌∷◌ c s) = elim (Bool-cases (code c == 58)) [
  | inl e ↦
      rw e (ap (λ d. String.◌∷◌ d s) (Char-path c ":" (ground arith)) ∙ sym (joined-nil s), tt)
  | inr e ↦ rw e (Cut-after_char c s (cut_at 58 s) (λ same. absurd (ground arith)) (cut_at-Cut s))
]

pub cut_at-joined :
    (before after : String)
    → NoColon before
    → cut_at 58 (joined before after) ≡ some (before, after)
unfolding cut_at
cut_at-joined String.[] after h = ap (cut_at 58) (joined-nil after)
cut_at-joined (String.◌∷◌ c s) after h =
    ap (cut_at 58) (joined-cons c s after) ∙ ground (arith, cut_at-joined s after h.1)

known_agent_iff : (name : String) → known_agent name ≡ true → (name ≡ "opencode") ⊎ (name ≡ "exec")
known_agent_iff name h = ground (arith, eq_iff name "opencode", eq_iff name "exec")

agent-known_agent :
    (name : String) → (name ≡ "opencode") ⊎ (name ≡ "exec") → known_agent name ≡ true
agent-known_agent name h = ground (arith, eq_iff name "opencode", eq_iff name "exec")

-- An empty prefix has no name.
named-pos :
    (before : String) → known_agent (trim_space before) ≡ true → ltb 0 (byte_length before) ≡ true
unfolding trim_space byte_length
named-pos String.[] h = absurd (ground arith)
named-pos (String.◌∷◌ c s) h = ground arith

Prefixed-reads :
    (text rest agent : String) → Prefixed text rest agent → read_command text ≡ (rest, agent)
unfolding read_command
Prefixed-reads text rest agent p =
    let known : known_agent (trim_space p.before) ≡ true =
      agent-known_agent (trim_space p.before)
        (subst (λ a. (a ≡ "opencode") ⊎ (a ≡ "exec")) (sym p.named) p.known) in
    let pos = named-pos p.before known in
    let test : ltb (byte_length p.before) 20 ≡ true = ground (arith, p.short) in
    ap (λ t. chosen text (cut_at 58 t)) p.whole
    ∙ (ap (chosen text) (cut_at-joined p.before p.after p.first)
        ∙ (rw (pos, test, known) (ap₂ (λ a b. (a, b)) p.trimmed p.named)))

no_name : (agent : String) → agent ≡ "" → ¬ ((agent ≡ "opencode") ⊎ (agent ≡ "exec"))
no_name agent e (inl n) = let differ : false ≡ true = ap (λ s. str_eq s "") (sym n ∙ e) in cc
no_name agent e (inr n) = let differ : false ≡ true = ap (λ s. str_eq s "") (sym n ∙ e) in cc

-- A prefix gives the only result that has an agent.
unprefixed :
    (text : String)
    → read_command text ≡ (text, "")
    → (rest agent : String) → ¬ Prefixed text rest agent
unprefixed text plain rest agent p =
    let same : agent ≡ "" = ap (λ r. r.1) (sym (Prefixed-reads text rest agent p) ∙ plain) in
    no_name agent same p.known

-- A cut that passes the tests is a prefix.
passes-Prefixed :
    (text before after : String)
    → cut_at 58 text ≡ some (before, after)
    → passes before ≡ true
    → Prefixed text (trim_space after) (trim_space before)
passes-Prefixed text before after e y =
    let cut = subst (Cut text) e (cut_at-Cut text) in
    record {
      before = before;
      after = after;
      whole = cut.0;
      first = cut.1;
      short = ground arith;
      named = refl;
      known = known_agent_iff (trim_space before) (ground arith);
      trimmed = refl;
    }

-- A text is read in one of two ways: it is a prefix of fewer than 20 bytes without a colon, a colon
-- and more, where the prefix trimmed is opencode or exec, and then the agent is that name and the
-- rest is what follows, trimmed; or it has no such prefix, and then it stays as it is, with no
-- agent.
pub read_command-Prefixed :
    (text : String)
    → Prefixed text (read_command text).0 (read_command text).1
      ⊎ (((rest agent : String) → ¬ Prefixed text rest agent) × (read_command text ≡ (text, "")))
unfolding read_command
read_command-Prefixed text = elim (Option-cases (cut_at 58 text)) [
  | inl e ↦ let plain = ap (chosen text) e in inr (unprefixed text plain, plain)
  | inr ((before, after), e) ↦ elim (Bool-cases (passes before)) [
    | inl y ↦
        let read : read_command text ≡ (trim_space after, trim_space before) =
          ap (chosen text) e ∙ rw y refl in
        inl (subst (λ r. Prefixed text r.0 r.1) (sym read) (passes-Prefixed text before after e y))
    | inr n ↦
        let plain : read_command text ≡ (text, "") = ap (chosen text) e ∙ rw n refl in
        inr (unprefixed text plain, plain)
  ]
]
