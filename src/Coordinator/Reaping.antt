-- ===== src/Coordinator/Reaping.antt =====
-- `ReapOrphanedContainers` and `Drain` of internal/coordinator/coordinator.go. The daemon's list of
-- containers is an input, and the containers to remove are the answer.
pub mod Guard
mod Examples
use Prim.Native.Char.{code}
use foreman.Prelude.{
  ℕ, suc, concat, String, Bool, true, false, ◌&&◌, Option, none, some, List, [], ◌∷◌, Result, ok,
  err, str_eq, any, leb, ltb, ◌==◌, if◌then◌else◌,
}
use foreman.Coordinator.{Coordinator, active_count}

pub record Listed : Type 0 where
  pub id : String
  pub names : List String

-- `strings.HasPrefix` with what follows, for `TrimPrefix`.
unfoldable pub prefixed_by : String → String → Option String
prefixed_by String.[] s = some s
prefixed_by (String.◌∷◌ p prefix) String.[] = none
prefixed_by (String.◌∷◌ p prefix) (String.◌∷◌ c s) =
    let rest = prefixed_by prefix s in if code c == code p then rest else none

text_length : String → ℕ
text_length String.[] = 0
text_length (String.◌∷◌ c s) = suc (text_length s)

-- Of a container that is orphaned. `none` is the panic of `ctr.ID[:12]` on a shorter identifier.
unfoldable pub removed : String → List String → Option (List String)
unfolding text_length
removed id rest = if ltb (text_length id) 12 then none else some (id ∷ rest)

abbrev pub for_suffix :
    (String → Bool) → String → List String → Option String → Option (List String)
for_suffix active id rest none = some rest
for_suffix active id rest (some suffix) =
    if active (concat "foreman-sbox-" suffix) then some rest else removed id rest

-- `none` is the panic of a container without a name.
abbrev pub for_names : (String → Bool) → String → List String → List String → Option (List String)
for_names active id rest [] = none
for_names active id rest (name ∷ names) =
    for_suffix active id rest (prefixed_by "/foreman-sbox-" name)

-- The containers after this one are `rest`; what was removed before a panic is not told.
abbrev pub reaped : (String → Bool) → Listed → Option (List String) → Option (List String)
reaped active c none = none
reaped active c (some rest) = for_names active c.id rest c.names

-- The loop over the containers.
unfoldable pub orphans : (String → Bool) → List Listed → Option (List String)
unfolding prefixed_by removed
orphans active [] = some []
orphans active (c ∷ containers) = reaped active c (orphans active containers)

-- `activeSessions[name]`
abbrev pub active_in : List String → String → Bool
active_in sessions name = any (λ id. str_eq id name) sessions

-- What is removed; the second argument says whether the sandbox is that of Docker.
unfoldable pub reap_orphaned_containers :
    List String → Bool → Result (List Listed) → Option (List String)
unfolding orphans
reap_orphaned_containers sessions false list = some []
reap_orphaned_containers sessions true (err e) = some []
reap_orphaned_containers sessions true (ok containers) = orphans (active_in sessions) containers

-- The coordinator as each round sees it before the context is done, and as it is then.
unfoldable pub drain : List Coordinator → Coordinator → ℕ
drain [] last = active_count last
drain (c ∷ rounds) last = let rest = drain rounds last in if active_count c == 0 then 0 else rest
