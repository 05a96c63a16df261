-- ===== src/Coordinator/Reaping/Guard.antt =====
-- `ReapOrphanedContainers` of internal/coordinator/coordinator.go, given the identifiers of the sessions
-- that internal/core/builder.go has recovered.
use Prim.Native.Char.{code}
use foreman.Prelude.{
  String, ◌≡◌, refl, sym, ap, ◌∙◌, true, false, Bool-cases, Option, none, some, List, [], ◌∷◌, map,
  Result, ok, err, concat, str_eq, eq_iff, arith, inl, inr, if◌then◌else◌,
}
use text.Mathlib.TextLemmas.{cons-append, head-eq_of_cons-eq}
use foreman.Coordinator.{session_of_task}
use foreman.Coordinator.Reaping.{
  Listed, prefixed_by, removed, for_suffix, for_names, reaped, orphans, active_in,
  reap_orphaned_containers,
}

session_differs :
    (task_id suffix : String)
    → str_eq (session_of_task task_id) (concat "foreman-sbox-" suffix) ≡ false
session_differs task_id suffix =
    elim (Bool-cases (str_eq (session_of_task task_id) (concat "foreman-sbox-" suffix))) [
      | inr e ↦ e
      | inl e ↦
          let codes : code "s" ≡ code "f" = ap code (
            head-eq_of_cons-eq (
              sym (cons-append "s" "es_" task_id)
              ∙ ((eq_iff (session_of_task task_id) (concat "foreman-sbox-" suffix)).0 e
                  ∙ cons-append "f" "oreman-sbox-" suffix))) in
          ground (arith, codes)
    ]

never_active :
    (tasks : List String) (suffix : String)
    → active_in (map session_of_task tasks) (concat "foreman-sbox-" suffix) ≡ false
never_active [] suffix = refl
never_active (task_id ∷ tasks) suffix =
    ground (arith, session_differs task_id suffix, never_active tasks suffix)

module _ (tasks : List String) (id : String) (rest : List String) where
  for_suffix-guard :
      (suffix : Option String)
      → for_suffix (active_in (map session_of_task tasks)) id rest suffix
        ≡ for_suffix (λ name. false) id rest suffix
  for_suffix-guard none = refl
  for_suffix-guard (some suffix) =
      ap (λ b. if b then some rest else removed id rest) (never_active tasks suffix)

  for_names-guard :
      (names : List String)
      → for_names (active_in (map session_of_task tasks)) id rest names
        ≡ for_names (λ name. false) id rest names
  for_names-guard [] = refl
  for_names-guard (name ∷ names) = for_suffix-guard (prefixed_by "/foreman-sbox-" name)

reaped-guard :
    (tasks : List String) (c : Listed) (rest : Option (List String))
    → reaped (active_in (map session_of_task tasks)) c rest ≡ reaped (λ name. false) c rest
reaped-guard tasks c none = refl
reaped-guard tasks c (some rest) = for_names-guard tasks c.id rest c.names

orphans-guard :
    (tasks : List String) (containers : List Listed)
    → orphans (active_in (map session_of_task tasks)) containers
      ≡ orphans (λ name. false) containers
unfolding orphans
orphans-guard tasks [] = refl
orphans-guard tasks (c ∷ containers) =
    reaped-guard tasks c (orphans (active_in (map session_of_task tasks)) containers)
    ∙ ap (reaped (λ name. false) c) (orphans-guard tasks containers)

-- Whatever containers there are, what is reaped does not depend on the recovered sessions: the guard
-- compares the names of sandboxes with the identifiers of sessions, which are never equal.
reap_orphaned_containers_unguarded :
    (tasks : List String) (list : Result (List Listed))
    → reap_orphaned_containers (map session_of_task tasks) true list
      ≡ reap_orphaned_containers [] true list
unfolding reap_orphaned_containers
reap_orphaned_containers_unguarded tasks (err e) = refl
reap_orphaned_containers_unguarded tasks (ok containers) =
    orphans-guard tasks containers ∙ sym (orphans-guard [] containers)
