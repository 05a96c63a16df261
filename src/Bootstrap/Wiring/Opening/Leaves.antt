-- ===== src/Bootstrap/Wiring/Opening/Leaves.antt =====
-- What `Bootstrap` and `Shutdown` of internal/core/builder.go leave open.
use mathlib.Core.List.{append_assoc, append-nil}
use foreman.Prelude.{
  String, Bool, true, false, ◌≡◌, refl, sym, ap, subst, ◌∙◌, List, [], ◌∷◌, ◌++◌, Result, ok, err,
  Error, wrap, concat, map, All,
}
use foreman.Bootstrap.Wiring.Opening.{
  Open, nothing, Steps, fail, step, subscribe_all, start_plugins, open_server, bootstrap,
}

abbrev pub names : List (String × Result (Unit {0})) → List String
names plugins = map (λ (p : String × Result (Unit {0})). p.0) plugins

-- After an error the bus and the store are closed; else they are open, a store where there is one, and
-- the plugins and subjects are the given ones.
abbrev pub Leaves : Result Bool → List String → List String → Result (Unit {0}) × Open → Type 0
Leaves store plugins subjects (err e, o) = (o.bus ≡ false) × (o.store ≡ false)
Leaves store plugins subjects (ok _, o) =
    (o.bus ≡ true) × (store ≡ ok o.store) × (o.plugins ≡ plugins) × (o.subjects ≡ subjects)

subscribe_all-Leaves :
    (store : Result Bool) (plugins : List String) (subjects : List (String × Result (Unit {0})))
    (o : Open)
    → o.bus ≡ true
    → store ≡ ok o.store
    → o.plugins ≡ plugins
    → Leaves store plugins (o.subjects ++ names subjects) (subscribe_all subjects o)
unfolding subscribe_all
subscribe_all-Leaves store plugins [] o b s p = (b, s, p, sym (append-nil o.subjects))
subscribe_all-Leaves store plugins ((subject, err e) ∷ subjects) o b s p = (refl, refl)
subscribe_all-Leaves store plugins ((subject, ok _) ∷ subjects) o b s p =
    let o' = record o { subjects = o.subjects ++ subject ∷ [] } in
    subst (λ l. Leaves store plugins l (subscribe_all subjects o'))
      (append_assoc o.subjects (subject ∷ []) (names subjects))
      (subscribe_all-Leaves store plugins subjects o' b s p)

start_plugins-Leaves :
    (store : Result Bool) (plugins : List (String × Result (Unit {0})))
    (subjects : List (String × Result (Unit {0}))) (o : Open)
    → o.bus ≡ true
    → store ≡ ok o.store
    → Leaves store
        (o.plugins ++ names plugins)
        (o.subjects ++ names subjects)
        (start_plugins (subscribe_all subjects) plugins o)
unfolding start_plugins
start_plugins-Leaves store [] subjects o b s =
    subscribe_all-Leaves store (o.plugins ++ []) subjects o b s (sym (append-nil o.plugins))
start_plugins-Leaves store ((name, err e) ∷ plugins) subjects o b s = (refl, refl)
start_plugins-Leaves store ((name, ok _) ∷ plugins) subjects o b s =
    let o' = record o { plugins = o.plugins ++ name ∷ [] } in
    subst
      (λ l.
        Leaves store l (o.subjects ++ names subjects)
          (start_plugins (subscribe_all subjects) plugins o'))
      (append_assoc o.plugins (name ∷ []) (names plugins))
      (start_plugins-Leaves store plugins subjects o' b s)

-- What is open before the first plugin.
abbrev opened : Bool → Bool → Open
opened has serves = record { bus = true; store = has; server = serves; plugins = []; subjects = [] }

outcomes-Leaves :
    (bus : Result (Unit {0})) (store : Result Bool) (sandbox recovery policies : Result (Unit {0}))
    (server : Result Bool) (start : Result (Unit {0}))
    (plugins subjects : List (String × Result (Unit {0})))
    → Leaves store (names plugins) (names subjects) (
        bootstrap (record {
          bus = bus;
          store = store;
          sandbox = sandbox;
          recovery = recovery;
          policies = policies;
          server = server;
          server_start = start;
          plugins = plugins;
          subjects = subjects;
        }))
unfolding bootstrap open_server
outcomes-Leaves (err e) store sandbox recovery policies server start plugins subjects = (refl, refl)
outcomes-Leaves (ok _) (err e) sandbox recovery policies server start plugins subjects =
    (refl, refl)
outcomes-Leaves (ok _) (ok has) (err e) recovery policies server start plugins subjects =
    (refl, refl)
outcomes-Leaves (ok _) (ok has) (ok _) (err e) policies server start plugins subjects = (refl, refl)
outcomes-Leaves (ok _) (ok has) (ok _) (ok _) (err e) server start plugins subjects = (refl, refl)
outcomes-Leaves (ok _) (ok has) (ok _) (ok _) (ok _) (err e) start plugins subjects = (refl, refl)
outcomes-Leaves (ok _) (ok has) (ok _) (ok _) (ok _) (ok false) start plugins subjects =
    start_plugins-Leaves (ok has) plugins subjects (opened has false) refl refl
outcomes-Leaves (ok _) (ok has) (ok _) (ok _) (ok _) (ok true) (err e) plugins subjects =
    (refl, refl)
outcomes-Leaves (ok _) (ok has) (ok _) (ok _) (ok _) (ok true) (ok _) plugins subjects =
    start_plugins-Leaves (ok has) plugins subjects (opened has true) refl refl

-- Whatever its steps answer, where the bootstrap fails the bus and the store are closed, and where
-- it succeeds the bus is open, the store is where there is one, and the plugins that are started and
-- the subjects that are subscribed to are all the given ones, in order.
bootstrap-Leaves : (s : Steps) → Leaves s.store (names s.plugins) (names s.subjects) (bootstrap s)
bootstrap-Leaves s =
    outcomes-Leaves s.bus s.store s.sandbox s.recovery s.policies s.server s.server_start s.plugins
      s.subjects

-- Plugins that all start.
abbrev pub AllStart : List (String × Result (Unit {0})) → Type 0
AllStart plugins = All (λ (p : String × Result (Unit {0})). p.1 ≡ ok tt) plugins

start_plugins-fails :
    (next : Open → Result (Unit {0}) × Open) (started : List (String × Result (Unit {0})))
    (name : String) (e : Error) (rest : List (String × Result (Unit {0}))) (o : Open)
    → AllStart started
    → start_plugins next (started ++ (name, err e) ∷ rest) o
      ≡ fail
          (wrap (concat "plugin " (concat name ": start")) e)
          (record o { plugins = o.plugins ++ names started })
unfolding start_plugins
start_plugins-fails next [] name e rest o all = rw append-nil refl
start_plugins-fails next ((first, outcome) ∷ started) name e rest o all =
    let o' = record o { plugins = o.plugins ++ first ∷ [] } in
    ap
      (λ r.
        step (concat "plugin " (concat first ": start")) r
          (λ u (p : Open). record p { plugins = p.plugins ++ first ∷ [] })
          (start_plugins next (started ++ (name, err e) ∷ rest)) o)
      all.0
    ∙ start_plugins-fails next started name e rest o' all.1
    ∙ ap (λ l. fail (wrap (concat "plugin " (concat name ": start")) e) (record o { plugins = l }))
        (append_assoc o.plugins (first ∷ []) (names started))

-- Where all steps succeed up to a plugin that does not start, the bootstrap fails with the error of
-- that plugin, and the server, if there is one, and the plugins before it stay open.
pub bootstrap_leaks :
    (has serves : Bool) (started : List (String × Result (Unit {0}))) (name : String) (e : Error)
    (rest subjects : List (String × Result (Unit {0})))
    → AllStart started
    → bootstrap (record {
      bus = ok tt;
      store = ok has;
      sandbox = ok tt;
      recovery = ok tt;
      policies = ok tt;
      server = ok serves;
      server_start = ok tt;
      plugins = started ++ (name, err e) ∷ rest;
      subjects = subjects;
    })
      ≡ (
        err (wrap (concat "plugin " (concat name ": start")) e),
        record nothing { server = serves; plugins = names started },
      )
unfolding bootstrap open_server
bootstrap_leaks has true started name e rest subjects all =
    start_plugins-fails (subscribe_all subjects) started name e rest (opened has true) all
bootstrap_leaks has false started name e rest subjects all =
    start_plugins-fails (subscribe_all subjects) started name e rest (opened has false) all
