-- ===== src/Sandbox/Hosts/Order.antt =====
-- The order in which `ResolveHost` of internal/sandbox/docker.go takes what it is told.
use foreman.Prelude.{
  String, Bool, ◌≡◌, refl, inl, inr, Bool-cases, Option, none, some, Option-cases, List, [], ◌∷◌,
  ◌++◌, Result, ok, err, if◌then◌else◌, ap, ap₂, ◌∙◌, sym,
}
use foreman.Sandbox.Gateway.{Ipv4, default_gateway}
use foreman.Sandbox.Hosts.{
  Runtime, Listed, inspect_ip, find_ip, listed_ip, resolve_host, has_name, has_label, dns_answer,
  or_else,
}

abbrev pub first_some : List (Option String) → Option String
first_some [] = none
first_some (none ∷ rest) = first_some rest
first_some (some ip ∷ rest) = some ip

-- What is inspected of the containers that a test picks.
abbrev pub picked : Runtime → (Listed → Bool) → List Listed → List (Option String)
picked rt test [] = []
picked rt test (c ∷ containers) =
    if test c then inspect_ip rt c.id ∷ picked rt test containers else picked rt test containers

abbrev pub by_list : Runtime → String → Result (List Listed) → List (Option String)
by_list rt hostname (err e) = []
by_list rt hostname (ok containers) =
    picked rt (has_name hostname) containers ++ picked rt (has_label hostname) containers

abbrev by_gateway : Runtime → Result Ipv4 → Option String
by_gateway rt (err e) = none
by_gateway rt (ok ip) = some (rt.show_ip ip)

-- Every address that the daemon and the machine know of, before the resolver is asked.
abbrev pub candidates : Runtime → String → List (Option String)
candidates rt hostname =
    inspect_ip rt hostname ∷ by_list rt hostname rt.list
    ++ (by_gateway rt (default_gateway rt.route_table) ∷ [])

abbrev pub or_resolver : Runtime → String → Option String → Result String
or_resolver rt hostname (some ip) = ok ip
or_resolver rt hostname none = dns_answer hostname (rt.lookup_host hostname)

first_some-append :
    (xs ys : List (Option String)) → first_some (xs ++ ys) ≡ or_else (first_some xs) (first_some ys)
first_some-append [] ys = refl
first_some-append (none ∷ xs) ys = first_some-append xs ys
first_some-append (some ip ∷ xs) ys = refl

first_some-cons :
    (x : Option String) (xs : List (Option String))
    → first_some (x ∷ xs) ≡ or_else x (first_some xs)
first_some-cons none xs = refl
first_some-cons (some ip) xs = refl

find_ip-picked :
    (rt : Runtime) (test : Listed → Bool) (containers : List Listed)
    → find_ip rt test containers ≡ first_some (picked rt test containers)
unfolding find_ip
find_ip-picked rt test [] = refl
find_ip-picked rt test (c ∷ containers) = elim (Bool-cases (test c)) [
  | inl e ↦
      rw (e, find_ip)
        (ap (or_else (inspect_ip rt c.id)) (find_ip-picked rt test containers)
          ∙ sym (first_some-cons (inspect_ip rt c.id) (picked rt test containers)))
  | inr e ↦ rw (e, find_ip) (find_ip-picked rt test containers)
]

module _ (rt : Runtime) (hostname : String) where
  by_list-first :
      (listed : Result (List Listed))
      → rt.list ≡ listed
      → listed_ip rt hostname ≡ first_some (by_list rt hostname listed)
  unfolding listed_ip
  by_list-first (err e) h = rw (h, listed_ip) refl
  by_list-first (ok containers) h =
      rw (h, listed_ip)
        (ap₂ or_else (find_ip-picked rt (has_name hostname) containers)
            (find_ip-picked rt (has_label hostname) containers)
          ∙ sym (
              first_some-append (picked rt (has_name hostname) containers)
                (picked rt (has_label hostname) containers)))

  gateway-first :
      (found : Result Ipv4)
      → default_gateway rt.route_table ≡ found
      → inspect_ip rt hostname ≡ none
      → listed_ip rt hostname ≡ none
      → resolve_host rt hostname ≡ or_resolver rt hostname (by_gateway rt found)
  unfolding resolve_host
  gateway-first (ok ip) h e f = rw (e, f, h, resolve_host) refl
  gateway-first (err x) h e f = rw (e, f, h, resolve_host) refl

  or_else-first :
      resolve_host rt hostname
      ≡ or_resolver rt hostname (
          or_else
            (inspect_ip rt hostname)
            (or_else (listed_ip rt hostname) (by_gateway rt (default_gateway rt.route_table))))
  unfolding resolve_host
  or_else-first = elim (Option-cases (inspect_ip rt hostname)) [
    | inr (ip, e) ↦ rw (e, resolve_host) refl
    | inl e ↦ elim (Option-cases (listed_ip rt hostname)) [
      | inr (ip, f) ↦ rw (e, f, resolve_host) refl
      | inl f ↦ rw (e, f) (gateway-first (default_gateway rt.route_table) refl e f)
    ]
  ]

  -- The answer is the first address among the inspection of the name, those of the listed containers
  -- of that name, those of the listed containers with that compose label, and the default gateway;
  -- the resolver is asked only where none of these gives one.
  resolve_host-candidates :
      resolve_host rt hostname ≡ or_resolver rt hostname (first_some (candidates rt hostname))
  resolve_host-candidates = or_else-first ∙ ap (or_resolver rt hostname) (sym all_first)
    where
      last :
          first_some (by_gateway rt (default_gateway rt.route_table) ∷ [])
          ≡ by_gateway rt (default_gateway rt.route_table)
      last = elim (Option-cases (by_gateway rt (default_gateway rt.route_table))) [
        | inl e ↦ rw e refl
        | inr (ip, e) ↦ rw e refl
      ]

      all_first :
          first_some (candidates rt hostname)
          ≡ or_else
              (inspect_ip rt hostname)
              (or_else (listed_ip rt hostname) (by_gateway rt (default_gateway rt.route_table)))
      all_first =
          first_some-cons (inspect_ip rt hostname)
            (by_list rt hostname rt.list ++ (by_gateway rt (default_gateway rt.route_table) ∷ []))
          ∙ ap (or_else (inspect_ip rt hostname)) (
              first_some-append (by_list rt hostname rt.list)
                (by_gateway rt (default_gateway rt.route_table) ∷ [])
              ∙ ap₂ or_else (sym (by_list-first rt.list refl)) last)
