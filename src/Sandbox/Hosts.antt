-- ===== src/Sandbox/Hosts.antt =====
-- `ResolveHost` of internal/sandbox/docker.go. What the daemon, the machine and the resolver answer
-- during one call is a record; the networks of a container stand in the order that the map is ranged.
pub mod Order
use Prim.Native.Char.{Char, code}
use foreman.Prelude.{
  String, Bool, false, ◌||◌, Option, none, some, List, [], ◌∷◌, Result, ok, err, Error, wrap,
  message, concat, str_eq, any, ◌==◌, if◌then◌else◌,
}
use foreman.Prelude.Dict.{Dict, lookup}
use foreman.Sandbox.Gateway.{Ipv4, default_gateway}

pub record Listed : Type 0 where
  pub id : String
  pub names : List String
  pub labels : Dict String

-- `inspect` gives `none` where the base or the network settings are nil.
pub record Runtime : Type 0 where
  pub inspect : String → Result (Option (List (String × String)))
  pub list : Result (List Listed)
  pub route_table : Result String
  pub show_ip : Ipv4 → String
  pub lookup_host : String → Result (List String)

unfoldable pub first_ip : List (String × String) → Option String
first_ip [] = none
first_ip ((network, ip) ∷ networks) =
    let rest = first_ip networks in if str_eq ip "" then rest else some ip

abbrev ip_in : Result (Option (List (String × String))) → Option String
ip_in (err e) = none
ip_in (ok none) = none
ip_in (ok (some networks)) = first_ip networks

-- `strings.TrimPrefix(name, "/")`
unfoldable pub without_slash : String → String
without_slash String.[] = String.[]
without_slash (String.◌∷◌ c s) = if code c == 47 then s else String.◌∷◌ c s

abbrev pub has_name : String → Listed → Bool
has_name hostname c = any (λ name. str_eq (without_slash name) hostname) c.names

abbrev is_some_text : String → Option String → Bool
is_some_text t none = false
is_some_text t (some u) = str_eq u t

abbrev pub has_label : String → Listed → Bool
has_label hostname c = is_some_text hostname (lookup "com.docker.compose.service" c.labels)

abbrev pub dns_answer : String → Result (List String) → Result String
dns_answer hostname (err e) = err (wrap (concat "resolve " hostname) e)
dns_answer hostname (ok []) = err (message (concat "resolve " hostname))
dns_answer hostname (ok (ip ∷ ips)) = ok ip

abbrev pub or_else : Option String → Option String → Option String
or_else none rest = rest
or_else (some ip) rest = some ip

module _ (rt : Runtime) where
  unfoldable pub inspect_ip : String → Option String
  unfolding first_ip
  inspect_ip name = ip_in (rt.inspect name)

  -- The loop over the containers, of one of the two tests.
  unfoldable pub find_ip : (Listed → Bool) → List Listed → Option String
  unfolding inspect_ip
  find_ip test [] = none
  find_ip test (c ∷ containers) =
      let rest = find_ip test containers in if test c then or_else (inspect_ip c.id) rest else rest

  unfoldable pub listed_ip : String → Option String
  unfolding find_ip without_slash
  listed_ip hostname = elim rt.list [
    | err e ↦ none
    | ok containers ↦
        or_else (find_ip (has_name hostname) containers) (find_ip (has_label hostname) containers)
  ]

  unfoldable pub resolve_host : String → Result String
  unfolding inspect_ip listed_ip default_gateway
  resolve_host hostname = elim (inspect_ip hostname) [
    | some ip ↦ ok ip
    | none ↦ elim (listed_ip hostname) [
      | some ip ↦ ok ip
      | none ↦ elim (default_gateway rt.route_table) [
        | ok ip ↦ ok (rt.show_ip ip)
        | err e ↦ dns_answer hostname (rt.lookup_host hostname)
      ]
    ]
  ]
