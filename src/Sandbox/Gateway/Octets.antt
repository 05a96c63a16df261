-- ===== src/Sandbox/Gateway/Octets.antt =====
-- The addresses of `defaultGateway` in internal/sandbox/docker.go, as bytes of the table's numbers.
use foreman.Prelude.{
  ℕ, ◌+◌, ◌*◌, ◌<◌, String, ◌≡◌, refl, ap, inl, inr, Option-cases, none, some, List, [], ◌∷◌, All,
  Result, ok, err, arith, str_eq, eq_iff, Bool-cases,
}
use mathlib.Core.List.{Memᴰ}
use foreman.Prelude.Text.{split_on, fields}
use foreman.Sandbox.Gateway.{
  parse_uint32, Ipv4, ip_of, gateway_of, find_gateway, default_gateway, tail,
}

-- Four bytes that make up the number, the lowest first.
pub record IsLittleEndian (gw : ℕ) (ip : Ipv4) : Type 0 where
  pub a_byte : ip.a < 256
  pub b_byte : ip.b < 256
  pub c_byte : ip.c < 256
  pub d_byte : ip.d < 256
  pub value : ip.a + 256 * ip.b + 65_536 * ip.c + 16_777_216 * ip.d ≡ gw

parse_uint32-lt : (s : String) (v : ℕ) → parse_uint32 s ≡ some v → v < 4_294_967_296
unfolding parse_uint32
parse_uint32-lt s v h = ground arith

ip_of-IsLittleEndian : (gw : ℕ) → gw < 4_294_967_296 → IsLittleEndian gw (ip_of gw)
unfolding ip_of
ip_of-IsLittleEndian gw h = record {
  a_byte = omega arith;
  b_byte = omega arith;
  c_byte = omega arith;
  d_byte = omega arith;
  value = omega arith;
}

-- A row of the default route: its destination is all zeros, and its gateway is that number.
pub record IsDefaultRoute (row : List String) (gw : ℕ) : Type 0 where
  pub interface : String
  pub gateway : String
  pub others : List String
  pub cells : row ≡ interface ∷ "00000000" ∷ gateway ∷ others
  pub number : parse_uint32 gateway ≡ some gw

gateway_of-IsDefaultRoute :
    (row : List String) (gw : ℕ) → gateway_of row ≡ some gw → IsDefaultRoute row gw
unfolding gateway_of
gateway_of-IsDefaultRoute (interface ∷ destination ∷ gateway ∷ rest) gw h =
    elim (Bool-cases (str_eq destination "00000000")) [
      | inl e ↦ record {
        interface = interface;
        gateway = gateway;
        others = rest;
        cells = ap (λ t. interface ∷ t ∷ gateway ∷ rest) ((eq_iff destination "00000000").0 e);
        number = ground (arith, e);
      }
      | inr e ↦ ground (arith, e)
    ]
gateway_of-IsDefaultRoute [] gw h = ground arith
gateway_of-IsDefaultRoute (a ∷ []) gw h = ground arith
gateway_of-IsDefaultRoute (a ∷ b ∷ []) gw h = ground arith

-- The row that an address was read from, and its bytes.
pub record IsGateway (lines : List String) (ip : Ipv4) : Type 0 where
  pub line : String
  pub gw : ℕ
  pub of_table : Memᴰ line lines
  pub route : IsDefaultRoute (fields line) gw
  pub bytes : IsLittleEndian gw ip

IsGateway-later :
    (line : String) (lines : List String) (ip : Ipv4)
    → IsGateway lines ip
    → IsGateway (line ∷ lines) ip
IsGateway-later line lines ip g = record {
  line = g.line;
  gw = g.gw;
  of_table = Memᴰ.tail g.of_table;
  route = g.route;
  bytes = g.bytes;
}

route_lt : {row : List String} {gw : ℕ} → IsDefaultRoute row gw → gw < 4_294_967_296
route_lt {row} {gw} r = parse_uint32-lt r.gateway gw r.number

-- A refusal says that no line holds a default route with a number for its gateway.
abbrev pub Finds : List String → Result Ipv4 → Type 0
Finds lines (ok ip) = IsGateway lines ip
Finds lines (err e) = All (λ line. gateway_of (fields line) ≡ none) lines

Finds-later :
    (line : String) (lines : List String) (found : Result Ipv4)
    → gateway_of (fields line) ≡ none
    → Finds lines found
    → Finds (line ∷ lines) found
Finds-later line lines (ok ip) e g = IsGateway-later line lines ip g
Finds-later line lines (err x) e g = (e, g)

find_gateway-Finds : (lines : List String) → Finds lines (find_gateway lines)
unfolding find_gateway
find_gateway-Finds [] = tt
find_gateway-Finds (line ∷ lines) = elim (Option-cases (gateway_of (fields line))) [
  | inl e ↦
      rw (e, find_gateway)
        (Finds-later line lines (find_gateway lines) e (find_gateway-Finds lines))
  | inr (gw, e) ↦
      rw (e, find_gateway)
        (record {
          line = line;
          gw = gw;
          of_table = Memᴰ.head refl;
          route = gateway_of-IsDefaultRoute (fields line) gw e;
          bytes = ip_of-IsLittleEndian gw (route_lt (gateway_of-IsDefaultRoute (fields line) gw e));
        })
]

-- The lines below the header of the table decide: an address has four bytes below 256 that make up
-- the gateway, lowest first, of a line whose row is a default route, and an error says that no line
-- holds a default route with a number of 32 bits for its gateway.
pub default_gateway-Finds :
    (text : String) → Finds (tail (split_on 10 text)) (default_gateway (ok text))
unfolding default_gateway
default_gateway-Finds text = find_gateway-Finds (tail (split_on 10 text))
