-- ===== src/Sandbox/Gateway.antt =====
-- `defaultGateway` of internal/sandbox/docker.go, on the text of /proc/net/route.
pub mod Octets
use foreman.Prelude.{
  ℕ, suc, ◌+◌, ◌-◌, ◌*◌, ◌/◌, ◌%◌, String, Bool, ◌&&◌, Option, none, some, List, [], ◌∷◌, Result,
  ok, err, Error, message, wrap, leb, str_eq, ◌==◌, if◌then◌else◌,
}
use foreman.Prelude.Text.{split_on, fields}
use Prim.Native.Char.{Char, code}

-- The value of a digit, of either case.
unfoldable pub hex_digit : ℕ → Option ℕ
hex_digit c =
    if leb 48 c && leb c 57
    then some (c - 48)
    else if leb 97 c && leb c 102
    then some (c - 87)
    else if leb 65 c && leb c 70
    then some (c - 55)
    else none

unfoldable pub hex_value : ℕ → String → Option ℕ
unfolding hex_digit
hex_value acc String.[] = some acc
hex_value acc (String.◌∷◌ c s) = elim (hex_digit (code c)) [
  | none ↦ none
  | some v ↦ hex_value (acc * 16 + v) s
]

-- `strconv.ParseUint(s, 16, 32)`
unfoldable pub parse_uint32 : String → Option ℕ
unfolding hex_value
parse_uint32 s =
    if str_eq s ""
    then none
    else elim (hex_value 0 s) [ none ↦ none | some v ↦ if leb v 0xffff_ffff then some v else none ]

-- An address, from its first byte.
pub record Ipv4 : Type 0 where
  pub a : ℕ
  pub b : ℕ
  pub c : ℕ
  pub d : ℕ

-- The bytes of the number, the lowest first.
unfoldable pub ip_of : ℕ → Ipv4
ip_of gw = record {
  a = gw % 256;
  b = gw / 256 % 256;
  c = gw / 65_536 % 256;
  d = gw / 16_777_216 % 256;
}

-- The gateway of a row, if it is the default route and its gateway is a number.
unfoldable pub gateway_of : List String → Option ℕ
unfolding parse_uint32
gateway_of (interface ∷ destination ∷ gateway ∷ rest) =
    if str_eq destination "00000000" then parse_uint32 gateway else none
gateway_of row = none

unfoldable pub find_gateway : List String → Result Ipv4
unfolding gateway_of ip_of
find_gateway [] = err (message "no default gateway found in /proc/net/route")
find_gateway (line ∷ lines) = elim (gateway_of (fields line)) [
  | none ↦ find_gateway lines
  | some gw ↦ ok (ip_of gw)
]

abbrev pub tail : List String → List String
tail [] = []
tail (x ∷ xs) = xs

-- `lines[1:]`: a split has a line at least.
unfoldable pub default_gateway : Result String → Result Ipv4
unfolding find_gateway
default_gateway (err e) = err (wrap "read /proc/net/route" e)
default_gateway (ok text) = find_gateway (tail (split_on 10 text))
