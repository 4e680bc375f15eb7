-- ===== src/Egress/Wireguard.antt =====
-- src/egress.rs: the WireGuard configuration that netd accepts.
use Prim.Native.String.{◌++◌ as ◌+++◌}
use xanh_tab.Prelude.{
  ℕ, ◌*◌, String, Bool, true, false, not, ◌&&◌, ◌||◌, Option, none, some, List, [], ◌∷◌, leb, ◌==◌,
  length, all, if◌then◌else◌,
}
use xanh_tab.Text.{Text, trim, split, split_once, is_ascii_alphanumeric}
use xanh_tab.Text.Methods.{
  starts_with_char, strip_prefix, strip_suffix, rsplit_once, count_char, parse_unsigned,
}
use xanh_tab.Fallible.{Fallible, done, bail, ◌>>=◌, ◌>>◌, bail_if, context}
use xanh_tab.Egress.{IpAddr, v4, v6, Parsers}

abbrev pub max_wireguard_config_bytes : ℕ
max_wireguard_config_bytes = 64 * 1024

-- `WireGuardPolicy`
pub record WireGuardPolicy : Type 0 where
  pub ipv4_default : Bool
  pub ipv6_default : Bool

pub data Section : Type 0 where
  interface peer : Section

-- The variables of `validate_wireguard_config`.
pub record Progress : Type 0 where
  pub section : Option Section
  pub interface_count : ℕ
  pub peer_count : ℕ
  pub interface_private_key : Bool
  pub interface_address : Bool
  pub table_off : Bool
  pub peer_public_key : Bool
  pub peer_allowed_ips : Bool
  pub peer_endpoint : Bool
  pub ipv4_default : Bool
  pub ipv6_default : Bool

abbrev pub at_start : Progress
at_start = record {
  section = none;
  interface_count = 0;
  peer_count = 0;
  interface_private_key = false;
  interface_address = false;
  table_off = false;
  peer_public_key = false;
  peer_allowed_ips = false;
  peer_endpoint = false;
  ipv4_default = false;
  ipv6_default = false;
}

unfoldable pub validate_u16 : Text → String → Fallible ℕ
unfolding parse_unsigned
validate_u16 value name =
    context (parse_unsigned 65_535 value) (◌+++◌ "WireGuard " (◌+++◌ name " is invalid"))

unfoldable pub validate_nonzero_u16 : Text → String → Fallible (Unit {0})
unfolding validate_u16
validate_nonzero_u16 value name = do
  number ← validate_u16 value name
  bail_if (number == 0) (◌+++◌ "WireGuard " (◌+++◌ name " must be greater than zero"))

unfoldable pub validate_mtu : Text → Fallible (Unit {0})
unfolding validate_u16
validate_mtu value = do
  mtu ← validate_u16 value "MTU"
  bail_if (not (leb 576 mtu && leb mtu 9_000)) "WireGuard MTU is outside the supported range"

-- A byte of a host name of an endpoint.
abbrev host_byte : ℕ → Bool
host_byte c = is_ascii_alphanumeric c || c == b'.' || c == b'-' || c == b'_'

-- `parse::<Ipv6Addr>().is_ok()`, by the parser of both families.
abbrev is_ipv6 : Option IpAddr → Bool
is_ipv6 (some (v6 _)) = true
is_ipv6 _ = false

unfoldable pub bracketed : Text → Option Text
unfolding strip_suffix
bracketed host = elim (strip_prefix b'[' host) [ none ↦ none | some rest ↦ strip_suffix b']' rest ]

module _ (parsers : Parsers) where
  unfoldable pub validate_wireguard_key : Text → String → Fallible (Unit {0})
  validate_wireguard_key value name = do
    decoded ←
        context (parsers.decode_base64 value)
          (◌+++◌ "WireGuard " (◌+++◌ name " is not valid base64"))
    bail_if (not (length decoded == 32))
        (◌+++◌ "WireGuard " (◌+++◌ name " must decode to 32 bytes"))

  -- The test of a prefix against its address: whether it is a default route, by the family.
  unfoldable pub route_of : String → IpAddr → ℕ → Fallible (Bool × Bool)
  route_of name (v4 n) prefix =
      if leb prefix 32
      then done (n == 0 && prefix == 0, false)
      else bail (◌+++◌ "WireGuard " (◌+++◌ name " prefix is outside the address-family range"))
  route_of name (v6 n) prefix =
      if leb prefix 128
      then done (false, n == 0 && prefix == 0)
      else bail (◌+++◌ "WireGuard " (◌+++◌ name " prefix is outside the address-family range"))

  -- One entry of a list of routes.
  unfoldable pub validate_cidr : String → Text → Fallible (Bool × Bool)
  unfolding trim split_once route_of parse_unsigned
  validate_cidr name raw = do
    (address, prefix) ←
        context (split_once b'/' (trim raw))
          (◌+++◌ "WireGuard " (◌+++◌ name " must use CIDR notation"))
    ip ←
        context (parsers.parse_ip address)
          (◌+++◌ "WireGuard " (◌+++◌ name " contains an invalid IP address"))
    bits ←
        context (parse_unsigned 255 prefix)
          (◌+++◌ "WireGuard " (◌+++◌ name " contains an invalid prefix"))
    route_of name ip bits

  -- The loop of `validate_cidr_list`.
  unfoldable pub validate_cidrs : String → List Text → Bool × Bool → Fallible (Bool × Bool)
  unfolding validate_cidr
  validate_cidrs name [] defaults = done defaults
  validate_cidrs name (raw ∷ pieces) (ipv4, ipv6) = do
    (four, six) ← validate_cidr name raw
    validate_cidrs name pieces (ipv4 || four, ipv6 || six)

  -- `validate_cidr_list`: a split has a piece, so `any` is always set.
  unfoldable pub validate_cidr_list : Text → String → Fallible (Bool × Bool)
  unfolding validate_cidrs split
  validate_cidr_list value name = validate_cidrs name (split b',' value) (false, false)

  -- The host of an endpoint: an IPv6 address in brackets, or a name.
  unfoldable pub validate_host : Text → Fallible (Unit {0})
  unfolding bracketed
  validate_host host = elim (bracketed host) [
    | some ipv6 ↦
        bail_if (not (is_ipv6 (parsers.parse_ip ipv6)))
          "WireGuard Endpoint contains an invalid IPv6 address"
    | none ↦
        bail_if (length host == 0 || not (all host_byte host))
          "WireGuard Endpoint contains an invalid hostname"
  ]

  unfoldable pub validate_wireguard_endpoint : Text → Fallible (Unit {0})
  unfolding rsplit_once validate_host validate_nonzero_u16
  validate_wireguard_endpoint value = do
    bail_if (not (starts_with_char value b'[') && not (count_char b':' value == 1))
        "WireGuard Endpoint must be host:port or [IPv6]:port"
    (host, port) ← context (rsplit_once b':' value) "WireGuard Endpoint must include a port"
    validate_host host
    validate_nonzero_u16 port "Endpoint port"
