-- ===== src/Validation.antt =====
-- `app/core/validation.py`: every address, network and host name that the program touches.
pub mod Errors
pub mod Scope
pub mod Names
pub mod Examples
use netops_console.Prelude.{
  ℕ, ◌*◌, ◌+◌, ◌^◌, Bool, true, false, not, ◌&&◌, ◌||◌, List, [], ◌∷◌, Option, none, some, is_empty,
  length, any, all, leb, ltb, ◌==◌, if◌then◌else◌, Result, ok, err, ◌>>=◌, ◌>>◌, raise_if, or_raise,
}
use netops_console.Prelude.Int.{ℤ, pos, negsuc}
use netops_console.Prelude.Text.{
  Text, strip, has, split, is_alpha, is_digit, int_of_text, matches_line,
}
use netops_console.Net.{Network, num_addresses, contains, subnet_of, overlaps}
use netops_console.Net.Parse.{
  Ipv6, Address, v4, v6, ip_address, ParsedNetwork, v4_network, v6_network, has_host_bits, invalid,
  ip_network,
}
use Errors.{
  ValidationError, no_address, invalid_address, ipv6_unsupported, no_network, no_prefix_length,
  invalid_network, host_bits_set, overlaps_reserved, not_private, outside_allowed,
  too_many_addresses, no_hostname, hostname_too_long, invalid_hostname, invalid_port,
  port_out_of_range,
}

-- `IPv4Network("a.b.0.0/p")`
abbrev block : ℕ → ℕ → ℕ → Network
block a b p = record { base = (a * 256 + b) * 2 ^ 16; prefix_len = p }

-- `_ALWAYS_BLOCKED`: loopback, link-local, multicast, reserved, "this network".
abbrev pub always_blocked : List Network
always_blocked = block 127 0 8 ∷ block 169 254 16 ∷ block 224 0 4 ∷ block 240 0 4 ∷ block 0 0 8 ∷ []

-- `_PRIVATE_RANGES`: RFC 1918 and CGNAT.
abbrev pub private_ranges : List Network
private_ranges = block 10 0 8 ∷ block 172 16 12 ∷ block 192 168 16 ∷ block 100 64 10 ∷ []

abbrev pub max_hostname_length : ℕ
max_hostname_length = 253

abbrev pub accept_network : ParsedNetwork → Result ValidationError Network
accept_network (v4_network n) = ok n
accept_network v6_network = err ipv6_unsupported
accept_network (has_host_bits suggestion) = err (host_bits_set suggestion)
accept_network invalid = err invalid_network

module _ (ipv6 : Ipv6) where
  unfoldable pub parse_ipv4 : Text → Result ValidationError ℕ
  parse_ipv4 value = do
    let candidate = strip value
    raise_if (is_empty candidate) no_address
    address ← or_raise (ip_address ipv6 candidate) invalid_address
    elim address [ v4 a ↦ ok a | v6 ↦ err ipv6_unsupported ]

  unfoldable pub parse_ipv4_network : Bool → Text → Result ValidationError Network
  parse_ipv4_network strict value = do
    let candidate = strip value
    raise_if (is_empty candidate) no_network
    raise_if (not (has b'/' candidate)) no_prefix_length
    accept_network (ip_network ipv6 strict candidate)

unfoldable pub is_blocked : ℕ → Bool
is_blocked address = any (λ blocked. contains blocked address) always_blocked

unfoldable pub is_private : ℕ → Bool
is_private address = any (λ private. contains private address) private_ranges

unfoldable pub network_in_allowlist : Network → List Network → Bool
network_in_allowlist network allowed = any (λ entry. subnet_of network entry) allowed

unfoldable pub address_in_allowlist : ℕ → List Network → Bool
address_in_allowlist address allowed = any (λ entry. contains entry address) allowed

module _ (ipv6 : Ipv6) where
  unfoldable pub validate_allowed_cidr : Text → Result ValidationError Network
  validate_allowed_cidr value = do
    network ← parse_ipv4_network ipv6 true value
    raise_if (any (λ blocked. subnet_of network blocked || overlaps network blocked) always_blocked)
        (overlaps_reserved network)
    raise_if (not (any (λ private. subnet_of network private) private_ranges)) (not_private network)
    ok network

  unfoldable pub validate_scan_target : Text → List Network → ℕ → Result ValidationError Network
  validate_scan_target value allowed max_hosts = do
    network ← parse_ipv4_network ipv6 true value
    raise_if (not (network_in_allowlist network allowed)) (outside_allowed network)
    raise_if (ltb max_hosts (num_addresses network)) (too_many_addresses network max_hosts)
    ok network

-- The Unicode tables and the codec that `validate_hostname` calls.
pub record Unicode : Type 0 where
  pub lower : Text → Text
  pub idna_encodes : Text → Bool

unfoldable pub is_alnum : ℕ → Bool
is_alnum c = is_alpha c || is_digit c

unfoldable pub last_is_alnum : Text → Bool
last_is_alnum [] = false
last_is_alnum (c ∷ []) = is_alnum c
last_is_alnum (c ∷ d ∷ s) = last_is_alnum (d ∷ s)

-- `[a-zA-Z0-9]([a-zA-Z0-9-]{0,61}[a-zA-Z0-9])?`, the whole text.
unfoldable pub is_label : Text → Bool
is_label [] = false
is_label (c ∷ s) =
    is_alnum c
    && last_is_alnum (c ∷ s)
    && all (λ d. is_alnum d || d == b'-') (c ∷ s)
    && leb (length (c ∷ s)) 63

-- `_HOSTNAME_LABEL.match`
unfoldable pub hostname_label : Text → Bool
hostname_label = matches_line is_label

-- `candidate[:-1]` where the last character is a dot.
unfoldable pub drop_dot : Text → Text
drop_dot [] = []
drop_dot (c ∷ []) = if c == b'.' then [] else c ∷ []
drop_dot (c ∷ d ∷ s) = c ∷ drop_dot (d ∷ s)

unfoldable pub validate_hostname : Unicode → Text → Result ValidationError Text
validate_hostname unicode value = do
  let lowered = unicode.lower (strip value)
  raise_if (is_empty lowered) no_hostname
  raise_if (ltb max_hostname_length (length lowered)) hostname_too_long
  let candidate = drop_dot lowered
  raise_if (not (unicode.idna_encodes candidate)) invalid_hostname
  raise_if (not (all hostname_label (split b'.' candidate))) invalid_hostname
  ok candidate

-- `value: int | str`
pub data PortValue : Type 0 where
  number : ℤ → PortValue
  text : Text → PortValue

abbrev int_of_port : PortValue → Option ℤ
int_of_port (number n) = some n
int_of_port (text s) = int_of_text s

abbrev port_in_range : ℤ → Result ValidationError ℕ
port_in_range (pos p) = if leb 1 p && leb p 65535 then ok p else err port_out_of_range
port_in_range (negsuc _) = err port_out_of_range

unfoldable pub validate_port : PortValue → Result ValidationError ℕ
validate_port value = do port ← or_raise (int_of_port value) invalid_port; port_in_range port
