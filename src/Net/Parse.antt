-- ===== src/Net/Parse.antt =====
-- `ipaddress.ip_address` and `ipaddress.ip_network` on text. IPv4 is read as CPython reads it; how
-- IPv6 text is recognised is a parameter, since the program only refuses it.
pub mod Bounds
use netops_console.Prelude.{
  ℕ, zero, suc, ◌+◌, ◌-◌, ◌*◌, ◌%◌, ◌^◌, Bool, true, false, not, ◌&&◌, ◌||◌, List, [], ◌∷◌, Option,
  none, some, length, leb, ltb, ◌==◌, if◌then◌else◌,
}
use netops_console.Prelude.Text.{Text, split, is_number, number_from}
use netops_console.Net.{Network}

-- `_parse_octet`: decimal digits, at most three, no leading zero, at most 255.
abbrev pub leading_zero : Text → Bool
leading_zero [] = false
leading_zero (c ∷ []) = false
leading_zero (c ∷ d ∷ s) = c == b'0'

unfoldable pub octet : Text → Option ℕ
octet s =
    let n = number_from 0 s in
    if is_number s && leb (length s) 3 && not (leading_zero s) && leb n 255 then some n else none

-- Four octets, the first the most significant.
abbrev pub four : List Text → Option (ℕ × ℕ × ℕ × ℕ)
four (a ∷ b ∷ c ∷ d ∷ []) = elim (octet a) [
  | none ↦ none
  | some x ↦ elim (octet b) [
    | none ↦ none
    | some y ↦ elim (octet c) [
      | none ↦ none
      | some z ↦ elim (octet d) [ none ↦ none | some w ↦ some (x, y, z, w) ]
    ]
  ]
]
four _ = none

abbrev pub from_octets : ℕ × ℕ × ℕ × ℕ → ℕ
from_octets (x, y, z, w) = ((x * 256 + y) * 256 + z) * 256 + w

-- `IPv4Address(text)`
unfoldable pub ipv4_of_text : Text → Option ℕ
ipv4_of_text s = elim (four (split b'.' s)) [ none ↦ none | some o ↦ some (from_octets o) ]

-- The prefix length that a mask belongs to: of a netmask (`255.255.255.0`), else of a host mask
-- (`0.0.0.255`).
abbrev pub netmask : ℕ → ℕ
netmask p = 2 ^ 32 - 2 ^ (32 - p)

abbrev pub hostmask : ℕ → ℕ
hostmask p = 2 ^ (32 - p) - 1

unfoldable pub prefix_of : (ℕ → ℕ) → ℕ → ℕ → Option ℕ
prefix_of mask value zero = if mask 0 == value then some 0 else none
prefix_of mask value (suc p) =
    let rest = prefix_of mask value p in if mask (suc p) == value then some (suc p) else rest

unfoldable pub mask_prefix : ℕ → Option ℕ
mask_prefix v = elim (prefix_of netmask v 32) [ some p ↦ some p | none ↦ prefix_of hostmask v 32 ]

-- `_make_netmask`: a prefix length in digits, or a mask.
unfoldable pub mask_length : Text → Option ℕ
mask_length s =
    let n = number_from 0 s in
    if is_number s && leb n 32
    then some n
    else elim (ipv4_of_text s) [ none ↦ none | some v ↦ mask_prefix v ]

pub data NetworkText : Type 0 where
  network : Network → NetworkText
  -- Strict reading refused host bits; the network that was meant comes with it.
  host_bits : Network → NetworkText
  malformed : NetworkText

-- The network of an address: its host bits cleared.
unfoldable pub network_at : ℕ → ℕ → Network
network_at a p = record { base = a - a % 2 ^ (32 - p); prefix_len = p }

unfoldable pub sized : Bool → ℕ → ℕ → NetworkText
sized strict a p =
    if strict && not (a % 2 ^ (32 - p) == 0)
    then host_bits (network_at a p)
    else network (network_at a p)

unfoldable pub with_mask : Bool → Text → Option ℕ → NetworkText
with_mask strict addr none = malformed
with_mask strict addr (some p) = elim (ipv4_of_text addr) [
  | none ↦ malformed
  | some a ↦ sized strict a p
]

unfoldable pub network_of_parts : Bool → List Text → NetworkText
network_of_parts strict (addr ∷ []) = with_mask strict addr (some 32)
network_of_parts strict (addr ∷ mask ∷ []) = with_mask strict addr (mask_length mask)
network_of_parts strict _ = malformed

-- `IPv4Network(text, strict)`
unfoldable pub ipv4_network : Bool → Text → NetworkText
ipv4_network strict s = network_of_parts strict (split b'/' s)

-- How the library recognises IPv6 text.
pub data Ipv6Network : Type 0 where
  not_ipv6 ipv6 ipv6_host_bits : Ipv6Network

pub record Ipv6 : Type 0 where
  pub is_address : Text → Bool
  pub network_text : Bool → Text → Ipv6Network

pub data Address : Type 0 where
  v4 : ℕ → Address
  v6 : Address

-- `ipaddress.ip_address(text)`; `none` is its `ValueError`.
unfoldable pub ip_address : Ipv6 → Text → Option Address
ip_address p s = elim (ipv4_of_text s) [
  | some a ↦ some (v4 a)
  | none ↦ if p.is_address s then some v6 else none
]

pub data ParsedNetwork : Type 0 where
  v4_network : Network → ParsedNetwork
  v6_network : ParsedNetwork
  -- The `ValueError` about host bits, with the IPv4 network that was meant.
  has_host_bits : Option Network → ParsedNetwork
  -- Any other `ValueError`.
  invalid : ParsedNetwork

-- `ipaddress.ip_network(text, strict=strict)`
unfoldable pub ip_network : Ipv6 → Bool → Text → ParsedNetwork
ip_network p strict s = elim (ipv4_network strict s) [
  | network n ↦ v4_network n
  | host_bits n ↦ has_host_bits (some n)
  | malformed ↦ elim (p.network_text strict s) [
    | not_ipv6 ↦ invalid
    | ipv6 ↦ v6_network
    | ipv6_host_bits ↦ has_host_bits none
  ]
]
