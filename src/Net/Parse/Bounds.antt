-- ===== src/Net/Parse/Bounds.antt =====
-- What the parsers return is well formed: an address has 32 bits, a network has no host bits.
use native.Mathlib.Nat.{div-add-mod, mul-mod_right}
use netops_console.Prelude.{
  ℕ, zero, suc, ◌+◌, ◌-◌, ◌*◌, ◌/◌, ◌%◌, ◌^◌, ◌≤◌, ◌<◌, ◌≡◌, refl, ap, ◌∙◌, Bool, true, not, ◌&&◌,
  List, [], ◌∷◌, Option, none, some, arith, ◌==◌, ==_iff, table, table_sound, Option-cases, inl,
  inr, Bool-cases,
}
use mathlib.Core.Path.{subst}
use netops_console.Prelude.Text.{Text, split}
use netops_console.Net.{Network, IsNetwork, num_addresses}
use netops_console.Net.Parse.{
  octet, four, from_octets, ipv4_of_text, prefix_of, netmask, hostmask, mask_length, network_at,
  sized, with_mask, network_of_parts, mask_prefix, ipv4_network, NetworkText, network, host_bits,
  malformed, ip_network, Ipv6, v4_network, has_host_bits,
}

octet-le : (s : Text) (n : ℕ) → octet s ≡ some n → n ≤ 255
unfolding octet
octet-le s n h = ground arith

four-bound : (l : List Text) (o : ℕ × ℕ × ℕ × ℕ) → four l ≡ some o → from_octets o < 2 ^ 32
four-bound [] o h = cc
four-bound (a ∷ []) o h = cc
four-bound (a ∷ b ∷ []) o h = cc
four-bound (a ∷ b ∷ c ∷ []) o h = cc
four-bound (a ∷ b ∷ c ∷ d ∷ []) (x, y, z, w) h =
    ground (arith, octet-le a x, octet-le b y, octet-le c z, octet-le d w)
four-bound (a ∷ b ∷ c ∷ d ∷ e ∷ l) o h = cc

pub ipv4_of_text-lt : (s : Text) (a : ℕ) → ipv4_of_text s ≡ some a → a < 2 ^ 32
unfolding ipv4_of_text
ipv4_of_text-lt s a h = elim (Option-cases (four (split b'.' s))) [
  | inl failed ↦ cc
  | inr (o, e) ↦ ground (arith, four-bound (split b'.' s) o e)
]

prefix_of-le : (mask : ℕ → ℕ) (v k p : ℕ) → prefix_of mask v k ≡ some p → p ≤ k
unfolding prefix_of
prefix_of-le mask v zero p h = ground arith
prefix_of-le mask v (suc k) p h = ground (arith, prefix_of-le mask v k p)

mask_prefix-le : (v p : ℕ) → mask_prefix v ≡ some p → p ≤ 32
unfolding mask_prefix
mask_prefix-le v p h = elim (Option-cases (prefix_of netmask v 32)) [
  | inl none_found ↦ ground (arith, prefix_of-le hostmask v 32 p)
  | inr (q, e) ↦ ground (arith, prefix_of-le netmask v 32 q e)
]

mask_length-le : (s : Text) (p : ℕ) → mask_length s ≡ some p → p ≤ 32
unfolding mask_length
mask_length-le s p h = elim (Option-cases (ipv4_of_text s)) [
  | inl none_found ↦ ground arith
  | inr (v, e) ↦ ground (arith, mask_prefix-le v p)
]

-- The sizes divide the range: checked for the 33 prefix lengths.
sizes_table : table (λ p. 2 ^ (32 - p) * 2 ^ p == 2 ^ 32) 33 ≡ true
unfolding table
sizes_table = refl

sizes : (p : ℕ) → p ≤ 32 → 2 ^ (32 - p) * 2 ^ p ≡ 2 ^ 32
sizes p h = (==_iff _ _).0 (table_sound _ 33 sizes_table p (omega arith))

aligned : (a m : ℕ) → (a - a % m) % m ≡ 0
aligned a m =
    let whole : a - a % m ≡ m * (a / m) = omega (arith, div-add-mod a m) in
    ap (λ x. x % m) whole ∙ mul-mod_right m (a / m)

block_end : (a m k top : ℕ) → m * k ≡ top → a < top → a - a % m + m ≤ top
block_end a m k top e h =
    let whole : a - a % m ≡ m * (a / m) = omega (arith, div-add-mod a m) in
    let below : m * (a / m) < m * k = omega (arith, div-add-mod a m) in grind arith

pub network_at-IsNetwork : (a p : ℕ) → a < 2 ^ 32 → p ≤ 32 → IsNetwork (network_at a p)
unfolding network_at num_addresses
network_at-IsNetwork a p ha hp = record {
  no_host_bits = aligned a (2 ^ (32 - p));
  in_range = block_end a (2 ^ (32 - p)) (2 ^ p) (2 ^ 32) (sizes p hp) ha;
  prefix_in_range = hp;
}

-- What a reading of network text says about the network that it returns or suggests.
abbrev Valid : NetworkText → Type 0
Valid (network n) = IsNetwork n
Valid (host_bits n) = IsNetwork n
Valid malformed = Unit

sized-Valid : (strict : Bool) (a p : ℕ) → a < 2 ^ 32 → p ≤ 32 → Valid (sized strict a p)
unfolding sized network_at
sized-Valid strict a p ha hp = elim (Bool-cases (strict && not (a % 2 ^ (32 - p) == 0))) [
  | inl e ↦ rw e (network_at-IsNetwork a p ha hp)
  | inr e ↦ rw e (network_at-IsNetwork a p ha hp)
]

with_mask-Valid :
    (strict : Bool) (addr : Text) (m : Option ℕ)
    → ((p : ℕ) → m ≡ some p → p ≤ 32)
    → Valid (with_mask strict addr m)
unfolding with_mask
with_mask-Valid strict addr none h = tt
with_mask-Valid strict addr (some p) h = elim (Option-cases (ipv4_of_text addr)) [
  | inl e ↦ rw (e, Valid) tt
  | inr (a, e) ↦ rw (e, Valid) (sized-Valid strict a p (ipv4_of_text-lt addr a e) (h p refl))
]

parts-Valid : (strict : Bool) (l : List Text) → Valid (network_of_parts strict l)
unfolding network_of_parts
parts-Valid strict [] = tt
parts-Valid strict (addr ∷ []) = with_mask-Valid strict addr (some 32) (λ p e. ground arith)
parts-Valid strict (addr ∷ mask ∷ []) =
    with_mask-Valid strict addr (mask_length mask) (mask_length-le mask)
parts-Valid strict (a ∷ b ∷ c ∷ l) = tt

ipv4_network-Valid : (strict : Bool) (s : Text) → Valid (ipv4_network strict s)
unfolding ipv4_network
ipv4_network-Valid strict s = parts-Valid strict (split b'/' s)

-- The network that text was read as has no host bits and lies in the 32-bit range.
pub ip_network-IsNetwork :
    (p : Ipv6) (strict : Bool) (s : Text) (n : Network)
    → ip_network p strict s ≡ v4_network n
    → IsNetwork n
unfolding ip_network
ip_network-IsNetwork p strict s n h = go (ipv4_network strict s) refl
  where
    go : (t : NetworkText) → ipv4_network strict s ≡ t → IsNetwork n
    go (network m) e =
        let same : network m ≡ network n = ground arith in
        subst Valid (e ∙ same) (ipv4_network-Valid strict s)
    go (host_bits m) e = ground arith
    go malformed e = ground arith

-- So does the network that is suggested in its place.
pub ip_network-suggestion-IsNetwork :
    (p : Ipv6) (strict : Bool) (s : Text) (n : Network)
    → ip_network p strict s ≡ has_host_bits (some n)
    → IsNetwork n
unfolding ip_network
ip_network-suggestion-IsNetwork p strict s n h = go (ipv4_network strict s) refl
  where
    go : (t : NetworkText) → ipv4_network strict s ≡ t → IsNetwork n
    go (network m) e = ground arith
    go (host_bits m) e =
        let same : host_bits m ≡ host_bits n = ground arith in
        subst Valid (e ∙ same) (ipv4_network-Valid strict s)
    go malformed e = ground arith
