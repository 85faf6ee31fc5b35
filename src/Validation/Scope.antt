-- ===== src/Validation/Scope.antt =====
-- What the address checks of `app/core/validation.py` guarantee of every single address.
use netops_console.Prelude.{
  ℕ, ◌≤◌, ◌≡◌, ◌↔◌, refl, Bool, true, false, ◌||◌, List, arith, any, All, any_mono, any_mono_false,
  ok, raise_if,
}
use netops_console.Prelude.Text.{Text, strip}
use netops_console.Net.{Network, IsNetwork, num_addresses, contains, subnet_of, overlaps}
use netops_console.Net.Parse.{
  Ipv6, ip_network, ParsedNetwork, v4_network, v6_network, has_host_bits, invalid,
}
use netops_console.Net.Parse.Bounds.{ip_network-IsNetwork}
use netops_console.Net.Ranges.{subnet_of-contains, overlaps_of_common}
use netops_console.Validation.{
  always_blocked, private_ranges, accept_network, parse_ipv4_network, is_blocked, is_private,
  network_in_allowlist, address_in_allowlist, validate_allowed_cidr, validate_scan_target,
}

always_blocked-AreNetworks : All IsNetwork always_blocked
unfolding num_addresses
always_blocked-AreNetworks = omega arith

private_ranges-AreNetworks : All IsNetwork private_ranges
unfolding num_addresses
private_ranges-AreNetworks = omega arith

-- A check that let its value through did not raise.
pub raise_if-passed :
    {E : Type 0} (b : Bool) (e : E) {u : Unit {0}} → raise_if b e ≡ ok u → b ≡ false
raise_if-passed true e h = cc
raise_if-passed false e h = refl

accept_network-eq : (p : ParsedNetwork) (n : Network) → accept_network p ≡ ok n → p ≡ v4_network n
accept_network-eq (v4_network m) n h = ground arith
accept_network-eq v6_network n h = cc
accept_network-eq (has_host_bits s) n h = cc
accept_network-eq invalid n h = cc

-- An address of a network inside the private ranges is private.
subnet-is_private :
    (n : Network) (a : ℕ)
    → any (λ private. subnet_of n private) private_ranges ≡ true
    → contains n a ≡ true
    → is_private a ≡ true
unfolding is_private
subnet-is_private n a inside h =
    any_mono IsNetwork (λ p. subnet_of n p) (λ p. contains p a) private_ranges
      (λ p wf sub. subnet_of-contains n p a wf sub h) private_ranges-AreNetworks inside

-- An address of a network that overlaps nothing reserved is not reserved.
apart-is_blocked :
    (n : Network) (a : ℕ)
    → IsNetwork n
    → any (λ blocked. subnet_of n blocked || overlaps n blocked) always_blocked ≡ false
    → contains n a ≡ true
    → is_blocked a ≡ false
unfolding is_blocked
apart-is_blocked n a wf apart h =
    any_mono_false IsNetwork (λ b. contains b a) (λ b. subnet_of n b || overlaps n b) always_blocked
      (λ b wb hit. ground (arith, overlaps_of_common n b a wf wb h hit)) always_blocked-AreNetworks
      apart

module _ (ipv6 : Ipv6) where
  pub parse_ipv4_network-IsNetwork :
      (strict : Bool) (value : Text) (n : Network)
      → parse_ipv4_network ipv6 strict value ≡ ok n
      → IsNetwork n
  unfolding parse_ipv4_network
  parse_ipv4_network-IsNetwork strict value n h =
      let candidate = strip value in
      ip_network-IsNetwork ipv6 strict candidate n
        (ground (arith, accept_network-eq (ip_network ipv6 strict candidate) n))

  validate_allowed_cidr-checks :
      (value : Text) (n : Network)
      → validate_allowed_cidr ipv6 value ≡ ok n
      → (parse_ipv4_network ipv6 true value ≡ ok n)
        × (any (λ blocked. subnet_of n blocked || overlaps n blocked) always_blocked ≡ false)
        × (any (λ private. subnet_of n private) private_ranges ≡ true)
  unfolding validate_allowed_cidr
  validate_allowed_cidr-checks value n h = ground arith

  pub validate_allowed_cidr-IsNetwork :
      (value : Text) (n : Network) → validate_allowed_cidr ipv6 value ≡ ok n → IsNetwork n
  validate_allowed_cidr-IsNetwork value n h =
      parse_ipv4_network-IsNetwork true value n (validate_allowed_cidr-checks value n h).0

  -- A range that the allowlist accepts is well formed, and each address in it is private and is in
  -- none of the reserved ranges.
  pub validate_allowed_cidr-safe :
      (value : Text) (n : Network) (a : ℕ)
      → validate_allowed_cidr ipv6 value ≡ ok n
      → contains n a ≡ true
      → IsNetwork n × (is_private a ≡ true) × (is_blocked a ≡ false)
  validate_allowed_cidr-safe value n a h ha =
      let (parsed, apart, inside) = validate_allowed_cidr-checks value n h in
      let wf = parse_ipv4_network-IsNetwork true value n parsed in
      (wf, subnet-is_private n a inside ha, apart-is_blocked n a wf apart ha)

  -- A scan target is accepted exactly when its text reads as a network that lies within one entry
  -- of the allowlist and has at most the permitted number of addresses.
  pub validate_scan_target_iff :
      (value : Text) (allowed : List Network) (max_hosts : ℕ) (n : Network)
      → (validate_scan_target ipv6 value allowed max_hosts ≡ ok n) ↔ (
          (parse_ipv4_network ipv6 true value ≡ ok n)
          × (any (λ entry. subnet_of n entry) allowed ≡ true)
          × (num_addresses n ≤ max_hosts))
  unfolding validate_scan_target network_in_allowlist
  validate_scan_target_iff value allowed max_hosts n = (λ h. ground arith, λ h. ground arith)

  -- If the entries of the allowlist are well formed, each address of an accepted scan target is in
  -- the allowlist, and the target is no larger than the limit.
  pub validate_scan_target-in_scope :
      (value : Text) (allowed : List Network) (max_hosts : ℕ) (n : Network) (a : ℕ)
      → All IsNetwork allowed
      → validate_scan_target ipv6 value allowed max_hosts ≡ ok n
      → contains n a ≡ true
      → (num_addresses n ≤ max_hosts) × (address_in_allowlist a allowed ≡ true)
  unfolding address_in_allowlist
  validate_scan_target-in_scope value allowed max_hosts n a wf h ha =
      let (_, inside, small) = (validate_scan_target_iff value allowed max_hosts n).0 h in
      (
        small,
        any_mono IsNetwork (λ e. subnet_of n e) (λ e. contains e a) allowed
            (λ e we sub. subnet_of-contains n e a we sub ha) wf inside,
      )
