-- ===== src/Net.antt =====
-- IPv4 addresses and networks, as `ipaddress` has them and `app/core/validation.py` uses them: an
-- address is its 32-bit number, a network its first address and its prefix length.
pub mod Parse
pub mod Ranges
use netops_console.Prelude.{ℕ, ◌+◌, ◌-◌, ◌*◌, ◌/◌, ◌%◌, ◌^◌, ◌≤◌, ◌≡◌, Bool, ◌&&◌, ◌||◌, leb, ◌==◌}

pub record Network : Type 0 where
  pub base : ℕ
  pub prefix_len : ℕ

-- `num_addresses`
unfoldable pub num_addresses : Network → ℕ
num_addresses n = 2 ^ (32 - n.prefix_len)

-- `broadcast_address`: the last address.
unfoldable pub broadcast : Network → ℕ
broadcast n = n.base + num_addresses n - 1

-- `address in network`: the address under the netmask is the network address.
unfoldable pub contains : Network → ℕ → Bool
contains n a = (a - a % num_addresses n) == n.base

-- `a.subnet_of(b)`
unfoldable pub subnet_of : Network → Network → Bool
subnet_of a b = leb b.base a.base && leb (broadcast a) (broadcast b)

-- `a.overlaps(b)`
unfoldable pub overlaps : Network → Network → Bool
overlaps a b =
    contains a b.base || contains a (broadcast b) || contains b a.base || contains b (broadcast a)

-- A network that the constructor lets through: no host bits set, inside the 32-bit range.
pub record IsNetwork (n : Network) : Type 0 where
  pub no_host_bits : n.base % num_addresses n ≡ 0
  pub in_range : n.base + num_addresses n ≤ 2 ^ 32
  pub prefix_in_range : n.prefix_len ≤ 32
