-- ===== src/Net/Ranges.antt =====
-- Networks as ranges of addresses: membership, inclusion and overlap in terms of the bounds.
use native.Mathlib.Nat.{
  one-le-pow, mod-lt, mod-le, div-add-mod, mul-add-mod_self_left, mod-eq_of_lt,
}
use netops_console.Prelude.{ℕ, ◌+◌, ◌-◌, ◌*◌, ◌/◌, ◌%◌, ◌≤◌, ◌<◌, ◌≡◌, ◌∙◌, ap, true, arith}
use netops_console.Net.{Network, IsNetwork, num_addresses, broadcast, contains, subnet_of, overlaps}

pub num_addresses-pos : (n : Network) → 0 < num_addresses n
unfolding num_addresses
num_addresses-pos n = one-le-pow (32 - n.prefix_len) 2 (omega arith)

-- An address of the range leaves its offset in the network as its remainder.
offset-mod : (m b a : ℕ) → b % m ≡ 0 → b ≤ a → a < b + m → a % m ≡ a - b
offset-mod m b a aligned lo hi =
    let r = a - b in
    let whole : m * (b / m) ≡ b = omega (arith, div-add-mod b m) in
    let sum : a ≡ m * (b / m) + r = omega arith in
    ap (λ x. x % m) sum ∙ mul-add-mod_self_left m (b / m) r ∙ mod-eq_of_lt (omega arith)

module _ (n : Network) (a : ℕ) where
  pub contains→ge : contains n a ≡ true → n.base ≤ a
  unfolding contains
  contains→ge h = ground (arith, mod-le a (num_addresses n))

  pub contains→lt : contains n a ≡ true → a < n.base + num_addresses n
  unfolding contains
  contains→lt h = ground (arith, mod-le a (num_addresses n), mod-lt a (num_addresses-pos n))

  pub contains_of_range :
      IsNetwork n → n.base ≤ a → a < n.base + num_addresses n → contains n a ≡ true
  unfolding contains
  contains_of_range wf lo hi =
      ground (arith, offset-mod (num_addresses n) n.base a wf.no_host_bits lo hi)

module _ (x y : Network) where
  -- An address of a subnet lies in the network.
  pub subnet_of-contains :
      (a : ℕ) → IsNetwork y → subnet_of x y ≡ true → contains x a ≡ true → contains y a ≡ true
  unfolding subnet_of broadcast
  subnet_of-contains a wf sub h =
      contains_of_range y a wf (ground (arith, contains→ge x a h))
        (ground (arith, contains→lt x a h, num_addresses-pos x, num_addresses-pos y))

  -- Two networks that share an address overlap.
  pub overlaps_of_common :
      (a : ℕ)
      → IsNetwork x
      → IsNetwork y
      → contains x a ≡ true
      → contains y a ≡ true
      → overlaps x y ≡ true
  unfolding overlaps broadcast
  overlaps_of_common a wx wy hx hy = ground (
    arith,
    contains→ge x a hx,
    contains→lt x a hx,
    contains→ge y a hy,
    contains→lt y a hy,
    contains_of_range x y.base wx,
    contains_of_range y x.base wy,
  )
