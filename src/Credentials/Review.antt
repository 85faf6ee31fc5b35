-- ===== src/Credentials/Review.antt =====
-- `probe_host_key`, `trust_host_key` and `revoke_host_key` of `app/modules/credentials/routes.py`: an
-- operator reviews the key of a device and trusts it, or forgets its keys.
mod Examples
use netops_console.Prelude.{
  ℕ, ◌≡◌, ◌⊎◌, refl, inl, inr, Bool, true, false, not, ◌&&◌, ◌||◌, Option, none, some, List, [],
  ◌∷◌, if◌then◌else◌, Result, ok, err, ◌>>=◌, ◌>>◌, raise_if, Result-cases, Bool-cases, arith,
}
use netops_console.Prelude.Text.{Text, codes, eqb, eqb_iff}
use netops_console.Net.{Network}
use netops_console.Net.Parse.{Ipv6}
use netops_console.Validation.Errors.{ValidationError, outside_allowed, address_outside}
use netops_console.Validation.{parse_ipv4, is_blocked, address_in_allowlist}
use netops_console.Discovery.Inventory.{Device}
use netops_console.Ssh.{Asyncssh, Contact, probed, Raised, PresentedKey, presented, probe_host_key}
use netops_console.Credentials.{Tables, trust, revoke_host_key}

-- Why a key was not read.
pub data Unread : Type 0 where
  out_of_scope : ValidationError → Unread
  not_reached : Raised → Unread

-- The answer of the pages.
pub data Answer : Type 0 where
  not_found redirected : Answer
  unread : Unread → Answer
  shown conflict : PresentedKey → Answer

-- The check of `_probe_in_scope`.
unfoldable pub in_scope : Ipv6 → Device → List Network → Result ValidationError ℕ
in_scope ipv6 device allowed = do
  address ← parse_ipv4 ipv6 (codes device.ip_address)
  raise_if (is_blocked address || not (address_in_allowlist address allowed)) address_outside
  ok address

abbrev read : List Contact × Result Raised PresentedKey → List Contact × Result Unread PresentedKey
read (contacts, ok key) = (contacts, ok key)
read (contacts, err e) = (contacts, err (not_reached e))

abbrev probe_if :
    Asyncssh → Device → Result ValidationError ℕ → List Contact × Result Unread PresentedKey
probe_if lib device (err e) = ([], err (out_of_scope e))
probe_if lib device (ok address) = read (probe_host_key lib (codes device.ip_address) 22)

-- `_probe_in_scope`
unfoldable pub probe_in_scope :
    Asyncssh → Ipv6 → Device → List Network → List Contact × Result Unread PresentedKey
probe_in_scope lib ipv6 device allowed = probe_if lib device (in_scope ipv6 device allowed)

-- Who trusts a key, and when.
pub record Operator : Type 0 where
  pub now : ℕ
  pub user_id : Option ℕ
  pub username : Option Text

-- The decision on the key that the device presents now, for the fingerprint that was reviewed.
unfoldable pub decide :
    Operator → Device → Text → Tables → Result Unread PresentedKey → Answer × Tables
decide operator device fingerprint t (err e) = (unread e, t)
decide operator device fingerprint t (ok key) =
    if not (eqb key.fingerprint fingerprint)
    then (conflict key, t)
    else (redirected, (trust operator.now device.id key operator.user_id operator.username t).1)

module _ (lib : Asyncssh) (ipv6 : Ipv6) (allowed : List Network) where
  -- `trust_host_key`, for the row of the device: of the form it uses the fingerprint only.
  unfoldable pub trust_host_key : Operator → Option Device → Text → Tables → Answer × Tables
  trust_host_key operator none fingerprint t = (not_found, t)
  trust_host_key operator (some device) fingerprint t =
      if device.is_deleted
      then (not_found, t)
      else decide operator device fingerprint t (probe_in_scope lib ipv6 device allowed).1

  -- A key was trusted for a device that is in the inventory and in scope: the device presented it
  -- just then, and its fingerprint is the one that was reviewed.
  pub record Reviewed (operator : Operator) (device : Device) (fingerprint : Text) (t t' : Tables)
      : Type 0 where
    pub key : PresentedKey
    pub kept : device.is_deleted ≡ false
    pub scope : (address : ℕ) × (in_scope ipv6 device allowed ≡ ok address)
    pub now_presented :
        presented lib (lib.get_server_host_key (codes device.ip_address) 22) ≡ ok key
    pub same : key.fingerprint ≡ fingerprint
    pub stored : t' ≡ (trust operator.now device.id key operator.user_id operator.username t).1

  decided :
      (operator : Operator) (device : Device) (fingerprint : Text) (t : Tables) (key : PresentedKey)
      → eqb key.fingerprint fingerprint ≡ true
      → (decide operator device fingerprint t (ok key)).1
        ≡ (trust operator.now device.id key operator.user_id operator.username t).1
  unfolding decide
  decided operator device fingerprint t key h = rw h refl

  undecided :
      (operator : Operator) (device : Device) (fingerprint : Text) (t : Tables) (key : PresentedKey)
      → eqb key.fingerprint fingerprint ≡ false
      → (decide operator device fingerprint t (ok key)).1 ≡ t
  unfolding decide
  undecided operator device fingerprint t key h = rw h refl

  -- The page on which an operator trusts a key either changes nothing, or trusts the key that the
  -- device presents at that moment, with the fingerprint that was reviewed, for a device that is in
  -- the inventory and whose address is in scope.
  pub trust_host_key-Reviewed :
      (operator : Operator) (device : Device) (fingerprint : Text) (t : Tables)
      → ((trust_host_key operator (some device) fingerprint t).1 ≡ t)
        ⊎ Reviewed operator device fingerprint t
            (trust_host_key operator (some device) fingerprint t).1
  unfolding trust_host_key probe_in_scope probe_host_key decide
  trust_host_key-Reviewed operator device fingerprint t = elim (Bool-cases device.is_deleted) [
    | inl e ↦ inl (ground arith)
    | inr e ↦ elim (Result-cases (in_scope ipv6 device allowed)) [
      | inr (f, k) ↦ inl (ground arith)
      | inl (address, k) ↦
          elim (Result-cases
            (presented lib (lib.get_server_host_key (codes device.ip_address) 22))) [
              | inr (f, l) ↦ inl (ground arith)
              | inl (key, l) ↦ elim (Bool-cases (eqb key.fingerprint fingerprint)) [
                | inr n ↦ inl (ground (arith, undecided operator device fingerprint t key n))
                | inl n ↦ inr (record {
                  key = key;
                  kept = e;
                  scope = (address, k);
                  now_presented = l;
                  same = (eqb_iff key.fingerprint fingerprint).0 n;
                  stored = ground (arith, decided operator device fingerprint t key n);
                })
              ]
            ]
    ]
  ]
