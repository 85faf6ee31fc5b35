-- ===== src/Credentials/Required.antt =====
-- Which key a device must present: one that is trusted for it.
use netops_console.Prelude.{
  ℕ, ◌≡◌, refl, inl, inr, false, not, Option, none, some, List, [], ◌∷◌, keep, first, ◌==◌,
  Bool-cases, Option-cases, arith, All, ◌≢◌,
}
use netops_console.Prelude.Sort.{Distinct}
use netops_console.Prelude.Text.{Text, eqb, eqb_iff, eqb_refl}
use netops_console.Credentials.Unique.{WellFormed, same_slot, trust-WellFormed}
use netops_console.Ssh.{PresentedKey, openssh}
use netops_console.Credentials.{
  SshHostKey, Tables, trust, of_type, revoke_host_key, host_keys_for, trusted_key_for,
}
use netops_console.Credentials.Trust.{key_at, key_at-trust}

-- What the database returns first from a query: one of the rows, if there is one.
pub record ReturnsRow (scalar : List SshHostKey → Option SshHostKey) : Type 1 where
  pub returns : (ks : List SshHostKey) → scalar ks ≡ none → ks ≡ []
  pub among :
      (P : SshHostKey → Type 0) (ks : List SshHostKey) (k : SshHostKey)
      → All P ks
      → scalar ks ≡ some k
      → P k

IsHeld : List SshHostKey → SshHostKey → Type 0
unfolding key_at
IsHeld ks k = key_at k.device_id k.key_type ks ≡ some k.key_base64

IsHeld-later :
    (k l : SshHostKey) (ks : List SshHostKey)
    → same_slot k l ≡ false
    → IsHeld ks l
    → IsHeld (k ∷ ks) l
unfolding IsHeld key_at first
IsHeld-later k l ks other held = ground arith

IsHeld-front : (k : SshHostKey) (ks : List SshHostKey) → IsHeld (k ∷ ks) k
unfolding IsHeld key_at first of_type
IsHeld-front k ks = ground (arith, eqb_refl k.key_type)

All-later :
    (k : SshHostKey) (all_rows rows : List SshHostKey)
    → All (λ l. same_slot k l ≡ false) rows
    → All (IsHeld all_rows) rows
    → All (IsHeld (k ∷ all_rows)) rows
All-later k all_rows [] other held = tt
All-later k all_rows (l ∷ rows) other held =
    (IsHeld-later k l all_rows other.0 held.0, All-later k all_rows rows other.1 held.1)

-- In rows with one key for each device and type, each row holds the key of its slot.
All-IsHeld : (ks : List SshHostKey) → Distinct same_slot ks → All (IsHeld ks) ks
All-IsHeld [] h = tt
All-IsHeld (k ∷ ks) h = (IsHeld-front k ks, All-later k ks ks h.0 (All-IsHeld ks h.1))

All-host_keys :
    (P : SshHostKey → Type 0) (d : ℕ) (ks : List SshHostKey)
    → All P ks
    → All
        (λ (k : SshHostKey). (k.device_id ≡ d) × P k)
        (keep (λ (k : SshHostKey). k.device_id == d) ks)
unfolding keep
All-host_keys P d [] h = tt
All-host_keys P d (k ∷ ks) h = elim (Bool-cases (k.device_id == d)) [
  | inl e ↦ rw (e, keep) ((ground arith, h.0), All-host_keys P d ks h.1)
  | inr e ↦ rw (e, keep) (All-host_keys P d ks h.1)
]

key_at_missing :
    (d : ℕ) (key_type : Text) (ks : List SshHostKey)
    → keep (λ (k : SshHostKey). k.device_id == d) ks ≡ []
    → key_at d key_type ks ≡ none
unfolding key_at first keep of_type
key_at_missing d key_type [] h = refl
key_at_missing d key_type (k ∷ ks) h = ground (arith, key_at_missing d key_type ks)

kept_none :
    (d : ℕ) (ks : List SshHostKey)
    → keep
        (λ (k : SshHostKey). k.device_id == d)
        (keep (λ (k : SshHostKey). not (k.device_id == d)) ks)
      ≡ []
unfolding keep
kept_none d [] = refl
kept_none d (k ∷ ks) = ground (arith, kept_none d ks)

key_at_kept :
    (d other : ℕ) (key_type : Text) (ks : List SshHostKey)
    → other ≢ d
    → key_at other key_type (keep (λ (k : SshHostKey). not (k.device_id == d)) ks)
      ≡ key_at other key_type ks
unfolding key_at first keep of_type
key_at_kept d other key_type [] differs = refl
key_at_kept d other key_type (k ∷ ks) differs =
    ground (arith, key_at_kept d other key_type ks differs)

module _ (scalar : List SshHostKey → Option SshHostKey) (row : ReturnsRow scalar) where
  -- In well-formed tables, the key that is required of a device is one that is trusted for it.
  pub trusted_key_for-key_at :
      (device_id : ℕ) (t : Tables) (text : Text)
      → WellFormed t
      → trusted_key_for scalar device_id t ≡ some text
      → (key_type : Text) × (key_base64 : Text) × (key_at device_id key_type t.host_keys
          ≡ some key_base64)
        × (text ≡ openssh key_type key_base64)
  unfolding trusted_key_for host_keys_for IsHeld
  trusted_key_for-key_at device_id t text wf h =
      elim (Option-cases
        (scalar (keep (λ (k : SshHostKey). k.device_id == device_id) t.host_keys))) [
          | inl e ↦ ground arith
          | inr (k, e) ↦
              let held =
                row.among _ _ k
                  (All-host_keys (IsHeld t.host_keys) device_id t.host_keys
                    (All-IsHeld t.host_keys wf.slots))
                  e in
              (k.key_type, k.key_base64, ground (arith, held), ground arith)
        ]

  trusted_none :
      (device_id : ℕ) (t : Tables) (key_type : Text)
      → trusted_key_for scalar device_id t ≡ none
      → key_at device_id key_type t.host_keys ≡ none
  unfolding trusted_key_for host_keys_for
  trusted_none device_id t key_type h =
      elim (Option-cases
        (scalar (keep (λ (k : SshHostKey). k.device_id == device_id) t.host_keys))) [
          | inl e ↦ key_at_missing device_id key_type t.host_keys (row.returns _ e)
          | inr (k, e) ↦ ground arith
        ]

  -- A device whose keys are revoked has no trusted key, and the keys of every other device are as
  -- they were.
  pub trusted_key_for-revoke_host_key :
      (device_id : ℕ) (t : Tables) (other : ℕ) (key_type : Text)
      → other ≢ device_id
      → (trusted_key_for scalar device_id (revoke_host_key device_id t).1 ≡ none)
        × (key_at other key_type (revoke_host_key device_id t).1.host_keys
            ≡ key_at other key_type t.host_keys)
  unfolding trusted_key_for host_keys_for revoke_host_key
  trusted_key_for-revoke_host_key device_id t other key_type differs = (
    elim (Option-cases (scalar [])) [
      | inl e ↦ rw (kept_none device_id t.host_keys, e) refl
      | inr (k, e) ↦ elim (row.among (λ _. ⊥) [] k tt e) [ ]
    ],
    key_at_kept device_id other key_type t.host_keys differs,
  )

  -- After a trusted key replaced the only type of key that a device had, or was its first, it is the
  -- one that is required of the device.
  pub trusted_key_for-trust :
      (now device_id : ℕ) (key : PresentedKey) (user_id : Option ℕ) (username : Option Text)
      (t : Tables)
      → WellFormed t
      → ((key_type : Text) → key_type ≢ key.key_type → key_at device_id key_type t.host_keys ≡ none)
      → trusted_key_for scalar device_id (trust now device_id key user_id username t).1
        ≡ some (openssh key.key_type key.key_base64)
  trusted_key_for-trust now device_id key user_id username t wf only =
      let t' = (trust now device_id key user_id username t).1 in
      let now_trusted = key_at-trust now device_id key user_id username t device_id in
      elim (Option-cases (trusted_key_for scalar device_id t')) [
        | inl e ↦ ground (
          arith,
          now_trusted key.key_type,
          eqb_refl key.key_type,
          trusted_none device_id t' key.key_type e,
        )
        | inr (text, e) ↦
            let (key_type, key_base64, held, same) =
              trusted_key_for-key_at device_id t' text
                (trust-WellFormed now device_id key user_id username t wf) e in
            elim (Bool-cases (eqb key.key_type key_type)) [
              | inl k ↦
                  ground (arith, held, same, e, now_trusted key_type, eqb_iff key.key_type key_type)
              | inr k ↦
                  ground (
                    arith,
                    held,
                    now_trusted key_type,
                    only key_type,
                    eqb_iff key.key_type key_type,
                  )
            ]
      ]
