-- ===== src/Credentials/Trust.antt =====
-- What trusting and revoking do to the keys that are accepted.
use mathlib.Core.Option
use netops_console.Prelude.{
  ℕ, ◌≡◌, inl, inr, ◌&&◌, Option, none, some, List, [], ◌∷◌, ◌++◌, first, ◌==◌, if◌then◌else◌,
  Bool-cases, Option-cases, arith,
}
use netops_console.Prelude.Text.{Text, eqb, eqb_iff}
use netops_console.Ssh.{PresentedKey}
use netops_console.Credentials.{SshHostKey, Tables, trust, host_key_row, replace, of_type}

-- The key that is trusted for a device and a type of key.
unfoldable pub key_at : ℕ → Text → List SshHostKey → Option Text
key_at device_id key_type ks =
    Option.map (λ (k : SshHostKey). k.key_base64) (first (of_type device_id key_type) ks)

key_at-append :
    (device_id : ℕ) (key_type : Text) (row : SshHostKey) (ks : List SshHostKey)
    → first (of_type row.device_id row.key_type) ks ≡ none
    → key_at device_id key_type (ks ++ row ∷ []) ≡ (
        if of_type device_id key_type row
        then some row.key_base64
        else key_at device_id key_type ks)
unfolding key_at first of_type
key_at-append device_id key_type row [] h = ground arith
key_at-append device_id key_type row (k ∷ ks) h = ground (
  arith,
  key_at-append device_id key_type row ks,
  eqb_iff k.key_type row.key_type,
  eqb_iff k.key_type key_type,
  eqb_iff row.key_type key_type,
)

key_at-replace :
    (device_id : ℕ) (key_type : Text) (row existing : SshHostKey) (ks : List SshHostKey)
    → first (of_type row.device_id row.key_type) ks ≡ some existing
    → key_at device_id key_type (replace row ks) ≡ (
        if of_type device_id key_type row
        then some row.key_base64
        else key_at device_id key_type ks)
unfolding key_at first of_type replace
key_at-replace device_id key_type row existing [] h = cc
key_at-replace device_id key_type row existing (k ∷ ks) h = ground (
  arith,
  key_at-replace device_id key_type row existing ks,
  eqb_iff k.key_type row.key_type,
  eqb_iff k.key_type key_type,
  eqb_iff row.key_type key_type,
)

-- A key that is trusted already is the key of its slot.
key_at-same :
    (device_id : ℕ) (key_type : Text) (row existing : SshHostKey) (ks : List SshHostKey)
    → first (of_type row.device_id row.key_type) ks ≡ some existing
    → existing.key_base64 ≡ row.key_base64
    → key_at device_id key_type ks ≡ (
        if of_type device_id key_type row
        then some row.key_base64
        else key_at device_id key_type ks)
unfolding key_at first of_type
key_at-same device_id key_type row existing [] h same = cc
key_at-same device_id key_type row existing (k ∷ ks) h same = ground (
  arith,
  key_at-same device_id key_type row existing ks,
  eqb_iff k.key_type row.key_type,
  eqb_iff k.key_type key_type,
  eqb_iff row.key_type key_type,
)

-- Trusting a key makes it the key of its device and type, and leaves the keys of the other devices
-- and types as they were.
pub key_at-trust :
    (now device_id : ℕ) (key : PresentedKey) (user_id : Option ℕ) (username : Option Text)
    (t : Tables) (other : ℕ) (key_type : Text)
    → key_at other key_type (trust now device_id key user_id username t).1.host_keys ≡ (
        if device_id == other && eqb key.key_type key_type
        then some key.key_base64
        else key_at other key_type t.host_keys)
unfolding trust host_key_row of_type
key_at-trust now device_id key user_id username t other key_type =
    let row = host_key_row now device_id key user_id username in
    elim (Option-cases (first (of_type device_id key.key_type) t.host_keys)) [
      | inl e ↦ rw e (key_at-append other key_type row t.host_keys e)
      | inr (existing, e) ↦ elim (Bool-cases (eqb existing.key_base64 key.key_base64)) [
        | inl k ↦
            rw (e, k)
              (key_at-same other key_type row existing t.host_keys e
                ((eqb_iff existing.key_base64 key.key_base64).0 k))
        | inr k ↦ rw (e, k) (key_at-replace other key_type row existing t.host_keys e)
      ]
    ]
