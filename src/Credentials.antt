-- ===== src/Credentials.antt =====
-- `app/modules/credentials/service.py` over the tables of `app/models/credential.py`: the stored
-- credentials, the devices they are for, and the host keys that operators trust.
pub mod Unique
pub mod Reach
pub mod Trust
pub mod Required
pub mod Assign
pub mod Review
mod Examples
use mathlib.Core.Option
use netops_console.Prelude.{
  ℕ, suc, ◌^◌, ◌*◌, ◌+◌, Bool, true, false, not, ◌&&◌, ◌||◌, Option, none, some, List, [], ◌∷◌,
  ◌++◌, any, keep, first, length, is_empty, ltb, leb, ◌==◌, if◌then◌else◌, Result, ok, err, ◌>>=◌,
  ◌>>◌, raise_if, or_else, is_some,
}
use netops_console.Prelude.Sort.{sort}
use netops_console.Prelude.Text.{Text, codes, eqb, strip, text_leb}
use netops_console.Validation.Errors.{
  ValidationError, credential_needs_name, credential_needs_username, bad_auth_type, no_secret,
  secret_too_large, duplicate_credential, key_encrypted, key_unreadable,
}
use netops_console.Crypto.{Bytes, Fernet, encrypt}
use netops_console.Ssh.{
  Asyncssh, KeyImport, imported, encryption_error, import_error, SshKey, PresentedKey, openssh,
}

-- A row of `credential`.
pub record Credential : Type 0 where
  pub id : ℕ
  pub name : Text
  pub description : Option Text
  pub username : Text
  pub auth_type : Text
  pub secret_ciphertext : Bytes
  pub passphrase_ciphertext : Option Bytes
  pub key_fingerprint : Option Text
  pub last_used_at : Option ℕ

-- A row of `device_credential`.
pub record DeviceCredential : Type 0 where
  pub device_id : ℕ
  pub credential_id : ℕ

-- A row of `ssh_host_key`.
pub record SshHostKey : Type 0 where
  pub device_id : ℕ
  pub key_type : Text
  pub key_base64 : Text
  pub fingerprint : Text
  pub trusted_at : ℕ
  pub trusted_by_user_id : Option ℕ
  pub trusted_by_snapshot : Option Text

-- The three tables, and the next primary key of the first.
pub record Tables : Type 0 where
  pub next_id : ℕ
  pub credentials : List Credential
  pub assignments : List DeviceCredential
  pub host_keys : List SshHostKey

abbrev pub max_secret_bytes : ℕ
max_secret_bytes = 64 * 1024

-- `len(c.encode())` of one code point
unfoldable pub utf8_length : ℕ → ℕ
utf8_length c = if ltb c 0x80 then 1 else if ltb c 0x800 then 2 else if ltb c 0x10000 then 3 else 4

-- `len(text.encode())`
unfoldable pub encoded_length : Text → ℕ
encoded_length [] = 0
encoded_length (c ∷ s) = utf8_length c + encoded_length s

-- `value or None`
unfoldable pub non_empty : Text → Option Text
non_empty [] = none
non_empty (c ∷ s) = some (c ∷ s)

-- `_inspect_private_key`, past the import.
unfoldable pub inspected : KeyImport → Result ValidationError Text
inspected (imported key) = ok key.get_fingerprint
inspected encryption_error = err key_encrypted
inspected import_error = err key_unreadable

-- What `create` is called with.
pub record NewCredential : Type 0 where
  pub name : Text
  pub username : Text
  pub auth_type : Text
  pub secret : Text
  pub passphrase : Option Text
  pub description : Option Text

abbrev passphrase_or_none : Option Text → Option Text
passphrase_or_none none = none
passphrase_or_none (some s) = non_empty s

-- The fingerprint of a key; `none` for a password.
unfoldable pub fingerprint_for :
    Asyncssh → Text → Option Text → Bool → Result ValidationError (Option Text)
fingerprint_for lib secret passphrase true = do
  fingerprint ← inspected (lib.import_private_key secret passphrase)
  ok (some fingerprint)
fingerprint_for lib secret passphrase false = ok none

unfoldable pub has_name : Text → Credential → Bool
has_name name c = eqb c.name name

module _ (lib : Asyncssh) (fernet : Fernet) where
  -- The row of a credential that passed the checks; neither text that is encrypted is empty.
  unfoldable pub credential_row : ℕ → NewCredential → Option Text → Credential
  credential_row id new fingerprint = record {
    id = id;
    name = strip new.name;
    description = non_empty (strip (or_else new.description []));
    username = strip new.username;
    auth_type = new.auth_type;
    secret_ciphertext = fernet.encrypts new.secret;
    passphrase_ciphertext = Option.map fernet.encrypts (passphrase_or_none new.passphrase);
    key_fingerprint = fingerprint;
    last_used_at = none;
  }

  unfoldable pub create : NewCredential → Tables → Result ValidationError (Credential × Tables)
  create new t = do
    raise_if (is_empty (strip new.name)) credential_needs_name
    raise_if (is_empty (strip new.username)) credential_needs_username
    raise_if (not (eqb new.auth_type (codes "ssh_key") || eqb new.auth_type (codes "password")))
        bad_auth_type
    raise_if (is_empty new.secret) no_secret
    raise_if (ltb max_secret_bytes (encoded_length new.secret)) secret_too_large
    raise_if (any (has_name (strip new.name)) t.credentials) duplicate_credential
    fingerprint ←
        fingerprint_for lib new.secret (passphrase_or_none new.passphrase)
          (eqb new.auth_type (codes "ssh_key"))
    let row = credential_row t.next_id new fingerprint
    ok (row, record t { next_id = suc t.next_id; credentials = t.credentials ++ row ∷ [] })

unfoldable pub by_name : Credential → Credential → Bool
by_name c d = text_leb c.name d.name

unfoldable pub list_all : Tables → List Credential
list_all t = sort by_name t.credentials

unfoldable pub assigns : ℕ → ℕ → DeviceCredential → Bool
assigns device_id credential_id a = a.device_id == device_id && a.credential_id == credential_id

-- `assign`: whether it changed anything, and the tables.
unfoldable pub assign : ℕ → ℕ → Tables → Bool × Tables
assign device_id credential_id t =
    if any (assigns device_id credential_id) t.assignments then (false, t) else (
      true,
      record t {
        assignments =
            t.assignments ++ record { device_id = device_id; credential_id = credential_id } ∷ [];
      },
    )

-- `unassign`: the pair is unique, so the row that is deleted is each row of the pair.
unfoldable pub unassign : ℕ → ℕ → Tables → Bool × Tables
unassign device_id credential_id t =
    if any (assigns device_id credential_id) t.assignments
    then (
      true,
      record t { assignments = keep (λ a. not (assigns device_id credential_id a)) t.assignments },
    )
    else (false, t)

-- `for_device`: the join has one row for each credential, since a pair is assigned once.
unfoldable pub for_device : ℕ → Tables → List Credential
for_device device_id t =
    sort by_name
      (keep (λ (c : Credential). any (assigns device_id c.id) t.assignments) t.credentials)

-- `session.delete(credential)` with its cascade to the assignments, as `delete_credential` of
-- `app/modules/credentials/routes.py` does.
unfoldable pub delete_credential : ℕ → Tables → Tables
delete_credential credential_id t = record t {
  credentials = keep (λ (c : Credential). not (c.id == credential_id)) t.credentials;
  assignments =
      keep (λ (a : DeviceCredential). not (a.credential_id == credential_id)) t.assignments;
}

unfoldable pub host_keys_for : ℕ → Tables → List SshHostKey
host_keys_for device_id t = keep (λ (k : SshHostKey). k.device_id == device_id) t.host_keys

-- `trusted_key_for`. `scalar` is the row that the database returns first.
unfoldable pub trusted_key_for : (List SshHostKey → Option SshHostKey) → ℕ → Tables → Option Text
trusted_key_for scalar device_id t =
    Option.map (λ (k : SshHostKey). openssh k.key_type k.key_base64)
      (scalar (host_keys_for device_id t))

unfoldable pub of_type : ℕ → Text → SshHostKey → Bool
of_type device_id key_type k = k.device_id == device_id && eqb k.key_type key_type

-- The row of a key that is trusted.
unfoldable pub host_key_row : ℕ → ℕ → PresentedKey → Option ℕ → Option Text → SshHostKey
host_key_row now device_id key user_id username = record {
  device_id = device_id;
  key_type = key.key_type;
  key_base64 = key.key_base64;
  fingerprint = key.fingerprint;
  trusted_at = now;
  trusted_by_user_id = user_id;
  trusted_by_snapshot = username;
}

-- The rows with the first of a type on a device replaced.
unfoldable pub replace : SshHostKey → List SshHostKey → List SshHostKey
replace row [] = []
replace row (k ∷ ks) =
    let rest = replace row ks in if of_type row.device_id row.key_type k then row ∷ ks else k ∷ rest

abbrev trust_over : SshHostKey → Option SshHostKey → Tables → SshHostKey × Tables
trust_over row none t = (row, record t { host_keys = t.host_keys ++ row ∷ [] })
trust_over row (some existing) t =
    if eqb existing.key_base64 row.key_base64
    then (existing, t)
    else (row, record t { host_keys = replace row t.host_keys })

-- `trust`: the row of the key, and the tables.
unfoldable pub trust : ℕ → ℕ → PresentedKey → Option ℕ → Option Text → Tables → SshHostKey × Tables
trust now device_id key user_id username t =
    trust_over (host_key_row now device_id key user_id username)
      (first (of_type device_id key.key_type) t.host_keys) t

-- `revoke_host_key`: how many keys it deleted, and the tables.
unfoldable pub revoke_host_key : ℕ → Tables → ℕ × Tables
revoke_host_key device_id t = (
  length (host_keys_for device_id t),
  record t { host_keys = keep (λ (k : SshHostKey). not (k.device_id == device_id)) t.host_keys },
)
