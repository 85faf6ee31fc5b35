-- ===== src/Ssh.antt =====
-- `app/modules/ssh/client.py`: one command on a device whose host key an operator has trusted. Each
-- function returns what it did on the network, beside its result.
pub mod Offers
use mathlib.Core.Option
use netops_console.Prelude.{
  ℕ, Bool, true, false, not, ◌&&◌, Option, none, some, List, [], ◌∷◌, ◌++◌, map, is_empty, or_else,
  if◌then◌else◌, Result, ok, err, ◌>>=◌, ◌>>◌, or_raise,
}
use netops_console.Prelude.Int.{ℤ}
use netops_console.Prelude.Text.{Text, codes, eqb, is_space, strip}
use netops_console.Crypto.{Bytes, Fernet, CryptoError, empty_secret, decryption_error, decrypt}

-- `PresentedKey`
pub record PresentedKey : Type 0 where
  pub key_type : Text
  pub key_base64 : Text
  pub fingerprint : Text

-- `f"{key_type} {key_base64}"`
unfoldable pub openssh : Text → Text → Text
openssh key_type key_base64 = key_type ++ 32 ∷ key_base64

-- `asyncssh.SSHKey`, by its two methods in use.
pub record SshKey : Type 0 where
  pub export_public_key : Text
  pub get_fingerprint : Text

-- What `asyncssh.get_server_host_key` ends in within the time limit.
pub data KeyExchange : Type 0 where
  host_key : SshKey → KeyExchange
  no_key exchange_timed_out exchange_failed : KeyExchange

-- What `asyncssh.import_private_key` ends in: a key, `KeyEncryptionError` or `KeyImportError`.
pub data KeyImport : Type 0 where
  imported : SshKey → KeyImport
  encryption_error import_error : KeyImport

-- An output stream of a finished command.
pub data Stream : Type 0 where
  raw : Bytes → Stream
  string : Text → Stream
  nothing : Stream

-- What `asyncssh.connect` and `run` end in.
pub data Connection : Type 0 where
  completed : Option ℤ → Stream → Stream → Connection
  host_key_not_verifiable permission_denied timed_out connection_failed : Connection

-- The keyword arguments of `asyncssh.connect`: `known_hosts` answers with the one key.
pub record Options : Type 0 where
  pub username : Text
  pub known_hosts : SshKey
  pub password : Option Text
  pub client_keys : List SshKey

-- The asyncssh library and the network behind it. `encryption_is_import` says whether a
-- `KeyEncryptionError` is a `KeyImportError`.
pub record Asyncssh : Type 0 where
  pub get_server_host_key : Text → ℕ → KeyExchange
  pub import_public_key : Text → Option SshKey
  pub import_private_key : Text → Option Text → KeyImport
  pub encryption_is_import : Bool
  pub connect : Text → ℕ → Options → Text → Connection
  pub decode : Bytes → Text

-- The messages of `SshError`.
pub data SshProblem : Type 0 where
  no_response key_exchange_failed no_host_key : SshProblem
  stored_key_unreadable authentication_failed command_timed_out cannot_connect : SshProblem

-- The exceptions of `run_command`. The first three are `SshError`s.
pub data Raised : Type 0 where
  ssh_error : SshProblem → Raised
  unknown_host_key : PresentedKey → Raised
  host_key_changed : Text → Option PresentedKey → Raised
  crypto_error : CryptoError → Raised
  key_encryption_error key_import_error : Raised

-- What the client does on the network.
pub data Contact : Type 0 where
  probed : Text → ℕ → Contact
  connected : Text → ℕ → Options → Text → Contact

-- `SshResult`
pub record SshResult : Type 0 where
  pub exit_status : Option ℤ
  pub stdout : Text
  pub stderr : Text

abbrev add_letter : ℕ → List Text → List Text
add_letter c [] = (c ∷ []) ∷ []
add_letter c (w ∷ ws) = (c ∷ w) ∷ ws

-- `str.split()`
unfoldable pub words : Text → List Text
words [] = []
words (c ∷ []) = if is_space c then [] else (c ∷ []) ∷ []
words (c ∷ d ∷ s) =
    let rest = words (d ∷ s) in
    if is_space c then rest else if is_space d then (c ∷ []) ∷ rest else add_letter c rest

abbrev second : List Text → Text
second [] = []
second (w ∷ []) = []
second (w ∷ v ∷ ws) = v

abbrev first_or : Text → List Text → Text
first_or default [] = default
first_or default (w ∷ ws) = w

unfoldable pub describe_key : SshKey → PresentedKey
unfolding words
describe_key key =
    let parts = words (strip key.export_public_key) in
    record {
      key_type = first_or (codes "unknown") parts;
      key_base64 = second parts;
      fingerprint = key.get_fingerprint;
    }

-- `str(value or "")`, and the decoded bytes.
unfoldable pub as_text : (Bytes → Text) → Stream → Text
as_text decode (raw bytes) = decode bytes
as_text decode (string text) = text
as_text decode nothing = []

abbrev lift : Result CryptoError Text → Result Raised Text
lift (ok text) = ok text
lift (err e) = err (crypto_error e)

-- The login that a credential asks for.
pub record Login : Type 0 where
  pub username : Text
  pub auth_type : Text
  pub secret_ciphertext : Bytes
  pub passphrase_ciphertext : Option Bytes

module _ (fernet : Fernet) where
  -- `decrypt(passphrase_ciphertext) if passphrase_ciphertext else None`
  unfoldable pub decrypt_passphrase : Option Bytes → Result Raised (Option Text)
  decrypt_passphrase none = ok none
  decrypt_passphrase (some []) = ok none
  decrypt_passphrase (some (b ∷ bs)) = do
    passphrase ← lift (decrypt fernet (b ∷ bs))
    ok (some passphrase)

module _ (lib : Asyncssh) where
  unfoldable pub presented : KeyExchange → Result Raised PresentedKey
  presented (host_key key) = ok (describe_key key)
  presented no_key = err (ssh_error no_host_key)
  presented exchange_timed_out = err (ssh_error no_response)
  presented exchange_failed = err (ssh_error key_exchange_failed)

  -- `probe_host_key`
  unfoldable pub probe_host_key : Text → ℕ → List Contact × Result Raised PresentedKey
  probe_host_key host port = (probed host port ∷ [], presented (lib.get_server_host_key host port))

  unfoldable pub client_key : KeyImport → Result Raised SshKey
  client_key (imported key) = ok key
  client_key encryption_error =
      err
        (if lib.encryption_is_import then ssh_error stored_key_unreadable else key_encryption_error)
  client_key import_error = err (ssh_error stored_key_unreadable)

  -- The options for a login whose secret has been decrypted.
  unfoldable pub options_for : SshKey → Login → Text → Option Text → Bool → Result Raised Options
  options_for known login secret passphrase true = do
    key ← client_key (lib.import_private_key secret passphrase)
    ok (record {
      username = login.username;
      known_hosts = known;
      password = none;
      client_keys = key ∷ [];
    })
  options_for known login secret passphrase false = ok (record {
    username = login.username;
    known_hosts = known;
    password = some secret;
    client_keys = [];
  })

  -- The options of the connection, for a trusted key.
  unfoldable pub options : Fernet → Login → Text → Result Raised Options
  options fernet login trusted = do
    known ← or_raise (lib.import_public_key trusted) key_import_error
    secret ← lift (decrypt fernet login.secret_ciphertext)
    passphrase ← decrypt_passphrase fernet login.passphrase_ciphertext
    options_for known login secret passphrase (eqb login.auth_type (codes "ssh_key"))

  -- `_fingerprint_of`
  unfoldable pub fingerprint_of : Text → Text
  fingerprint_of trusted = elim (lib.import_public_key trusted) [
    | none ↦ codes "(stored key unreadable)"
    | some key ↦ key.get_fingerprint
  ]

  abbrev key_of : Result Raised PresentedKey → Option PresentedKey
  key_of (ok key) = some key
  key_of (err e) = none

  -- The end of a connection that was attempted.
  unfoldable pub outcome : Text → ℕ → Text → Connection → List Contact × Result Raised SshResult
  outcome host port trusted (completed status out errors) = (
    [],
    ok (record {
      exit_status = status;
      stdout = as_text lib.decode out;
      stderr = as_text lib.decode errors;
    }),
  )
  outcome host port trusted host_key_not_verifiable =
      let (contacts, answer) = probe_host_key host port in
      (contacts, err (host_key_changed (fingerprint_of trusted) (key_of answer)))
  outcome host port trusted permission_denied = ([], err (ssh_error authentication_failed))
  outcome host port trusted timed_out = ([], err (ssh_error command_timed_out))
  outcome host port trusted connection_failed = ([], err (ssh_error cannot_connect))

  abbrev connect_with :
      Text → ℕ → Text → Text → Result Raised Options → List Contact × Result Raised SshResult
  connect_with host port command trusted (err e) = ([], err e)
  connect_with host port command trusted (ok o) =
      let (contacts, result) = outcome host port trusted (lib.connect host port o command) in
      (connected host port o command ∷ contacts, result)

  abbrev refuse : List Contact × Result Raised PresentedKey → List Contact × Result Raised SshResult
  refuse (contacts, err e) = (contacts, err e)
  refuse (contacts, ok key) = (contacts, err (unknown_host_key key))

  -- `run_command`; the limits on time are the library's.
  unfoldable pub run_command :
      Fernet → Text → ℕ → Text → Login → Option Text → List Contact × Result Raised SshResult
  run_command fernet host port command login none = refuse (probe_host_key host port)
  run_command fernet host port command login (some trusted) =
      connect_with host port command trusted (options fernet login trusted)
