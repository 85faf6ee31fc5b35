-- ===== src/Credentials/Examples.antt =====
-- The theorems on credentials and host keys at a table with one device.
use netops_console.Prelude.{
  ℕ, suc, ◌≡◌, ◌≢◌, refl, Bool, true, false, ◌&&◌, not, Option, none, some, List, [], ◌∷◌, ◌++◌,
  ◌==◌, if◌then◌else◌, first, any, keep, head?, Result, ok, arith, All,
}
use netops_console.Prelude.Text.{Text, codes, eqb, eqb_iff}
use netops_console.Crypto.{Fernet}
use netops_console.Ssh.{Asyncssh, imported, no_key, timed_out, PresentedKey, openssh}
use netops_console.Credentials
use netops_console.Credentials.{
  Credential, SshHostKey, Tables, NewCredential, create, assign, unassign, trust, revoke_host_key,
  trusted_key_for,
}
use netops_console.Credentials.Unique.{WellFormed, stored}
use netops_console.Credentials.Reach.{Step, Reach, Reach-WellFormed}
use netops_console.Credentials.Trust.{key_at, key_at-trust}
use netops_console.Credentials.Required.{ReturnsRow, trusted_key_for-trust}
use netops_console.Credentials.Assign.{assigned, unassign-assign}

abbrev lib : Asyncssh
lib = record {
  get_server_host_key = λ host port. no_key;
  import_public_key = λ text. none;
  import_private_key = λ material passphrase.
      imported (record { export_public_key = []; get_fingerprint = codes "SHA256:k" });
  encryption_is_import = false;
  connect = λ host port options command. timed_out;
  decode = λ bytes. bytes;
}

abbrev fernet : Fernet
fernet = record { encrypts = λ text. 0 ∷ text; decrypts = λ bytes. none }

abbrev empty : Tables
empty = record { next_id = 1; credentials = []; assignments = []; host_keys = [] }

abbrev root : NewCredential
root = record {
  name = codes " root ";
  username = codes "root";
  auth_type = codes "ssh_key";
  secret = codes "KEY";
  passphrase = none;
  description = none;
}

abbrev row : Credential
row = record {
  id = 1;
  name = codes "root";
  description = none;
  username = codes "root";
  auth_type = codes "ssh_key";
  secret_ciphertext = 0 ∷ codes "KEY";
  passphrase_ciphertext = none;
  key_fingerprint = some (codes "SHA256:k");
  last_used_at = none;
}

abbrev one : Tables
one = record { next_id = 2; credentials = row ∷ []; assignments = []; host_keys = [] }

root_stored : create lib fernet root empty ≡ ok (row, one)
unfolding create Credentials.credential_row netops_console.Prelude.Text.strip
    netops_console.Prelude.Text.lstrip netops_console.Prelude.Text.is_space eqb
    Credentials.encoded_length Credentials.utf8_length any Credentials.fingerprint_for
    Credentials.inspected Credentials.non_empty
root_stored = refl

abbrev key : PresentedKey
key = record {
  key_type = codes "ssh-ed25519";
  key_base64 = codes "AAAA";
  fingerprint = codes "SHA256:a";
}

abbrev assigned_one : Tables
assigned_one = (assign 7 1 one).1

one_stored : stored one.credentials 1 ≡ true
unfolding any
one_stored = refl

reached : Reach lib fernet (trust 5 7 key (some 1) (some (codes "admin")) assigned_one).1
reached =
    Reach.next
      (Reach.next (Reach.next Reach.here (Step.created empty one root row root_stored))
        (Step.assigned one 7 1 one_stored))
      (Step.trusted assigned_one 5 7 key (some 1) (some (codes "admin")))

Reach-WellFormed_example : WellFormed (trust 5 7 key (some 1) (some (codes "admin")) assigned_one).1
Reach-WellFormed_example = Reach-WellFormed lib fernet reached

key_at-trust_example : key_at 7 (codes "ssh-ed25519") (trust 5 7 key none none one).1.host_keys ≡ (
    if 7 == 7 && eqb key.key_type (codes "ssh-ed25519")
    then some key.key_base64
    else key_at 7 (codes "ssh-ed25519") one.host_keys)
key_at-trust_example = key_at-trust 5 7 key none none one 7 (codes "ssh-ed25519")

head_all :
    (P : SshHostKey → Type 0) (ks : List SshHostKey) (k : SshHostKey)
    → All P ks
    → head? ks ≡ some k
    → P k
head_all P [] k h e = cc
head_all P (x ∷ ks) k h e = let same : x ≡ k = ground arith in rw (← same) h.0

head_none : (ks : List SshHostKey) → head? ks ≡ none → ks ≡ []
head_none [] e = refl
head_none (x ∷ ks) e = cc

head-ReturnsRow : ReturnsRow head?
head-ReturnsRow = record { returns = head_none; among = head_all }

empty_key_at : (key_type : Text) → key_type ≢ key.key_type → key_at 7 key_type one.host_keys ≡ none
unfolding key_at first
empty_key_at key_type h = refl

one-WellFormed : WellFormed one
unfolding any
one-WellFormed =
    Reach-WellFormed lib fernet
      (Reach.next Reach.here (Step.created empty one root row root_stored))

trusted_key_for-trust_example :
    trusted_key_for head? 7 (trust 5 7 key none none one).1
    ≡ some (openssh key.key_type key.key_base64)
trusted_key_for-trust_example =
    trusted_key_for-trust head? head-ReturnsRow 5 7 key none none one one-WellFormed empty_key_at

not_assigned : assigned 7 1 one ≡ false
unfolding any
not_assigned = refl

unassign-assign_example : unassign 7 1 (assign 7 1 one).1 ≡ (true, one)
unassign-assign_example = unassign-assign 7 1 one not_assigned
