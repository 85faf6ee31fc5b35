-- ===== src/Credentials/Review/Examples.antt =====
-- The theorem on the review of host keys at a device that presents the key that was reviewed.
use netops_console.Prelude.{◌≡◌, ◌⊎◌, false, none, some, [], ◌∷◌, List}
use netops_console.Prelude.Text.{codes}
use netops_console.Net.{Network}
use netops_console.Validation.Examples.{no_ipv6}
use netops_console.Discovery.Inventory.{Device, online}
use netops_console.Ssh.{Asyncssh, host_key, imported, SshKey, timed_out}
use netops_console.Credentials.{Tables}
use netops_console.Credentials.Review.{Operator, trust_host_key, Reviewed, trust_host_key-Reviewed}

abbrev device_key : SshKey
device_key = record {
  export_public_key = codes "ssh-ed25519 AAAA";
  get_fingerprint = codes "SHA256:a";
}

abbrev lib : Asyncssh
lib = record {
  get_server_host_key = λ host port. host_key device_key;
  import_public_key = λ text. some device_key;
  import_private_key = λ material passphrase. imported device_key;
  encryption_is_import = false;
  connect = λ host port options command. timed_out;
  decode = λ bytes. bytes;
}

abbrev nas : Device
nas = record {
  id = 7;
  name = none;
  hostname = none;
  ip_address = "192.168.1.7";
  mac_address = none;
  vendor = none;
  device_type = none;
  status = online;
  first_seen = 5;
  last_seen = 5;
  notes = none;
  is_deleted = false;
  deleted_at = none;
}

abbrev lan : List Network
lan = record { base = 0xC0A80100; prefix_len = 24 } ∷ []

abbrev admin : Operator
admin = record { now = 9; user_id = some 1; username = some (codes "admin") }

abbrev empty : Tables
empty = record { next_id = 1; credentials = []; assignments = []; host_keys = [] }

trust_host_key-Reviewed_example :
    ((trust_host_key lib no_ipv6 lan admin (some nas) (codes "SHA256:a") empty).1 ≡ empty)
    ⊎ Reviewed lib no_ipv6 lan admin nas
        (codes "SHA256:a")
        empty
        (trust_host_key lib no_ipv6 lan admin (some nas) (codes "SHA256:a") empty).1
trust_host_key-Reviewed_example =
    trust_host_key-Reviewed lib no_ipv6 lan admin nas (codes "SHA256:a") empty
