-- ===== src/Actions/Execute/Examples.antt =====
-- The theorems on runs at an SSH action on a device whose host key is trusted.
use netops_console.Prelude.{
  ℕ, ◌≡◌, ◌⊎◌, inl, inr, refl, Bool, true, false, Option, none, some, List, [], ◌∷◌, any, head?,
  Result, ok, All,
}
use netops_console.Prelude.Text.{Text, codes}
use netops_console.Prelude.Int.{pos}
use netops_console.Net.{Network}
use netops_console.Validation.Examples.{no_ipv6}
use netops_console.Discovery.Inventory.{Device, online}
use netops_console.Ssh.{imported, host_key, SshKey, completed, raw, nothing}
use netops_console.Ssh.Offers.{Verified}
use netops_console.Credentials.{trusted_key_for}
use netops_console.Actions.Schema
use netops_console.Actions.Schema.Command
use netops_console.Actions.Schema.{ssh, no_members, parse_schema}
use netops_console.Actions.Schema.Command.{validate_template}
use netops_console.Actions.Runs.{ActionDefinition}
use netops_console.Actions.Execute.{Caller, Outside, World, execute}
use netops_console.Actions.Execute.Record.{Recorded, Escaped, execute-Recorded}
use netops_console.Actions.Execute.Scope.{InScope, execute-InScope, execute-Verified}

abbrev device_key : SshKey
device_key = record {
  export_public_key = codes "ssh-ed25519 AAAA";
  get_fingerprint = codes "SHA256:a";
}

abbrev o : Outside
o = record {
  regex = record { compiles = λ p. true; fullmatch = λ p t. true };
  ipv6 = no_ipv6;
  lower = λ s. s;
  host = record {
    files = record { which = λ n. some n; resolve_file = λ p. some p };
    process = λ argv.
        some (record { timed_out = false; returncode = some (pos 0); stdout = []; stderr = [] });
    engine = record {
      max_concurrent = 4;
      max_discovery_concurrent = 1;
      taken = 0;
      discovery_taken = 0;
    };
    re = record { sub = λ pattern replacement s. s };
    max_output_bytes = 1000;
  };
  asyncssh = record {
    get_server_host_key = λ host port. host_key device_key;
    import_public_key = λ text. some device_key;
    import_private_key = λ material passphrase. imported device_key;
    encryption_is_import = false;
    connect =
        λ host port options command. completed (some (pos 0)) (raw (codes "up 3 days")) nothing;
    decode = λ bytes. bytes;
  };
  fernet = record { encrypts = λ text. text; decrypts = λ bytes. some bytes };
  scalar = head?;
  started = 100;
  completed = 250;
}

abbrev uptime : ActionDefinition
uptime = record {
  id = 1;
  name = codes "uptime";
  execution_type = ssh;
  argv_template = codes "uptime" ∷ [];
  param_schema = no_members;
  timeout_seconds = 30;
  enabled = true;
  applicable_types = [];
}

abbrev nas : Device
nas = record {
  id = 7;
  name = some "nas";
  hostname = none;
  ip_address = "192.168.1.7";
  mac_address = none;
  vendor = none;
  device_type = none;
  status = online;
  first_seen = 5;
  last_seen = 5;
  notes = none;
  is_deleted = false;
  deleted_at = none;
}

abbrev world : World
world = record {
  credentials = record {
    next_id = 2;
    credentials =
        record {
          id = 1;
          name = codes "root";
          description = none;
          username = codes "root";
          auth_type = codes "ssh_key";
          secret_ciphertext = codes "KEY";
          passphrase_ciphertext = none;
          key_fingerprint = some (codes "SHA256:k");
          last_used_at = none;
        }
        ∷ [];
    assignments = record { device_id = 7; credential_id = 1 } ∷ [];
    host_keys =
        record {
          device_id = 7;
          key_type = codes "ssh-ed25519";
          key_base64 = codes "AAAA";
          fingerprint = codes "SHA256:a";
          trusted_at = 1;
          trusted_by_user_id = none;
          trusted_by_snapshot = none;
        }
        ∷ [];
  };
  executions = [];
}

abbrev lan : List Network
lan = record { base = 0xC0A80100; prefix_len = 24 } ∷ []

abbrev admin : Caller
admin = record { user_id = some 1; username = some (codes "admin"); client_ip = none }

no_params : parse_schema o.regex ssh no_members ≡ ok []
unfolding parse_schema Schema.count_members Schema.parse_params
no_params = refl

uptime_checked : validate_template o.host.files uptime.argv_template [] ssh ≡ ok tt
unfolding validate_template Command.program_of Command.used_names Command.splices Schema.embedded
    Schema.placeholder Schema.braced netops_console.Prelude.Text.chomp any
uptime_checked = refl

execute-Recorded_example :
    Recorded o world (execute o uptime nas [] lan admin world)
    ⊎ Escaped ssh world (execute o uptime nas [] lan admin world)
execute-Recorded_example =
    execute-Recorded o uptime nas [] lan admin world [] no_params uptime_checked

execute-InScope_example :
    ((execute o uptime nas [] lan admin world).spawned ≡ [])
      × ((execute o uptime nas [] lan admin world).contacts ≡ [])
    ⊎ InScope o uptime nas lan
execute-InScope_example = execute-InScope o uptime nas [] lan admin world

execute-Verified_example :
    All
      (Verified o.asyncssh (trusted_key_for head? 7 world.credentials))
      (execute o uptime nas [] lan admin world).contacts
execute-Verified_example = execute-Verified o uptime nas [] lan admin world
