-- ===== src/Diagnostics/Service/Examples.antt =====
-- The theorems on diagnostics at a device of the local network.
use netops_console.Prelude.{
  ℕ, ◌≡◌, ◌⊎◌, inl, inr, refl, Bool, true, false, ◌&&◌, ◌||◌, not, any, all, Option, none, some,
  List, [], ◌∷◌, Result, ok, err,
}
use netops_console.Prelude.Text.{Text, codes, eqb}
use netops_console.Prelude.Int.{pos}
use netops_console.Net.{Network}
use netops_console.Validation.{Unicode, number}
use netops_console.Validation.Errors.{unknown_diagnostic}
use netops_console.Validation.Examples.{no_ipv6}
use netops_console.Discovery.Inventory.{Device, online}
use netops_console.Diagnostics.Http
use netops_console.Diagnostics.Http.{Web, Request, status_code, HttpCheckResult, check}
use netops_console.Diagnostics.Http.Pinned.{Pinned, check-Pinned}
use netops_console.Diagnostics.Service.{
  command, Caller, CommandKind, invalid, Outside, registry, run_diagnostic,
}
use netops_console.Diagnostics.Service.Record.{
  Recorded, Escaped, InScope, run_diagnostic-Recorded, run_diagnostic-InScope,
}

abbrev unicode : Unicode
unicode = record { lower = λ s. s; idna_encodes = λ s. true }

abbrev web : Web
web = record {
  getaddrinfo = λ host. some (codes "192.168.1.7" ∷ codes "192.168.1.8" ∷ []);
  send = λ q. status_code 200;
}

abbrev o : Outside
o = record {
  ipv6 = no_ipv6;
  unicode = unicode;
  web = web;
  host = record {
    files = record { which = λ n. some n; resolve_file = λ p. some p };
    process = λ argv.
        some (record { timed_out = false; returncode = some (pos 1); stdout = []; stderr = [] });
    engine = record {
      max_concurrent = 4;
      max_discovery_concurrent = 1;
      taken = 0;
      discovery_taken = 0;
    };
    re = record { sub = λ pattern replacement s. s };
    max_output_bytes = 1000;
  };
  started = 100;
  completed = 250;
}

abbrev nas : Device
nas = record {
  id = 7;
  name = some "nas";
  hostname = some "nas.lan";
  ip_address = "192.168.1.7";
  mac_address = none;
  vendor = none;
  device_type = none;
  status = online;
  first_seen = 5;
  last_seen = 5;
  notes = none;
  is_deleted = false;
  deleted_at = none;
}

abbrev lan : List Network
lan = record { base = 0xC0A80100; prefix_len = 24 } ∷ []

abbrev admin : Caller
admin = record { user_id = some 1; username = some (codes "admin"); client_ip = none }

run_diagnostic-Recorded_example :
    let done = run_diagnostic o (codes "dns") nas none none lan admin [] in
    ((registry (codes "dns") ≡ none)
      × (done.result ≡ err (invalid unknown_diagnostic))
      × (done.results ≡ []))
    ⊎ Recorded o [] done
    ⊎ ((k : CommandKind) × (registry (codes "dns") ≡ some (command k))) × Escaped [] done
unfolding registry eqb
run_diagnostic-Recorded_example =
    run_diagnostic-Recorded o (codes "dns") nas none none lan admin [] (λ h. cc)

run_diagnostic-InScope_example :
    ((run_diagnostic o (codes "tcp") nas (some (pos 22)) none lan admin []).spawned ≡ [])
      × ((run_diagnostic o (codes "tcp") nas (some (pos 22)) none lan admin []).requests ≡ [])
    ⊎ InScope o nas lan
run_diagnostic-InScope_example =
    run_diagnostic-InScope o (codes "tcp") nas (some (pos 22)) none lan admin []

abbrev request : Request
request = record { scheme = codes "https"; address = 0xC0A80107; port = 443 }

abbrev fetched : HttpCheckResult
fetched = record { is_ok = true; status_code = some 200 }

fetches :
    check unicode web (codes "nas.lan") (number (pos 443)) (codes "https") lan
    ≡ ok (request, fetched)
unfolding check Http.validate_target any eqb netops_console.Validation.validate_port
    Http.checked_host netops_console.Net.Parse.ipv4_of_text netops_console.Prelude.Text.split
    netops_console.Validation.validate_hostname netops_console.Prelude.Text.strip all
    netops_console.Validation.drop_dot netops_console.Validation.hostname_label
    netops_console.Prelude.Text.matches_line netops_console.Validation.is_label
    netops_console.Validation.is_alnum netops_console.Prelude.Text.is_alpha
    netops_console.Validation.last_is_alnum Http.resolve Http.all_allowed Http.first_address
    Http.good Http.code_of Http.ipv4_addresses Http.some_addresses netops_console.Net.Parse.octet
    netops_console.Net.contains netops_console.Net.num_addresses netops_console.Prelude.Text.chomp
    netops_console.Prelude.Text.int_of_text netops_console.Prelude.Text.is_digit
    netops_console.Prelude.Text.is_number netops_console.Prelude.Text.is_space
    netops_console.Prelude.Text.lstrip netops_console.Prelude.Text.number_from
    netops_console.Validation.address_in_allowlist netops_console.Validation.is_blocked
fetches = refl

check-Pinned_example :
    Pinned unicode web (codes "nas.lan") (number (pos 443)) (codes "https") lan request fetched
check-Pinned_example =
    check-Pinned unicode web (codes "nas.lan") (number (pos 443)) (codes "https") lan request
      fetched fetches
