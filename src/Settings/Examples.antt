-- ===== src/Settings/Examples.antt =====
-- The theorems on settings at a concrete form.
use netops_console.Prelude.{◌≤◌, ◌≡◌, refl, true, false, none, some, [], ◌∷◌, ok}
use netops_console.Prelude.Text
use netops_console.Prelude.Text.{codes}
use netops_console.Net.{num_addresses}
use netops_console.Validation.{is_private, is_blocked}
use netops_console.Validation.Examples.{no_ipv6, lan, parsing, lan_scans, lan_holds}
use netops_console.Settings
use netops_console.Settings.{
  AppSettings, Stored, Form, save, load, parse_cidr_list, History, prune_history, total,
}
use netops_console.Settings.Reach.{save-in_scope}

abbrev form : Form
form = record {
  allowed_cidrs_raw = codes "192.168.1.0/24, 192.168.1.0/24";
  max_scan_hosts = codes " 256";
  max_concurrent_scans = codes "1";
  max_concurrent_executions = codes "4";
  retention_days = codes "90";
  strict_host_keys = true;
}

abbrev empty : Stored
empty = record {
  allowed_cidrs = none;
  max_scan_hosts = none;
  max_concurrent_scans = none;
  max_concurrent_executions = none;
  retention_days = none;
  strict_host_keys = none;
}

abbrev settings : AppSettings
settings = record {
  allowed_cidrs = lan ∷ [];
  max_scan_hosts = 256;
  max_concurrent_scans = 1;
  max_concurrent_executions = 4;
  retention_days = 90;
  strict_host_keys = true;
}

abbrev after : Stored
after = record {
  allowed_cidrs = some (lan ∷ []);
  max_scan_hosts = some 256;
  max_concurrent_scans = some 1;
  max_concurrent_executions = some 4;
  retention_days = some 90;
  strict_host_keys = some true;
}

saves : save no_ipv6 settings form empty ≡ ok (settings, after)
unfolding parsing save parse_cidr_list Settings.split_entries Settings.ends_entry Settings.strip_all
    Settings.add_entries Settings.add_network Settings.same_network Settings.bounded
    Settings.bounded_int load Text.int_of_text
saves = refl

save-in_scope_example :
    (is_private 0xC0A80107 ≡ true) × (is_blocked 0xC0A80107 ≡ false) × (num_addresses lan ≤ 65536)
save-in_scope_example =
    save-in_scope no_ipv6 settings form empty after settings (codes "192.168.1.0/24") lan 0xC0A80107
      saves lan_scans lan_holds

-- Two rows of different age.
abbrev rows : History
rows = record { diagnostics = 0 ∷ 200000000 ∷ []; actions = []; observations = 5 ∷ [] }
