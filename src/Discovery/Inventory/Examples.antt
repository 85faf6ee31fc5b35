-- ===== src/Discovery/Inventory/Examples.antt =====
-- The theorems on merging a scan at a concrete inventory.
use netops_console.Prelude.{
  ℕ, eq_iff, ◌≡◌, true, false, none, some, List, [], ◌∷◌, ◌++◌, map, length, arith,
}
use netops_console.Net.{Network}
use netops_console.Discovery.Inventory.{
  Device, accepted, online, ParsedHost, Tables, Run, running, reconcile,
}
use netops_console.Discovery.Inventory.Identity.{key, keys, Distinct, reconcile-Distinct}
use netops_console.Discovery.Inventory.Rescan.{timed, reconcile-again}
use netops_console.Discovery.Inventory.Kept.{Kept, kept, reconcile-kept}

abbrev lan : Network
lan = record { base = 0xC0A80100; prefix_len = 24 }

abbrev printer : Device
printer = record {
  id = 1;
  name = some "printer";
  hostname = none;
  ip_address = "192.168.1.7";
  mac_address = none;
  vendor = none;
  device_type = none;
  status = online;
  first_seen = 5;
  last_seen = 5;
  notes = some "second floor";
  is_deleted = false;
  deleted_at = none;
}

-- The printer from layer 2, and a host that is new.
abbrev host_7 : ParsedHost
host_7 = record {
  ip_address = "192.168.1.7";
  mac_address = some "AA:00";
  vendor = none;
  hostname = none;
  is_up = true;
  ports = [];
}

abbrev host_8 : ParsedHost
host_8 = record {
  ip_address = "192.168.1.8";
  mac_address = none;
  vendor = none;
  hostname = some "nas";
  is_up = true;
  ports = [];
}

abbrev pub tables : Tables
tables = record { devices = printer ∷ []; ports = []; observations = []; next_id = 2 }

abbrev scan : Run
scan = record {
  id = 1;
  subnet = accepted lan;
  status = running;
  scanned_ports = some true;
  devices_found = 0;
  devices_new = 0;
}

abbrev hosts : List ParsedHost
hosts = host_7 ∷ host_8 ∷ []

abbrev pub at : ℕ → List (ParsedHost × ℕ)
at now = timed (λ h. now) hosts

reconcile-Distinct_example :
    Distinct (keys (reconcile (some scan) (some lan) (some 20) 21 (at 22) tables).0.devices)
unfolding keys key
reconcile-Distinct_example =
    reconcile-Distinct (some scan) (some lan) (some 20) 21 (at 22) tables
      (ground (arith, eq_iff "AA:00" ""), (ground arith, tt)) (tt, tt)

reconcile-again_example :
    (reconcile none
      (some lan)
      (some 30)
      31
      (at 32)
      (reconcile (some scan) (some lan) (some 20) 21 (at 22) tables).0).2
    ≡ 0
reconcile-again_example =
    reconcile-again (some scan) none (some lan) (some 20) (some 30) 21 31 (λ h. 22) (λ h. 32) hosts
      tables (ground (arith, eq_iff "AA:00" ""), (ground arith, tt))
      ((ground (arith, eq_iff "192.168.1.7" "192.168.1.8"), tt), (tt, tt))

reconcile-kept_example :
    let (after, found, created) = reconcile (some scan) (some lan) (some 20) 21 (at 22) tables in
    (extra : List Kept) × (map kept after.devices ≡ map kept (printer ∷ []) ++ extra)
    × (length extra ≡ created)
reconcile-kept_example = reconcile-kept (some scan) (some lan) (some 20) 21 (at 22) tables
