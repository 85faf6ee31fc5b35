-- ===== src/History/Compare/Examples.antt =====
-- The theorem on comparisons at two scans of a network with a host that left and one that came.
use netops_console.Prelude.{ℕ, ◌≡◌, refl, true, false, none, some, List, [], ◌∷◌, String}
use netops_console.Net.{Network}
use netops_console.Validation.Examples.{no_ipv6}
use netops_console.Discovery.Inventory.{Run, success, accepted}
use netops_console.History.Compare
use netops_console.History.Compare.{Row, Ipv6Lib, hosts, has_host_results, compare_runs}
use netops_console.History.Compare.Partition.{Divided, compare_runs-Divided}

abbrev lib : Ipv6Lib
lib = record { parse = no_ipv6; within = λ a n. false; packed = λ a. [] }

abbrev lan : Network
lan = record { base = 0xC0A80100; prefix_len = 24 }

abbrev scan : ℕ → Run
scan id = record {
  id = id;
  subnet = accepted lan;
  status = success;
  scanned_ports = some false;
  devices_found = 2;
  devices_new = 0;
}

abbrev row_of : ℕ → ℕ → String → Row
row_of run_id device address = record {
  device_id = some device;
  seen = record {
    run_id = run_id;
    device_id = device;
    present = true;
    ip_address = address;
    mac_address = none;
    hostname = none;
    vendor = none;
    ports = none;
    observed_at = run_id;
  };
}

abbrev earlier : List Row
earlier = row_of 1 7 "192.168.1.7" ∷ row_of 1 8 "192.168.1.8" ∷ []

abbrev later : List Row
later = row_of 2 7 "192.168.1.17" ∷ row_of 2 9 "192.168.1.9" ∷ []

results : (id : ℕ) → has_host_results (scan id) 2 ≡ true
unfolding has_host_results Compare.is_success
results id = refl

compare_runs-Divided_example :
    Divided lib
      (scan 2)
      (compare_runs lib (scan 1) (scan 2) earlier later)
      (hosts earlier)
      (hosts later)
compare_runs-Divided_example =
    compare_runs-Divided lib (scan 1) (scan 2) earlier later (results 1) (results 2)
