-- ===== src/History/Timeline/Examples.antt =====
-- The theorem on timelines at a device that was scanned once.
use netops_console.Prelude.{true, false, none, some, [], ◌∷◌}
use netops_console.Discovery.Inventory.{Device, online, Observation}
use netops_console.History.Timeline.{Sources}

abbrev nas : Device
nas = record {
  id = 7;
  name = some "nas";
  hostname = none;
  ip_address = "192.168.1.7";
  mac_address = none;
  vendor = none;
  device_type = none;
  status = online;
  first_seen = 5;
  last_seen = 5;
  notes = none;
  is_deleted = false;
  deleted_at = none;
}

abbrev once : Observation
once = record {
  run_id = 1;
  device_id = 7;
  present = true;
  ip_address = "192.168.1.7";
  mac_address = none;
  hostname = none;
  vendor = none;
  ports = none;
  observed_at = 5;
}

abbrev sources : Sources
sources = record {
  observations = once ∷ [];
  diagnostics = [];
  executions = [];
  changes = [];
  actor = λ run_id. none;
}
