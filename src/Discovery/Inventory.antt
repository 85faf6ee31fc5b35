-- ===== src/Discovery/Inventory.antt =====
-- The merge of `app/modules/discovery/service.py`, over the tables of `app/models/device.py` and
-- `app/models/discovery.py`. A table is a list of rows in the order of their keys, and a query for
-- one row takes the first. Times are in milliseconds.
pub mod Identity
pub mod Rescan
pub mod Absence
pub mod Kept
pub mod Examples
use netops_console.Prelude.{
  ℕ, zero, suc, ◌+◌, String, Bool, true, false, not, ◌&&◌, ◌||◌, Option, none, some, List, [], ◌∷◌,
  ◌++◌, map, any, first, keep, length, is_empty, is_some, or_else, truthy, ltb, ◌==◌, str_eq,
  if◌then◌else◌,
}
use netops_console.Prelude.Text.{Text, codes}
use netops_console.Net.{Network, contains}
use netops_console.Net.Parse.{ipv4_of_text}

pub data DeviceStatus : Type 0 where
  online offline unknown warning : DeviceStatus

-- `Device`
pub record Device : Type 0 where
  pub id : ℕ
  pub name : Option String
  pub hostname : Option String
  pub ip_address : String
  pub mac_address : Option String
  pub vendor : Option String
  pub device_type : Option String
  pub status : DeviceStatus
  pub first_seen : ℕ
  pub last_seen : ℕ
  pub notes : Option String
  pub is_deleted : Bool
  pub deleted_at : Option ℕ

pub data Protocol : Type 0 where
  tcp udp : Protocol

pub data PortState : Type 0 where
  open_port filtered closed : PortState

-- `ParsedPort`, `ParsedHost`
pub record ParsedPort : Type 0 where
  pub port : ℕ
  pub protocol : Protocol
  pub state : PortState
  pub service : Option String

pub record ParsedHost : Type 0 where
  pub ip_address : String
  pub mac_address : Option String
  pub vendor : Option String
  pub hostname : Option String
  pub is_up : Bool
  pub ports : List ParsedPort

-- `DevicePort`
pub record DevicePort : Type 0 where
  pub device_id : ℕ
  pub port : ℕ
  pub protocol : Protocol
  pub state : PortState
  pub service : Option String
  pub last_seen : ℕ

-- `DiscoveryObservation`; `ports` is `none` when the scan did not check them.
pub record Observation : Type 0 where
  pub run_id : ℕ
  pub device_id : ℕ
  pub present : Bool
  pub ip_address : String
  pub mac_address : Option String
  pub hostname : Option String
  pub vendor : Option String
  pub ports : Option (List ParsedPort)
  pub observed_at : ℕ

pub record Tables : Type 0 where
  pub devices : List Device
  pub ports : List DevicePort
  pub observations : List Observation
  pub next_id : ℕ

-- `Device.mac_address == host.mac_address`, where the scan saw one.
unfoldable pub matches_mac : ParsedHost → Device → Bool
matches_mac host d = elim (truthy host.mac_address) [
  | none ↦ false
  | some m ↦ elim d.mac_address [ none ↦ false | some n ↦ str_eq n m ]
]

-- The address of a record that has no MAC address of its own.
unfoldable pub matches_ip : ParsedHost → Device → Bool
matches_ip host d = str_eq d.ip_address host.ip_address && not (is_some d.mac_address)

-- What the scan writes over a record.
unfoldable pub seen : ℕ → ParsedHost → Device → Device
seen now host d = record d {
  hostname = elim (truthy host.hostname) [ none ↦ d.hostname | some s ↦ some s ];
  ip_address = host.ip_address;
  mac_address = elim (truthy host.mac_address) [ none ↦ d.mac_address | some m ↦ some m ];
  vendor = elim (truthy host.vendor) [ none ↦ d.vendor | some s ↦ some s ];
  status = online;
  last_seen = now;
  is_deleted = false;
  deleted_at = if d.is_deleted then none else d.deleted_at;
}

-- `Device(...)` with the columns' defaults.
abbrev pub new_device : ℕ → ℕ → ParsedHost → Device
new_device id now host = record {
  id = id;
  name = none;
  hostname = none;
  ip_address = host.ip_address;
  mac_address = host.mac_address;
  vendor = none;
  device_type = none;
  status = unknown;
  first_seen = now;
  last_seen = now;
  notes = none;
  is_deleted = false;
  deleted_at = none;
}

-- Assignments to the row that a query for one row returned.
unfoldable pub update_first : (Device → Bool) → (Device → Device) → List Device → List Device
update_first p f [] = []
update_first p f (d ∷ ds) = let rest = update_first p f ds in if p d then f d ∷ ds else d ∷ rest

-- The lookup of `upsert_device`: by MAC address, else by address among the records without one.
unfoldable pub find_device : ParsedHost → List Device → Option Device
find_device host ds = elim (first (matches_mac host) ds) [
  | some d ↦ some d
  | none ↦ first (matches_ip host) ds
]

-- The rows after it, the row of the host, and whether that is new.
unfoldable pub upsert_row : ℕ → ParsedHost → ℕ → List Device → List Device
upsert_row now host id ds =
    if any (matches_mac host) ds
    then update_first (matches_mac host) (seen now host) ds
    else if any (matches_ip host) ds
    then update_first (matches_ip host) (seen now host) ds
    else ds ++ seen now host (new_device id now host) ∷ []

-- `_sync_ports`
unfoldable pub same_protocol : Protocol → Protocol → Bool
same_protocol tcp tcp = true
same_protocol tcp udp = false
same_protocol udp tcp = false
same_protocol udp udp = true

unfoldable pub is_port : ℕ → ParsedPort → DevicePort → Bool
is_port device_id parsed row =
    row.device_id == device_id
    && row.port == parsed.port
    && same_protocol row.protocol parsed.protocol

unfoldable pub refresh_port : ℕ → ParsedPort → DevicePort → DevicePort
refresh_port now parsed row = record row {
  state = parsed.state;
  service = elim (truthy parsed.service) [ none ↦ row.service | some s ↦ some s ];
  last_seen = now;
}

unfoldable pub sync_port : ℕ → ℕ → List DevicePort → ParsedPort → List DevicePort → List DevicePort
sync_port now device_id existing parsed rows =
    if any (is_port device_id parsed) existing
    then map (λ row. if is_port device_id parsed row then refresh_port now parsed row else row) rows
    else rows
      ++ record {
        device_id = device_id;
        port = parsed.port;
        protocol = parsed.protocol;
        state = parsed.state;
        service = parsed.service;
        last_seen = now;
      }
        ∷ []

-- `existing` is read once, before the loop.
unfoldable pub sync_ports :
    ℕ → ℕ → List DevicePort → List ParsedPort → List DevicePort → List DevicePort
sync_ports now device_id existing [] rows = rows
sync_ports now device_id existing (p ∷ ps) rows =
    sync_ports now device_id existing ps (sync_port now device_id existing p rows)

-- `upsert_device`: the tables, the device, and whether it is new.
unfoldable pub upsert_device : ℕ → ParsedHost → Tables → Tables × Device × Bool
upsert_device now host t =
    let found = find_device host t.devices in
    let device = seen now host (or_else found (new_device t.next_id now host)) in
    let is_new = not (is_some found) in
    (
      record t {
        devices = upsert_row now host t.next_id t.devices;
        ports = sync_ports now device.id t.ports host.ports t.ports;
        next_id = if is_new then suc t.next_id else t.next_id;
      },
      device,
      is_new,
    )

-- The columns of `DiscoveryRun` that a scan fills in.
pub data RunStatus : Type 0 where
  running success failed timeout rejected : RunStatus

-- The column `subnet`: what was asked for, and then the text of the accepted network.
pub data Subnet : Type 0 where
  requested : Text → Subnet
  accepted : Network → Subnet

pub record Run : Type 0 where
  pub id : ℕ
  pub subnet : Subnet
  pub status : RunStatus
  pub scanned_ports : Option Bool
  pub devices_found : ℕ
  pub devices_new : ℕ

-- `sorted(ports, key=lambda item: (item.protocol, item.port))`
unfoldable pub port_before : ParsedPort → ParsedPort → Bool
port_before a b = elim a.protocol [
  | tcp ↦ elim b.protocol [ tcp ↦ ltb a.port b.port | udp ↦ true ]
  | udp ↦ elim b.protocol [ tcp ↦ false | udp ↦ ltb a.port b.port ]
]

unfoldable pub insert_port : ParsedPort → List ParsedPort → List ParsedPort
insert_port p [] = p ∷ []
insert_port p (q ∷ qs) =
    let rest = insert_port p qs in if port_before q p then q ∷ rest else p ∷ q ∷ qs

unfoldable pub sort_ports : List ParsedPort → List ParsedPort
sort_ports [] = []
sort_ports (p ∷ ps) = insert_port p (sort_ports ps)

unfoldable pub is_open : ParsedPort → Bool
is_open p = elim p.state [ open_port ↦ true | filtered ↦ false | closed ↦ false ]

-- `_observation`
unfoldable pub observation : Run → Device → ParsedHost → ℕ → Observation
observation run device host observed_at = record {
  run_id = run.id;
  device_id = device.id;
  present = true;
  ip_address = host.ip_address;
  mac_address = host.mac_address;
  hostname = host.hostname;
  vendor = host.vendor;
  ports =
      if or_else run.scanned_ports false then some (keep is_open (sort_ports host.ports)) else none;
  observed_at = observed_at;
}

abbrev pub absence : Run → ℕ → Device → Observation
absence run observed_at device = record {
  run_id = run.id;
  device_id = device.id;
  present = false;
  ip_address = device.ip_address;
  mac_address = device.mac_address;
  hostname = device.hostname;
  vendor = device.vendor;
  ports = none;
  observed_at = observed_at;
}

-- Whether a text is an address of the network. Text that is no IPv4 address is in none.
unfoldable pub in_network : Network → String → Bool
in_network network text = elim (ipv4_of_text (codes text)) [
  | none ↦ false
  | some a ↦ contains network a
]

unfoldable pub is_absent : Network → ℕ → Device → Bool
is_absent network scanned_at d =
    not d.is_deleted && in_network network d.ip_address && ltb d.last_seen scanned_at

abbrev pub mark_offline : Device → Device
mark_offline d = record d { status = offline }

-- `mark_absent_devices_offline`: the table, and the devices that are absent.
unfoldable pub mark_absent_devices_offline : Network → ℕ → List Device → List Device × List Device
mark_absent_devices_offline network scanned_at ds = (
  map (λ d. if is_absent network scanned_at d then mark_offline d else d) ds,
  map mark_offline (keep (is_absent network scanned_at) ds),
)

abbrev pub observe : Option Run → Device → ParsedHost → ℕ → Tables → Tables
observe none device host observed_at t = t
observe (some run) device host observed_at t = record t {
  observations = t.observations ++ observation run device host observed_at ∷ [];
}

-- The loop of `reconcile`. Each host comes with the clock's reading when its turn is.
unfoldable pub merge_hosts : Option Run → ℕ → List (ParsedHost × ℕ) → Tables → ℕ → Tables × ℕ
merge_hosts run observed_at [] t created = (t, created)
merge_hosts run observed_at ((host, now) ∷ hosts) t created =
    let (t', device, is_new) = upsert_device now host t in
    merge_hosts run observed_at hosts (observe run device host observed_at t')
      (if is_new then suc created else created)

abbrev record_absent : Option Run → ℕ → List Device → Tables → Tables
record_absent none observed_at absent t = t
record_absent (some run) observed_at absent t = record t {
  observations = t.observations ++ map (absence run observed_at) absent;
}

abbrev mark_range : Option Run → ℕ → Option Network → Option ℕ → Tables → Tables
mark_range run observed_at (some network) (some scanned_at) t =
    let (devices, absent) = mark_absent_devices_offline network scanned_at t.devices in
    record_absent run observed_at absent (record t { devices = devices })
mark_range run observed_at network scanned_at t = t

-- `reconcile` on the hosts that are up: the tables, how many were found, and how many are new.
unfoldable pub reconcile :
    Option Run → Option Network → Option ℕ → ℕ → List (ParsedHost × ℕ) → Tables → Tables × ℕ × ℕ
reconcile run network scanned_at observed_at hosts t =
    let (merged, created) = merge_hosts run observed_at hosts t 0 in
    (mark_range run observed_at network scanned_at merged, length hosts, created)
