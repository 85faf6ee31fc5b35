-- ===== src/History/Compare.antt =====
-- `compare_runs` of `app/modules/history/service.py`: what a later scan saw differently from an
-- earlier one. The notes for the operator are left out, and so are the labels of the hosts.
pub mod Partition
mod Examples
use mathlib.Core.Option
use netops_console.Prelude.{
  ℕ, ◌/◌, ◌%◌, ◌^◌, String, Bool, true, false, not, ◌&&◌, ◌||◌, Option, none, some, List, [], ◌∷◌,
  map, any, keep, first, length, is_empty, or_else, ltb, ◌==◌, str_eq, if◌then◌else◌,
}
use netops_console.Prelude.Sort.{sort}
use netops_console.Prelude.Text.{Text, codes, text_leb}
use netops_console.Net.{Network, contains}
use netops_console.Net.Parse.{
  Ipv6, Address, v4, v6, ip_address, ParsedNetwork, v4_network, v6_network, has_host_bits, invalid,
  ip_network,
}
use netops_console.Discovery.Inventory.{Observation, Run, RunStatus, Subnet, requested, accepted}
use netops_console.History.{ObservationDiff, changed, diff_observations}

-- A row of `discovery_observation` as it is read back: its device may be gone by then.
pub record Row : Type 0 where
  pub device_id : Option ℕ
  pub seen : Observation

-- The ipaddress library on IPv6: whether an address is in a network, and an address's bytes.
pub record Ipv6Lib : Type 0 where
  pub parse : Ipv6
  pub within : Text → Text → Bool
  pub packed : Text → List ℕ

unfoldable pub is_success : RunStatus → Bool
is_success RunStatus.success = true
is_success other = false

-- `has_host_results`
unfoldable pub has_host_results : Run → ℕ → Bool
has_host_results run observation_count = is_success run.status && not (observation_count == 0)

-- `_key(a) == _key(b)`: the two kinds of key have different beginnings.
unfoldable pub same_key : Row → Row → Bool
same_key a b = elim a.device_id [
  | some d ↦ elim b.device_id [ some e ↦ d == e | none ↦ false ]
  | none ↦ elim b.device_id [ some e ↦ false | none ↦ str_eq a.seen.ip_address b.seen.ip_address ]
]

-- `rows[_key(row)] = row`
unfoldable pub put_row : Row → List Row → List Row
put_row row [] = row ∷ []
put_row row (r ∷ rs) =
    let rest = put_row row rs in elim (same_key r row) [ true ↦ row ∷ rs | false ↦ r ∷ rest ]

unfoldable pub rows_from : List Row → List Row → List Row
rows_from seen [] = seen
rows_from seen (r ∷ rs) = rows_from (if r.seen.present then put_row r seen else seen) rs

-- `{_key(row): row for row in rows if row.present}`
unfoldable pub hosts : List Row → List Row
hosts rows = rows_from [] rows

module _ (lib : Ipv6Lib) where
  -- `ip_address(address) in ip_network(subnet, strict=False)` for an IPv4 network.
  unfoldable pub in_ipv4 : Text → Network → Bool
  in_ipv4 address n = elim (ip_address lib.parse address) [
    | some (v4 a) ↦ contains n a
    | some v6 ↦ false
    | none ↦ false
  ]

  -- `_in_network`
  unfoldable pub in_network : Text → Subnet → Bool
  in_network address (accepted n) = in_ipv4 address n
  in_network address (requested text) = elim (ip_network lib.parse false text) [
    | v4_network n ↦ in_ipv4 address n
    | v6_network ↦ elim (ip_address lib.parse address) [
      | some v6 ↦ lib.within address text
      | some (v4 a) ↦ false
      | none ↦ false
    ]
    | has_host_bits n ↦ false
    | invalid ↦ false
  ]

  -- `tuple(ip_address(address).packed)`
  unfoldable pub packed : Text → List ℕ
  packed address = elim (ip_address lib.parse address) [
    | some (v4 a) ↦ a / 2 ^ 24 ∷ a / 2 ^ 16 % 256 ∷ a / 2 ^ 8 % 256 ∷ a % 256 ∷ []
    | some v6 ↦ lib.packed address
    | none ↦ 255 ∷ []
  ]

  -- `HostDelta`: the row, and what changed on it.
  unfoldable pub by_address : Row → Row → Bool
  by_address a b = text_leb (packed (codes a.seen.ip_address)) (packed (codes b.seen.ip_address))

-- `RunComparison`: its four lists of hosts, and the number of hosts that did not change.
pub record RunComparison : Type 0 where
  pub added : List Row
  pub missing : List Row
  pub outside : List Row
  pub changed_rows : List Row
  pub unchanged : ℕ
  pub ports_compared : Bool
  pub comparable : Bool

unfoldable pub both_ports : Option Bool → Option Bool → Bool
both_ports a b = or_else a false && or_else b false

-- The difference of a host's two rows, with its ports only where both scans checked them.
unfoldable pub host_diff : Bool → Row → Row → ObservationDiff
host_diff ports_compared before after =
    let diff = diff_observations before.seen after.seen in
    if ports_compared
    then diff
    else record { fields = diff.fields; opened = []; closed = []; ports_compared = false }

-- Whether a host of the later scan differs from the row of the earlier one under its key.
unfoldable pub host_changed : Bool → List Row → Row → Bool
host_changed ports_compared before after = elim (first (same_key after) before) [
  | none ↦ false
  | some b ↦ changed (host_diff ports_compared b after)
]

unfoldable pub nothing_compared : Bool → RunComparison
nothing_compared ports_compared = record {
  added = [];
  missing = [];
  outside = [];
  changed_rows = [];
  unchanged = 0;
  ports_compared = ports_compared;
  comparable = false;
}

unfoldable pub known : List Row → Row → Bool
known rows row = any (same_key row) rows

module _ (lib : Ipv6Lib) where
  -- The comparison of two dictionaries of hosts.
  unfoldable pub compare_hosts : Bool → Subnet → List Row → List Row → RunComparison
  compare_hosts ports_compared subnet before after =
      let gone = keep (λ r. not (known after r)) before in
      let both = keep (known before) after in
      record {
        added = sort (by_address lib) (keep (λ r. not (known before r)) after);
        missing =
            sort (by_address lib)
              (keep (λ r. in_network lib (codes r.seen.ip_address) subnet) gone);
        outside =
            sort (by_address lib)
              (keep (λ r. not (in_network lib (codes r.seen.ip_address) subnet)) gone);
        changed_rows = sort (by_address lib) (keep (host_changed ports_compared before) both);
        unchanged = length (keep (λ r. not (host_changed ports_compared before r)) both);
        ports_compared = ports_compared;
        comparable = true;
      }

  -- `compare_runs`, on the rows of the two runs.
  unfoldable pub compare_runs : Run → Run → List Row → List Row → RunComparison
  compare_runs base target base_rows target_rows =
      let ports_compared = both_ports base.scanned_ports target.scanned_ports in
      let compared =
        compare_hosts ports_compared target.subnet (hosts base_rows) (hosts target_rows) in
      if has_host_results base (length base_rows) && has_host_results target (length target_rows)
      then compared
      else nothing_compared ports_compared

-- `previous_comparable_run`, where `with_rows` are the runs that have observations and `newest` the
-- runs by falling id.
unfoldable pub previous_comparable_run :
    (Subnet → Subnet → Bool) → (ℕ → Bool) → Run → List Run → Option Run
previous_comparable_run same_subnet with_rows run newest =
    first
      (λ (r : Run).
        same_subnet r.subnet run.subnet && is_success r.status && ltb r.id run.id && with_rows r.id)
      newest
