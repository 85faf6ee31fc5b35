-- ===== src/Settings.antt =====
-- `app/modules/settings/service.py` and `app/core/retention.py`: the settings form, and the window
-- after which history is deleted. A range is stored as the text that `str` gives of its network and
-- that `IPv4Network` reads back; here it is the network. The table of settings has one row at most
-- for each key.
pub mod Reach
pub mod Window
mod Examples
use netops_console.Prelude.{
  ℕ, suc, ◌+◌, ◌*◌, Bool, true, false, not, ◌&&◌, ◌||◌, Option, none, some, List, [], ◌∷◌, any,
  keep, length, is_empty, or_else, leb, ltb, ◌==◌, if◌then◌else◌, Result, ok, err, ◌>>=◌, ◌>>◌,
  raise_if, or_raise,
}
use netops_console.Prelude.Int.{ℤ, pos, negsuc}
use netops_console.Prelude.Text.{Text, strip, int_of_text}
use netops_console.Net.{Network}
use netops_console.Net.Parse.{Ipv6}
use netops_console.Validation.{validate_allowed_cidr}
use netops_console.Validation.Errors.{ValidationError, no_ranges, not_whole_number, not_between}

abbrev pub max_scan_hosts_ceiling : ℕ
max_scan_hosts_ceiling = 65536

abbrev pub max_concurrency_ceiling : ℕ
max_concurrency_ceiling = 16

abbrev pub max_retention_days : ℕ
max_retention_days = 3650

pub record AppSettings : Type 0 where
  pub allowed_cidrs : List Network
  pub max_scan_hosts : ℕ
  pub max_concurrent_scans : ℕ
  pub max_concurrent_executions : ℕ
  pub retention_days : ℕ
  pub strict_host_keys : Bool

-- The rows of the table, by key.
pub record Stored : Type 0 where
  pub allowed_cidrs : Option (List Network)
  pub max_scan_hosts : Option ℕ
  pub max_concurrent_scans : Option ℕ
  pub max_concurrent_executions : Option ℕ
  pub retention_days : Option ℕ
  pub strict_host_keys : Option Bool

-- `load`; the environment's values stand in for missing rows.
unfoldable pub load : AppSettings → Stored → AppSettings
load env stored = record {
  allowed_cidrs = or_else stored.allowed_cidrs env.allowed_cidrs;
  max_scan_hosts = or_else stored.max_scan_hosts env.max_scan_hosts;
  max_concurrent_scans = or_else stored.max_concurrent_scans env.max_concurrent_scans;
  max_concurrent_executions =
      or_else stored.max_concurrent_executions env.max_concurrent_executions;
  retention_days = or_else stored.retention_days env.retention_days;
  strict_host_keys = or_else stored.strict_host_keys true;
}

-- A comma, or a character at which `str.splitlines` ends a line.
unfoldable pub ends_entry : ℕ → Bool
ends_entry c =
    c == b','
    || leb 10 c && leb c 13
    || leb 28 c && leb c 30
    || c == 0x85
    || c == 0x2028
    || c == 0x2029

abbrev add_char : ℕ → List Text → List Text
add_char c [] = (c ∷ []) ∷ []
add_char c (p ∷ ps) = (c ∷ p) ∷ ps

unfoldable pub split_entries : Text → List Text
split_entries [] = [] ∷ []
split_entries (c ∷ s) =
    let rest = split_entries s in if ends_entry c then [] ∷ rest else add_char c rest

unfoldable pub strip_all : List Text → List Text
strip_all [] = []
strip_all (s ∷ ss) = let rest = strip_all ss in if is_empty (strip s) then rest else strip s ∷ rest

unfoldable pub same_network : Network → Network → Bool
same_network a b = a.base == b.base && a.prefix_len == b.prefix_len

-- `seen[str(network)] = None`
unfoldable pub add_network : List Network → Network → List Network
add_network [] n = n ∷ []
add_network (m ∷ ms) n =
    let rest = add_network ms n in if same_network m n then m ∷ ms else m ∷ rest

unfoldable pub bounded : ℕ → ℕ → ℤ → Result ValidationError ℕ
bounded minimum maximum (pos n) = if leb minimum n && leb n maximum then ok n else err not_between
bounded minimum maximum (negsuc n) = err not_between

-- `_bounded_int`, for a minimum that is not negative
unfoldable pub bounded_int : Text → ℕ → ℕ → Result ValidationError ℕ
bounded_int raw minimum maximum = do
  value ← or_raise (int_of_text (strip raw)) not_whole_number
  bounded minimum maximum value

-- The settings form.
pub record Form : Type 0 where
  pub allowed_cidrs_raw : Text
  pub max_scan_hosts : Text
  pub max_concurrent_scans : Text
  pub max_concurrent_executions : Text
  pub retention_days : Text
  pub strict_host_keys : Bool

module _ (ipv6 : Ipv6) where
  unfoldable pub add_entries : List Text → List Network → Result ValidationError (List Network)
  add_entries [] seen = ok seen
  add_entries (entry ∷ entries) seen = do
    network ← validate_allowed_cidr ipv6 entry
    add_entries entries (add_network seen network)

  unfoldable pub parse_cidr_list : Text → Result ValidationError (List Network)
  parse_cidr_list raw = do
    let entries = strip_all (split_entries raw)
    raise_if (is_empty entries) no_ranges
    add_entries entries []

  -- `save`: the settings, and the table with all six rows written.
  unfoldable pub save : AppSettings → Form → Stored → Result ValidationError (AppSettings × Stored)
  save env form stored = do
    cidrs ← parse_cidr_list form.allowed_cidrs_raw
    scan_hosts ← bounded_int form.max_scan_hosts 1 max_scan_hosts_ceiling
    concurrent_scans ← bounded_int form.max_concurrent_scans 1 max_concurrency_ceiling
    concurrent_executions ← bounded_int form.max_concurrent_executions 1 max_concurrency_ceiling
    retention ← bounded_int form.retention_days 1 max_retention_days
    let written = record stored {
      allowed_cidrs = some cidrs;
      max_scan_hosts = some scan_hosts;
      max_concurrent_scans = some concurrent_scans;
      max_concurrent_executions = some concurrent_executions;
      retention_days = some retention;
      strict_host_keys = some form.strict_host_keys;
    }
    ok (load env written, written)

-- `PruneResult`
pub record PruneResult : Type 0 where
  pub diagnostics : ℕ
  pub actions : ℕ
  pub observations : ℕ

unfoldable pub total : PruneResult → ℕ
total r = r.diagnostics + r.actions + r.observations

-- When the rows of the three tables were written, in milliseconds.
pub record History : Type 0 where
  pub diagnostics : List ℕ
  pub actions : List ℕ
  pub observations : List ℕ

abbrev pub day_ms : ℕ
day_ms = 86400000

-- `started_at < now - timedelta(days=days)`
unfoldable pub is_old : ℕ → ℕ → ℕ → Bool
is_old now days at_time = ltb (at_time + days * day_ms) now

unfoldable pub delete_old : ℕ → ℕ → List ℕ → List ℕ × ℕ
delete_old now days times =
    (keep (λ t. not (is_old now days t)) times, length (keep (is_old now days) times))

-- `retention.prune`
unfoldable pub prune_history : ℤ → ℕ → History → History × PruneResult
prune_history (negsuc n) now h = (h, record { diagnostics = 0; actions = 0; observations = 0 })
prune_history (pos days) now h =
    let (d, old_d) = delete_old now days h.diagnostics in
    let (a, old_a) = delete_old now days h.actions in
    let (o, old_o) = delete_old now days h.observations in
    if ltb days 1 then (h, record { diagnostics = 0; actions = 0; observations = 0 }) else (
      record { diagnostics = d; actions = a; observations = o },
      record { diagnostics = old_d; actions = old_a; observations = old_o },
    )
