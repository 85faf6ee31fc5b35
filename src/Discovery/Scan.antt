-- ===== src/Discovery/Scan.antt =====
-- The runs of `app/modules/discovery/service.py`: a run is recorded, executed once in the background,
-- and closed after a restart. The table of runs holds the columns that `Run` has.
pub mod Outcome
use netops_console.Prelude.{
  ℕ, suc, ◌+◌, Bool, true, false, not, Option, none, some, List, [], ◌∷◌, ◌++◌, map, keep, length,
  if◌then◌else◌, Result, ok, err, is_empty,
}
use netops_console.Prelude.Text.{Text, codes}
use netops_console.Net.{Network}
use netops_console.Net.Parse.{Ipv6}
use netops_console.Validation.{validate_scan_target}
use netops_console.Validation.Errors.{ValidationError}
use netops_console.Discovery.Inventory.{
  Run, RunStatus, running, success, failed, timeout, rejected, requested, accepted, ParsedHost,
  Tables, reconcile,
}

abbrev default_ports : Text
default_ports = codes "22,53,80,111,139,443,445,554,1883,3000,3389,5000,5432,8006,8080,8443,9000"

-- `build_scan_arguments`
unfoldable pub build_scan_arguments : Text → Bool → List Text
build_scan_arguments subnet with_ports =
    (codes "-oX" ∷ codes "-" ∷ codes "-n" ∷ codes "--host-timeout" ∷ codes "30s" ∷ codes "-T4" ∷ [])
    ++ (if with_ports
        then codes "-sS" ∷ codes "-p" ∷ default_ports ∷ codes "--open" ∷ []
        else codes "-sn" ∷ [])
    ++ codes "-R" ∷ subnet ∷ []

-- What the engine answers: no slot is free, the command is refused, the time is up, or output that
-- reads as a scan or does not. A scan is its hosts that are up, each with the clock's reading at
-- its turn, and the reading at the start of the merge.
pub data Answer : Type 0 where
  busy refused timed_out unparseable : Answer
  scanned : ℕ → List (ParsedHost × ℕ) → Answer

-- `create_run`
unfoldable pub create_run : ℕ → Text → Run
create_run id subnet = record {
  id = id;
  subnet = requested subnet;
  status = running;
  scanned_ports = none;
  devices_found = 0;
  devices_new = 0;
}

-- `_finish`, whose counts are zero unless they are given
unfoldable pub finish : Run → RunStatus → ℕ → ℕ → Run
finish run status found created = record run {
  status = status;
  devices_found = found;
  devices_new = created;
}

-- `mark_failed`
unfoldable pub mark_failed : Run → Run
mark_failed run = finish run failed 0 0

abbrev pub settle : Run → Network → ℕ → Answer → Tables → Run × Tables
settle run network scanned_at busy t = (finish run rejected 0 0, t)
settle run network scanned_at refused t = (finish run failed 0 0, t)
settle run network scanned_at timed_out t = (finish run timeout 0 0, t)
settle run network scanned_at unparseable t = (finish run failed 0 0, t)
settle run network scanned_at (scanned observed_at hosts) t =
    let (after, found, created) =
      reconcile (some run) (some network) (some scanned_at) observed_at hosts t in
    (finish run success found created, after)

abbrev pub scan_checked :
    (Network → Text)
    → (List Text → Answer)
    → Run
    → Bool
    → ℕ
    → Result ValidationError Network
    → Tables
    → Run × Tables
scan_checked str engine run with_ports scanned_at (err e) t = (finish run rejected 0 0, t)
scan_checked str engine run with_ports scanned_at (ok network) t =
    settle (record run { subnet = accepted network; scanned_ports = some with_ports }) network
      scanned_at (engine (build_scan_arguments (str network) with_ports)) t

-- `execute_run`; the engine is asked with the arguments of nmap, and `str` writes a network.
unfoldable pub execute_run :
    Ipv6
    → (Network → Text)
    → (List Text → Answer)
    → Run
    → Text
    → List Network
    → ℕ
    → Bool
    → ℕ
    → Tables
    → Run × Tables
execute_run ipv6 str engine run subnet allowed max_hosts with_ports scanned_at t =
    scan_checked str engine run with_ports scanned_at
      (validate_scan_target ipv6 subnet allowed max_hosts) t

unfoldable pub is_running : Run → Bool
is_running run = elim run.status [
  | running ↦ true
  | success ↦ false
  | failed ↦ false
  | timeout ↦ false
  | rejected ↦ false
]

-- `fail_interrupted_runs`: the table of runs, and how many were closed.
unfoldable pub fail_interrupted_runs : List Run → List Run × ℕ
fail_interrupted_runs runs = (
  map (λ r. if is_running r then record r { status = failed } else r) runs,
  length (keep is_running runs),
)
