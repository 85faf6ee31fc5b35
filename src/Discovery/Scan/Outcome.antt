-- ===== src/Discovery/Scan/Outcome.antt =====
-- How a run ends.
use netops_console.Prelude.{
  ℕ, ◌+◌, ◌≡◌, ◌⊎◌, inl, inr, refl, Bool, not, some, List, [], ◌∷◌, keep, length, Result, ok, err,
  arith,
}
use netops_console.Prelude.Text.{Text}
use netops_console.Net.{Network}
use netops_console.Net.Parse.{Ipv6}
use netops_console.Validation.{validate_scan_target}
use netops_console.Validation.Errors.{ValidationError}
use netops_console.Discovery.Inventory.{
  Run, success, failed, timeout, rejected, accepted, ParsedHost, Tables, reconcile,
}
use netops_console.Discovery.Scan.{
  Answer, busy, refused, timed_out, unparseable, scanned, build_scan_arguments, settle,
  scan_checked, finish, execute_run, is_running, fail_interrupted_runs,
}

-- A run that ended without a result: nothing is counted and the inventory is as it was.
abbrev pub Unfinished : Tables → Run × Tables → Type 0
Unfinished t (run, after) =
    ((run.status ≡ rejected) ⊎ (run.status ≡ failed) ⊎ (run.status ≡ timeout))
    × (run.devices_found ≡ 0)
    × (run.devices_new ≡ 0)
    × (after ≡ t)

-- A run that succeeded: its target was accepted, nmap was asked about that network only, and what it
-- answered is merged.
abbrev pub Finished :
    Ipv6
    → (Network → Text)
    → (List Text → Answer)
    → Run
    → Text
    → List Network
    → ℕ
    → Bool
    → ℕ
    → Tables
    → Run × Tables
    → Type 0
Finished ipv6 str engine before subnet allowed max_hosts with_ports scanned_at t (run, after) =
    (network : Network) × (observed_at : ℕ) × (hosts : List (ParsedHost × ℕ))
    × (validate_scan_target ipv6 subnet allowed max_hosts ≡ ok network)
    × (engine (build_scan_arguments (str network) with_ports) ≡ scanned observed_at hosts)
    × (run.status ≡ success)
    × (run.subnet ≡ accepted network)
    × (run.devices_found ≡ length hosts)
    × (after
        ≡ (reconcile
            (some (record before { subnet = accepted network; scanned_ports = some with_ports }))
            (some network) (some scanned_at) observed_at hosts t).0)

settle_ends :
    (ipv6 : Ipv6) (str : Network → Text) (engine : List Text → Answer) (run : Run) (subnet : Text)
    (allowed : List Network) (max_hosts : ℕ) (with_ports : Bool) (scanned_at : ℕ) (t : Tables)
    (network : Network) (answer : Answer)
    → validate_scan_target ipv6 subnet allowed max_hosts ≡ ok network
    → engine (build_scan_arguments (str network) with_ports) ≡ answer
    → let scan = record run { subnet = accepted network; scanned_ports = some with_ports } in
      let result = settle scan network scanned_at answer t in
      Unfinished t result
      ⊎ Finished ipv6 str engine run subnet allowed max_hosts with_ports scanned_at t result
unfolding finish reconcile
settle_ends ipv6 str engine run subnet allowed max_hosts with_ports scanned_at t network busy k q =
    inl (inl refl, refl, refl, refl)
settle_ends ipv6 str engine run subnet allowed max_hosts with_ports scanned_at t network refused k
      q =
    inl (inr (inl refl), refl, refl, refl)
settle_ends ipv6 str engine run subnet allowed max_hosts with_ports scanned_at t network timed_out k
      q =
    inl (inr (inr refl), refl, refl, refl)
settle_ends ipv6 str engine run subnet allowed max_hosts with_ports scanned_at t network unparseable
      k q =
    inl (inr (inl refl), refl, refl, refl)
settle_ends ipv6 str engine run subnet allowed max_hosts with_ports scanned_at t network
      (scanned observed_at hosts) k q =
    inr (network, observed_at, hosts, k, q, refl, refl, refl, refl)

checked_ends :
    (ipv6 : Ipv6) (str : Network → Text) (engine : List Text → Answer) (run : Run) (subnet : Text)
    (allowed : List Network) (max_hosts : ℕ) (with_ports : Bool) (scanned_at : ℕ) (t : Tables)
    (r : Result ValidationError Network)
    → validate_scan_target ipv6 subnet allowed max_hosts ≡ r
    → let result = scan_checked str engine run with_ports scanned_at r t in
      Unfinished t result
      ⊎ Finished ipv6 str engine run subnet allowed max_hosts with_ports scanned_at t result
unfolding finish
checked_ends ipv6 str engine run subnet allowed max_hosts with_ports scanned_at t (err e) k =
    inl (inl refl, refl, refl, refl)
checked_ends ipv6 str engine run subnet allowed max_hosts with_ports scanned_at t (ok network) k =
    settle_ends ipv6 str engine run subnet allowed max_hosts with_ports scanned_at t network
      (engine (build_scan_arguments (str network) with_ports)) k refl

-- A run that is executed ends: it succeeds and merges what nmap answered about the accepted network,
-- or it is rejected, failed or timed out, and then nothing is counted or written.
pub execute_run_ends :
    (ipv6 : Ipv6) (str : Network → Text) (engine : List Text → Answer) (run : Run) (subnet : Text)
    (allowed : List Network) (max_hosts : ℕ) (with_ports : Bool) (scanned_at : ℕ) (t : Tables)
    → let result =
        execute_run ipv6 str engine run subnet allowed max_hosts with_ports scanned_at t in
      Unfinished t result
      ⊎ Finished ipv6 str engine run subnet allowed max_hosts with_ports scanned_at t result
unfolding execute_run
execute_run_ends ipv6 str engine run subnet allowed max_hosts with_ports scanned_at t =
    checked_ends ipv6 str engine run subnet allowed max_hosts with_ports scanned_at t
      (validate_scan_target ipv6 subnet allowed max_hosts) refl

none_running : (runs : List Run) → keep is_running (fail_interrupted_runs runs).0 ≡ []
unfolding fail_interrupted_runs is_running keep
none_running [] = refl
none_running (r ∷ rs) = ground (arith, none_running rs)

counted :
    (runs : List Run)
    → length (keep (λ r. not (is_running r)) runs) + (fail_interrupted_runs runs).1
      ≡ length (fail_interrupted_runs runs).0
unfolding fail_interrupted_runs keep
counted [] = omega arith
counted (r ∷ rs) = ground (arith, counted rs)

closed_again :
    (runs : List Run)
    → (fail_interrupted_runs (fail_interrupted_runs runs).0).0 ≡ (fail_interrupted_runs runs).0
unfolding fail_interrupted_runs is_running
closed_again [] = refl
closed_again (r ∷ rs) = ground (arith, closed_again rs)

again :
    (runs : List Run)
    → fail_interrupted_runs (fail_interrupted_runs runs).0 ≡ ((fail_interrupted_runs runs).0, 0)
unfolding fail_interrupted_runs
again runs = ground (arith, closed_again runs, none_running runs)

-- After a restart no run is running, as many were closed as were running, and closing runs again
-- changes nothing.
pub fail_interrupted_runs-fail_interrupted_runs :
    (runs : List Run)
    → let (after, closed) = fail_interrupted_runs runs in
      (keep is_running after ≡ [])
      × (length (keep (λ r. not (is_running r)) runs) + closed ≡ length after)
      × (fail_interrupted_runs after ≡ (after, 0))
fail_interrupted_runs-fail_interrupted_runs runs = (none_running runs, counted runs, again runs)
