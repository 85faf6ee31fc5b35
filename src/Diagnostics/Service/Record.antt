-- ===== src/Diagnostics/Service/Record.antt =====
-- The record that a diagnostic leaves, and the devices it reaches.
use netops_console.Prelude.{
  ℕ, ◌≡◌, ◌≢◌, ◌⊎◌, refl, ap, inl, inr, true, false, Option, none, some, List, [], ◌∷◌, ◌++◌,
  Result, ok, err, Result-cases, Option-cases, arith,
}
use netops_console.Prelude.Int.{ℤ}
use netops_console.Prelude.Text.{Text, codes}
use netops_console.Net.{Network}
use netops_console.Validation.{parse_ipv4, is_blocked, address_in_allowlist}
use netops_console.Validation.Errors.{ValidationError, unknown_diagnostic}
use netops_console.Execution.{Refusal, Engine, start_run}
use netops_console.Execution.Run.{
  Failure, stopped, spawn_error, ExecutionStatus, ExecutionResult, Process, spawn, run_started, run,
}
use netops_console.Discovery.Inventory.{Device}
use netops_console.Diagnostics.Builders.{Command}
use netops_console.Diagnostics.Http.{Request, HttpCheckResult}
use netops_console.Diagnostics.Service.{
  Diagnostic, CommandKind, ping, command_of, dotted, target_of, begin, invalid, os_error, command,
  http_check, registry, validate_device_target, Status, Output, DiagnosticResult, Caller, Outside,
  Run, completed_row, finish, after_command, run_command, after_check, run_http, run_on, run_known,
  run_diagnostic,
}

-- The run added one record, which it returns, and which has the time of its end.
pub record Recorded (o : Outside) (results : List DiagnosticResult) (run : Run) : Type 0 where
  pub row : DiagnosticResult
  pub returned : run.result ≡ ok row
  pub stored : run.results ≡ results ++ row ∷ []
  pub ended : row.completed_at ≡ some o.completed

-- The run ended in an exception of the start of its process, and stored nothing.
pub record Escaped (results : List DiagnosticResult) (run : Run) : Type 0 where
  pub argv : List Text
  pub tried : run.spawned ≡ argv ∷ []
  pub left : run.result ≡ err os_error
  pub unchanged : run.results ≡ results

-- The device's address is in a range that is allowed now, and in no reserved one.
pub record InScope (o : Outside) (device : Device) (allowed : List Network) : Type 0 where
  pub address : ℕ
  pub parsed : parse_ipv4 o.ipv6 (codes device.ip_address) ≡ ok address
  pub not_blocked : is_blocked address ≡ false
  pub in_allowlist : address_in_allowlist address allowed ≡ true

module _ (o : Outside) where
  finish-Recorded :
      (spawned : List (List Text)) (requests : List Request) (row : DiagnosticResult)
      (status : Status) (output : Output) (exit_code : Option ℤ) (results : List DiagnosticResult)
      → Recorded o results (finish o spawned requests row status output exit_code results)
  unfolding finish completed_row
  finish-Recorded spawned requests row status output exit_code results = record {
    row = completed_row o row status output exit_code;
    returned = refl;
    stored = refl;
    ended = refl;
  }

  ended-Recorded :
      (row : DiagnosticResult) (results : List DiagnosticResult) (spawned : List (List Text))
      (r : ExecutionResult) (status : ExecutionStatus)
      → r.status ≡ status
      → Recorded o results (after_command o row results (spawned, ok r))
  unfolding after_command
  ended-Recorded row results spawned r ExecutionStatus.timeout e =
      rw e (finish-Recorded spawned [] row _ _ _ results)
  ended-Recorded row results spawned r ExecutionStatus.success e =
      rw e (finish-Recorded spawned [] row _ _ _ results)
  ended-Recorded row results spawned r ExecutionStatus.failed e =
      rw e (finish-Recorded spawned [] row _ _ _ results)
  ended-Recorded row results spawned r ExecutionStatus.rejected e =
      rw e (finish-Recorded spawned [] row _ _ _ results)
  ended-Recorded row results spawned r ExecutionStatus.busy e =
      rw e (finish-Recorded spawned [] row _ _ _ results)

  -- What the engine answers to a command: the process is tried where none can be started.
  abbrev Tried : List (List Text) → Result Failure ExecutionResult → Type 0
  Tried spawned (err spawn_error) = (argv : List Text) × (spawned ≡ argv ∷ [])
  Tried spawned (err (stopped refusal)) = Unit
  Tried spawned (ok r) = Unit

  spawn-Tried :
      (argv : List Text) (process : Option Process)
      → let answer = spawn o.host argv process in Tried answer.0 answer.1
  unfolding spawn
  spawn-Tried argv none = (argv, refl)
  spawn-Tried argv (some process) = tt

  run_started-Tried :
      (started : Result Refusal (List Text × Engine))
      → let answer = run_started o.host started in Tried answer.0 answer.1
  unfolding run_started
  run_started-Tried (err refusal) = tt
  run_started-Tried (ok (argv, engine)) = spawn-Tried argv (o.host.process argv)

  after_command-Recorded :
      (row : DiagnosticResult) (results : List DiagnosticResult) (spawned : List (List Text))
      (answer : Result Failure ExecutionResult)
      → Tried spawned answer
      → Recorded o results (after_command o row results (spawned, answer))
        ⊎ Escaped results (after_command o row results (spawned, answer))
  unfolding after_command
  after_command-Recorded row results spawned (err (stopped Refusal.busy)) h =
      inl (finish-Recorded spawned [] row _ _ _ results)
  after_command-Recorded row results spawned (err (stopped (Refusal.rejected e))) h =
      inl (finish-Recorded spawned [] row _ _ _ results)
  after_command-Recorded row results spawned (err spawn_error) h =
      inr (record { argv = h.0; tried = h.1; left = refl; unchanged = refl })
  after_command-Recorded row results spawned (ok r) h =
      inl (ended-Recorded row results spawned r r.status refl)

  run_command-Recorded :
      (row : DiagnosticResult) (results : List DiagnosticResult)
      (built : Result ValidationError Command) (target : Text)
      → Recorded o results (run_command o row results built target)
        ⊎ Escaped results (run_command o row results built target)
  unfolding run_command run
  run_command-Recorded row results (err e) target = inl (finish-Recorded [] [] row _ _ _ results)
  run_command-Recorded row results (ok c) target =
      after_command-Recorded (record row { target = target }) results _ _
        (run_started-Tried
          (start_run o.host.files c.program c.arguments c.timeout false o.host.engine))

  after_check-Recorded :
      (row : DiagnosticResult) (results : List DiagnosticResult) (target : Text)
      (answer : Result ValidationError (Request × HttpCheckResult))
      → Recorded o results (after_check o row results target answer)
  unfolding after_check
  after_check-Recorded row results target (err e) = finish-Recorded [] [] row _ _ _ results
  after_check-Recorded row results target (ok (q, r)) = finish-Recorded [] (q ∷ []) _ _ _ _ results

  run_http-Recorded :
      (row : DiagnosticResult) (results : List DiagnosticResult) (address : ℕ)
      (allowed : List Network) (port : Result ValidationError ℕ)
      → Recorded o results (run_http o row results address allowed port)
  unfolding run_http
  run_http-Recorded row results address allowed (err e) = finish-Recorded [] [] row _ _ _ results
  run_http-Recorded row results address allowed (ok port) = after_check-Recorded row results _ _

  run_on-Recorded :
      (kind : Diagnostic) (device : Device) (port count : Option ℤ) (allowed : List Network)
      (row : DiagnosticResult) (results : List DiagnosticResult)
      (permission : Result ValidationError ℕ)
      → Recorded o results (run_on o kind device port count allowed row results permission)
        ⊎ ((k : CommandKind) × (kind ≡ command k))
          × Escaped results (run_on o kind device port count allowed row results permission)
  unfolding run_on
  run_on-Recorded kind device port count allowed row results (err e) =
      inl (finish-Recorded [] [] row _ _ _ results)
  run_on-Recorded http_check device port count allowed row results (ok address) =
      inl (run_http-Recorded row results address allowed _)
  run_on-Recorded (command kind) device port count allowed row results (ok address) =
      elim (run_command-Recorded row results
        (command_of o.unicode kind device (dotted address) port count) (target_of kind device)) [
          | inl recorded ↦ inl recorded
          | inr escaped ↦ inr ((kind, refl), escaped)
        ]

  -- A diagnostic of a known kind other than a ping adds exactly one record and returns it, whether
  -- its target is refused, its command is refused, the engine is busy, the run fails, times out or
  -- succeeds. The only other end is for a kind that runs a command: where its process cannot be
  -- started, the exception is raised on and nothing is stored. An unknown kind raises an exception
  -- and stores nothing.
  pub run_diagnostic-Recorded :
      (kind : Text) (device : Device) (port count : Option ℤ) (allowed : List Network)
      (caller : Caller) (results : List DiagnosticResult)
      → registry kind ≢ some (command ping)
      → let done = run_diagnostic o kind device port count allowed caller results in
        ((registry kind ≡ none)
          × (done.result ≡ err (invalid unknown_diagnostic))
          × (done.results ≡ results))
        ⊎ Recorded o results done
        ⊎ ((k : CommandKind) × (registry kind ≡ some (command k))) × Escaped results done
  unfolding run_diagnostic run_known
  run_diagnostic-Recorded kind device port count allowed caller results other =
      elim (Option-cases (registry kind)) [
        | inl e ↦ rw e (inl (refl, refl, refl))
        | inr (k, e) ↦
            rw e
              (elim (run_on-Recorded k device port count allowed
                (begin o k device port count caller) results
                (validate_device_target o.ipv6 device allowed)) [
                  | inl recorded ↦ inr (inl recorded)
                  | inr ((c, same), escaped) ↦ inr (inr ((c, ap some same), escaped))
                ])
      ]

  target-InScope :
      (device : Device) (allowed : List Network) (address : ℕ)
      → validate_device_target o.ipv6 device allowed ≡ ok address
      → InScope o device allowed
  unfolding validate_device_target
  target-InScope device allowed address h = record {
    address = address;
    parsed = ground arith;
    not_blocked = ground arith;
    in_allowlist = ground arith;
  }

  -- A diagnostic that spawned a process or sent a request was on a device whose address is in a
  -- range that is allowed at the time of the run and in none of the reserved ranges.
  pub run_diagnostic-InScope :
      (kind : Text) (device : Device) (port count : Option ℤ) (allowed : List Network)
      (caller : Caller) (results : List DiagnosticResult)
      → ((run_diagnostic o kind device port count allowed caller results).spawned ≡ [])
          × ((run_diagnostic o kind device port count allowed caller results).requests ≡ [])
        ⊎ InScope o device allowed
  unfolding run_diagnostic run_known run_on finish
  run_diagnostic-InScope kind device port count allowed caller results =
      elim (Option-cases (registry kind)) [
        | inl e ↦ rw e (inl (refl, refl))
        | inr (k, e) ↦ elim (Result-cases (validate_device_target o.ipv6 device allowed)) [
          | inr (f, h) ↦ rw (e, h) (inl (refl, refl))
          | inl (address, h) ↦ inr (target-InScope device allowed address h)
        ]
      ]
