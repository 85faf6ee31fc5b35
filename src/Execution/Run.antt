-- ===== src/Execution/Run.antt =====
-- `ExecutionEngine.run` of `app/core/execution.py`, from the request to its result: what it spawns,
-- and what becomes of the output.
use netops_console.Prelude.{
  ℕ, zero, suc, Bool, true, false, Option, none, some, List, [], ◌∷◌, ◌||◌, Result, ok, err,
}
use netops_console.Prelude.Int.{ℤ, pos, negsuc}
use netops_console.Prelude.Text.{Text}
use netops_console.Redaction.{Re, sanitize}
use netops_console.Execution.{Files, Engine, Refusal, start_run}

pub data ExecutionStatus : Type 0 where
  success failed timeout rejected busy : ExecutionStatus

-- `ExecutionResult`; its duration is the clock's.
pub record ExecutionResult : Type 0 where
  pub status : ExecutionStatus
  pub exit_code : Option ℤ
  pub stdout : Text
  pub stderr : Text
  pub truncated : Bool
  pub argv : List Text

-- A child process that has ended, of itself or killed at the limit: its return code and its
-- decoded output.
pub record Process : Type 0 where
  pub timed_out : Bool
  pub returncode : Option ℤ
  pub stdout : Text
  pub stderr : Text

unfoldable pub exited_well : Option ℤ → Bool
exited_well none = false
exited_well (some (pos zero)) = true
exited_well (some (pos (suc n))) = false
exited_well (some (negsuc n)) = false

unfoldable pub status_of : Process → ExecutionStatus
status_of process = elim process.timed_out [
  | true ↦ timeout
  | false ↦ elim (exited_well process.returncode) [ true ↦ success | false ↦ failed ]
]

-- `_spawn`, past the end of the process.
unfoldable pub result_of : Re → ℕ → List Text → List Text → Process → ExecutionResult
result_of re max_output_bytes secret_values argv process =
    let (out, out_truncated) = sanitize re max_output_bytes secret_values process.stdout in
    let (errors, err_truncated) = sanitize re max_output_bytes secret_values process.stderr in
    record {
      status = status_of process;
      exit_code = process.returncode;
      stdout = out;
      stderr = errors;
      truncated = out_truncated || err_truncated;
      argv = argv;
    }

-- What ends a call of `run` without a result: a refusal, or an exception of
-- `create_subprocess_exec`, which passes through.
pub data Failure : Type 0 where
  stopped : Refusal → Failure
  spawn_error : Failure

-- What the engine runs on: the programs, the processes they become, and the permits. An argv for
-- which `process` is none is one that `create_subprocess_exec` raises on.
pub record Host : Type 0 where
  pub files : Files
  pub process : List Text → Option Process
  pub engine : Engine
  pub re : Re
  pub max_output_bytes : ℕ

-- `_spawn`, with the argv that was given to `create_subprocess_exec`.
unfoldable pub spawn :
    Host → List Text → Option Process → List (List Text) × Result Failure ExecutionResult
spawn host argv none = (argv ∷ [], err spawn_error)
spawn host argv (some process) =
    (argv ∷ [], ok (result_of host.re host.max_output_bytes [] argv process))

-- `run`, with a permit taken or refused.
unfoldable pub run_started :
    Host → Result Refusal (List Text × Engine) → List (List Text) × Result Failure ExecutionResult
run_started host (err refusal) = ([], err (stopped refusal))
run_started host (ok (argv, engine)) = spawn host argv (host.process argv)

-- `run`: the argvs that were spawned, and the result. The permit is returned at the end, of whatever
-- kind.
unfoldable pub run :
    Host → Text → List Text → ℕ → Bool → List (List Text) × Result Failure ExecutionResult
run host program arguments seconds discovery =
    run_started host (start_run host.files program arguments seconds discovery host.engine)
