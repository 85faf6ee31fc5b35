-- ===== src/Actions/Execute.antt =====
-- `execute` of `app/modules/actions/service.py`: a run of an action, what it does to the network and
-- the host, and the record it leaves in the table of `app/models/action.py`.
pub mod Record
pub mod Scope
mod Examples
use netops_console.Prelude.{
  ℕ, suc, ◌-◌, Bool, true, false, not, Option, none, some, List, [], ◌∷◌, ◌++◌, map, String, leb,
  ◌==◌, or_else, truthy, if◌then◌else◌, Result, ok, err, ◌>>=◌, ◌>>◌, raise_if,
}
use netops_console.Prelude.Int.{ℤ, pos, negsuc}
use netops_console.Prelude.Text.{Text, codes}
use netops_console.Net.{Network}
use netops_console.Net.Parse.{Ipv6}
use netops_console.Validation.Errors.{ValidationError, action_disabled, not_applicable}
use netops_console.Execution.{Refusal}
use netops_console.Execution.Run.{
  Failure, stopped, spawn_error, ExecutionStatus, ExecutionResult, Host, run, exited_well,
}
use netops_console.Discovery.Inventory.{Device}
use netops_console.Records.{display_name, milliseconds}
use netops_console.Crypto.{Fernet}
use netops_console.Ssh.{
  Asyncssh, Contact, Raised, ssh_error, unknown_host_key, host_key_changed, crypto_error,
  key_encryption_error, key_import_error, SshResult, Login, run_command,
}
use netops_console.Credentials.{Tables, Credential, SshHostKey, for_device, trusted_key_for}
use netops_console.Actions.Schema.{Regex, ExecutionType, local, ssh, ParamSpec, parse_schema}
use netops_console.Actions.Schema.Command.{
  BuildError, invalid, key_error, build_argv, build_ssh_command, build_preview, redact,
}
use netops_console.Actions.Runs.{ActionDefinition, applicable_to, validate_target}

-- `EXECUTION_STATUSES`
pub data Status : Type 0 where
  running success failed timeout rejected busy : Status

-- What the column `stderr` holds: an output, or the message of an exception.
pub data Complaint : Type 0 where
  output : Text → Complaint
  invalid_run : ValidationError → Complaint
  no_credential : Complaint
  refused : Refusal → Complaint
  ssh_refused : Raised → Complaint

-- A row of `action_execution`.
pub record ActionExecution : Type 0 where
  pub device_id : ℕ
  pub action_definition_id : ℕ
  pub user_id : Option ℕ
  pub device_label_snapshot : Text
  pub action_name_snapshot : Text
  pub username_snapshot : Option Text
  pub client_ip : Option Text
  pub params_redacted : Option (List (Text × Text))
  pub command_preview : Option Text
  pub status : Status
  pub exit_code : Option ℤ
  pub stdout : Option Text
  pub stderr : Option Complaint
  pub started_at : ℕ
  pub completed_at : Option ℕ
  pub duration_ms : Option ℤ

-- Who asks for a run.
pub record Caller : Type 0 where
  pub user_id : Option ℕ
  pub username : Option Text
  pub client_ip : Option Text

-- What a run uses from outside: the libraries, the host, and the clock at its start and at its end.
pub record Outside : Type 0 where
  pub regex : Regex
  pub ipv6 : Ipv6
  pub lower : Text → Text
  pub host : Host
  pub asyncssh : Asyncssh
  pub fernet : Fernet
  pub scalar : List SshHostKey → Option SshHostKey
  pub started : ℕ
  pub completed : ℕ

-- The tables that a run writes to.
pub record World : Type 0 where
  pub credentials : Tables
  pub executions : List ActionExecution

-- The exceptions that leave `execute`.
pub data Crash : Type 0 where
  building : BuildError → Crash
  index_error : Crash
  uncaught : Raised → Crash
  -- of `create_subprocess_exec`
  os_error : Crash

-- A run: the argvs that were spawned, the contacts with the device, the result and the tables.
pub record Run : Type 0 where
  pub spawned : List (List Text)
  pub contacts : List Contact
  pub result : Result Crash ActionExecution
  pub world : World

-- `stdout or None`
unfoldable pub text_or_none : Text → Option Text
text_or_none [] = none
text_or_none (c ∷ s) = some (c ∷ s)

-- `stderr or None`; the messages of exceptions are not empty.
unfoldable pub complaint_or_none : Complaint → Option Complaint
complaint_or_none (output []) = none
complaint_or_none (output (c ∷ s)) = some (output (c ∷ s))
complaint_or_none other = some other

-- A run that ends in an exception: nothing is committed.
unfoldable pub crashed : List Contact → Crash → World → Run
crashed contacts crash world = record {
  spawned = [];
  contacts = contacts;
  result = err crash;
  world = world;
}

module _ (o : Outside) where
  unfoldable pub completed_row :
      ActionExecution → Status → Text → Complaint → Option ℤ → ActionExecution
  completed_row execution status out errors exit_code = record execution {
    status = status;
    stdout = text_or_none out;
    stderr = complaint_or_none errors;
    exit_code = exit_code;
    completed_at = some o.completed;
    duration_ms = some (milliseconds execution.started_at o.completed);
  }

  -- `_finish`, after what the run did.
  unfoldable pub finish :
      List (List Text)
      → List Contact
      → ActionExecution
      → Status
      → Text
      → Complaint
      → Option ℤ
      → World
      → Run
  finish spawned contacts execution status out errors exit_code world =
      let row = completed_row execution status out errors exit_code in
      record {
        spawned = spawned;
        contacts = contacts;
        result = ok row;
        world = record world { executions = world.executions ++ row ∷ [] };
      }

  -- The row as `execute` begins it.
  unfoldable pub begin : ActionDefinition → Device → Caller → ActionExecution
  begin definition device caller = record {
    device_id = device.id;
    action_definition_id = definition.id;
    user_id = caller.user_id;
    device_label_snapshot = display_name device;
    action_name_snapshot = definition.name;
    username_snapshot = caller.username;
    client_ip = caller.client_ip;
    params_redacted = none;
    command_preview = none;
    status = rejected;
    exit_code = none;
    stdout = none;
    stderr = none;
    started_at = o.started;
    completed_at = none;
    duration_ms = none;
  }

  -- The checks of `execute` on a run whose schema was read.
  unfoldable pub permitted : ActionDefinition → Device → List Network → Result ValidationError ℕ
  permitted definition device allowed = do
    raise_if (not definition.enabled) action_disabled
    raise_if (not (applicable_to o.lower definition device)) not_applicable
    validate_target o.ipv6 device allowed

  unfoldable pub status_in_record : ExecutionStatus → Status
  status_in_record ExecutionStatus.success = success
  status_in_record ExecutionStatus.timeout = timeout
  status_in_record other = failed

  -- The end of a run of the engine.
  unfoldable pub after_engine :
      ActionExecution → World → List (List Text) × Result Failure ExecutionResult → Run
  after_engine execution world (spawned, ok r) =
      finish spawned [] execution (status_in_record r.status) r.stdout (output r.stderr) r.exit_code
        world
  after_engine execution world (spawned, err (stopped Refusal.busy)) =
      finish spawned [] execution busy [] (refused Refusal.busy) none world
  after_engine execution world (spawned, err (stopped (Refusal.rejected e))) =
      finish spawned [] execution rejected [] (refused (Refusal.rejected e)) none world
  after_engine execution world (spawned, err spawn_error) = record {
    spawned = spawned;
    contacts = [];
    result = err os_error;
    world = world;
  }

  -- `argv[0], argv[1:]` are handed to the engine.
  unfoldable pub run_local :
      ActionDefinition → ActionExecution → World → List Text → Result BuildError Text → Run
  run_local definition execution world argv (err e) = crashed [] (building e) world
  run_local definition execution world [] (ok preview) = crashed [] index_error world
  run_local definition execution world (program ∷ arguments) (ok preview) =
      after_engine (record execution { command_preview = some preview }) world
        (run o.host program arguments definition.timeout_seconds false)

  unfoldable pub execute_local :
      ActionDefinition
      → List ParamSpec
      → List (Text × Text)
      → ActionExecution
      → World
      → Result BuildError (List Text)
      → Run
  execute_local definition specs values execution world (err (invalid e)) =
      finish [] [] execution rejected [] (invalid_run e) none world
  execute_local definition specs values execution world (err key_error) =
      crashed [] (building key_error) world
  execute_local definition specs values execution world (ok argv) =
      run_local definition execution world argv
        (build_preview o.regex false definition.argv_template specs values)

  -- The table of credentials after one was used.
  unfoldable pub used : ℕ → Tables → Tables
  used id t = record t {
    credentials =
        map
          (λ (c : Credential).
            if c.id == id then record c { last_used_at = some o.completed } else c)
          t.credentials;
  }

  -- The end of a command on a device.
  unfoldable pub after_ssh :
      ℕ → ActionExecution → World → List Contact × Result Raised SshResult → Run
  after_ssh id execution world (contacts, ok r) =
      finish [] contacts execution
        (elim (exited_well r.exit_status) [ true ↦ success | false ↦ failed ]) r.stdout
        (output r.stderr) r.exit_status (record world { credentials = used id world.credentials })
  after_ssh id execution world (contacts, err (unknown_host_key key)) =
      finish [] contacts execution rejected [] (ssh_refused (unknown_host_key key)) none world
  after_ssh id execution world (contacts, err (host_key_changed expected presented)) =
      finish [] contacts execution rejected [] (ssh_refused (host_key_changed expected presented))
        none world
  after_ssh id execution world (contacts, err (ssh_error problem)) =
      finish [] contacts execution failed [] (ssh_refused (ssh_error problem)) none world
  after_ssh id execution world (contacts, err (crypto_error e)) =
      crashed contacts (uncaught (crypto_error e)) world
  after_ssh id execution world (contacts, err key_encryption_error) =
      crashed contacts (uncaught key_encryption_error) world
  after_ssh id execution world (contacts, err key_import_error) =
      crashed contacts (uncaught key_import_error) world

  unfoldable pub login_of : Credential → Login
  login_of credential = record {
    username = credential.username;
    auth_type = credential.auth_type;
    secret_ciphertext = credential.secret_ciphertext;
    passphrase_ciphertext = credential.passphrase_ciphertext;
  }

  -- A refused value is caught by `execute`, in the same way before and after the command is built.
  unfoldable pub build_refused : BuildError → ActionExecution → World → Run
  build_refused (invalid e) execution world =
      finish [] [] execution rejected [] (invalid_run e) none world
  build_refused key_error execution world = crashed [] (building key_error) world

  unfoldable pub run_ssh :
      ActionExecution
      → Device
      → Credential
      → World
      → Result BuildError Text
      → Result BuildError Text
      → Run
  run_ssh execution device credential world (err e) preview = build_refused e execution world
  run_ssh execution device credential world (ok command) (err e) = build_refused e execution world
  run_ssh execution device credential world (ok command) (ok preview) =
      after_ssh credential.id (record execution { command_preview = some preview }) world
        (run_command o.asyncssh o.fernet (codes device.ip_address) 22 command (login_of credential)
          (trusted_key_for o.scalar device.id world.credentials))

  -- `_execute_ssh`
  unfoldable pub execute_ssh :
      ActionDefinition
      → Device
      → List ParamSpec
      → List (Text × Text)
      → ActionExecution
      → World
      → List Credential
      → Run
  execute_ssh definition device specs values execution world [] =
      finish [] [] execution rejected [] no_credential none world
  execute_ssh definition device specs values execution world (credential ∷ others) =
      run_ssh execution device credential world
        (build_ssh_command o.regex definition.argv_template specs values)
        (build_preview o.regex true definition.argv_template specs values)

  -- The two ways of running an action.
  unfoldable pub execute_kind :
      ActionDefinition
      → Device
      → List ParamSpec
      → List (Text × Text)
      → ActionExecution
      → World
      → ExecutionType
      → Run
  execute_kind definition device specs values execution world ssh =
      execute_ssh definition device specs values execution world
        (for_device device.id world.credentials)
  execute_kind definition device specs values execution world local =
      execute_local definition specs values execution world
        (build_argv o.regex definition.argv_template specs values)

  -- `execute`, past the reading of the schema and the checks.
  unfoldable pub execute_permitted :
      ActionDefinition
      → Device
      → List ParamSpec
      → List (Text × Text)
      → ActionExecution
      → World
      → Result ValidationError ℕ
      → Run
  execute_permitted definition device specs values execution world (err e) =
      finish [] [] execution rejected [] (invalid_run e) none world
  execute_permitted definition device specs values execution world (ok address) =
      execute_kind definition device specs values execution world definition.execution_type

  unfoldable pub execute_read :
      ActionDefinition
      → Device
      → List (Text × Text)
      → List Network
      → ActionExecution
      → World
      → Result ValidationError (List ParamSpec)
      → Run
  execute_read definition device values allowed execution world (err e) =
      finish [] [] execution rejected [] (invalid_run e) none world
  execute_read definition device values allowed execution world (ok specs) =
      execute_permitted definition device specs values
        (record execution { params_redacted = some (redact values specs) }) world
        (permitted definition device allowed)

  unfoldable pub execute :
      ActionDefinition → Device → List (Text × Text) → List Network → Caller → World → Run
  execute definition device values allowed caller world =
      execute_read definition device values allowed (begin definition device caller) world
        (parse_schema o.regex definition.execution_type definition.param_schema)
