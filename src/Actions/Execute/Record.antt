-- ===== src/Actions/Execute/Record.antt =====
-- The record that a run of an action leaves, on each of its paths.
use netops_console.Prelude.{
  ℕ, ◌≡◌, ◌≢◌, ◌⊎◌, refl, inl, inr, true, false, Option, some, List, [], ◌∷◌, ◌++◌, is_empty,
  length, Result, ok, err, Bool-cases, arith,
}
use netops_console.Prelude.Int.{ℤ}
use netops_console.Prelude.Text.{Text}
use netops_console.Net.{Network}
use netops_console.Validation.Errors.{ValidationError}
use netops_console.Execution.{Refusal}
use netops_console.Execution.Run.{
  Failure, stopped, spawn_error, ExecutionStatus, ExecutionResult, exited_well,
}
use netops_console.Discovery.Inventory.{Device}
use netops_console.Ssh.{
  Contact, Raised, ssh_error, unknown_host_key, host_key_changed, crypto_error,
  key_encryption_error, key_import_error, SshResult,
}
use netops_console.Crypto.{CryptoError}
use netops_console.Credentials.{Credential, for_device}
use netops_console.Actions.Schema.{ExecutionType, local, ssh, ParamSpec, parse_schema}
use netops_console.Actions.Schema.Command.{validate_template, build_argv, build_ssh_command}
use netops_console.Actions.Schema.Build.{validate_template-build_argv}
use netops_console.Actions.Schema.Preview.{preview_built, template_not_empty}
use netops_console.Actions.Runs.{ActionDefinition}
use netops_console.Actions.Execute.{
  Status, running, Complaint, ActionExecution, Caller, Outside, World, Crash, uncaught, os_error,
  Run, crashed, finish, completed_row, permitted, status_in_record, after_engine, run_local,
  execute_local, after_ssh, build_refused, run_ssh, execute_ssh, execute_kind, execute_permitted,
  execute_read, execute,
}

-- The run added one record, which it returns: it has a final status and the time of its end.
pub record Recorded (o : Outside) (world : World) (run : Run) : Type 0 where
  pub row : ActionExecution
  pub returned : run.result ≡ ok row
  pub stored : run.world.executions ≡ world.executions ++ row ∷ []
  pub final : row.status ≢ running
  pub ended : row.completed_at ≡ some o.completed

-- The exceptions that `execute` does not catch: for a local action those of the start of the process,
-- and for an SSH action those of the client on a stored key or secret.
abbrev pub Uncaught : ExecutionType → Crash → Type 0
Uncaught local crash = crash ≡ os_error
Uncaught ssh crash =
    (crash ≡ uncaught key_encryption_error)
    ⊎ (crash ≡ uncaught key_import_error)
    ⊎ ((e : CryptoError) × (crash ≡ uncaught (crypto_error e)))

-- The run ended in an exception that `execute` does not catch, and stored nothing.
pub record Escaped (kind : ExecutionType) (world : World) (run : Run) : Type 0 where
  pub crash : Crash
  pub which : Uncaught kind crash
  pub left : run.result ≡ err crash
  pub unchanged : run.world ≡ world

module _ (o : Outside) where
  finish-Recorded :
      (spawned : List (List Text)) (contacts : List Contact) (execution : ActionExecution)
      (status : Status) (out : Text) (errors : Complaint) (exit_code : Option ℤ) (world : World)
      → status ≢ running
      → Recorded o world (finish o spawned contacts execution status out errors exit_code world)
  unfolding finish completed_row
  finish-Recorded spawned contacts execution status out errors exit_code world final = record {
    row = completed_row o execution status out errors exit_code;
    returned = refl;
    stored = refl;
    final = final;
    ended = refl;
  }

  final_status : (s : ExecutionStatus) → status_in_record o s ≢ running
  unfolding status_in_record
  final_status ExecutionStatus.success h = cc
  final_status ExecutionStatus.failed h = cc
  final_status ExecutionStatus.timeout h = cc
  final_status ExecutionStatus.rejected h = cc
  final_status ExecutionStatus.busy h = cc

  after_engine-Recorded :
      (execution : ActionExecution) (world : World)
      (answer : List (List Text) × Result Failure ExecutionResult)
      → Recorded o world (after_engine o execution world answer)
        ⊎ Escaped local world (after_engine o execution world answer)
  unfolding after_engine
  after_engine-Recorded execution world (spawned, ok r) =
      inl (finish-Recorded spawned [] execution _ _ _ _ world (final_status r.status))
  after_engine-Recorded execution world (spawned, err (stopped Refusal.busy)) =
      inl (finish-Recorded spawned [] execution _ _ _ _ world (λ h. cc))
  after_engine-Recorded execution world (spawned, err (stopped (Refusal.rejected e))) =
      inl (finish-Recorded spawned [] execution _ _ _ _ world (λ h. cc))
  after_engine-Recorded execution world (spawned, err spawn_error) =
      inr (record { crash = os_error; which = refl; left = refl; unchanged = refl })

  after_ssh-Recorded :
      (id : ℕ) (execution : ActionExecution) (world : World)
      (answer : List Contact × Result Raised SshResult)
      → Recorded o world (after_ssh o id execution world answer)
        ⊎ Escaped ssh world (after_ssh o id execution world answer)
  unfolding after_ssh finish completed_row crashed
  after_ssh-Recorded id execution world (contacts, ok r) = inl (record {
    row = completed_row o execution _ _ _ _;
    returned = refl;
    stored = refl;
    final = elim (Bool-cases (exited_well r.exit_status)) [
      | inl e ↦ rw e (λ h. cc)
      | inr e ↦ rw e (λ h. cc)
    ];
    ended = refl;
  })
  after_ssh-Recorded id execution world (contacts, err (unknown_host_key key)) =
      inl (finish-Recorded [] contacts execution _ _ _ _ world (λ h. cc))
  after_ssh-Recorded id execution world (contacts, err (host_key_changed expected presented)) =
      inl (finish-Recorded [] contacts execution _ _ _ _ world (λ h. cc))
  after_ssh-Recorded id execution world (contacts, err (ssh_error problem)) =
      inl (finish-Recorded [] contacts execution _ _ _ _ world (λ h. cc))
  after_ssh-Recorded id execution world (contacts, err (crypto_error e)) = inr (record {
    crash = uncaught (crypto_error e);
    which = inr (inr (e, refl));
    left = refl;
    unchanged = refl;
  })
  after_ssh-Recorded id execution world (contacts, err key_encryption_error) = inr (record {
    crash = uncaught key_encryption_error;
    which = inl refl;
    left = refl;
    unchanged = refl;
  })
  after_ssh-Recorded id execution world (contacts, err key_import_error) = inr (record {
    crash = uncaught key_import_error;
    which = inr (inl refl);
    left = refl;
    unchanged = refl;
  })

module _ (o : Outside) where
  -- The runs of a definition that was checked when it was stored.
  run_local-Recorded :
      (definition : ActionDefinition) (execution : ActionExecution) (world : World)
      (argv : List Text) (preview : Text)
      → is_empty argv ≡ false
      → Recorded o world (run_local o definition execution world argv (ok preview))
        ⊎ Escaped local world (run_local o definition execution world argv (ok preview))
  unfolding run_local
  run_local-Recorded definition execution world [] preview h = cc
  run_local-Recorded definition execution world (program ∷ arguments) preview h =
      after_engine-Recorded o _ world _

  nonempty : (xs ys : List Text) → length xs ≡ length ys → is_empty ys ≡ false → is_empty xs ≡ false
  nonempty [] [] e h = h
  nonempty [] (y ∷ ys) e h = ground arith
  nonempty (x ∷ xs) ys e h = refl

  execute_local-Recorded :
      (definition : ActionDefinition) (specs : List ParamSpec) (values : List (Text × Text))
      (execution : ActionExecution) (world : World)
      → validate_template o.host.files definition.argv_template specs definition.execution_type
        ≡ ok tt
      → Recorded o world (
          execute_local o definition specs values execution world
            (build_argv o.regex definition.argv_template specs values))
        ⊎ Escaped local world (
            execute_local o definition specs values execution world
              (build_argv o.regex definition.argv_template specs values))
  unfolding execute_local
  execute_local-Recorded definition specs values execution world checked =
      elim (validate_template-build_argv o.host.files o.regex definition.argv_template specs
        definition.execution_type values checked) [
          | inl (argv, e, program, same) ↦
              let (preview, k) =
                preview_built o.regex false definition.argv_template specs values argv e in
              rw (e, k)
                (run_local-Recorded definition execution world argv preview (
                  nonempty argv definition.argv_template same (template_not_empty _ _ _ _ checked)))
          | inr (f, e) ↦ rw e (inl (finish-Recorded o [] [] execution _ _ _ _ world (λ h. cc)))
        ]

  execute_ssh-Recorded :
      (definition : ActionDefinition) (device : Device) (specs : List ParamSpec)
      (values : List (Text × Text)) (execution : ActionExecution) (world : World)
      (credentials : List Credential)
      → validate_template o.host.files definition.argv_template specs definition.execution_type
        ≡ ok tt
      → Recorded o world (execute_ssh o definition device specs values execution world credentials)
        ⊎ Escaped ssh world
            (execute_ssh o definition device specs values execution world credentials)
  unfolding execute_ssh run_ssh build_refused build_ssh_command build_argv
  execute_ssh-Recorded definition device specs values execution world [] checked =
      inl (finish-Recorded o [] [] execution _ _ _ _ world (λ h. cc))
  execute_ssh-Recorded definition device specs values execution world (c ∷ cs) checked =
      elim (validate_template-build_argv o.host.files o.regex definition.argv_template specs
        definition.execution_type values checked) [
          | inl (argv, e, program, same) ↦
              let (preview, k) =
                preview_built o.regex true definition.argv_template specs values argv e in
              rw (e, k) (after_ssh-Recorded o c.id _ world _)
          | inr (f, e) ↦ rw e (inl (finish-Recorded o [] [] execution _ _ _ _ world (λ h. cc)))
        ]

  execute_kind-Recorded :
      (definition : ActionDefinition) (device : Device) (specs : List ParamSpec)
      (values : List (Text × Text)) (execution : ActionExecution) (world : World)
      (kind : ExecutionType)
      → validate_template o.host.files definition.argv_template specs definition.execution_type
        ≡ ok tt
      → Recorded o world (execute_kind o definition device specs values execution world kind)
        ⊎ Escaped kind world (execute_kind o definition device specs values execution world kind)
  unfolding execute_kind
  execute_kind-Recorded definition device specs values execution world local checked =
      execute_local-Recorded definition specs values execution world checked
  execute_kind-Recorded definition device specs values execution world ssh checked =
      execute_ssh-Recorded definition device specs values execution world
        (for_device device.id world.credentials) checked

  execute_permitted-Recorded :
      (definition : ActionDefinition) (device : Device) (specs : List ParamSpec)
      (values : List (Text × Text)) (execution : ActionExecution) (world : World)
      (permission : Result ValidationError ℕ)
      → validate_template o.host.files definition.argv_template specs definition.execution_type
        ≡ ok tt
      → Recorded o world
          (execute_permitted o definition device specs values execution world permission)
        ⊎ Escaped definition.execution_type world
            (execute_permitted o definition device specs values execution world permission)
  unfolding execute_permitted
  execute_permitted-Recorded definition device specs values execution world (err e) checked =
      inl (finish-Recorded o [] [] execution _ _ _ _ world (λ h. cc))
  execute_permitted-Recorded definition device specs values execution world (ok address) checked =
      execute_kind-Recorded definition device specs values execution world definition.execution_type
        checked

  -- A run of a definition whose schema and template pass the checks of `validate_definition` adds
  -- exactly one record, with a final status and the time of its end, whatever is refused or fails on
  -- the way. The only other end is an exception, after which nothing is stored: for a local action
  -- that of a process that cannot be started, and for an SSH action one of the SSH client on a
  -- stored key or secret.
  pub execute-Recorded :
      (definition : ActionDefinition) (device : Device) (values : List (Text × Text))
      (allowed : List Network) (caller : Caller) (world : World) (specs : List ParamSpec)
      → parse_schema o.regex definition.execution_type definition.param_schema ≡ ok specs
      → validate_template o.host.files definition.argv_template specs definition.execution_type
        ≡ ok tt
      → Recorded o world (execute o definition device values allowed caller world)
        ⊎ Escaped definition.execution_type world
            (execute o definition device values allowed caller world)
  unfolding execute execute_read
  execute-Recorded definition device values allowed caller world specs parsed checked = rw parsed (
      execute_permitted-Recorded definition device specs values _ world
        (permitted o definition device allowed) checked)
