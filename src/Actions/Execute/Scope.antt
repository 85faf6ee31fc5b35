-- ===== src/Actions/Execute/Scope.antt =====
-- What a run of an action may touch: devices in scope, and hosts whose key is trusted.
use netops_console.Prelude.{
  ℕ, ◌≡◌, ◌⊎◌, refl, inl, inr, true, false, List, [], ◌∷◌, Result, ok, err, Result-cases, arith,
  All,
}
use netops_console.Prelude.Text.{Text, codes}
use netops_console.Net.{Network}
use netops_console.Validation.{parse_ipv4, is_blocked, address_in_allowlist}
use netops_console.Validation.Errors.{ValidationError}
use netops_console.Execution.{Refusal}
use netops_console.Execution.Run.{Failure, stopped, spawn_error, ExecutionResult, run}
use netops_console.Discovery.Inventory.{Device}
use netops_console.Ssh.{
  Contact, Raised, ssh_error, unknown_host_key, host_key_changed, crypto_error,
  key_encryption_error, key_import_error, SshResult,
}
use netops_console.Ssh.Offers.{Verified, run_command-Verified}
use netops_console.Credentials.{Credential, trusted_key_for, for_device}
use netops_console.Actions.Schema.{ExecutionType, local, ssh, ParamSpec, parse_schema}
use netops_console.Actions.Schema.Command.{BuildError, invalid, key_error}
use netops_console.Actions.Runs.{ActionDefinition, applicable_to, validate_target}
use netops_console.Actions.Execute.{
  ActionExecution, Caller, Outside, World, Run, crashed, finish, permitted, after_engine, run_local,
  execute_local, after_ssh, build_refused, run_ssh, execute_ssh, execute_kind, execute_permitted,
  execute_read, execute,
}

-- An enabled action for devices of this type, on a device whose address is allowed now.
pub record InScope (o : Outside) (definition : ActionDefinition) (device : Device)
    (allowed : List Network) : Type 0 where
  pub address : ℕ
  pub parsed : parse_ipv4 o.ipv6 (codes device.ip_address) ≡ ok address
  pub not_blocked : is_blocked address ≡ false
  pub in_allowlist : address_in_allowlist address allowed ≡ true
  pub enabled : definition.enabled ≡ true
  pub applicable : applicable_to o.lower definition device ≡ true

module _ (o : Outside) where
  permitted-InScope :
      (definition : ActionDefinition) (device : Device) (allowed : List Network) (address : ℕ)
      → permitted o definition device allowed ≡ ok address
      → InScope o definition device allowed
  unfolding permitted validate_target
  permitted-InScope definition device allowed address h = record {
    address = address;
    parsed = ground arith;
    not_blocked = ground arith;
    in_allowlist = ground arith;
    enabled = ground arith;
    applicable = ground arith;
  }

  -- A run that spawned a process or contacted the device was of an enabled action that applies to
  -- the device, whose address is in a range that is allowed at the time of the run and in none of
  -- the reserved ranges.
  pub execute-InScope :
      (definition : ActionDefinition) (device : Device) (values : List (Text × Text))
      (allowed : List Network) (caller : Caller) (world : World)
      → ((execute o definition device values allowed caller world).spawned ≡ [])
          × ((execute o definition device values allowed caller world).contacts ≡ [])
        ⊎ InScope o definition device allowed
  unfolding execute execute_read execute_permitted finish
  execute-InScope definition device values allowed caller world =
      elim (Result-cases (parse_schema o.regex definition.execution_type definition.param_schema)) [
        | inr (e, h) ↦ rw h (inl (refl, refl))
        | inl (specs, h) ↦ elim (Result-cases (permitted o definition device allowed)) [
          | inr (e, k) ↦ rw (h, k) (inl (refl, refl))
          | inl (address, k) ↦ inr (permitted-InScope definition device allowed address k)
        ]
      ]

  -- The contacts of a run are those of the SSH client.
  abbrev Contacts : Device → World → Run → Type 0
  Contacts device world run =
      All (Verified o.asyncssh (trusted_key_for o.scalar device.id world.credentials)) run.contacts

  after_ssh-Contacts :
      (P : Contact → Type 0) (id : ℕ) (execution : ActionExecution) (world : World)
      (contacts : List Contact) (result : Result Raised SshResult)
      → All P contacts
      → All P (after_ssh o id execution world (contacts, result)).contacts
  unfolding after_ssh finish crashed
  after_ssh-Contacts P id execution world contacts (ok r) h = h
  after_ssh-Contacts P id execution world contacts (err (unknown_host_key key)) h = h
  after_ssh-Contacts P id execution world contacts (err (host_key_changed expected presented)) h = h
  after_ssh-Contacts P id execution world contacts (err (ssh_error problem)) h = h
  after_ssh-Contacts P id execution world contacts (err (crypto_error e)) h = h
  after_ssh-Contacts P id execution world contacts (err key_encryption_error) h = h
  after_ssh-Contacts P id execution world contacts (err key_import_error) h = h

  after_engine-Contacts :
      (P : Contact → Type 0) (execution : ActionExecution) (world : World)
      (answer : List (List Text) × Result Failure ExecutionResult)
      → All P (after_engine o execution world answer).contacts
  unfolding after_engine finish
  after_engine-Contacts P execution world (spawned, ok r) = tt
  after_engine-Contacts P execution world (spawned, err (stopped Refusal.busy)) = tt
  after_engine-Contacts P execution world (spawned, err (stopped (Refusal.rejected e))) = tt
  after_engine-Contacts P execution world (spawned, err spawn_error) = tt

  run_local-Contacts :
      (P : Contact → Type 0) (definition : ActionDefinition) (execution : ActionExecution)
      (world : World) (argv : List Text) (preview : Result BuildError Text)
      → All P (run_local o definition execution world argv preview).contacts
  unfolding run_local crashed
  run_local-Contacts P definition execution world argv (err e) = tt
  run_local-Contacts P definition execution world [] (ok preview) = tt
  run_local-Contacts P definition execution world (program ∷ arguments) (ok preview) =
      after_engine-Contacts P _ world _

  execute_local-Contacts :
      (P : Contact → Type 0) (definition : ActionDefinition) (specs : List ParamSpec)
      (values : List (Text × Text)) (execution : ActionExecution) (world : World)
      (built : Result BuildError (List Text))
      → All P (execute_local o definition specs values execution world built).contacts
  unfolding execute_local finish crashed
  execute_local-Contacts P definition specs values execution world (err (invalid e)) = tt
  execute_local-Contacts P definition specs values execution world (err key_error) = tt
  execute_local-Contacts P definition specs values execution world (ok argv) =
      run_local-Contacts P definition execution world argv _

  run_ssh-Contacts :
      (execution : ActionExecution) (device : Device) (credential : Credential) (world : World)
      (command preview : Result BuildError Text)
      → Contacts device world (run_ssh o execution device credential world command preview)
  unfolding run_ssh build_refused finish crashed
  run_ssh-Contacts execution device credential world (err (invalid e)) preview = tt
  run_ssh-Contacts execution device credential world (err key_error) preview = tt
  run_ssh-Contacts execution device credential world (ok command) (err (invalid e)) = tt
  run_ssh-Contacts execution device credential world (ok command) (err key_error) = tt
  run_ssh-Contacts execution device credential world (ok command) (ok preview) =
      after_ssh-Contacts _ credential.id _ world _ _
        (run_command-Verified o.asyncssh o.fernet (codes device.ip_address) 22 command _ _)

  execute_kind-Contacts :
      (definition : ActionDefinition) (device : Device) (specs : List ParamSpec)
      (values : List (Text × Text)) (execution : ActionExecution) (world : World)
      (kind : ExecutionType) (credentials : List Credential)
      → for_device device.id world.credentials ≡ credentials
      → Contacts device world (execute_kind o definition device specs values execution world kind)
  unfolding execute_kind execute_ssh finish
  execute_kind-Contacts definition device specs values execution world local cs e =
      execute_local-Contacts _ definition specs values execution world _
  execute_kind-Contacts definition device specs values execution world ssh [] e = rw e tt
  execute_kind-Contacts definition device specs values execution world ssh (c ∷ cs) e =
      rw e (run_ssh-Contacts execution device c world _ _)

  execute_permitted-Contacts :
      (definition : ActionDefinition) (device : Device) (specs : List ParamSpec)
      (values : List (Text × Text)) (execution : ActionExecution) (world : World)
      (permission : Result ValidationError ℕ)
      → Contacts device world
          (execute_permitted o definition device specs values execution world permission)
  unfolding execute_permitted finish
  execute_permitted-Contacts definition device specs values execution world (err e) = tt
  execute_permitted-Contacts definition device specs values execution world (ok address) =
      execute_kind-Contacts definition device specs values execution world _ _ refl

  -- Every connection that a run makes to its device accepts one host key only, the one that is
  -- trusted for this device; where none is trusted, the run makes no connection.
  pub execute-Verified :
      (definition : ActionDefinition) (device : Device) (values : List (Text × Text))
      (allowed : List Network) (caller : Caller) (world : World)
      → Contacts device world (execute o definition device values allowed caller world)
  unfolding execute execute_read finish
  execute-Verified definition device values allowed caller world =
      elim (Result-cases (parse_schema o.regex definition.execution_type definition.param_schema)) [
        | inr (e, h) ↦ rw h tt
        | inl (specs, h) ↦
            rw h (execute_permitted-Contacts definition device specs values _ world _)
      ]
