-- ===== src/Diagnostics/Service.antt =====
-- `app/modules/diagnostics/service.py`: the choice of a diagnostic, its target, and a run with the
-- record it leaves (`app/models/diagnostic.py`). The latency that is read from the output of a ping
-- is left out.
pub mod Record
mod Examples
use netops_console.Prelude.{
  ℕ, ◌*◌, ◌/◌, ◌%◌, ◌^◌, String, Bool, true, false, not, ◌&&◌, ◌||◌, Option, none, some, List, [],
  ◌∷◌, ◌++◌, is_empty, truthy, ◌==◌, if◌then◌else◌, Result, ok, err, ◌>>=◌, ◌>>◌, raise_if,
  or_raise,
}
use netops_console.Prelude.Int.{ℤ, pos}
use netops_console.Prelude.Text.{Text, codes, eqb, strip, text_of_int}
use netops_console.Net.{Network}
use netops_console.Net.Parse.{Ipv6}
use netops_console.Validation.{
  Unicode, PortValue, number, validate_port, validate_hostname, parse_ipv4, is_blocked,
  address_in_allowlist,
}
use netops_console.Validation.Errors.{
  ValidationError, address_blocked, address_outside, unknown_diagnostic, no_discovered_hostname,
  needs_port,
}
use netops_console.Redaction.{sanitize}
use netops_console.Execution.{Refusal}
use netops_console.Execution.Run.{
  Failure, stopped, spawn_error, ExecutionStatus, ExecutionResult, Host, run,
}
use netops_console.Discovery.Inventory.{Device}
use netops_console.Records.{display_name, milliseconds}
use netops_console.Diagnostics.Builders
use netops_console.Diagnostics.Builders.{Command}
use netops_console.Diagnostics.Http.{Web, Request, HttpCheckResult, check}

-- The diagnostics that run a command.
pub data CommandKind : Type 0 where
  ping traceroute dns rdns tcp service_scan arp : CommandKind

-- The keys of `REGISTRY`.
pub data Diagnostic : Type 0 where
  command : CommandKind → Diagnostic
  http_check : Diagnostic

-- `REGISTRY[kind]`
unfoldable pub registry : Text → Option Diagnostic
registry kind =
    if eqb kind (codes "ping")
    then some (command ping)
    else if eqb kind (codes "traceroute")
    then some (command traceroute)
    else if eqb kind (codes "dns")
    then some (command dns)
    else if eqb kind (codes "rdns")
    then some (command rdns)
    else if eqb kind (codes "tcp")
    then some (command tcp)
    else if eqb kind (codes "service_scan")
    then some (command service_scan)
    else if eqb kind (codes "arp")
    then some (command arp)
    else if eqb kind (codes "http_check")
    then some http_check
    else none

-- `MAX_STORED_OUTPUT`
abbrev pub max_stored_output : ℕ
max_stored_output = 32 * 1024

-- `validate_device_target`
unfoldable pub validate_device_target : Ipv6 → Device → List Network → Result ValidationError ℕ
validate_device_target ipv6 device allowed = do
  address ← parse_ipv4 ipv6 (codes device.ip_address)
  raise_if (is_blocked address) address_blocked
  raise_if (not (address_in_allowlist address allowed)) address_outside
  ok address

abbrev decimal : ℕ → Text
decimal n = text_of_int (pos n)

-- `str(address)`
unfoldable pub dotted : ℕ → Text
dotted a =
    decimal (a / 2 ^ 24)
    ++ b'.' ∷ decimal (a / 2 ^ 16 % 256)
    ++ b'.' ∷ decimal (a / 2 ^ 8 % 256)
    ++ b'.' ∷ decimal (a % 256)

-- `_require_port`
unfoldable pub require_port : Option ℤ → Result ValidationError ℕ
require_port none = err needs_port
require_port (some port) = validate_port (number port)

-- The host name of a device that `dns` looks up, validated.
unfoldable pub lookup_name : Unicode → Device → Result ValidationError Text
lookup_name unicode device = do
  hostname ← or_raise (truthy device.hostname) no_discovered_hostname
  validate_hostname unicode (codes hostname)

module _ (unicode : Unicode) where
  -- The command of a diagnostic.
  unfoldable pub command_of :
      CommandKind → Device → Text → Option ℤ → Option ℤ → Result ValidationError Command
  command_of ping device target port count = ok (Builders.ping target count)
  command_of traceroute device target port count = ok (Builders.traceroute target count)
  command_of rdns device target port count = ok (Builders.reverse_dns target)
  command_of service_scan device target port count = ok (Builders.service_scan target)
  command_of arp device target port count = ok (Builders.arp_neighbour target)
  command_of tcp device target port count = do
    checked ← require_port port
    ok (Builders.tcp_check target checked)
  command_of dns device target port count = do
    name ← lookup_name unicode device
    ok (Builders.dns_lookup name)

-- `result.target` while a command runs.
unfoldable pub target_of : CommandKind → Device → Text
target_of dns device = elim device.hostname [ none ↦ codes device.ip_address | some h ↦ codes h ]
target_of other device = codes device.ip_address

-- `DIAGNOSTIC_STATUSES`
pub data Status : Type 0 where
  success failed timeout rejected busy : Status

-- What the column `output` holds: a text, the message of an exception, or an HTTP answer in words.
pub data Output : Type 0 where
  said : Text → Output
  invalid_run : ValidationError → Output
  refused : Refusal → Output
  fetched : HttpCheckResult → Output

-- A row of `diagnostic_result`.
pub record DiagnosticResult : Type 0 where
  pub device_id : ℕ
  pub user_id : Option ℕ
  pub device_label_snapshot : Text
  pub username_snapshot : Option Text
  pub client_ip : Option Text
  pub type : Diagnostic
  pub target : Text
  pub port : Option ℤ
  pub count : Option ℤ
  pub status : Status
  pub output : Option Output
  pub exit_code : Option ℤ
  pub started_at : ℕ
  pub completed_at : Option ℕ
  pub duration_ms : Option ℤ

pub record Caller : Type 0 where
  pub user_id : Option ℕ
  pub username : Option Text
  pub client_ip : Option Text

-- What a run uses from outside.
pub record Outside : Type 0 where
  pub ipv6 : Ipv6
  pub unicode : Unicode
  pub web : Web
  pub host : Host
  pub started : ℕ
  pub completed : ℕ

-- The exceptions that leave `run_diagnostic`; the second is of `create_subprocess_exec`.
pub data Crash : Type 0 where
  invalid : ValidationError → Crash
  os_error : Crash

-- A run: the argvs that were spawned, the HTTP requests that were sent, and the result, or the
-- exception that leaves `run_diagnostic`, with the table of results.
pub record Run : Type 0 where
  pub spawned : List (List Text)
  pub requests : List Request
  pub result : Result Crash DiagnosticResult
  pub results : List DiagnosticResult

-- A second pass of `sanitize` over the text of an output.
unfoldable pub stored : Host → Output → Output
stored host (said text) = said (sanitize host.re max_stored_output [] text).0
stored host other = other

-- `f"{stdout}\n--- stderr ---\n{stderr}".strip()` where there is something on stderr.
unfoldable pub combined : ExecutionResult → Text
combined r =
    if is_empty (strip r.stderr)
    then r.stdout
    else strip (r.stdout ++ 10 ∷ codes "--- stderr ---" ++ 10 ∷ r.stderr)

-- `text or default`
unfoldable pub text_or : Text → Text → Text
text_or [] default = default
text_or (c ∷ s) default = c ∷ s

module _ (o : Outside) where
  unfoldable pub completed_row : DiagnosticResult → Status → Output → Option ℤ → DiagnosticResult
  completed_row row status output exit_code = record row {
    status = status;
    output = some (stored o.host output);
    exit_code = exit_code;
    completed_at = some o.completed;
    duration_ms = some (milliseconds row.started_at o.completed);
  }

  -- `_finish`, after what the run did.
  unfoldable pub finish :
      List (List Text)
      → List Request
      → DiagnosticResult
      → Status
      → Output
      → Option ℤ
      → List DiagnosticResult
      → Run
  finish spawned requests row status output exit_code results =
      let done = completed_row row status output exit_code in
      record {
        spawned = spawned;
        requests = requests;
        result = ok done;
        results = results ++ done ∷ [];
      }

  unfoldable pub begin : Diagnostic → Device → Option ℤ → Option ℤ → Caller → DiagnosticResult
  begin kind device port count caller = record {
    device_id = device.id;
    user_id = caller.user_id;
    device_label_snapshot = display_name device;
    username_snapshot = caller.username;
    client_ip = caller.client_ip;
    type = kind;
    target = codes device.ip_address;
    port = port;
    count = count;
    status = rejected;
    output = none;
    exit_code = none;
    started_at = o.started;
    completed_at = none;
    duration_ms = none;
  }

  -- The end of a command.
  unfoldable pub after_command :
      DiagnosticResult
      → List DiagnosticResult
      → List (List Text) × Result Failure ExecutionResult
      → Run
  after_command row results (spawned, err (stopped Refusal.busy)) =
      finish spawned [] row busy (refused Refusal.busy) none results
  after_command row results (spawned, err (stopped (Refusal.rejected e))) =
      finish spawned [] row rejected (refused (Refusal.rejected e)) none results
  after_command row results (spawned, err spawn_error) = record {
    spawned = spawned;
    requests = [];
    result = err os_error;
    results = results;
  }
  after_command row results (spawned, ok r) = elim r.status [
    | ExecutionStatus.timeout ↦
        finish spawned [] row timeout
          (said (text_or (combined r) (codes "The command exceeded its time limit."))) r.exit_code
          results
    | ExecutionStatus.success ↦
        finish spawned [] row success (said (text_or (combined r) (codes "(no output)")))
          r.exit_code results
    | _ ↦
        finish spawned [] row failed (said (text_or (combined r) (codes "(no output)"))) r.exit_code
          results
  ]

  -- `_run_command`
  unfoldable pub run_command :
      DiagnosticResult → List DiagnosticResult → Result ValidationError Command → Text → Run
  run_command row results (err e) target = finish [] [] row rejected (invalid_run e) none results
  run_command row results (ok c) target =
      after_command (record row { target = target }) results
        (run o.host c.program c.arguments c.timeout false)

  unfoldable pub scheme_of : ℕ → Text
  scheme_of port = if port == 443 || port == 8443 then codes "https" else codes "http"

  abbrev url : Text → ℕ → ℕ → Text
  url scheme address port = scheme ++ codes "://" ++ dotted address ++ b':' ∷ decimal port

  unfoldable pub after_check :
      DiagnosticResult
      → List DiagnosticResult
      → Text
      → Result ValidationError (Request × HttpCheckResult)
      → Run
  after_check row results target (err e) = finish [] [] row rejected (invalid_run e) none results
  after_check row results target (ok (q, r)) =
      finish [] (q ∷ []) (record row { target = target }) (if r.is_ok then success else failed)
        (fetched r) none results

  -- `_run_http`
  unfoldable pub run_http :
      DiagnosticResult → List DiagnosticResult → ℕ → List Network → Result ValidationError ℕ → Run
  run_http row results address allowed (err e) =
      finish [] [] row rejected (invalid_run e) none results
  run_http row results address allowed (ok port) =
      after_check row results (url (scheme_of port) address port)
        (check o.unicode o.web (dotted address) (number (pos port)) (scheme_of port) allowed)

  -- `run_diagnostic`, past the check of the target.
  unfoldable pub run_on :
      Diagnostic
      → Device
      → Option ℤ
      → Option ℤ
      → List Network
      → DiagnosticResult
      → List DiagnosticResult
      → Result ValidationError ℕ
      → Run
  run_on kind device port count allowed row results (err e) =
      finish [] [] row rejected (invalid_run e) none results
  run_on http_check device port count allowed row results (ok address) =
      run_http row results address allowed (require_port port)
  run_on (command kind) device port count allowed row results (ok address) =
      run_command row results (command_of o.unicode kind device (dotted address) port count)
        (target_of kind device)

  unfoldable pub run_known :
      Option Diagnostic
      → Device
      → Option ℤ
      → Option ℤ
      → List Network
      → Caller
      → List DiagnosticResult
      → Run
  run_known none device port count allowed caller results = record {
    spawned = [];
    requests = [];
    result = err (invalid unknown_diagnostic);
    results = results;
  }
  run_known (some kind) device port count allowed caller results =
      run_on kind device port count allowed (begin kind device port count caller) results
        (validate_device_target o.ipv6 device allowed)

  unfoldable pub run_diagnostic :
      Text → Device → Option ℤ → Option ℤ → List Network → Caller → List DiagnosticResult → Run
  run_diagnostic kind device port count allowed caller results =
      run_known (registry kind) device port count allowed caller results
