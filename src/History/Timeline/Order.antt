-- ===== src/History/Timeline/Order.antt =====
-- The order and the completeness of a timeline.
use mathlib.Core.List.{Perm}
use mathlib.Core.List.Perm
use netops_console.Prelude.{List, ◌∷◌, ◌==◌, keep, map, none, ◌++◌}
use netops_console.Discovery.Inventory.{Device}
use netops_console.History.{scan_events}
use netops_console.Diagnostics.Service.{DiagnosticResult}
use netops_console.Actions.Execute.{ActionExecution}
use netops_console.History.Timeline.{
  TimelineEvent, Sources, is_of, ChangeEvent, inventory, diagnostic_event, action_event,
  change_event, scan_event, recent_observations, info,
}

-- The rows of each table that are about a device.
abbrev pub diagnostics_of : Device → Sources → List DiagnosticResult
diagnostics_of device s = keep (λ (x : DiagnosticResult). x.device_id == device.id) s.diagnostics

abbrev pub executions_of : Device → Sources → List ActionExecution
executions_of device s = keep (λ (x : ActionExecution). x.device_id == device.id) s.executions

abbrev pub changes_of : Device → Sources → List ChangeEvent
changes_of device s = keep (λ (x : ChangeEvent). is_of device.id x.device_id) s.changes

-- The events of the scans of a device, its first sight, and the events of its rows in the other tables.
abbrev pub everything : Device → Sources → List TimelineEvent
everything device s =
    map (scan_event s.actor) (scan_events (recent_observations device s)).0
    ++ record { when = device.first_seen; tone = info; actor = none; about = inventory }
      ∷ map diagnostic_event (diagnostics_of device s)
    ++ map action_event (executions_of device s)
    ++ map change_event (changes_of device s)
