-- ===== src/History/Timeline.antt =====
-- `device_timeline` of `app/modules/history/service.py`: what happened to a device, newest first. The
-- words of an event are left out.
pub mod Order
mod Examples
use netops_console.Prelude.{
  ℕ, String, Bool, true, false, not, ◌||◌, Option, none, some, List, [], ◌∷◌, ◌++◌, map, keep,
  length, take, leb, ltb, ◌==◌, if◌then◌else◌,
}
use mathlib.Core.List.{reverse}
use netops_console.Prelude.Sort.{sort}
use netops_console.Prelude.Text.{Text, codes, eqb}
use netops_console.Discovery.Inventory.{Device, Observation}
use netops_console.History.{
  EventKind, did_not_answer, first_recorded, answered_again, changed_in, ScanEvent, ScanCoverage,
  scan_events,
}
use netops_console.Diagnostics.Service
use netops_console.Diagnostics.Service.{Diagnostic, DiagnosticResult}
use netops_console.Actions.Execute
use netops_console.Actions.Execute.{ActionExecution}

-- `SOURCE_LIMIT`
abbrev pub source_limit : ℕ
source_limit = 100

-- The columns of `change_event` (`app/models/change.py`) that a timeline shows.
pub record ChangeEvent : Type 0 where
  pub device_id : Option ℕ
  pub kind : Text
  pub subject : Option Text
  pub detail : Option Text
  pub username_snapshot : Option Text
  pub created_at : ℕ

pub data Tone : Type 0 where
  good warn bad info : Tone

-- What an event is about, by its category.
pub data Happening : Type 0 where
  scan : ScanEvent → Happening
  inventory : Happening
  diagnostic : Diagnostic → Service.Status → Happening
  action : Text → Execute.Status → Option Text → Happening
  change : Text → Option Text → Option Text → Happening

-- `TimelineEvent`
pub record TimelineEvent : Type 0 where
  pub when : ℕ
  pub tone : Tone
  pub actor : Option Text
  pub about : Happening

-- `DeviceTimeline`
pub record DeviceTimeline : Type 0 where
  pub events : List TimelineEvent
  pub coverage : ScanCoverage
  pub truncated : Bool

-- The tone of an event of `scan_events`.
unfoldable pub scan_tone : EventKind → Tone
scan_tone did_not_answer = warn
scan_tone first_recorded = good
scan_tone (answered_again d) = good
scan_tone (changed_in d) = info

-- The event of a scan on the timeline; `actor` is who started a run.
unfoldable pub scan_event : (ℕ → Option Text) → ScanEvent → TimelineEvent
scan_event actor e = record {
  when = e.when;
  tone = scan_tone e.kind;
  actor = actor e.run_id;
  about = scan e;
}

-- `_STATUS_TONE`
unfoldable pub diagnostic_tone : Service.Status → Tone
diagnostic_tone Service.Status.success = good
diagnostic_tone Service.Status.failed = bad
diagnostic_tone other = warn

-- `_diagnostic_event`
unfoldable pub diagnostic_event : DiagnosticResult → TimelineEvent
diagnostic_event r = record {
  when = r.started_at;
  tone = diagnostic_tone r.status;
  actor = r.username_snapshot;
  about = diagnostic r.type r.status;
}

unfoldable pub action_tone : Execute.Status → Tone
action_tone Execute.Status.success = good
action_tone Execute.Status.failed = bad
action_tone Execute.Status.running = info
action_tone other = warn

-- `_action_event`
unfoldable pub action_event : ActionExecution → TimelineEvent
action_event e = record {
  when = e.started_at;
  tone = action_tone e.status;
  actor = e.username_snapshot;
  about = action e.action_name_snapshot e.status e.command_preview;
}

-- `_change_event`
unfoldable pub change_event : ChangeEvent → TimelineEvent
change_event e = record {
  when = e.created_at;
  tone =
      if eqb e.kind (codes "host_key_revoked") || eqb e.kind (codes "device_removed")
      then warn
      else info;
  actor = e.username_snapshot;
  about = change e.kind e.subject e.detail;
}

-- `ORDER BY time DESC LIMIT SOURCE_LIMIT`
unfoldable pub newest : {A : Type 0} → (A → ℕ) → List A → List A
newest time rows = take source_limit (sort (λ a b. leb (time b) (time a)) rows)

-- The tables that a timeline reads. Rows are in the order of their primary keys.
pub record Sources : Type 0 where
  pub observations : List Observation
  pub diagnostics : List DiagnosticResult
  pub executions : List ActionExecution
  pub changes : List ChangeEvent
  pub actor : ℕ → Option Text

unfoldable pub is_of : ℕ → Option ℕ → Bool
is_of id none = false
is_of id (some other) = other == id

-- The latest observations of a device, oldest first; of two at a time the later row is the newer.
unfoldable pub recent_observations : Device → Sources → List Observation
recent_observations device s = reverse (
    newest (λ (x : Observation). x.observed_at)
      (reverse (keep (λ (x : Observation). x.device_id == device.id) s.observations)))

-- The events of every source, before they are put in order.
unfoldable pub all_events : Device → Sources → List TimelineEvent
all_events device s =
    map (scan_event s.actor) (scan_events (recent_observations device s)).0
    ++ record { when = device.first_seen; tone = info; actor = none; about = inventory }
      ∷ map diagnostic_event (
          newest (λ (x : DiagnosticResult). x.started_at)
            (keep (λ (x : DiagnosticResult). x.device_id == device.id) s.diagnostics))
    ++ map action_event (
        newest (λ (x : ActionExecution). x.started_at)
          (keep (λ (x : ActionExecution). x.device_id == device.id) s.executions))
    ++ map change_event (
        newest (λ (x : ChangeEvent). x.created_at)
          (keep (λ (x : ChangeEvent). is_of device.id x.device_id) s.changes))

-- `events.sort(key=lambda event: event.when, reverse=True)`
unfoldable pub newest_first : TimelineEvent → TimelineEvent → Bool
newest_first a b = leb b.when a.when

-- `device_timeline`
unfoldable pub device_timeline : Device → ℕ → Sources → DeviceTimeline
device_timeline device limit s =
    let events = sort newest_first (all_events device s) in
    record {
      events = take limit events;
      coverage = (scan_events (recent_observations device s)).1;
      truncated = ltb limit (length events);
    }
