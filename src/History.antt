-- ===== src/History.antt =====
-- `app/modules/history/service.py`: what differs between two observations of a device, and which of
-- its observations are worth an event on its timeline. The words of an event are left out.
pub mod Events
pub mod Compare
pub mod Timeline
pub mod Changes
use netops_console.Prelude.{
  ℕ, suc, String, Bool, true, false, not, ◌&&◌, ◌||◌, Option, none, some, List, [], ◌∷◌, ◌++◌, any,
  keep, length, is_empty, is_some, truthy, str_eq, ◌==◌, if◌then◌else◌,
}
use netops_console.Discovery.Inventory.{Observation, ParsedPort, same_protocol, sort_ports}

-- `COMPARED_FIELDS`
pub data Field : Type 0 where
  ip_address mac_address hostname vendor : Field

pub record FieldChange : Type 0 where
  pub label : Field
  pub before : Option String
  pub after : Option String

pub record ObservationDiff : Type 0 where
  pub fields : List FieldChange
  pub opened : List ParsedPort
  pub closed : List ParsedPort
  pub ports_compared : Bool

-- `ObservationDiff.changed`
unfoldable pub changed : ObservationDiff → Bool
changed d = not (is_empty d.fields) || not (is_empty d.opened) || not (is_empty d.closed)

-- `(before or None) != (after or None)`
unfoldable pub differs : Option String → Option String → Bool
differs before after = elim (truthy before) [
  | none ↦ is_some (truthy after)
  | some s ↦ elim (truthy after) [ none ↦ true | some t ↦ not (str_eq s t) ]
]

unfoldable pub compare_field : Field → Option String → Option String → List FieldChange
compare_field label before after =
    if differs before after
    then record { label = label; before = before; after = after } ∷ []
    else []

unfoldable pub compare_fields : Observation → Observation → List FieldChange
compare_fields before after =
    compare_field ip_address (some before.ip_address) (some after.ip_address)
    ++ compare_field mac_address before.mac_address after.mac_address
    ++ compare_field hostname before.hostname after.hostname
    ++ compare_field vendor before.vendor after.vendor

unfoldable pub same_port : ParsedPort → ParsedPort → Bool
same_port p q = p.port == q.port && same_protocol p.protocol q.protocol

-- `labels[key] = …`
unfoldable pub put_label : List ParsedPort → ParsedPort → List ParsedPort
put_label [] p = p ∷ []
put_label (q ∷ qs) p = let rest = put_label qs p in if same_port q p then p ∷ qs else q ∷ rest

unfoldable pub labels_from : List ParsedPort → List ParsedPort → List ParsedPort
labels_from labels [] = labels
labels_from labels (p ∷ ps) = labels_from (put_label labels p) ps

-- `port_labels`
unfoldable pub port_labels : List ParsedPort → List ParsedPort
port_labels ports = labels_from [] ports

-- `new.keys() - old.keys()`, in the order of `_port_sort_key`
unfoldable pub added_ports : List ParsedPort → List ParsedPort → List ParsedPort
added_ports new old = sort_ports (keep (λ p. not (any (same_port p) old)) new)

unfoldable pub diff_ports :
    List FieldChange → Option (List ParsedPort) → Option (List ParsedPort) → ObservationDiff
diff_ports fields none after = record {
  fields = fields;
  opened = [];
  closed = [];
  ports_compared = false;
}
diff_ports fields (some old) none = record {
  fields = fields;
  opened = [];
  closed = [];
  ports_compared = false;
}
diff_ports fields (some old) (some new) = record {
  fields = fields;
  opened = added_ports (port_labels new) (port_labels old);
  closed = added_ports (port_labels old) (port_labels new);
  ports_compared = true;
}

-- `diff_observations`
unfoldable pub diff_observations : Observation → Observation → ObservationDiff
diff_observations before after = diff_ports (compare_fields before after) before.ports after.ports

pub data EventKind : Type 0 where
  did_not_answer first_recorded : EventKind
  answered_again changed_in : ObservationDiff → EventKind

pub record ScanEvent : Type 0 where
  pub run_id : ℕ
  pub when : ℕ
  pub kind : EventKind

pub record ScanCoverage : Type 0 where
  pub scans : ℕ
  pub answered : ℕ
  pub last_run_id : Option ℕ
  pub last_present : Option Bool

abbrev event : Observation → EventKind → ScanEvent
event o kind = record { run_id = o.run_id; when = o.observed_at; kind = kind }

-- Whether an observation was there and was absent.
unfoldable pub was_absent : Option Observation → Bool
was_absent none = false
was_absent (some o) = not o.present

-- The event of an observation, if any, after the last one that was present and the last one at all.
unfoldable pub event_of : Option Observation → Option Observation → Observation → List ScanEvent
event_of last_present previous o =
    let returned = was_absent previous in
    if not o.present
    then (if returned then [] else event o did_not_answer ∷ [])
    else elim last_present [
      | none ↦ event o first_recorded ∷ []
      | some l ↦
          let diff = diff_observations l o in
          if returned
          then event o (answered_again diff) ∷ []
          else if changed diff
          then event o (changed_in diff) ∷ []
          else []
    ]

-- The loop of `scan_events`.
unfoldable pub events_from :
    Option Observation → Option Observation → List Observation → List ScanEvent
events_from last_present previous [] = []
events_from last_present previous (o ∷ os) =
    event_of last_present previous o
    ++ events_from (if o.present then some o else last_present) (some o) os

unfoldable pub last_of : List Observation → Option Observation
last_of [] = none
last_of (o ∷ []) = some o
last_of (o ∷ p ∷ os) = last_of (p ∷ os)

-- `scan_events`
unfoldable pub scan_events : List Observation → List ScanEvent × ScanCoverage
scan_events observations = (
  events_from none none observations,
  record {
    scans = length observations;
    answered = length (keep (λ o. o.present) observations);
    last_run_id = elim (last_of observations) [ none ↦ none | some o ↦ some o.run_id ];
    last_present = elim (last_of observations) [ none ↦ none | some o ↦ some o.present ];
  },
)
