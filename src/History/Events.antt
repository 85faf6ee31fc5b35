-- ===== src/History/Events.antt =====
-- The timeline says what changed, and nothing else.
use netops_console.Prelude.{
  ℕ, ◌+◌, ◌≤◌, ◌≡◌, refl, ◌∙◌, ap, Bool, true, false, not, ◌||◌, ◌&&◌, Option, none, some, List, [],
  ◌∷◌, ◌++◌, any, keep, length, or_else, eq_refl, if◌then◌else◌, arith, length-keep-le, All, String,
}
use netops_console.Discovery.Inventory.{Observation, ParsedPort, same_protocol, sort_ports}
use netops_console.History.{
  changed, differs, compare_field, compare_fields, same_port, added_ports, diff_ports, port_labels,
  diff_observations, did_not_answer, first_recorded, answered_again, changed_in, ScanEvent,
  was_absent, event_of, events_from, scan_events,
}

same_port_refl : (p : ParsedPort) → same_port p p ≡ true
unfolding same_port same_protocol
same_port_refl p = ground arith

differs_refl : (o : Option String) → differs o o ≡ false
unfolding differs
differs_refl o = ground (arith, eq_refl (or_else o ""))

compare_fields_refl : (o : Observation) → compare_fields o o ≡ []
unfolding compare_fields compare_field
compare_fields_refl o = ground (
  arith,
  differs_refl (some o.ip_address),
  differs_refl o.mac_address,
  differs_refl o.hostname,
  differs_refl o.vendor,
)

abbrev Found : List ParsedPort → List ParsedPort → Type 0
Found old = All (λ p. any (same_port p) old ≡ true)

Found-cons : (q : ParsedPort) (old new : List ParsedPort) → Found old new → Found (q ∷ old) new
unfolding any
Found-cons q old [] h = tt
Found-cons q old (p ∷ ps) h = (ground arith, Found-cons q old ps h.1)

self-Found : (ports : List ParsedPort) → Found ports ports
unfolding any
self-Found [] = tt
self-Found (p ∷ ps) = (ground (arith, same_port_refl p), Found-cons p ps ps (self-Found ps))

keep-Found :
    (old new : List ParsedPort) → Found old new → keep (λ p. not (any (same_port p) old)) new ≡ []
unfolding keep
keep-Found old [] h = refl
keep-Found old (p ∷ ps) h = ground (arith, keep-Found old ps)

added_ports_self : (ports : List ParsedPort) → added_ports ports ports ≡ []
unfolding added_ports sort_ports
added_ports_self ports = ground (arith, keep-Found ports ports (self-Found ports))

diff_ports_self : (ports : Option (List ParsedPort)) → changed (diff_ports [] ports ports) ≡ false
unfolding changed diff_ports
diff_ports_self none = refl
diff_ports_self (some ports) = ground (arith, added_ports_self (port_labels ports))

-- Two observations that saw the same differ in nothing, whichever run made them and whenever.
pub diff_observations-same :
    (o : Observation) (run_id when : ℕ)
    → changed (diff_observations o (record o { run_id = run_id; observed_at = when })) ≡ false
unfolding diff_observations compare_fields
diff_observations-same o run_id when =
    ap (λ fields. changed (diff_ports fields o.ports o.ports)) (compare_fields_refl o)
    ∙ diff_ports_self o.ports

unfoldable pub is_quiet : ScanEvent → Bool
is_quiet e = elim e.kind [
  | did_not_answer ↦ true
  | first_recorded ↦ false
  | answered_again d ↦ false
  | changed_in d ↦ false
]

unfoldable pub quiet : List ScanEvent → ℕ
quiet es = length (keep is_quiet es)

unfoldable pub others : List ScanEvent → ℕ
others es = length (keep (λ e. not (is_quiet e)) es)

keep-append_events :
    (p : ScanEvent → Bool) (xs ys : List ScanEvent)
    → length (keep p (xs ++ ys)) ≡ length (keep p xs) + length (keep p ys)
unfolding keep
keep-append_events p [] ys = omega arith
keep-append_events p (x ∷ xs) ys = ground (arith, keep-append_events p xs ys)

-- What one observation adds.
event_of-counts :
    (last_present previous : Option Observation) (o : Observation)
    → let es = event_of last_present previous o in
      (quiet es ≡ (if o.present || was_absent previous then 0 else 1))
      × (others es ≤ (if o.present then 1 else 0))
      × ((if o.present && was_absent previous then 1 else 0) ≤ others es)
unfolding event_of quiet others is_quiet keep
event_of-counts last_present previous o = ground arith

quiet-le-others :
    (last_present previous : Option Observation) (os : List Observation)
    → let es = events_from last_present previous os in
      (quiet es ≤ others es + (if was_absent previous then 0 else 1))
      × (others es ≤ length (keep (λ o. o.present) os))
unfolding events_from quiet others keep was_absent
quiet-le-others last_present previous [] = (omega arith, omega arith)
quiet-le-others last_present previous (o ∷ os) =
    let next = if o.present then some o else last_present in
    let es = event_of last_present previous o in
    let rest = events_from next (some o) os in
    ground (
      arith,
      event_of-counts last_present previous o,
      quiet-le-others next (some o) os,
      keep-append_events is_quiet es rest,
      keep-append_events (λ e. not (is_quiet e)) es rest,
    )

-- Among the events of a device's scans there is at most one of going quiet more than there are
-- others, and there are at most as many others as scans that were answered.
pub scan_events-quiet :
    (observations : List Observation)
    → let (events, coverage) = scan_events observations in
      (quiet events ≤ others events + 1)
      × (others events ≤ coverage.answered)
      × (coverage.answered ≤ coverage.scans)
unfolding scan_events was_absent
scan_events-quiet observations =
    let (a, b) = quiet-le-others none none observations in
    (a, b, length-keep-le (λ o. o.present) observations)
