-- ===== src/Discovery/Inventory/Kept.antt =====
-- What a scan leaves alone: the columns that an operator fills in.
use netops_console.Prelude.{
  ℕ, suc, ◌+◌, String, ◌≡◌, refl, sym, ◌∙◌, ap, Bool, not, Option, none, some, List, [], ◌∷◌, ◌++◌,
  map, any, first, is_some, length, if◌then◌else◌, arith,
}
use netops_console.Net.{Network}
use netops_console.Discovery.Inventory.{
  Device, ParsedHost, Tables, Run, matches_mac, matches_ip, seen, new_device, update_first,
  find_device, upsert_row, upsert_device, merge_hosts, reconcile, mark_absent_devices_offline,
  is_absent, mark_offline, mark_range, observe,
}

-- The columns that no scan writes.
pub record Kept : Type 0 where
  id : ℕ
  name : Option String
  device_type : Option String
  first_seen : ℕ
  notes : Option String

unfoldable pub kept : Device → Kept
kept d = record {
  id = d.id;
  name = d.name;
  device_type = d.device_type;
  first_seen = d.first_seen;
  notes = d.notes;
}

kept-update :
    (p : Device → Bool) (now : ℕ) (host : ParsedHost) (ds : List Device)
    → map kept (update_first p (seen now host) ds) ≡ map kept ds
unfolding update_first kept seen
kept-update p now host [] = refl
kept-update p now host (d ∷ ds) = ground (arith, kept-update p now host ds)

kept-append : (ds es : List Device) → map kept (ds ++ es) ≡ map kept ds ++ map kept es
kept-append [] es = refl
kept-append (d ∷ ds) es = ap (λ ks. kept d ∷ ks) (kept-append ds es)

is_some-first : (p : Device → Bool) (ds : List Device) → is_some (first p ds) ≡ any p ds
unfolding any first
is_some-first p [] = refl
is_some-first p (d ∷ ds) = ground (arith, is_some-first p ds)

-- The rows that a host adds: one if it is new, else none.
added : ℕ → ParsedHost → Tables → List Kept
added now host t =
    if is_some (find_device host t.devices)
    then []
    else kept (seen now host (new_device t.next_id now host)) ∷ []

append_nil : (ks : List Kept) → ks ++ [] ≡ ks
append_nil [] = refl
append_nil (k ∷ ks) = ap (λ xs. k ∷ xs) (append_nil ks)

kept-upsert_row :
    (now : ℕ) (host : ParsedHost) (t : Tables)
    → map kept (upsert_row now host t.next_id t.devices) ≡ map kept t.devices ++ added now host t
unfolding upsert_row find_device added
kept-upsert_row now host t = ground (
  arith,
  is_some-first (matches_mac host) t.devices,
  is_some-first (matches_ip host) t.devices,
  kept-update (matches_mac host) now host t.devices,
  kept-update (matches_ip host) now host t.devices,
  kept-append t.devices (seen now host (new_device t.next_id now host) ∷ []),
  append_nil (map kept t.devices),
)

append_assoc : (xs ys zs : List Kept) → (xs ++ ys) ++ zs ≡ xs ++ (ys ++ zs)
append_assoc [] ys zs = refl
append_assoc (x ∷ xs) ys zs = ap (λ ks. x ∷ ks) (append_assoc xs ys zs)

-- The records after a merge: those before it, and as many more as are counted.
abbrev pub Extends : List Device → ℕ → Tables × ℕ → Type 0
Extends before created (t, n) =
    (extra : List Kept) × (map kept t.devices ≡ map kept before ++ extra)
    × (created + length extra ≡ n)

devices-observe :
    (run : Option Run) (device : Device) (host : ParsedHost) (observed_at : ℕ) (t : Tables)
    → map kept (observe run device host observed_at t).devices ≡ map kept t.devices
devices-observe none device host observed_at t = refl
devices-observe (some run) device host observed_at t = refl

added-count :
    (now : ℕ) (host : ParsedHost) (t : Tables) (created : ℕ) (extra : List Kept) (n : ℕ)
    → (if not (is_some (find_device host t.devices)) then suc created else created) + length extra
      ≡ n
    → created + length (added now host t ++ extra) ≡ n
unfolding added
added-count now host t created extra n h = ground arith

kept-merge_hosts :
    (run : Option Run) (observed_at : ℕ) (hosts : List (ParsedHost × ℕ)) (t : Tables) (created : ℕ)
    → Extends t.devices created (merge_hosts run observed_at hosts t created)
unfolding merge_hosts upsert_device
kept-merge_hosts run observed_at [] t created =
    ([], sym (append_nil (map kept t.devices)), omega arith)
kept-merge_hosts run observed_at ((host, now) ∷ hosts) t created =
    let (t', device, is_new) = upsert_device now host t in
    let (extra, same, count) =
      kept-merge_hosts run observed_at hosts (observe run device host observed_at t')
        (if is_new then suc created else created) in
    (
      added now host t ++ extra,
      same
          ∙ ap (λ ks. ks ++ extra)
              (devices-observe run device host observed_at t' ∙ kept-upsert_row now host t)
          ∙ append_assoc (map kept t.devices) (added now host t) extra,
      added-count now host t created extra _ count,
    )

kept-mark :
    (p : Device → Bool) (ds : List Device)
    → map kept (map (λ d. if p d then mark_offline d else d) ds) ≡ map kept ds
unfolding kept
kept-mark p [] = refl
kept-mark p (d ∷ ds) = ground (arith, kept-mark p ds)

kept-mark_range :
    (run : Option Run) (observed_at : ℕ) (network : Option Network) (scanned_at : Option ℕ)
    (t : Tables)
    → map kept (mark_range run observed_at network scanned_at t).devices ≡ map kept t.devices
unfolding mark_absent_devices_offline
kept-mark_range run observed_at none scanned_at t = refl
kept-mark_range run observed_at (some network) none t = refl
kept-mark_range none observed_at (some network) (some s) t =
    kept-mark (is_absent network s) t.devices
kept-mark_range (some run) observed_at (some network) (some s) t =
    kept-mark (is_absent network s) t.devices

-- A scan removes no record and changes no record's id, name, type, notes or first sighting; it
-- adds records behind the others, as many as it reports as new.
pub reconcile-kept :
    (run : Option Run) (network : Option Network) (scanned_at : Option ℕ) (observed_at : ℕ)
    (hosts : List (ParsedHost × ℕ)) (t : Tables)
    → let (after, found, created) = reconcile run network scanned_at observed_at hosts t in
      (extra : List Kept) × (map kept after.devices ≡ map kept t.devices ++ extra)
      × (length extra ≡ created)
unfolding reconcile
reconcile-kept run network scanned_at observed_at hosts t =
    let (merged, created) = merge_hosts run observed_at hosts t 0 in
    let (extra, same, count) = kept-merge_hosts run observed_at hosts t 0 in
    (extra, kept-mark_range run observed_at network scanned_at merged ∙ same, omega (arith, count))
