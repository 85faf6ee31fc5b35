-- ===== src/Discovery/Inventory/Absence.antt =====
-- What a scan says about the devices of the range that did not answer.
use netops_console.Prelude.{
  ℕ, suc, ◌+◌, ◌≡◌, refl, ap, not, some, List, [], ◌∷◌, map, keep, length, if◌then◌else◌, arith,
  All, length-append,
}
use netops_console.Net.{Network}
use netops_console.Discovery.Inventory.{
  Device, offline, ParsedHost, Tables, Run, merge_hosts, reconcile, mark_absent_devices_offline,
  is_absent, mark_offline, upsert_device, observation, observe, absence,
}

module _ (network : Network) (scanned_at : ℕ) where
  mark : Device → Device
  mark d = if is_absent network scanned_at d then mark_offline d else d

  is_absent-mark :
      (d : Device) → is_absent network scanned_at (mark d) ≡ is_absent network scanned_at d
  unfolding is_absent mark
  is_absent-mark d = ground arith

  marked : (ds : List Device) → All (λ d. d.status ≡ offline) (map mark_offline ds)
  marked [] = tt
  marked (d ∷ ds) = (refl, marked ds)

  keep_absent :
      (ds : List Device)
      → map mark_offline (keep (is_absent network scanned_at) ds)
        ≡ keep (is_absent network scanned_at) (map mark ds)
  unfolding mark is_absent keep
  keep_absent [] = refl
  keep_absent (d ∷ ds) = ground (arith, keep_absent ds)

  keep_present :
      (ds : List Device)
      → keep (λ d. not (is_absent network scanned_at d)) (map mark ds)
        ≡ keep (λ d. not (is_absent network scanned_at d)) ds
  unfolding mark is_absent keep
  keep_present [] = refl
  keep_present (d ∷ ds) = ground (arith, keep_present ds)

-- After a range is scanned, the records returned are those of the range that are not deleted and
-- were not seen since the scan began. They are offline, and no other record has changed.
pub mark_absent_devices_offline_iff :
    (network : Network) (scanned_at : ℕ) (ds : List Device)
    → let (after, absent) = mark_absent_devices_offline network scanned_at ds in
      All (λ d. d.status ≡ offline) absent
      × (absent ≡ keep (is_absent network scanned_at) after)
      × (keep (λ d. not (is_absent network scanned_at d)) after
          ≡ keep (λ d. not (is_absent network scanned_at d)) ds)
unfolding mark_absent_devices_offline mark
mark_absent_devices_offline_iff network scanned_at ds = (
  marked network scanned_at (keep (is_absent network scanned_at) ds),
  keep_absent network scanned_at ds,
  keep_present network scanned_at ds,
)

length-map : {A B : Type 0} (f : A → B) (xs : List A) → length (map f xs) ≡ length xs
length-map f [] = refl
length-map f (x ∷ xs) = ap suc (length-map f xs)

-- A merge with a run records one observation for each host.
length-observations :
    (run : Run) (observed_at : ℕ) (hosts : List (ParsedHost × ℕ)) (t : Tables) (created : ℕ)
    → length (merge_hosts (some run) observed_at hosts t created).0.observations
      ≡ length t.observations + length hosts
unfolding merge_hosts upsert_device
length-observations run observed_at [] t created = omega arith
length-observations run observed_at ((host, now) ∷ hosts) t created =
    let (t', device, is_new) = upsert_device now host t in
    let rest =
      length-observations run observed_at hosts (observe (some run) device host observed_at t')
        (if is_new then suc created else created) in
    omega (arith, rest, length-append t.observations (observation run device host observed_at ∷ []))

-- Merging a scan for a run records one observation for each host that is up, and one for each
-- record that is absent afterwards.
pub length-observations-reconcile :
    (run : Run) (network : Network) (scanned_at observed_at : ℕ) (hosts : List (ParsedHost × ℕ))
    (t : Tables)
    → let merged = (merge_hosts (some run) observed_at hosts t 0).0 in
      let after = (reconcile (some run) (some network) (some scanned_at) observed_at hosts t).0 in
      length after.observations
      ≡ length t.observations
        + length hosts
        + length (keep (is_absent network scanned_at) merged.devices)
unfolding reconcile mark_absent_devices_offline
length-observations-reconcile run network scanned_at observed_at hosts t =
    let merged = (merge_hosts (some run) observed_at hosts t 0).0 in
    let absent = keep (is_absent network scanned_at) merged.devices in
    omega (
      arith,
      length-observations run observed_at hosts t 0,
      length-append merged.observations (map (absence run observed_at) (map mark_offline absent)),
      length-map mark_offline absent,
      length-map (absence run observed_at) (map mark_offline absent),
    )
