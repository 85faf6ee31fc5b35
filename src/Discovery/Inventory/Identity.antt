-- ===== src/Discovery/Inventory/Identity.antt =====
-- One device, one record: a scan never leaves two records that stand for the same device.
use netops_console.Prelude.{
  ℕ, String, ◌≡◌, ◌≢◌, refl, sym, ◌∙◌, ap, Bool, true, false, Option, none, some, List, [], ◌∷◌,
  ◌++◌, map, any, or_else, truthy, eq_iff, if◌then◌else◌, arith, All, All-append, Bool-cases,
  Option-cases, inl, inr,
}
use netops_console.Net.{Network}
use netops_console.Discovery.Inventory.{
  Device, ParsedHost, Tables, Run, matches_mac, matches_ip, seen, new_device, update_first,
  upsert_row, upsert_device, merge_hosts, reconcile, mark_absent_devices_offline, is_absent,
  mark_offline, mark_range,
}

-- What identifies a record: its MAC address, or its IP address if it has none.
pub data Key : Type 0 where
  by_mac by_ip : String → Key

unfoldable pub key : Device → Key
key d = elim d.mac_address [ some m ↦ by_mac m | none ↦ by_ip d.ip_address ]

unfoldable pub host_key : ParsedHost → Key
host_key host = elim (truthy host.mac_address) [ some m ↦ by_mac m | none ↦ by_ip host.ip_address ]

-- No two records have the same key.
abbrev pub Distinct : List Key → Type 0
Distinct [] = Unit
Distinct (k ∷ ks) = All (λ j. k ≢ j) ks × Distinct ks

-- A MAC address that a scan reports is not the empty text.
abbrev pub HasMac : ParsedHost → Type 0
HasMac host = host.mac_address ≢ some ""

unfoldable pub keys : List Device → List Key
keys ds = map key ds

seen-key_mac :
    (now : ℕ) (host : ParsedHost) (d : Device)
    → matches_mac host d ≡ true
    → key (seen now host d) ≡ key d
unfolding key seen matches_mac
seen-key_mac now host d h =
    ground (arith, eq_iff (or_else d.mac_address "") (or_else host.mac_address ""))

seen-key_ip :
    (now : ℕ) (host : ParsedHost) (d : Device)
    → matches_ip host d ≡ true
    → key (seen now host d) ≡ host_key host
unfolding key seen matches_ip host_key
seen-key_ip now host d h = ground arith

new_device-key :
    (id now : ℕ) (host : ParsedHost)
    → HasMac host
    → key (seen now host (new_device id now host)) ≡ host_key host
unfolding key seen host_key
new_device-key id now host h = ground (arith, eq_iff (or_else host.mac_address "") "")

unmatched-key :
    (host : ParsedHost) (d : Device)
    → matches_mac host d ≡ false
    → matches_ip host d ≡ false
    → host_key host ≢ key d
unfolding key host_key matches_mac matches_ip
unmatched-key host d h k e = ground (
  arith,
  eq_iff (or_else d.mac_address "") (or_else host.mac_address ""),
  eq_iff d.ip_address host.ip_address,
)

unmatched-keys :
    (host : ParsedHost) (ds : List Device)
    → any (matches_mac host) ds ≡ false
    → any (matches_ip host) ds ≡ false
    → All (λ j. host_key host ≢ j) (keys ds)
unfolding any keys
unmatched-keys host [] h k = tt
unmatched-keys host (d ∷ ds) h k = (
  unmatched-key host d (ground arith) (ground arith),
  unmatched-keys host ds (ground arith) (ground arith),
)

keys-update_mac :
    (now : ℕ) (host : ParsedHost) (ds : List Device)
    → keys (update_first (matches_mac host) (seen now host) ds) ≡ keys ds
unfolding update_first keys
keys-update_mac now host [] = refl
keys-update_mac now host (d ∷ ds) = elim (Bool-cases (matches_mac host d)) [
  | inl e ↦ ground (arith, seen-key_mac now host d e)
  | inr e ↦ ground (arith, keys-update_mac now host ds)
]

new_mac-key :
    (host : ParsedHost) (d : Device) (m : String)
    → truthy host.mac_address ≡ some m
    → matches_mac host d ≡ false
    → host_key host ≢ key d
unfolding key host_key matches_mac
new_mac-key host d m e h k = ground (arith, eq_iff (or_else d.mac_address "") m)

-- A host with a MAC address that no record has is none of the records.
new_mac-keys :
    (host : ParsedHost) (ds : List Device) (m : String)
    → truthy host.mac_address ≡ some m
    → any (matches_mac host) ds ≡ false
    → All (λ j. host_key host ≢ j) (keys ds)
unfolding any keys
new_mac-keys host [] m e h = tt
new_mac-keys host (d ∷ ds) m e h =
    (new_mac-key host d m e (ground arith), new_mac-keys host ds m e (ground arith))

All-update_ip :
    (k : Key) (now : ℕ) (host : ParsedHost) (ds : List Device)
    → k ≢ host_key host
    → All (λ j. k ≢ j) (keys ds)
    → All (λ j. k ≢ j) (keys (update_first (matches_ip host) (seen now host) ds))
unfolding update_first keys
All-update_ip k now host [] h a = tt
All-update_ip k now host (d ∷ ds) h a = elim (Bool-cases (matches_ip host d)) [
  | inl e ↦ rw e (λ p. h (p ∙ seen-key_ip now host d e), a.1)
  | inr e ↦ rw e (a.0, All-update_ip k now host ds h a.1)
]

host_key-key :
    (host : ParsedHost) (d : Device)
    → matches_ip host d ≡ true
    → truthy host.mac_address ≡ none
    → host_key host ≡ key d
unfolding key host_key matches_ip
host_key-key host d e n = ground (arith, eq_iff d.ip_address host.ip_address)

matched-keys :
    (host : ParsedHost) (d : Device) (ds : List Device)
    → matches_ip host d ≡ true
    → any (matches_mac host) ds ≡ false
    → All (λ j. key d ≢ j) (keys ds)
    → All (λ j. host_key host ≢ j) (keys ds)
matched-keys host d ds e h a = elim (Option-cases (truthy host.mac_address)) [
  | inl n ↦ rw (host_key-key host d e n) a
  | inr (m, s) ↦ new_mac-keys host ds m s h
]

Distinct-update_ip :
    (now : ℕ) (host : ParsedHost) (ds : List Device)
    → any (matches_mac host) ds ≡ false
    → Distinct (keys ds)
    → Distinct (keys (update_first (matches_ip host) (seen now host) ds))
unfolding update_first keys any
Distinct-update_ip now host [] h distinct = tt
Distinct-update_ip now host (d ∷ ds) h distinct = elim (Bool-cases (matches_ip host d)) [
  | inl e ↦ rw e (
    rw (seen-key_ip now host d e) (matched-keys host d ds e (ground arith) distinct.0),
    distinct.1,
  )
  | inr e ↦ rw e (
    All-update_ip (key d) now host ds (λ p. unmatched-key host d (ground arith) e (sym p))
        distinct.0,
    Distinct-update_ip now host ds (ground arith) distinct.1,
  )
]

Distinct-append :
    (k : Key) (ks : List Key) → All (λ j. k ≢ j) ks → Distinct ks → Distinct (ks ++ k ∷ [])
Distinct-append k [] a distinct = (tt, tt)
Distinct-append k (j ∷ ks) a distinct = (
  All-append (λ i. j ≢ i) ks (k ∷ []) distinct.0 ((λ p. a.0 (sym p)), tt),
  Distinct-append k ks a.1 distinct.1,
)

keys-append :
    (now : ℕ) (host : ParsedHost) (id : ℕ) (ds : List Device)
    → HasMac host
    → keys (ds ++ seen now host (new_device id now host) ∷ []) ≡ keys ds ++ host_key host ∷ []
unfolding keys
keys-append now host id [] mac = ap (λ k. k ∷ []) (new_device-key id now host mac)
keys-append now host id (d ∷ ds) mac = ap (λ ks. key d ∷ ks) (keys-append now host id ds mac)

-- Merging one host keeps one record for each key.
upsert_row-Distinct :
    (now : ℕ) (host : ParsedHost) (id : ℕ) (ds : List Device)
    → HasMac host
    → Distinct (keys ds)
    → Distinct (keys (upsert_row now host id ds))
unfolding upsert_row
upsert_row-Distinct now host id ds mac distinct = elim (Bool-cases (any (matches_mac host) ds)) [
  | inl e ↦ rw e (rw (keys-update_mac now host ds, Distinct) distinct)
  | inr e ↦ elim (Bool-cases (any (matches_ip host) ds)) [
    | inl k ↦ rw e (rw k (Distinct-update_ip now host ds e distinct))
    | inr k ↦ rw e (
        rw k (
          rw (keys-append now host id ds mac, Distinct)
            (Distinct-append (host_key host) (keys ds) (unmatched-keys host ds e k) distinct)))
  ]
]

merge_hosts-Distinct :
    (run : Option Run) (observed_at : ℕ) (hosts : List (ParsedHost × ℕ)) (t : Tables) (created : ℕ)
    → All (λ h. HasMac h.0) hosts
    → Distinct (keys t.devices)
    → Distinct (keys (merge_hosts run observed_at hosts t created).0.devices)
unfolding merge_hosts upsert_device
merge_hosts-Distinct run observed_at [] t created macs distinct = distinct
merge_hosts-Distinct none observed_at ((host, now) ∷ hosts) t created macs distinct =
    merge_hosts-Distinct none observed_at hosts _ _ macs.1
      (upsert_row-Distinct now host t.next_id t.devices macs.0 distinct)
merge_hosts-Distinct (some run) observed_at ((host, now) ∷ hosts) t created macs distinct =
    merge_hosts-Distinct (some run) observed_at hosts _ _ macs.1
      (upsert_row-Distinct now host t.next_id t.devices macs.0 distinct)

keys-mark :
    (p : Device → Bool) (ds : List Device)
    → keys (map (λ d. if p d then mark_offline d else d) ds) ≡ keys ds
unfolding keys key
keys-mark p [] = refl
keys-mark p (d ∷ ds) = ground (arith, keys-mark p ds)

mark_range-Distinct :
    (run : Option Run) (observed_at : ℕ) (network : Option Network) (scanned_at : Option ℕ)
    (t : Tables)
    → Distinct (keys t.devices)
    → Distinct (keys (mark_range run observed_at network scanned_at t).devices)
unfolding mark_absent_devices_offline
mark_range-Distinct run observed_at none scanned_at t distinct = distinct
mark_range-Distinct run observed_at (some network) none t distinct = distinct
mark_range-Distinct none observed_at (some network) (some scanned_at) t distinct =
    rw (keys-mark (is_absent network scanned_at) t.devices, Distinct) distinct
mark_range-Distinct (some run) observed_at (some network) (some scanned_at) t distinct =
    rw (keys-mark (is_absent network scanned_at) t.devices, Distinct) distinct

-- If no two records share a MAC address, or an IP address where they have no MAC address, and the
-- scan reports no empty MAC address, then this holds of the records after the scan is merged.
pub reconcile-Distinct :
    (run : Option Run) (network : Option Network) (scanned_at : Option ℕ) (observed_at : ℕ)
    (hosts : List (ParsedHost × ℕ)) (t : Tables)
    → All (λ h. HasMac h.0) hosts
    → Distinct (keys t.devices)
    → Distinct (keys (reconcile run network scanned_at observed_at hosts t).0.devices)
unfolding reconcile
reconcile-Distinct run network scanned_at observed_at hosts t macs distinct =
    mark_range-Distinct run observed_at network scanned_at _
      (merge_hosts-Distinct run observed_at hosts t 0 macs distinct)
