-- ===== src/Discovery/Inventory/Rescan.antt =====
-- A scan of hosts that are all known creates no record.
use netops_console.Prelude.{
  ℕ, ◌≡◌, ◌≢◌, refl, sym, ◌∙◌, Bool, true, ◌||◌, Option, none, some, List, [], ◌∷◌, ◌++◌, map, any,
  first, is_some, or_else, eq_iff, eq_refl, if◌then◌else◌, arith, All,
}
use netops_console.Net.{Network}
use netops_console.Discovery.Inventory.{
  Device, ParsedHost, Tables, Run, matches_mac, matches_ip, seen, new_device, update_first,
  find_device, upsert_row, upsert_device, merge_hosts, reconcile, mark_absent_devices_offline,
  is_absent, mark_offline, mark_range,
}
use netops_console.Discovery.Inventory.Identity.{HasMac}

unfoldable matches : ParsedHost → Device → Bool
matches host d = matches_mac host d || matches_ip host d

-- A scan that sees the host again finds a record for it.
abbrev Known : List Device → ParsedHost → Type 0
Known ds host = any (matches host) ds ≡ true

any-matches :
    (host : ParsedHost) (ds : List Device)
    → any (matches host) ds ≡ (any (matches_mac host) ds || any (matches_ip host) ds)
unfolding any matches
any-matches host [] = refl
any-matches host (d ∷ ds) = ground (arith, any-matches host ds)

is_some-first : (p : Device → Bool) (ds : List Device) → is_some (first p ds) ≡ any p ds
unfolding any first
is_some-first p [] = refl
is_some-first p (d ∷ ds) = ground (arith, is_some-first p ds)

is_some-find_device :
    (host : ParsedHost) (ds : List Device) → is_some (find_device host ds) ≡ any (matches host) ds
unfolding find_device
is_some-find_device host ds = ground (
  arith,
  any-matches host ds,
  is_some-first (matches_mac host) ds,
  is_some-first (matches_ip host) ds,
)

-- What the scan writes is found again by the same host, and by the hosts at other addresses that
-- found it before.
matches-seen :
    (now : ℕ) (host : ParsedHost) (d : Device)
    → matches host d ≡ true
    → matches host (seen now host d) ≡ true
unfolding matches matches_mac matches_ip seen
matches-seen now host d h =
    ground (arith, eq_refl host.ip_address, eq_refl (or_else host.mac_address ""))

matches-new :
    (now id : ℕ) (host : ParsedHost)
    → HasMac host
    → matches host (seen now host (new_device id now host)) ≡ true
unfolding matches matches_mac matches_ip seen
matches-new now id host mac = ground (
  arith,
  eq_refl host.ip_address,
  eq_refl (or_else host.mac_address ""),
  eq_iff (or_else host.mac_address "") "",
)

other-seen_mac :
    (now : ℕ) (host other : ParsedHost) (d : Device)
    → matches_mac host d ≡ true
    → matches other d ≡ true
    → matches other (seen now host d) ≡ true
unfolding matches matches_mac matches_ip seen
other-seen_mac now host other d h k =
    ground (arith, eq_iff (or_else d.mac_address "") (or_else host.mac_address ""))

other-seen_ip :
    (now : ℕ) (host other : ParsedHost) (d : Device)
    → host.ip_address ≢ other.ip_address
    → matches_ip host d ≡ true
    → matches other d ≡ true
    → matches other (seen now host d) ≡ true
unfolding matches matches_mac matches_ip seen
other-seen_ip now host other d distinct h k =
    ground (arith, eq_iff d.ip_address host.ip_address, eq_iff d.ip_address other.ip_address)

Known-update_mac :
    (now : ℕ) (host other : ParsedHost) (ds : List Device)
    → Known ds other
    → Known (update_first (matches_mac host) (seen now host) ds) other
unfolding update_first any
Known-update_mac now host other [] h = h
Known-update_mac now host other (d ∷ ds) h =
    ground (arith, other-seen_mac now host other d, Known-update_mac now host other ds)

Known-update_ip :
    (now : ℕ) (host other : ParsedHost) (ds : List Device)
    → host.ip_address ≢ other.ip_address
    → Known ds other
    → Known (update_first (matches_ip host) (seen now host) ds) other
unfolding update_first any
Known-update_ip now host other [] distinct h = h
Known-update_ip now host other (d ∷ ds) distinct h =
    ground
      (arith, other-seen_ip now host other d distinct, Known-update_ip now host other ds distinct)

any-append : (p : Device → Bool) (xs ys : List Device) → any p (xs ++ ys) ≡ (any p xs || any p ys)
unfolding any
any-append p [] ys = refl
any-append p (x ∷ xs) ys = ground (arith, any-append p xs ys)

Known-upsert_row :
    (now : ℕ) (host other : ParsedHost) (id : ℕ) (ds : List Device)
    → host.ip_address ≢ other.ip_address
    → Known ds other
    → Known (upsert_row now host id ds) other
unfolding upsert_row
Known-upsert_row now host other id ds distinct h = ground (
  arith,
  Known-update_mac now host other ds h,
  Known-update_ip now host other ds distinct h,
  any-append (matches other) ds (seen now host (new_device id now host) ∷ []),
)

-- The host that is merged is known afterwards.
self-update :
    (p : Device → Bool) (now : ℕ) (host : ParsedHost) (ds : List Device)
    → ((d : Device) → p d ≡ true → matches host d ≡ true)
    → any p ds ≡ true
    → Known (update_first p (seen now host) ds) host
unfolding update_first any
self-update p now host [] step h = cc
self-update p now host (d ∷ ds) step h =
    ground (arith, matches-seen now host d, step d, self-update p now host ds step)

mac_step : (host : ParsedHost) (d : Device) → matches_mac host d ≡ true → matches host d ≡ true
unfolding matches
mac_step host d h = ground arith

ip_step : (host : ParsedHost) (d : Device) → matches_ip host d ≡ true → matches host d ≡ true
unfolding matches
ip_step host d h = ground arith

self-upsert_row :
    (now : ℕ) (host : ParsedHost) (id : ℕ) (ds : List Device)
    → HasMac host
    → Known (upsert_row now host id ds) host
unfolding upsert_row any
self-upsert_row now host id ds mac = ground (
  arith,
  self-update (matches_mac host) now host ds (mac_step host),
  self-update (matches_ip host) now host ds (ip_step host),
  any-append (matches host) ds (seen now host (new_device id now host) ∷ []),
  matches-new now id host mac,
)

-- The hosts of a scan, each with the clock's reading when its turn is.
abbrev pub timed : (ParsedHost → ℕ) → List ParsedHost → List (ParsedHost × ℕ)
timed clock [] = []
timed clock (h ∷ hs) = (h, clock h) ∷ timed clock hs

-- No two hosts answer from the same address.
abbrev pub Apart : List ParsedHost → Type 0
Apart [] = Unit
Apart (h ∷ hs) = All (λ g. h.ip_address ≢ g.ip_address) hs × Apart hs

module _ (clock : ParsedHost → ℕ) where
  Known-merge_hosts :
      (run : Option Run) (observed_at : ℕ) (hosts : List ParsedHost) (t : Tables) (created : ℕ)
      (other : ParsedHost)
      → All (λ g. other.ip_address ≢ g.ip_address) hosts
      → Known t.devices other
      → Known (merge_hosts run observed_at (timed clock hosts) t created).0.devices other
  unfolding merge_hosts upsert_device
  Known-merge_hosts run observed_at [] t created other apart h = h
  Known-merge_hosts none observed_at (g ∷ hosts) t created other apart h =
      Known-merge_hosts none observed_at hosts _ _ other apart.1
        (Known-upsert_row (clock g) g other t.next_id t.devices (λ e. apart.0 (sym e)) h)
  Known-merge_hosts (some run) observed_at (g ∷ hosts) t created other apart h =
      Known-merge_hosts (some run) observed_at hosts _ _ other apart.1
        (Known-upsert_row (clock g) g other t.next_id t.devices (λ e. apart.0 (sym e)) h)

  All-Known :
      (run : Option Run) (observed_at : ℕ) (hosts : List ParsedHost) (t : Tables) (created : ℕ)
      → All HasMac hosts
      → Apart hosts
      → All (Known (merge_hosts run observed_at (timed clock hosts) t created).0.devices) hosts
  unfolding merge_hosts upsert_device
  All-Known run observed_at [] t created macs apart = tt
  All-Known none observed_at (g ∷ hosts) t created macs apart = (
    Known-merge_hosts none observed_at hosts _ _ g apart.0
        (self-upsert_row (clock g) g t.next_id t.devices macs.0),
    All-Known none observed_at hosts _ _ macs.1 apart.1,
  )
  All-Known (some run) observed_at (g ∷ hosts) t created macs apart = (
    Known-merge_hosts (some run) observed_at hosts _ _ g apart.0
        (self-upsert_row (clock g) g t.next_id t.devices macs.0),
    All-Known (some run) observed_at hosts _ _ macs.1 apart.1,
  )

  All-upsert_row :
      (now : ℕ) (g : ParsedHost) (id : ℕ) (ds : List Device) (hosts : List ParsedHost)
      → All (λ h. g.ip_address ≢ h.ip_address) hosts
      → All (Known ds) hosts
      → All (Known (upsert_row now g id ds)) hosts
  All-upsert_row now g id ds [] apart known = tt
  All-upsert_row now g id ds (h ∷ hosts) apart known = (
    Known-upsert_row now g h id ds apart.0 known.0,
    All-upsert_row now g id ds hosts apart.1 known.1,
  )

  created-Known :
      (run : Option Run) (observed_at : ℕ) (hosts : List ParsedHost) (t : Tables) (created : ℕ)
      → Apart hosts
      → All (Known t.devices) hosts
      → (merge_hosts run observed_at (timed clock hosts) t created).1 ≡ created
  unfolding merge_hosts upsert_device
  created-Known run observed_at [] t created apart known = refl
  created-Known none observed_at (g ∷ hosts) t created apart known =
      created-Known none observed_at hosts _ _ apart.1
        (All-upsert_row (clock g) g t.next_id t.devices hosts apart.0 known.1)
      ∙ ground (arith, is_some-find_device g t.devices)
  created-Known (some run) observed_at (g ∷ hosts) t created apart known =
      created-Known (some run) observed_at hosts _ _ apart.1
        (All-upsert_row (clock g) g t.next_id t.devices hosts apart.0 known.1)
      ∙ ground (arith, is_some-find_device g t.devices)

any-mark :
    (host : ParsedHost) (p : Device → Bool) (ds : List Device)
    → any (matches host) (map (λ d. if p d then mark_offline d else d) ds) ≡ any (matches host) ds
unfolding any matches matches_mac matches_ip
any-mark host p [] = refl
any-mark host p (d ∷ ds) = ground (arith, any-mark host p ds)

All-mark_range :
    (run : Option Run) (observed_at : ℕ) (network : Option Network) (scanned_at : Option ℕ)
    (t : Tables) (hosts : List ParsedHost)
    → All (Known t.devices) hosts
    → All (Known (mark_range run observed_at network scanned_at t).devices) hosts
unfolding mark_absent_devices_offline
All-mark_range run observed_at network scanned_at t [] known = tt
All-mark_range run observed_at none scanned_at t (h ∷ hs) known = known
All-mark_range run observed_at (some network) none t (h ∷ hs) known = known
All-mark_range none observed_at (some network) (some s) t (h ∷ hs) known = (
  any-mark h (is_absent network s) t.devices ∙ known.0,
  All-mark_range none observed_at (some network) (some s) t hs known.1,
)
All-mark_range (some run) observed_at (some network) (some s) t (h ∷ hs) known = (
  any-mark h (is_absent network s) t.devices ∙ known.0,
  All-mark_range (some run) observed_at (some network) (some s) t hs known.1,
)

-- Merging a scan a second time, at other times and for another run, creates no record, if no two
-- of its hosts have the same address and none reports an empty MAC address.
pub reconcile-again :
    (run again : Option Run) (network : Option Network) (scanned_at rescanned_at : Option ℕ)
    (observed_at reobserved_at : ℕ) (clock reclock : ParsedHost → ℕ) (hosts : List ParsedHost)
    (t : Tables)
    → All HasMac hosts
    → Apart hosts
    → let merged = (reconcile run network scanned_at observed_at (timed clock hosts) t).0 in
      (reconcile again network rescanned_at reobserved_at (timed reclock hosts) merged).2 ≡ 0
unfolding reconcile
reconcile-again run again network scanned_at rescanned_at observed_at reobserved_at clock reclock
      hosts t macs apart =
    created-Known reclock again reobserved_at hosts _ 0 apart (
      All-mark_range run observed_at network scanned_at _ hosts
        (All-Known clock run observed_at hosts t 0 macs apart))
