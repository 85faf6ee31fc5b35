-- ===== src/Settings/Reach.antt =====
-- What saved settings allow: how far a scan may reach, and how much may run.
use netops_console.Prelude.{
  ℕ, ◌≤◌, ◌≡◌, sym, true, false, List, [], ◌∷◌, any, ok, Result-cases, arith, All, any_found, inl,
  inr, Bool-cases,
}
use netops_console.Prelude.Text.{Text}
use netops_console.Net.{Network, IsNetwork, contains, num_addresses}
use netops_console.Net.Parse.{Ipv6}
use netops_console.Validation.{
  validate_allowed_cidr, validate_scan_target, address_in_allowlist, is_private, is_blocked,
}
use netops_console.Validation.Scope.{
  validate_scan_target-in_scope, validate_allowed_cidr-safe, validate_allowed_cidr-IsNetwork,
}
use netops_console.Settings.{
  AppSettings, Stored, Form, load, save, parse_cidr_list, add_entries, strip_all, split_entries,
  add_network, same_network, bounded, bounded_int, max_scan_hosts_ceiling, max_concurrency_ceiling,
  max_retention_days,
}

-- A range that the form's check accepted.
abbrev Accepted : Ipv6 → Network → Type 0
Accepted ipv6 n = (value : Text) × (validate_allowed_cidr ipv6 value ≡ ok n)

All-add_network :
    (P : Network → Type 0) (seen : List Network) (n : Network)
    → P n
    → All P seen
    → All P (add_network seen n)
unfolding add_network
All-add_network P [] n h all = (h, tt)
All-add_network P (m ∷ ms) n h all = elim (Bool-cases (same_network m n)) [
  | inl e ↦ rw e all
  | inr e ↦ rw e (all.0, All-add_network P ms n h all.1)
]

All-add_entries :
    (ipv6 : Ipv6) (entries : List Text) (seen networks : List Network)
    → All (Accepted ipv6) seen
    → add_entries ipv6 entries seen ≡ ok networks
    → All (Accepted ipv6) networks
unfolding add_entries
All-add_entries ipv6 [] seen networks all h =
    let same : seen ≡ networks = ground arith in rw (sym same) all
All-add_entries ipv6 (entry ∷ entries) seen networks all h =
    elim (Result-cases (validate_allowed_cidr ipv6 entry)) [
      | inl (n, e) ↦
          All-add_entries ipv6 entries (add_network seen n) networks
            (All-add_network (Accepted ipv6) seen n (entry, e) all) (ground arith)
      | inr (f, e) ↦ ground arith
    ]

parse_cidr_list-Accepted :
    (ipv6 : Ipv6) (raw : Text) (networks : List Network)
    → parse_cidr_list ipv6 raw ≡ ok networks
    → All (Accepted ipv6) networks
unfolding parse_cidr_list
parse_cidr_list-Accepted ipv6 raw networks h =
    All-add_entries ipv6 (strip_all (split_entries raw)) [] networks tt (ground arith)

bounded_int-le :
    (raw : Text) (minimum maximum n : ℕ)
    → bounded_int raw minimum maximum ≡ ok n
    → (minimum ≤ n) × (n ≤ maximum)
unfolding bounded_int bounded
bounded_int-le raw minimum maximum n h = ground arith

-- What a save that succeeds puts into the settings.
abbrev pub Saved : Ipv6 → Form → AppSettings → Type 0
Saved ipv6 form s =
    (parse_cidr_list ipv6 form.allowed_cidrs_raw ≡ ok s.allowed_cidrs)
    × (bounded_int form.max_scan_hosts 1 max_scan_hosts_ceiling ≡ ok s.max_scan_hosts)
    × (bounded_int form.max_concurrent_scans 1 max_concurrency_ceiling ≡ ok s.max_concurrent_scans)
    × (bounded_int form.max_concurrent_executions 1 max_concurrency_ceiling
        ≡ ok s.max_concurrent_executions)
    × (bounded_int form.retention_days 1 max_retention_days ≡ ok s.retention_days)
    × (s.strict_host_keys ≡ form.strict_host_keys)

save-Saved :
    (ipv6 : Ipv6) (env : AppSettings) (form : Form) (stored after : Stored) (s : AppSettings)
    → save ipv6 env form stored ≡ ok (s, after)
    → Saved ipv6 form s × (s ≡ load env after)
unfolding save load
save-Saved ipv6 env form stored after s h = ground arith

All-Accepted :
    (ipv6 : Ipv6) (networks : List Network) (a : ℕ)
    → All (Accepted ipv6) networks
    → All IsNetwork networks
All-Accepted ipv6 [] a all = tt
All-Accepted ipv6 (n ∷ ns) a ((value, accepted), rest) =
    (validate_allowed_cidr-IsNetwork ipv6 value n accepted, All-Accepted ipv6 ns a rest)

in_some :
    (networks : List Network) (a : ℕ)
    → address_in_allowlist a networks ≡ true
    → any (λ e. contains e a) networks ≡ true
unfolding address_in_allowlist
in_some networks a h = h

-- Once the settings form is saved, each address of a scan target that is accepted under the saved
-- settings is private and in none of the reserved ranges, and the target has at most 65536
-- addresses.
pub save-in_scope :
    (ipv6 : Ipv6) (env : AppSettings) (form : Form) (stored after : Stored) (s : AppSettings)
    (value : Text) (n : Network) (a : ℕ)
    → save ipv6 env form stored ≡ ok (s, after)
    → validate_scan_target ipv6 value s.allowed_cidrs s.max_scan_hosts ≡ ok n
    → contains n a ≡ true
    → (is_private a ≡ true) × (is_blocked a ≡ false) × (num_addresses n ≤ max_scan_hosts_ceiling)
save-in_scope ipv6 env form stored after s value n a saved target inside =
    let (entries, hosts, _, _, _, _) = (save-Saved ipv6 env form stored after s saved).0 in
    let all = parse_cidr_list-Accepted ipv6 form.allowed_cidrs_raw s.allowed_cidrs entries in
    let wf = All-Accepted ipv6 s.allowed_cidrs a all in
    let (small, allowed) =
      validate_scan_target-in_scope ipv6 value s.allowed_cidrs s.max_scan_hosts n a wf target
        inside in
    let (entry, (text, accepted), holds) =
      any_found (λ e. contains e a) (Accepted ipv6) s.allowed_cidrs all
        (in_some s.allowed_cidrs a allowed) in
    let (_, private, unblocked) = validate_allowed_cidr-safe ipv6 text entry a accepted holds in
    (
      private,
      unblocked,
      omega (
        arith,
        small,
        bounded_int-le form.max_scan_hosts 1 max_scan_hosts_ceiling s.max_scan_hosts hosts,
      ),
    )

-- A save that succeeds returns what the next load returns: the form's ranges and numbers, with the
-- limits on scans between 1 and 65536 addresses, on concurrency between 1 and 16, and on the days of
-- retention between 1 and 3650.
pub save-load :
    (ipv6 : Ipv6) (env : AppSettings) (form : Form) (stored after : Stored) (s : AppSettings)
    → save ipv6 env form stored ≡ ok (s, after)
    → (load env after ≡ s)
      × (parse_cidr_list ipv6 form.allowed_cidrs_raw ≡ ok s.allowed_cidrs)
      × (1 ≤ s.max_scan_hosts)
      × (s.max_scan_hosts ≤ 65536)
      × (1 ≤ s.max_concurrent_scans)
      × (s.max_concurrent_scans ≤ 16)
      × (1 ≤ s.max_concurrent_executions)
      × (s.max_concurrent_executions ≤ 16)
      × (1 ≤ s.retention_days)
      × (s.retention_days ≤ 3650)
save-load ipv6 env form stored after s saved =
    let ((entries, hosts, scans, executions, days, _), same) =
      save-Saved ipv6 env form stored after s saved in
    let h = bounded_int-le form.max_scan_hosts 1 65536 s.max_scan_hosts hosts in
    let c = bounded_int-le form.max_concurrent_scans 1 16 s.max_concurrent_scans scans in
    let e =
      bounded_int-le form.max_concurrent_executions 1 16 s.max_concurrent_executions executions in
    let d = bounded_int-le form.retention_days 1 3650 s.retention_days days in
    (sym same, entries, h.0, h.1, c.0, c.1, e.0, e.1, d.0, d.1)
