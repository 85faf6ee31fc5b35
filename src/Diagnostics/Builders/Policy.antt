-- ===== src/Diagnostics/Builders/Policy.antt =====
-- The engine runs what the diagnostics ask for.
use netops_console.Prelude.{
  ℕ, zero, suc, ◌+◌, ◌*◌, ◌/◌, ◌%◌, ◌≤◌, ◌<◌, ◌≡◌, refl, Bool, true, false, ◌||◌, ◌&&◌, not, any,
  is_empty, Option, none, some, List, [], ◌∷◌, Result, ok, err, inl, inr, Option-cases, arith, All,
}
use netops_console.Prelude.Int.{ℤ, pos, negsuc}
use netops_console.Prelude.Text.{Text, codes, has, eqb, strip, digits, text_of_int}
use netops_console.Execution.{
  Files, ExecutionRejected, not_installed, not_file, build_argv, checked_arguments, resolve_binary,
  max_timeout, forbidden_names, allowed_binaries, among,
}
use netops_console.Diagnostics.Builders.{
  Command, clamp, ping, ping_of, traceroute, traceroute_of, dns_lookup, reverse_dns, tcp_check,
  service_scan, arp_neighbour, min_ping_count, max_ping_count, default_ping_count, min_trace_hops,
  max_trace_hops, default_trace_hops,
}

digits-has : (fuel n : ℕ) (s : Text) → has 0 s ≡ false → has 0 (digits fuel n s) ≡ false
unfolding digits has
digits-has zero n s h = h
digits-has (suc fuel) n s h = ground (arith, digits-has fuel (n / 10) ((b'0' + n % 10) ∷ s))

-- No number that is written out has a NUL in it.
str-has : (n : ℕ) → has 0 (text_of_int (pos n)) ≡ false
unfolding text_of_int has
str-has n = digits-has (suc n) n [] refl

-- Every argument of a command is free of NUL bytes.
abbrev Clean : List Text → Type 0
Clean = All (λ a. has 0 a ≡ false)

checked-Clean :
    (files : Files) (arguments : List Text)
    → Clean arguments
    → checked_arguments files arguments ≡ ok arguments
unfolding checked_arguments
checked-Clean files [] h = refl
checked-Clean files (x ∷ xs) h = ground (arith, checked-Clean files xs)

-- What the engine makes of a program and arguments that it does not object to: an argv of the file
-- that the program's name leads to, and the arguments; or a refusal, where there is no such file.
abbrev pub argv_of : Files → Text → List Text → Result ExecutionRejected (List Text)
argv_of files program arguments = elim (files.which program) [
  | none ↦ err not_installed
  | some path ↦ elim (files.resolve_file path) [
    | none ↦ err not_file
    | some place ↦ ok (place ∷ arguments)
  ]
]

-- The engine takes a command as it is: only a missing program makes it refuse, its arguments are
-- passed on, and its time is within the engine's.
abbrev pub Accepted : Files → Command → Type 0
Accepted files c =
    (build_argv files c.program c.arguments ≡ argv_of files c.program c.arguments)
    × (0 < c.timeout)
    × (c.timeout ≤ max_timeout)

-- The tests on the name of a program.
abbrev allowed : Text → Bool
allowed name =
    not (is_empty name || has b'/' name || has 92 name || not (eqb name (strip name)))
    && not (among name forbidden_names)
    && among name allowed_binaries

build_argv-ok :
    (files : Files) (program : Text) (arguments : List Text)
    → allowed program ≡ true
    → Clean arguments
    → build_argv files program arguments ≡ argv_of files program arguments
unfolding build_argv resolve_binary
build_argv-ok files program arguments ok_name clean = elim (Option-cases (files.which program)) [
  | inl e ↦ ground arith
  | inr (path, e) ↦ elim (Option-cases (files.resolve_file path)) [
    | inl k ↦ ground arith
    | inr (place, k) ↦ ground (arith, checked-Clean files arguments clean)
  ]
]

clamp-le :
    (value : Option ℤ) (minimum maximum default : ℕ)
    → minimum ≤ default
    → default ≤ maximum
    → (minimum ≤ clamp value minimum maximum default)
      × (clamp value minimum maximum default ≤ maximum)
unfolding clamp
clamp-le none minimum maximum default h k = (h, k)
clamp-le (some (pos n)) minimum maximum default h k = omega arith
clamp-le (some (negsuc n)) minimum maximum default h k = omega arith

ping-Accepted :
    (files : Files) (target : Text) (count : Option ℤ)
    → has 0 target ≡ false
    → Accepted files (ping target count)
unfolding ping ping_of has eqb any strip among
ping-Accepted files target count clean = (
  build_argv-ok files (codes "ping") (ping target count).arguments refl (
    refl,
    (
      str-has (clamp count min_ping_count max_ping_count default_ping_count),
      (
        refl,
        (
          refl,
          (
            refl,
            (
              str-has ((clamp count min_ping_count max_ping_count default_ping_count) * 2 + 5),
              (refl, (clean, tt)),
            ),
          ),
        ),
      ),
    ),
  ),
  omega arith,
  omega (arith, clamp-le count min_ping_count max_ping_count default_ping_count),
)

traceroute-Accepted :
    (files : Files) (target : Text) (hops : Option ℤ)
    → has 0 target ≡ false
    → Accepted files (traceroute target hops)
unfolding traceroute traceroute_of has eqb any strip among
traceroute-Accepted files target hops clean = (
  build_argv-ok files (codes "traceroute") (traceroute target hops).arguments refl (
    refl,
    (
      str-has (clamp hops min_trace_hops max_trace_hops default_trace_hops),
      (refl, (refl, (refl, (refl, (refl, (clean, tt)))))),
    ),
  ),
  omega arith,
  omega (arith, clamp-le hops min_trace_hops max_trace_hops default_trace_hops),
)

dns_lookup-Accepted :
    (files : Files) (target : Text) → has 0 target ≡ false → Accepted files (dns_lookup target)
unfolding dns_lookup has eqb any strip among
dns_lookup-Accepted files target clean = (
  build_argv-ok files (codes "dig") (dns_lookup target).arguments refl
      (refl, (refl, (refl, (refl, (clean, (refl, tt)))))),
  omega arith,
  omega arith,
)

reverse_dns-Accepted :
    (files : Files) (target : Text) → has 0 target ≡ false → Accepted files (reverse_dns target)
unfolding reverse_dns has eqb any strip among
reverse_dns-Accepted files target clean = (
  build_argv-ok files (codes "dig") (reverse_dns target).arguments refl
      (refl, (refl, (refl, (refl, (refl, (clean, tt)))))),
  omega arith,
  omega arith,
)

tcp_check-Accepted :
    (files : Files) (target : Text) (port : ℕ)
    → has 0 target ≡ false
    → Accepted files (tcp_check target port)
unfolding tcp_check has eqb any strip among
tcp_check-Accepted files target port clean = (
  build_argv-ok files (codes "nmap") (tcp_check target port).arguments refl
      (refl, (refl, (refl, (str-has port, (refl, (refl, (refl, (clean, tt)))))))),
  omega arith,
  omega arith,
)

service_scan-Accepted :
    (files : Files) (target : Text) → has 0 target ≡ false → Accepted files (service_scan target)
unfolding service_scan has eqb any strip among
service_scan-Accepted files target clean = (
  build_argv-ok files (codes "nmap") (service_scan target).arguments refl
      (refl, (refl, (refl, (refl, (refl, (refl, (refl, (refl, (refl, (refl, (clean, tt))))))))))),
  omega arith,
  omega arith,
)

arp_neighbour-Accepted :
    (files : Files) (target : Text) → has 0 target ≡ false → Accepted files (arp_neighbour target)
unfolding arp_neighbour has eqb any strip among
arp_neighbour-Accepted files target clean = (
  build_argv-ok files (codes "ip") (arp_neighbour target).arguments refl
      (refl, (refl, (refl, (clean, tt)))),
  omega arith,
  omega arith,
)

-- The commands that the diagnostics may run against a target.
abbrev pub commands : Text → Option ℤ → Option ℤ → ℕ → List Command
commands target count hops port =
    ping target count
    ∷ traceroute target hops
    ∷ dns_lookup target
    ∷ reverse_dns target
    ∷ tcp_check target port
    ∷ service_scan target
    ∷ arp_neighbour target
    ∷ []

-- If a target has no NUL, then for whatever numbers the form sends the engine accepts each diagnostic
-- as it is: nothing but a program that is not found makes it refuse, the arguments are unchanged, and
-- the timeout is positive and within the engine's.
pub commands-Accepted :
    (files : Files) (target : Text) (count hops : Option ℤ) (port : ℕ)
    → has 0 target ≡ false
    → All (Accepted files) (commands target count hops port)
commands-Accepted files target count hops port clean = (
  ping-Accepted files target count clean,
  (
    traceroute-Accepted files target hops clean,
    (
      dns_lookup-Accepted files target clean,
      (
        reverse_dns-Accepted files target clean,
        (
          tcp_check-Accepted files target port clean,
          (
            service_scan-Accepted files target clean,
            (arp_neighbour-Accepted files target clean, tt),
          ),
        ),
      ),
    ),
  ),
)
