-- ===== src/Diagnostics/Builders.antt =====
-- `app/modules/diagnostics/builders.py`: the commands of the built-in diagnostics.
pub mod Policy
mod Examples
use netops_console.Prelude.{
  ℕ, suc, ◌+◌, ◌*◌, Bool, true, false, Option, none, some, List, [], ◌∷◌, max, min,
}
use netops_console.Prelude.Int.{ℤ, pos, negsuc}
use netops_console.Prelude.Text.{Text, codes, text_of_int}

abbrev pub min_ping_count : ℕ
min_ping_count = 1

abbrev pub max_ping_count : ℕ
max_ping_count = 20

abbrev pub default_ping_count : ℕ
default_ping_count = 4

abbrev pub min_trace_hops : ℕ
min_trace_hops = 1

abbrev pub max_trace_hops : ℕ
max_trace_hops = 30

abbrev pub default_trace_hops : ℕ
default_trace_hops = 15

abbrev service_scan_ports : Text
service_scan_ports = codes "22,53,80,443,445,3389,5000,8006,8080,8443"

-- `Command`; the timeout is in seconds.
pub record Command : Type 0 where
  pub program : Text
  pub arguments : List Text
  pub timeout : ℕ

-- `clamp`, for bounds that are not negative
unfoldable pub clamp : Option ℤ → ℕ → ℕ → ℕ → ℕ
clamp none minimum maximum default = default
clamp (some (pos n)) minimum maximum default = max minimum (min maximum n)
clamp (some (negsuc n)) minimum maximum default = minimum

abbrev str : ℕ → Text
str n = text_of_int (pos n)

unfoldable pub ping_of : Text → ℕ → Command
ping_of target packets = record {
  program = codes "ping";
  arguments =
      codes "-c"
      ∷ str packets
      ∷ codes "-W"
      ∷ codes "2"
      ∷ codes "-w"
      ∷ str (packets * 2 + 5)
      ∷ codes "-n"
      ∷ target
      ∷ [];
  timeout = packets * 2 + 15;
}

unfoldable pub ping : Text → Option ℤ → Command
ping target count = ping_of target (clamp count min_ping_count max_ping_count default_ping_count)

unfoldable pub traceroute_of : Text → ℕ → Command
traceroute_of target hops = record {
  program = codes "traceroute";
  arguments =
      codes "-m"
      ∷ str hops
      ∷ codes "-w"
      ∷ codes "2"
      ∷ codes "-q"
      ∷ codes "1"
      ∷ codes "-n"
      ∷ target
      ∷ [];
  timeout = hops * 3 + 15;
}

unfoldable pub traceroute : Text → Option ℤ → Command
traceroute target max_hops =
    traceroute_of target (clamp max_hops min_trace_hops max_trace_hops default_trace_hops)

unfoldable pub dns_lookup : Text → Command
dns_lookup hostname = record {
  program = codes "dig";
  arguments =
      codes "+timeout=3"
      ∷ codes "+tries=2"
      ∷ codes "+noall"
      ∷ codes "+answer"
      ∷ hostname
      ∷ codes "A"
      ∷ [];
  timeout = 15;
}

unfoldable pub reverse_dns : Text → Command
reverse_dns address = record {
  program = codes "dig";
  arguments =
      codes "+timeout=3"
      ∷ codes "+tries=2"
      ∷ codes "+noall"
      ∷ codes "+answer"
      ∷ codes "-x"
      ∷ address
      ∷ [];
  timeout = 15;
}

unfoldable pub tcp_check : Text → ℕ → Command
tcp_check target port = record {
  program = codes "nmap";
  arguments =
      codes "-sT"
      ∷ codes "-Pn"
      ∷ codes "-p"
      ∷ str port
      ∷ codes "--host-timeout"
      ∷ codes "10s"
      ∷ codes "-n"
      ∷ target
      ∷ [];
  timeout = 25;
}

unfoldable pub service_scan : Text → Command
service_scan target = record {
  program = codes "nmap";
  arguments =
      codes "-sT"
      ∷ codes "-sV"
      ∷ codes "--version-intensity"
      ∷ codes "2"
      ∷ codes "-Pn"
      ∷ codes "-p"
      ∷ service_scan_ports
      ∷ codes "--host-timeout"
      ∷ codes "60s"
      ∷ codes "-n"
      ∷ target
      ∷ [];
  timeout = 90;
}

unfoldable pub arp_neighbour : Text → Command
arp_neighbour target = record {
  program = codes "ip";
  arguments = codes "-4" ∷ codes "neigh" ∷ codes "show" ∷ target ∷ [];
  timeout = 10;
}
