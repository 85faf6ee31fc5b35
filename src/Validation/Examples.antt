-- ===== src/Validation/Examples.antt =====
-- Runs of `app/core/validation.py` on concrete input, and its theorems at inputs that meet their
-- hypotheses.
use netops_console.Prelude.{
  ◌*◌, ◌^◌, ◌≡◌, refl, true, false, [], ◌∷◌, some, any, all, length, All, ◌≤◌, ok, err, arith,
}
use netops_console.Prelude.Text.{Text, codes, strip, split}
use netops_console.Prelude.Text
use netops_console.Net
use netops_console.Net.Parse
use netops_console.Validation
use netops_console.Net.{Network, IsNetwork, contains}
use netops_console.Net.Parse.{
  Ipv6, not_ipv6, ipv4_network, ip_network, ip_address, network, ipv4_of_text,
}
use netops_console.Validation.{
  parse_ipv4_network, validate_allowed_cidr, validate_scan_target, parse_ipv4, validate_hostname,
  validate_port, Unicode, text, is_private, is_blocked, address_in_allowlist, max_hostname_length,
}
use netops_console.Validation.Scope.{validate_allowed_cidr-safe, validate_scan_target-in_scope}
use netops_console.Validation.Names.{LabelLine, validate_hostname-accepts}
use netops_console.Validation.Errors.{host_bits_set, too_many_addresses, overlaps_reserved}

-- A library that takes no text for IPv6.
abbrev pub no_ipv6 : Ipv6
no_ipv6 = record { is_address = λ s. false; network_text = λ strict s. not_ipv6 }

-- Tables under which text is lower case already.
abbrev plain : Unicode
plain = record { lower = λ s. s; idna_encodes = λ s. true }

abbrev pub lan : Network
lan = record { base = 0xC0A80100; prefix_len = 24 }

-- What a run through the parsers computes with.
unfoldable pub parsing : Unit {0}
unfolding parse_ipv4_network strip Text.lstrip Text.is_space Text.has Text.split Text.is_number
    Text.is_digit Text.number_from all any ip_network ipv4_network Parse.network_of_parts
    Parse.with_mask Parse.mask_length Parse.mask_prefix Parse.prefix_of Parse.sized Parse.network_at
    Parse.octet ipv4_of_text contains Net.subnet_of Net.overlaps Net.broadcast Net.num_addresses
    validate_allowed_cidr validate_scan_target Validation.network_in_allowlist
parsing = tt

lan_parses : parse_ipv4_network no_ipv6 true (codes " 192.168.1.0/24 ") ≡ ok lan
unfolding parsing
lan_parses = refl

host_bits_suggest :
    parse_ipv4_network no_ipv6 true (codes "192.168.1.5/24") ≡ err (host_bits_set (some lan))
unfolding parsing
host_bits_suggest = refl

netmask_reads : parse_ipv4_network no_ipv6 true (codes "192.168.1.0/0.0.0.255") ≡ ok lan
unfolding parsing
netmask_reads = refl

lan_allowed : validate_allowed_cidr no_ipv6 (codes "192.168.1.0/24") ≡ ok lan
unfolding parsing
lan_allowed = refl

loopback_refused :
    validate_allowed_cidr no_ipv6 (codes "127.0.0.0/8")
    ≡ err (overlaps_reserved (record { base = 127 * 2 ^ 24; prefix_len = 8 }))
unfolding parsing
loopback_refused = refl

pub lan_scans : validate_scan_target no_ipv6 (codes "192.168.1.0/24") (lan ∷ []) 256 ≡ ok lan
unfolding parsing
lan_scans = refl

lan_too_big :
    validate_scan_target no_ipv6 (codes "192.168.1.0/24") (lan ∷ []) 255
    ≡ err (too_many_addresses lan 255)
unfolding parsing
lan_too_big = refl

-- A host name keeps a line feed that follows an inner label.
line_feed_passes :
    validate_hostname plain (b'a' ∷ 10 ∷ b'.' ∷ b'b' ∷ []) ≡ ok (b'a' ∷ 10 ∷ b'.' ∷ b'b' ∷ [])
unfolding validate_hostname strip all split Validation.drop_dot Validation.hostname_label
    Text.matches_line Validation.is_label Validation.is_alnum Text.is_alpha Validation.last_is_alnum
    Text.is_digit Text.chomp
line_feed_passes = refl

host_passes : validate_hostname plain (codes "nas-1.lan.") ≡ ok (codes "nas-1.lan")
unfolding validate_hostname strip all split Validation.drop_dot Validation.hostname_label
    Text.matches_line Validation.is_label Validation.is_alnum Text.is_alpha Validation.last_is_alnum
    Text.is_digit
host_passes = refl

port_passes : validate_port (text (codes " 8_080 ")) ≡ ok 8080
unfolding validate_port Text.int_of_text
port_passes = refl

pub lan_holds : contains lan 0xC0A80107 ≡ true
unfolding contains Net.num_addresses
lan_holds = refl

validate_allowed_cidr-safe_example :
    IsNetwork lan × (is_private 0xC0A80107 ≡ true) × (is_blocked 0xC0A80107 ≡ false)
validate_allowed_cidr-safe_example =
    validate_allowed_cidr-safe no_ipv6 (codes "192.168.1.0/24") lan 0xC0A80107 lan_allowed lan_holds

lan-IsNetwork : IsNetwork lan
unfolding Net.num_addresses
lan-IsNetwork = omega arith

validate_scan_target-in_scope_example :
    (Net.num_addresses lan ≤ 256) × (address_in_allowlist 0xC0A80107 (lan ∷ []) ≡ true)
validate_scan_target-in_scope_example =
    validate_scan_target-in_scope no_ipv6 (codes "192.168.1.0/24") (lan ∷ []) 256 lan 0xC0A80107
      (lan-IsNetwork, tt) lan_scans lan_holds

validate_hostname-accepts_example :
    (length (codes "nas-1.lan") ≤ max_hostname_length)
    × (true ≡ true)
    × All LabelLine (split b'.' (codes "nas-1.lan"))
validate_hostname-accepts_example =
    validate_hostname-accepts plain (codes "nas-1.lan.") (codes "nas-1.lan") host_passes
