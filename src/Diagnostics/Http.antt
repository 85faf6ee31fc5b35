-- ===== src/Diagnostics/Http.antt =====
-- `app/modules/diagnostics/http_check.py`: which address an HTTP check may connect to, and the check.
pub mod Pinned
use netops_console.Prelude.{
  ℕ, Bool, true, false, not, ◌&&◌, ◌||◌, Option, none, some, List, [], ◌∷◌, is_empty, is_some, any,
  ltb, if◌then◌else◌, Result, ok, err, ◌>>=◌, ◌>>◌, raise_if, or_raise,
}
use netops_console.Prelude.Text.{Text, codes, eqb}
use netops_console.Net.{Network}
use netops_console.Net.Parse.{ipv4_of_text}
use netops_console.Validation.{
  Unicode, PortValue, validate_port, validate_hostname, is_blocked, address_in_allowlist,
}
use netops_console.Validation.Errors.{
  ValidationError, bad_scheme, unresolved, no_ipv4_address, address_blocked, address_outside,
}

-- What `client.send` ends in: a status code, a timeout, or another `HTTPError`.
pub data Answer : Type 0 where
  status_code : ℕ → Answer
  timed_out http_error : Answer

-- A request: `client.send` is given the URL of an address and a port.
pub record Request : Type 0 where
  pub scheme : Text
  pub address : ℕ
  pub port : ℕ

-- The resolver and the HTTP client. `getaddrinfo` gives the addresses as texts; `none` is its error.
pub record Web : Type 0 where
  pub getaddrinfo : Text → Option (List Text)
  pub send : Request → Answer

-- `ALLOWED_SCHEMES`
abbrev pub allowed_schemes : List Text
allowed_schemes = codes "http" ∷ codes "https" ∷ []

-- The IPv4 addresses among some texts.
unfoldable pub ipv4_addresses : List Text → List ℕ
ipv4_addresses [] = []
ipv4_addresses (t ∷ ts) =
    let rest = ipv4_addresses ts in elim (ipv4_of_text t) [ none ↦ rest | some a ↦ a ∷ rest ]

unfoldable pub some_addresses : List ℕ → Result ValidationError (List ℕ)
some_addresses [] = err no_ipv4_address
some_addresses (a ∷ more) = ok (a ∷ more)

-- `_resolve`
unfoldable pub resolve : Web → Text → Result ValidationError (List ℕ)
resolve web host = elim (ipv4_of_text host) [
  | some a ↦ ok (a ∷ [])
  | none ↦ do
    infos ← or_raise (web.getaddrinfo host) unresolved
    some_addresses (ipv4_addresses infos)
]

-- The loop over the resolved addresses.
unfoldable pub all_allowed : List Network → List ℕ → Result ValidationError (Unit {0})
all_allowed allowed [] = ok tt
all_allowed allowed (a ∷ rest) = do
  raise_if (is_blocked a) address_blocked
  raise_if (not (address_in_allowlist a allowed)) address_outside
  all_allowed allowed rest

-- A literal address is taken as it is; a name must pass the rules for host names.
unfoldable pub checked_host : Unicode → Text → Result ValidationError Text
checked_host unicode host =
    if is_some (ipv4_of_text host) then ok host else validate_hostname unicode host

unfoldable pub first_address : List ℕ → ℕ → Result ValidationError (ℕ × ℕ)
first_address [] port = err no_ipv4_address
first_address (a ∷ rest) port = ok (a, port)

-- `validate_target`
unfoldable pub validate_target :
    Unicode → Web → Text → PortValue → Text → List Network → Result ValidationError (ℕ × ℕ)
validate_target unicode web host port scheme allowed = do
  raise_if (not (any (eqb scheme) allowed_schemes)) bad_scheme
  checked_port ← validate_port port
  name ← checked_host unicode host
  addresses ← resolve web name
  all_allowed allowed addresses
  first_address addresses checked_port

-- `HttpCheckResult`: its `ok` and its status code. The texts and the latency are left out.
pub record HttpCheckResult : Type 0 where
  pub is_ok : Bool
  pub status_code : Option ℕ

unfoldable pub good : Answer → Bool
good (status_code n) = ltb n 400
good timed_out = false
good http_error = false

unfoldable pub code_of : Answer → Option ℕ
code_of (status_code n) = some n
code_of timed_out = none
code_of http_error = none

-- `check`, with the request that it sent, which is pinned to the address that was checked; redirects
-- are not followed.
unfoldable pub check :
    Unicode
    → Web
    → Text
    → PortValue
    → Text
    → List Network
    → Result ValidationError (Request × HttpCheckResult)
check unicode web host port scheme allowed = do
  target ← validate_target unicode web host port scheme allowed
  let request : Request = record { scheme = scheme; address = target.0; port = target.1 }
  let answer = web.send request
  ok (request, record { is_ok = good answer; status_code = code_of answer })
