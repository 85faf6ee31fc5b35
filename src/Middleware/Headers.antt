-- ===== src/Middleware/Headers.antt =====
-- The security headers of a response: the application's own come first and win.
use mathlib.Core.List.{append-nil, append_assoc}
use netops_console.Prelude.{
  ◌≡◌, refl, sym, Bool, true, false, not, ◌&&◌, List, [], ◌∷◌, ◌++◌, keep, map, if◌then◌else◌,
  arith,
}
use netops_console.Prelude.Text.{Text}
use netops_console.Middleware.{
  Header, security_headers, hsts, is_present, add_missing, with_security_headers,
}

-- The headers of a list whose name is not among those present.
abbrev pub absent : List Header → List Header → List Header
absent present headers = keep (λ h. not (is_present h.0 present)) headers

add_missing-eq :
    (present raw more : List Header) → add_missing present raw more ≡ raw ++ absent present more
unfolding add_missing keep
add_missing-eq present raw [] = sym (append-nil raw)
add_missing-eq present raw (h ∷ more) = ground (
  arith,
  add_missing-eq present raw more,
  add_missing-eq present (raw ++ h ∷ []) more,
  append_assoc raw (h ∷ []) (absent present more),
)

keep-append_headers :
    (p : Header → Bool) (xs ys : List Header) → keep p (xs ++ ys) ≡ keep p xs ++ keep p ys
unfolding keep
keep-append_headers p [] ys = refl
keep-append_headers p (x ∷ xs) ys = ground (arith, keep-append_headers p xs ys)

one_more :
    (secure : Bool) (present raw headers : List Header) (h : Header)
    → (if secure && not (is_present h.0 present)
        then add_missing present raw headers ++ h ∷ []
        else add_missing present raw headers)
      ≡ raw ++ absent present (if secure then headers ++ h ∷ [] else headers)
unfolding keep
one_more false present raw headers h = add_missing-eq present raw headers
one_more true present raw headers h = ground (
  arith,
  add_missing-eq present raw headers,
  keep-append_headers (λ k. not (is_present k.0 present)) headers (h ∷ []),
  append_assoc raw (absent present headers) (h ∷ []),
  append-nil (absent present headers),
)

-- The policies that a response gets: HSTS only over a secure connection.
abbrev pub policies : Bool → List Header
policies secure = if secure then security_headers ++ hsts ∷ [] else security_headers

-- A response keeps its own headers, in order; behind them come exactly those security headers
-- whose names it does not have yet, with HSTS among them only if the connection is secure.
pub with_security_headers-eq :
    (lower : Text → Text) (secure : Bool) (raw : List Header)
    → with_security_headers lower secure raw
      ≡ raw ++ absent (map (λ h. (lower h.0, h.1)) raw) (policies secure)
unfolding with_security_headers
with_security_headers-eq lower secure raw =
    one_more secure (map (λ h. (lower h.0, h.1)) raw) raw security_headers hsts
