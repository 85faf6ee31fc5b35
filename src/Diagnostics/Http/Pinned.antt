-- ===== src/Diagnostics/Http/Pinned.antt =====
-- Where an HTTP check connects.
use netops_console.Prelude.{
  refl, ap, ◌∙◌, ℕ, ◌≡◌, inl, inr, true, false, List, [], ◌∷◌, ok, Result-cases, arith, All,
}
use netops_console.Prelude.Text.{Text}
use netops_console.Net.{Network}
use netops_console.Validation.{Unicode, PortValue, validate_port, is_blocked, address_in_allowlist}
use netops_console.Diagnostics.Http.{
  Web, resolve, all_allowed, checked_host, first_address, validate_target, Request, HttpCheckResult,
  good, code_of, check,
}

-- An address that may be contacted.
abbrev pub Allowed : List Network → ℕ → Type 0
Allowed allowed a = (is_blocked a ≡ false) × (address_in_allowlist a allowed ≡ true)

all_allowed-All :
    (allowed : List Network) (addresses : List ℕ)
    → all_allowed allowed addresses ≡ ok tt
    → All (Allowed allowed) addresses
unfolding all_allowed
all_allowed-All allowed [] h = tt
all_allowed-All allowed (a ∷ rest) h =
    ((ground arith, ground arith), all_allowed-All allowed rest (ground arith))

-- What a check that sent a request is about: the name that it resolved, each of whose addresses may
-- be contacted, and the first of them, which the request went to. The result is made of the answer
-- to that request.
pub record Pinned (unicode : Unicode) (web : Web) (host : Text) (port : PortValue) (scheme : Text)
    (allowed : List Network) (q : Request) (r : HttpCheckResult) : Type 0 where
  pub name : Text
  pub rest : List ℕ
  pub checked : checked_host unicode host ≡ ok name
  pub resolved : resolve web name ≡ ok (q.address ∷ rest)
  pub every : All (Allowed allowed) (q.address ∷ rest)
  pub same_port : validate_port port ≡ ok q.port
  pub same_scheme : q.scheme ≡ scheme
  pub answered : r ≡ record { is_ok = good (web.send q); status_code = code_of (web.send q) }

module _ (unicode : Unicode) (web : Web) where
  first-head :
      (allowed : List Network) (addresses : List ℕ) (p a q : ℕ)
      → all_allowed allowed addresses ≡ ok tt
      → first_address addresses p ≡ ok (a, q)
      → (rest : List ℕ) × (addresses ≡ a ∷ rest) × All (Allowed allowed) (a ∷ rest) × (p ≡ q)
  unfolding first_address
  first-head allowed [] p a q ok_all h = cc
  first-head allowed (b ∷ rest) p a q ok_all h =
      let same : b ≡ a = ground arith in
      let every = all_allowed-All allowed (b ∷ rest) ok_all in
      (rest, ap (λ x. x ∷ rest) same, (rw (← same) every.0, every.1), ground arith)

  validated :
      (host : Text) (port : PortValue) (scheme : Text) (allowed : List Network) (a q : ℕ)
      → validate_target unicode web host port scheme allowed ≡ ok (a, q)
      → (name : Text) × (rest : List ℕ) × (checked_host unicode host ≡ ok name)
        × (resolve web name ≡ ok (a ∷ rest))
        × All (Allowed allowed) (a ∷ rest)
        × (validate_port port ≡ ok q)
  unfolding validate_target
  validated host port scheme allowed a q h = elim (Result-cases (validate_port port)) [
    | inr (e, k) ↦ ground arith
    | inl (p, k) ↦ elim (Result-cases (checked_host unicode host)) [
      | inr (e, l) ↦ ground arith
      | inl (name, l) ↦ elim (Result-cases (resolve web name)) [
        | inr (e, m) ↦ ground arith
        | inl (addresses, m) ↦
            let (rest, first, every, same) =
              first-head allowed addresses p a q (ground arith) (ground arith) in
            (name, rest, l, m ∙ ap ok first, every, k ∙ ap ok same)
      ]
    ]
  ]

  -- An HTTP check that ended in a result sent one request, with the given scheme: to the first
  -- address that its host name resolved to, on the port that was asked for. Every address that the
  -- name resolved to is in an allowed range and in no reserved one, and the result is made of the
  -- answer to that request.
  pub check-Pinned :
      (host : Text) (port : PortValue) (scheme : Text) (allowed : List Network) (q : Request)
      (r : HttpCheckResult)
      → check unicode web host port scheme allowed ≡ ok (q, r)
      → Pinned unicode web host port scheme allowed q r
  unfolding check
  check-Pinned host port scheme allowed q r h =
      elim (Result-cases (validate_target unicode web host port scheme allowed)) [
        | inr (e, k) ↦ ground arith
        | inl (target, k) ↦
            let (name, rest, l, m, every, p) =
              validated host port scheme allowed target.0 target.1 k in
            let request : Request = record {
              scheme = scheme;
              address = target.0;
              port = target.1;
            } in
            let sent : request ≡ q = ground arith in
            let result : record {
              is_ok = good (web.send request);
              status_code = code_of (web.send request);
            }
                ≡ r =
              ground arith in
            rw (← sent, ← result)
              (record {
                name = name;
                rest = rest;
                checked = l;
                resolved = m;
                every = every;
                same_port = p;
                same_scheme = refl;
                answered = refl;
              })
      ]
