-- ===== src/Middleware/Csrf.antt =====
-- What the CSRF middleware lets through, and that the route sees the body that was sent.
use netops_console.Prelude.{
  ℕ, ◌+◌, ◌≤◌, ◌<◌, String, ◌≡◌, ◌≢◌, ◌↔◌, ◌⊎◌, inl, inr, sym, ap, Bool, true, false, ◌||◌, none,
  some, List, [], ◌∷◌, ◌++◌, any, length, or_else, str_eq, arith, length-append, Bool-cases,
  Option-cases, false, not, if◌then◌else◌,
}
use mathlib.Core.List.{append-nil, append_assoc}
use netops_console.Prelude.Text.{Text}
use netops_console.Session.{is_ascii, verify_csrf}
use netops_console.Session.Lifetime.{verify_csrf_iff}
use netops_console.Middleware.{
  safe_methods, csrf_exempt_paths, max_csrf_body_bytes, Message, disconnect, request, buffer_from,
  buffer_body, Decoding, Request, passed, is_form, token_from_form, submitted, csrf_middleware,
}

abbrev is_exempt : Request → Bool
is_exempt r = any (str_eq r.method) safe_methods || any (str_eq r.path) csrf_exempt_paths

-- A request is passed on exactly when it is not HTTP, uses a safe method or is for an exempt path,
-- or submits the token of its session, which is not empty and is ASCII.
pub csrf_middleware_iff :
    (d : Decoding) (r : Request)
    → ((channel : List Message) × (csrf_middleware d r ≡ passed channel)) ↔ (
        (r.is_http ≡ false)
        ⊎ ((any (str_eq r.method) safe_methods || any (str_eq r.path) csrf_exempt_paths) ≡ true)
        ⊎ ((token : String) × (r.session.csrf ≡ some token)
            × ((submitted d r).0 ≡ some token)
            × (token ≢ "")
            × (is_ascii token ≡ true)))
unfolding csrf_middleware
csrf_middleware_iff d r =
    let given = (submitted d r).0 in
    let valid = verify_csrf_iff r.session given in
    (
      λ h. elim (Bool-cases r.is_http) [
        | inr other ↦ inl other
        | inl http ↦ elim (Bool-cases (is_exempt r)) [
          | inl exempt ↦ inr (inl exempt)
          | inr checked ↦ elim (Option-cases (verify_csrf r.session given)) [
            | inl raised ↦ ground (arith, h.1)
            | inr (true, good) ↦ inr (inr (valid.0 good))
            | inr (false, bad) ↦ ground (arith, h.1)
          ]
        ]
      ],
      λ e. elim e [
        | inl other ↦ (r.messages, ground arith)
        | inr (inl exempt) ↦ (r.messages, ground arith)
        | inr (inr good) ↦
            let checked = valid.1 good in
            (if not r.is_http || is_exempt r then r.messages else (submitted d r).1, ground arith)
      ],
    )

-- The parts of a complete body, and the messages that carry them.
abbrev pub joined : List Text → Text
joined [] = []
joined (chunk ∷ chunks) = chunk ++ joined chunks

abbrev pub in_parts : Text → List Text → List Message
in_parts chunk [] = request chunk false ∷ []
in_parts chunk (next ∷ chunks) = request chunk true ∷ in_parts next chunks

buffer_from-parts :
    (size : ℕ) (body chunk : Text) (chunks : List Text)
    → size + length (joined (chunk ∷ chunks)) ≤ max_csrf_body_bytes
    → buffer_from size body (in_parts chunk chunks) ≡ body ++ joined (chunk ∷ chunks)
unfolding buffer_from
buffer_from-parts size body chunk [] fits = ground (arith, length-append chunk [], append-nil chunk)
buffer_from-parts size body chunk (next ∷ chunks) fits = ground (
  arith,
  length-append chunk (joined (next ∷ chunks)),
  buffer_from-parts (size + length chunk) (body ++ chunk) next chunks,
  append_assoc body chunk (joined (next ∷ chunks)),
)

-- The bytes that a reader of a channel gets.
abbrev pub carried : List Message → Text
carried [] = []
carried (disconnect ∷ rest) = []
carried (request chunk true ∷ rest) = chunk ++ carried rest
carried (request chunk false ∷ rest) = chunk

carried-parts :
    (chunk : Text) (chunks : List Text) → carried (in_parts chunk chunks) ≡ joined (chunk ∷ chunks)
carried-parts chunk [] = sym (append-nil chunk)
carried-parts chunk (next ∷ chunks) = ap (λ rest. chunk ++ rest) (carried-parts next chunks)

submitted-carried :
    (d : Decoding) (r : Request) (chunk : Text) (chunks : List Text)
    → r.messages ≡ in_parts chunk chunks
    → length (joined (chunk ∷ chunks)) ≤ max_csrf_body_bytes
    → carried (submitted d r).1 ≡ carried r.messages
unfolding submitted buffer_body
submitted-carried d r chunk chunks e fits =
    ground (arith, buffer_from-parts 0 [] chunk chunks, carried-parts chunk chunks)

-- A request whose body arrives whole, in however many parts, and has at most 1 MiB is passed on
-- with the very bytes that it brought.
pub csrf_middleware-replays :
    (d : Decoding) (r : Request) (chunk : Text) (chunks : List Text) (channel : List Message)
    → r.messages ≡ in_parts chunk chunks
    → length (joined (chunk ∷ chunks)) ≤ max_csrf_body_bytes
    → csrf_middleware d r ≡ passed channel
    → carried channel ≡ joined (chunk ∷ chunks)
unfolding csrf_middleware
csrf_middleware-replays d r chunk chunks channel e fits h =
    ground (arith, submitted-carried d r chunk chunks e fits, carried-parts chunk chunks)

-- A form whose first part exceeds 1 MiB and holds the session's token is not refused: it is passed
-- on, and the route gets that part as the whole body, whatever would have followed.
pub csrf_middleware-truncates :
    (d : Decoding) (r : Request) (chunk : Text) (more : Bool) (rest : List Message)
    → r.messages ≡ request chunk more ∷ rest
    → max_csrf_body_bytes < length chunk
    → r.is_http ≡ true
    → (any (str_eq r.method) safe_methods || any (str_eq r.path) csrf_exempt_paths) ≡ false
    → r.csrf_header ≡ none
    → is_form (or_else r.content_type []) ≡ true
    → verify_csrf r.session (token_from_form d chunk (or_else r.content_type [])) ≡ some true
    → csrf_middleware d r ≡ passed (request chunk false ∷ [])
unfolding csrf_middleware submitted buffer_body buffer_from
csrf_middleware-truncates d r chunk more rest e big http checked no_header form valid = ground arith
