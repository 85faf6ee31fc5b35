-- ===== src/Middleware.antt =====
-- `app/core/middleware.py`: the CSRF check in front of every route, and the security headers.
-- Bodies, header names and header values are byte strings.
pub mod Csrf
pub mod Headers
mod Examples
use netops_console.Prelude.{
  ℕ, ◌+◌, ◌*◌, ◌==◌, String, Bool, true, false, not, ◌&&◌, ◌||◌, Option, none, some, List, [], ◌∷◌,
  ◌++◌, any, length, map, ltb, is_some, or_else, str_eq, if◌then◌else◌,
}
use netops_console.Prelude.Text.{Text, codes, eqb, strip, split}
use mathlib.Core.Option
use netops_console.Session.{SessionData, verify_csrf}

-- `SAFE_METHODS`, `CSRF_EXEMPT_PATHS`
abbrev pub safe_methods : List String
safe_methods = "GET" ∷ "HEAD" ∷ "OPTIONS" ∷ "TRACE" ∷ []

abbrev pub csrf_exempt_paths : List String
csrf_exempt_paths = "/healthz" ∷ []

abbrev pub max_csrf_body_bytes : ℕ
max_csrf_body_bytes = 1024 * 1024

-- A message of the `receive` channel. The server sends nothing after a disconnect, and a receiver
-- that waits past the last part of a body is told of one.
pub data Message : Type 0 where
  disconnect : Message
  request : Text → Bool → Message

-- `_buffer_body`: the parts read so far, in order, and their size.
unfoldable pub buffer_from : ℕ → Text → List Message → Text
buffer_from size body [] = body
buffer_from size body (disconnect ∷ rest) = body
buffer_from size body (request chunk more ∷ rest) =
    let size' = size + length chunk in
    let onward = buffer_from size' (body ++ chunk) rest in
    if ltb max_csrf_body_bytes size' || not more then body ++ chunk else onward

unfoldable pub buffer_body : List Message → Text
buffer_body = buffer_from 0 []

-- `text.startswith(prefix)`
unfoldable pub starts : Text → Text → Bool
starts [] s = true
starts (c ∷ p) [] = false
starts (c ∷ p) (d ∷ s) = c == d && starts p s

-- What stands from the first occurrence of the mark on, and what stands before it.
unfoldable pub from_mark : Text → Text → Option Text
from_mark mark [] = if starts mark [] then some [] else none
from_mark mark (c ∷ s) =
    let rest = from_mark mark s in if starts mark (c ∷ s) then some (c ∷ s) else rest

unfoldable pub to_mark : Text → Text → Text
to_mark mark [] = []
to_mark mark (c ∷ s) = let rest = to_mark mark s in if starts mark (c ∷ s) then [] else c ∷ rest

-- Decoding, by the codec and by `urllib`, and the text of a token.
pub record Decoding : Type 0 where
  pub utf8 : Text → Text
  pub unquote_plus : Text → Text
  pub as_string : Text → String

abbrev urlencoded : Text
urlencoded = codes "application/x-www-form-urlencoded"

abbrev multipart : Text
multipart = codes "multipart/form-data"

-- `_is_form`
unfoldable pub is_form : Text → Bool
is_form content_type = starts urlencoded content_type || starts multipart content_type

abbrev csrf_field : Text
csrf_field = codes "csrf_token"

module _ (d : Decoding) where
  -- `parse_qs(body)`, one `name=value` at a time: the first value of the field that is not empty.
  unfoldable pub field_value : List Text → Option Text
  field_value [] = none
  field_value (pair ∷ rest) =
      let next = field_value rest in
      elim (from_mark (b'=' ∷ []) pair) [
        | none ↦ next
        | some [] ↦ next
        | some (c ∷ []) ↦ next
        | some (c ∷ v ∷ value) ↦
            if eqb (d.unquote_plus (to_mark (b'=' ∷ []) pair)) csrf_field
            then some (d.unquote_plus (v ∷ value))
            else next
      ]

  -- `_token_from_form`
  unfoldable pub multipart_token : Text → Option Text
  multipart_token body = elim (from_mark (codes "name=" ++ 34 ∷ csrf_field ++ 34 ∷ []) body) [
    | none ↦ none
    | some found ↦ elim (from_mark (13 ∷ 10 ∷ 13 ∷ 10 ∷ []) found) [
      | some (_ ∷ _ ∷ _ ∷ _ ∷ value) ↦
          let raw = strip (d.utf8 (to_mark (13 ∷ 10 ∷ []) value)) in
          elim raw [ [] ↦ none | c ∷ token ↦ some (c ∷ token) ]
      | _ ↦ none
    ]
  ]

  unfoldable pub token_from_form : Text → Text → Option String
  token_from_form body content_type = Option.map d.as_string (
      if starts urlencoded content_type
      then field_value (split b'&' (d.utf8 body))
      else multipart_token body)

-- A request, as the server hands it to the application: `scope` and the `receive` channel.
pub record Request : Type 0 where
  pub is_http : Bool
  pub method : String
  pub path : String
  pub csrf_header : Option String
  pub content_type : Option Text
  pub session : SessionData
  pub messages : List Message

-- What the middleware does: answer 403 itself, end in an exception, or call the application with a
-- channel.
pub data Outcome : Type 0 where
  forbidden internal_server_error : Outcome
  passed : List Message → Outcome

-- The token that the request submits, and the channel for what comes after.
unfoldable pub submitted : Decoding → Request → Option String × List Message
submitted d r =
    let content_type = or_else r.content_type [] in
    let body = buffer_body r.messages in
    if not (is_some r.csrf_header) && is_form content_type
    then (token_from_form d body content_type, request body false ∷ [])
    else (r.csrf_header, r.messages)

-- `CSRFMiddleware.__call__`
unfoldable pub csrf_middleware : Decoding → Request → Outcome
csrf_middleware d r =
    let (token, channel) = submitted d r in
    if not r.is_http
    then passed r.messages
    else if any (str_eq r.method) safe_methods || any (str_eq r.path) csrf_exempt_paths
    then passed r.messages
    else elim (verify_csrf r.session token) [
      | none ↦ internal_server_error
      | some valid ↦ if valid then passed channel else forbidden
    ]

-- `SECURITY_HEADERS` and `HSTS`
abbrev pub Header : Type 0
Header = Text × Text

abbrev pub security_headers : List Header
security_headers =
    (
      codes "content-security-policy",
      codes "default-src 'self'; script-src 'self'; style-src 'self'; img-src 'self' data:; "
          ++ codes "font-src 'self'; connect-src 'self'; form-action 'self'; "
          ++ codes "frame-ancestors 'none'; base-uri 'none'; object-src 'none'",
    )
    ∷ (codes "x-content-type-options", codes "nosniff")
    ∷ (codes "x-frame-options", codes "DENY")
    ∷ (codes "referrer-policy", codes "no-referrer")
    ∷ (codes "cross-origin-opener-policy", codes "same-origin")
    ∷ (codes "cross-origin-resource-policy", codes "same-origin")
    ∷ (
      codes "permissions-policy",
      codes "geolocation=(), camera=(), microphone=(), payment=(), usb=()",
    )
    ∷ (codes "x-robots-tag", codes "noindex, nofollow")
    ∷ []

abbrev pub hsts : Header
hsts = (codes "strict-transport-security", codes "max-age=31536000; includeSubDomains")

-- `name in present`, on lower-cased names; the library sends names in lower case already.
unfoldable pub is_present : Text → List Header → Bool
is_present name raw = any (λ h. eqb h.0 name) raw

-- The loop over `SECURITY_HEADERS`: `present` is read once, before it.
unfoldable pub add_missing : List Header → List Header → List Header → List Header
add_missing present raw [] = raw
add_missing present raw (h ∷ more) =
    add_missing present (if is_present h.0 present then raw else raw ++ h ∷ []) more

-- `send_with_headers` on the start of a response; `lower` is `bytes.lower` on the names.
unfoldable pub with_security_headers : (Text → Text) → Bool → List Header → List Header
with_security_headers lower secure raw =
    let present = map (λ h. (lower h.0, h.1)) raw in
    let added = add_missing present raw security_headers in
    if secure && not (is_present hsts.0 present) then added ++ hsts ∷ [] else added

-- `SecurityHeadersMiddleware.__call__`: whether the connection is secure.
unfoldable pub is_secure : Option Text → Option Text → Bool
is_secure forwarded_proto scheme =
    eqb (or_else forwarded_proto []) (codes "https") || eqb (or_else scheme []) (codes "https")
