-- ===== src/Middleware/Examples.antt =====
-- Runs of the middleware, and its theorems at a concrete request.
use netops_console.Prelude.{
  ◌≡◌, inr, refl, true, false, any, all, none, some, List, [], ◌∷◌, ◌==◌, if◌then◌else◌,
}
use netops_console.Prelude.Text
use netops_console.Prelude.Text.{Text, codes, strip}
use netops_console.Session.{verify_csrf, is_ascii}
use netops_console.Session.Examples.{live, nonempty}
use netops_console.Middleware
use netops_console.Middleware.{
  Message, Decoding, Header, with_security_headers, Request, request, forbidden, passed, submitted,
  csrf_middleware, safe_methods, csrf_exempt_paths, max_csrf_body_bytes,
}
use netops_console.Middleware.Csrf.{csrf_middleware_iff}

-- Codecs that leave ASCII alone; a token is compared by its first letter.
abbrev ascii : Decoding
ascii = record {
  utf8 = λ s. s;
  unquote_plus = λ s. s;
  as_string = λ s. elim s [ [] ↦ "" | c ∷ _ ↦ if c == b't' then "t" else "u" ];
}

-- A form post in two parts, whose token is the session's.
abbrev post : Request
post = record {
  is_http = true;
  method = "POST";
  path = "/settings";
  csrf_header = none;
  content_type = some (codes "application/x-www-form-urlencoded");
  session = live;
  messages = request (codes "a=1&csrf_") true ∷ request (codes "token=t") false ∷ [];
}

post_passes : csrf_middleware ascii post ≡ passed (request (codes "a=1&csrf_token=t") false ∷ [])
unfolding csrf_middleware any verify_csrf is_ascii all submitted Middleware.is_form
    Middleware.starts Middleware.token_from_form Middleware.field_value Text.split
    Middleware.buffer_body Middleware.buffer_from Middleware.from_mark Text.eqb Middleware.to_mark
post_passes = refl

post_token : (submitted ascii post).0 ≡ some "t"
unfolding submitted Middleware.is_form Middleware.starts Middleware.token_from_form
    Middleware.field_value Text.split Middleware.buffer_body Middleware.buffer_from
    Middleware.from_mark Text.eqb Middleware.to_mark
post_token = refl

-- The same request without the field is refused.
abbrev bare_post : Request
bare_post = record post { messages = request (codes "a=1") false ∷ [] }

bare_post_refused : csrf_middleware ascii bare_post ≡ forbidden
unfolding csrf_middleware any verify_csrf is_ascii all submitted Middleware.is_form
    Middleware.starts Middleware.token_from_form Middleware.field_value Text.split
    Middleware.buffer_body Middleware.buffer_from Middleware.from_mark Text.eqb Middleware.to_mark
bare_post_refused = refl

csrf_middleware_iff_example :
    (channel : List Message) × (csrf_middleware ascii post ≡ passed channel)
unfolding is_ascii all
csrf_middleware_iff_example =
    (csrf_middleware_iff ascii post).1 (inr (inr ("t", refl, post_token, nonempty, refl)))

-- An application that sets its own frame policy.
abbrev own : List Header
own = (codes "X-Frame-Options", codes "SAMEORIGIN") ∷ (codes "Location", codes "/login") ∷ []
