-- ===== src/Session/Lifetime.antt =====
-- How long a session lives, what survives a login, and when a CSRF token is accepted.
use netops_console.Prelude.{
  ℕ, ◌+◌, ◌≤◌, String, ◌≡◌, ◌≢◌, ◌↔◌, refl, true, Option, some, arith, eq_iff, eq_refl, or_else,
}
use netops_console.Session.{
  SessionData, start_session, current_user_id, touch, parse, get_csrf_token, is_ascii, verify_csrf,
  cleared, absolute_lifetime, idle_lifetime,
}

-- A session names its user exactly when it has one, both of its times can be read, and neither
-- the absolute nor the idle lifetime has passed.
pub current_user_id_iff :
    (now user : ℕ) (s : SessionData)
    → ((current_user_id now s).0 ≡ some user) ↔ (
        (created : ℕ) × (seen : ℕ) × (s.user_id ≡ some user)
        × (parse s.created_at ≡ some created)
        × (parse s.last_seen ≡ some seen)
        × (now ≤ created + absolute_lifetime)
        × (now ≤ seen + idle_lifetime))
unfolding current_user_id
current_user_id_iff now user s = (
  λ h. (
    or_else (parse s.created_at) 0,
    or_else (parse s.last_seen) 0,
    ground arith,
    ground arith,
    ground arith,
    ground arith,
    ground arith,
  ),
  λ h. ground (arith, h.2, h.3, h.4, h.5, h.6),
)

-- A session that a login starts at `t` and a request touches at `u` names its user up to the
-- absolute lifetime from `t` and the idle lifetime from `u`, and no later. What the client arrived
-- with makes no difference to it.
pub start_session-lives :
    (user t u now : ℕ) (sid csrf : String) (old : SessionData)
    → let s = touch u (start_session user sid csrf t old) in
      (((current_user_id now s).0 ≡ some user)
        ↔ ((now ≤ t + absolute_lifetime) × (now ≤ u + idle_lifetime)))
      × (s ≡ touch u (start_session user sid csrf t cleared))
unfolding current_user_id start_session touch parse
start_session-lives user t u now sid csrf old =
    (((λ h. (ground arith, ground arith)), λ h. ground (arith, h.0, h.1)), refl)

-- A submitted token passes exactly when it is the session's own, is not empty and is ASCII.
pub verify_csrf_iff :
    (s : SessionData) (submitted : Option String)
    → (verify_csrf s submitted ≡ some true) ↔ (
        (token : String) × (s.csrf ≡ some token)
        × (submitted ≡ some token)
        × (token ≢ "")
        × (is_ascii token ≡ true))
unfolding verify_csrf
verify_csrf_iff s submitted = (
  λ h. (
    or_else s.csrf "",
    ground (arith, eq_iff (or_else s.csrf "") (or_else submitted "")),
    ground (arith, eq_iff (or_else s.csrf "") (or_else submitted "")),
    ground (arith, eq_iff (or_else s.csrf "") ""),
    ground arith,
  ),
  λ h. ground (arith, h.1, h.2, h.3, h.4, eq_iff h.0 "", eq_refl h.0),
)

-- The token that a page is given passes when it is submitted with the session that came back,
-- provided that it is ASCII and that a freshly minted one is not empty.
pub get_csrf_token-verify_csrf :
    (fresh : String) (s : SessionData)
    → fresh ≢ ""
    → is_ascii (get_csrf_token fresh s).0 ≡ true
    → let (token, s') = get_csrf_token fresh s in verify_csrf s' (some token) ≡ some true
unfolding get_csrf_token verify_csrf
get_csrf_token-verify_csrf fresh s h plain = ground (
  arith,
  eq_iff fresh "",
  eq_refl fresh,
  eq_refl (or_else s.csrf ""),
  eq_iff (or_else s.csrf "") "",
)
