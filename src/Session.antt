-- ===== src/Session.antt =====
-- `app/core/session.py`: the signed session and its CSRF token. Times are in milliseconds.
pub mod Lifetime
pub mod Examples
use netops_console.Prelude.{
  ℕ, ◌+◌, ◌*◌, String, Bool, true, false, ◌||◌, ◌&&◌, all, Option, none, some, ltb, str_eq,
  if◌then◌else◌,
}
use netops_console.Prelude.Text.{codes}

abbrev pub absolute_lifetime : ℕ
absolute_lifetime = 12 * 3600 * 1000

abbrev pub idle_lifetime : ℕ
idle_lifetime = 60 * 60 * 1000

-- A time as it stands in the cookie: text that may carry an offset, may not, or may not be a time.
pub data Stamp : Type 0 where
  aware naive : ℕ → Stamp
  unreadable : Stamp

-- The session's keys: `user_id`, `sid`, `csrf`, `created_at`, `last_seen`.
pub record SessionData : Type 0 where
  pub user_id : Option ℕ
  pub sid : Option String
  pub csrf : Option String
  pub created_at : Option Stamp
  pub last_seen : Option Stamp

abbrev pub cleared : SessionData
cleared = record { user_id = none; sid = none; csrf = none; created_at = none; last_seen = none }

-- The two random tokens come from `secrets`.
unfoldable pub start_session : ℕ → String → String → ℕ → SessionData → SessionData
start_session user_id sid csrf now session = record {
  user_id = some user_id;
  sid = some sid;
  csrf = some csrf;
  created_at = some (aware now);
  last_seen = some (aware now);
}

unfoldable pub end_session : SessionData → SessionData
end_session session = cleared

-- `_parse`: a time without an offset is taken to be in UTC.
unfoldable pub parse : Option Stamp → Option ℕ
parse none = none
parse (some (aware t)) = some t
parse (some (naive t)) = some t
parse (some unreadable) = none

expired : ℕ → ℕ → ℕ → Bool
expired created last_seen now =
    ltb (created + absolute_lifetime) now || ltb (last_seen + idle_lifetime) now

-- The user, and the session: an expired one is cleared.
unfoldable pub current_user_id : ℕ → SessionData → Option ℕ × SessionData
unfolding expired
current_user_id now session = elim session.user_id [
  | none ↦ (none, session)
  | some user ↦ elim (parse session.created_at) [
    | none ↦ (none, session)
    | some created ↦ elim (parse session.last_seen) [
      | none ↦ (none, session)
      | some last_seen ↦
          if expired created last_seen now then (none, cleared) else (some user, session)
    ]
  ]
]

unfoldable pub touch : ℕ → SessionData → SessionData
touch now session = record session { last_seen = some (aware now) }

-- A token that is there and is not empty.
unfoldable pub usable : Option String → Option String
usable none = none
usable (some t) = if str_eq t "" then none else some t

-- `fresh` is the random token that is minted if the session has none.
unfoldable pub get_csrf_token : String → SessionData → String × SessionData
unfolding usable
get_csrf_token fresh session = elim (usable session.csrf) [
  | some token ↦ (token, session)
  | none ↦ (fresh, record session { csrf = some fresh })
]

unfoldable pub is_ascii : String → Bool
is_ascii s = all (λ c. ltb c 128) (codes s)

-- `verify_csrf`; none is the `TypeError` of `hmac.compare_digest`, which wants ASCII on both sides.
unfoldable pub verify_csrf : SessionData → Option String → Option Bool
unfolding usable
verify_csrf session submitted = elim (usable session.csrf) [
  | none ↦ some false
  | some expected ↦ elim (usable submitted) [
    | none ↦ some false
    | some given ↦
        if is_ascii expected && is_ascii given then some (str_eq expected given) else none
  ]
]
