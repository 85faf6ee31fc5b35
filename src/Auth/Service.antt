-- ===== src/Auth/Service.antt =====
-- `app/modules/auth/service.py`, `app/core/security.py` and `app/modules/auth/dependencies.py`:
-- the account lockout, logging in, and the gate in front of the pages. Times are in milliseconds.
pub mod Lockout
pub mod Access
pub mod Examples
use netops_console.Prelude.{
  ℕ, zero, suc, ◌+◌, ◌-◌, ◌*◌, ◌^◌, max, min, String, Bool, true, false, not, ◌&&◌, ◌||◌, Option,
  none, some, List, [], ◌∷◌, map, first, is_some, or_else, leb, ltb, ◌==◌, str_eq, if◌then◌else◌,
}
use netops_console.Session.{SessionData, current_user_id, touch, cleared}

abbrev pub lockout_threshold : ℕ
lockout_threshold = 5

abbrev pub lockout_base : ℕ
lockout_base = 60 * 1000

abbrev pub lockout_max : ℕ
lockout_max = 30 * 60 * 1000

-- The row of `app/models/user.py` that the functions read and write.
pub record User : Type 0 where
  pub id : ℕ
  pub username : String
  pub password_hash : String
  pub is_active : Bool
  pub must_change_password : Bool
  pub failed_login_count : ℕ
  pub locked_until : Option ℕ
  pub last_login_at : Option ℕ

-- What the argon2 library does: hash, check a password against a hash, and say that a hash is old.
pub record Hasher : Type 0 where
  pub hash : String → String
  pub verify : String → String → Bool
  pub check_needs_rehash : String → Bool
  pub dummy_hash : String

-- `password_hash or _DUMMY_HASH`
abbrev hash_or_dummy : Hasher → Option String → String
hash_or_dummy h none = h.dummy_hash
hash_or_dummy h (some s) = if str_eq s "" then h.dummy_hash else s

unfoldable pub verify_password : Hasher → String → Option String → Bool
verify_password h password password_hash =
    h.verify (hash_or_dummy h password_hash) password && is_some password_hash

-- A `timedelta` is shorter than 10^9 days; a longer one is an `OverflowError`.
abbrev pub timedelta_limit : ℕ
timedelta_limit = 1000000000 * 24 * 60 * 60 * 1000

-- `_lockout_duration`; `none` is the `OverflowError` of the product, which comes before the `min`.
unfoldable pub lockout_duration : ℕ → Option ℕ
lockout_duration failure_count =
    let excess = failure_count - lockout_threshold in
    let duration = lockout_base * 2 ^ excess in
    if ltb duration timedelta_limit then some (min duration lockout_max) else none

unfoldable pub is_locked : ℕ → User → Bool
is_locked now user = elim user.locked_until [ none ↦ false | some t ↦ ltb now t ]

-- `GENERIC_FAILURE` and `LOCKED_MESSAGE`
pub data Message : Type 0 where
  generic_failure locked_message : Message

-- `AuthResult`
pub data AuthResult : Type 0 where
  authenticated : User → AuthResult
  refused : Message → AuthResult

-- The user as a wrong password leaves it; `none` is the exception, before the commit.
unfoldable pub count_failure : ℕ → User → Option User
count_failure now user =
    let count = user.failed_login_count + 1 in
    if leb lockout_threshold count
    then elim (lockout_duration count) [
      | none ↦ none
      | some duration ↦
          some (record user { failed_login_count = count; locked_until = some (now + duration) })
    ]
    else some (record user { failed_login_count = count })

-- The user as a login leaves it.
unfoldable pub clear_failures : Hasher → String → ℕ → User → User
clear_failures h password now user = record user {
  password_hash =
      if h.check_needs_rehash user.password_hash then h.hash password else user.password_hash;
  failed_login_count = 0;
  locked_until = none;
  last_login_at = some now;
}

-- The checks on a user that was found, and the row afterwards. `none` is an exception, which leaves
-- the row in the database as it was.
unfoldable pub attempt : Hasher → String → ℕ → User → Option AuthResult × User
attempt h password now user =
    let cleared_user = clear_failures h password now user in
    if is_locked now user
    then (some (refused locked_message), user)
    else if not user.is_active
    then (some (refused generic_failure), user)
    else if not (verify_password h password (some user.password_hash))
    then elim (count_failure now user) [
      | none ↦ (none, user)
      | some counted ↦ (some (refused generic_failure), counted)
    ]
    else (some (authenticated cleared_user), cleared_user)

-- The rows with one of them written back.
unfoldable pub write : User → List User → List User
write user [] = []
write user (row ∷ rows) = (if row.id == user.id then user else row) ∷ write user rows

unfoldable pub find_user : String → List User → Option User
find_user username users = first (λ u. str_eq u.username username) users

-- `authenticate`: the result, or none for an exception, and the table of users.
unfoldable pub authenticate :
    Hasher → ℕ → String → String → List User → Option AuthResult × List User
authenticate h now username password users = elim (find_user username users) [
  | none ↦ (some (refused generic_failure), users)
  | some user ↦
      let (result, user') = attempt h password now user in
      elim result [ none ↦ (none, users) | some answer ↦ (some answer, write user' users) ]
]

unfoldable pub set_password : Hasher → String → User → User
set_password h new_password user = record user {
  password_hash = h.hash new_password;
  must_change_password = false;
  failed_login_count = 0;
  locked_until = none;
}

-- `app/modules/auth/dependencies.py`: `RedirectToLogin` and `MustChangePassword` end the request.
pub data Gate : Type 0 where
  redirect_to_login must_change_password : Gate
  admitted : User → Gate

-- `get_current_user`, with the session afterwards.
unfoldable pub get_current_user : ℕ → List User → SessionData → Gate × SessionData
get_current_user now users session =
    let (user_id, session') = current_user_id now session in
    elim user_id [
      | none ↦ (redirect_to_login, session')
      | some id ↦ elim (first (λ u. u.id == id) users) [
        | none ↦ (redirect_to_login, cleared)
        | some user ↦
            if not user.is_active
            then (redirect_to_login, cleared)
            else (admitted user, touch now session')
      ]
    ]

-- `require_password_change_complete`
unfoldable pub require_password_change_complete :
    ℕ → String → List User → SessionData → Gate × SessionData
require_password_change_complete now path users session =
    let (gate, session') = get_current_user now users session in
    elim gate [
      | redirect_to_login ↦ (redirect_to_login, session')
      | must_change_password ↦ (must_change_password, session')
      | admitted user ↦
          if user.must_change_password && not (str_eq path "/account/password")
          then (must_change_password, session')
          else (admitted user, session')
    ]
