-- ===== src/Auth/Login.antt =====
-- `app/modules/auth/routes.py`: the login, logout and password pages, over the throttle, the table
-- of users and the session. Random tokens and the clock's readings are arguments.
pub mod Effects
pub mod Password
mod Examples
use netops_console.Prelude.{
  ℕ, String, Bool, true, false, not, ◌&&◌, ◌||◌, Option, none, some, List, [], ◌∷◌, any, length,
  ltb, ◌==◌, str_eq, if◌then◌else◌, Result, ok, err,
}
use netops_console.Prelude.Text.{Text, codes, eqb, has, strip}
use netops_console.Session.{SessionData, start_session, end_session}
use netops_console.Auth.Throttle.{LoginThrottle, is_limited, retry_after, record_failure, reset}
use netops_console.Auth.Service.{
  User, Hasher, Message, AuthResult, authenticated, refused, generic_failure, authenticate,
  set_password, write,
}

abbrev starts_with_slash : Text → Bool
starts_with_slash [] = false
starts_with_slash (c ∷ s) = c == b'/'

abbrev starts_with_slashes : Text → Bool
starts_with_slashes [] = false
starts_with_slashes (c ∷ []) = false
starts_with_slashes (c ∷ d ∷ s) = c == b'/' && d == b'/'

-- `_safe_next`: a path of this site, or the front page.
unfoldable pub safe_next : Text → Text
safe_next value =
    if not (starts_with_slash value)
      || starts_with_slashes value
      || has 92 value
      || any (λ c. ltb c 32 || c == 127) value
    then b'/' ∷ []
    else value

-- What the pages keep.
pub record State : Type 0 where
  pub throttle : LoginThrottle
  pub users : List User
  pub session : SessionData

-- The answer of a page; the last is an exception that no handler catches.
pub data Page : Type 0 where
  too_many_requests : ℕ → Page
  unauthorized : Message → Page
  bad_request : Page
  see_other : Text → Page
  internal_server_error : Page

-- What a request brings from outside: its clock readings and its random tokens.
pub record Outside : Type 0 where
  pub monotonic : ℕ
  pub now : ℕ
  pub sid : String
  pub csrf : String

abbrev login_with : Outside → String → Text → Option AuthResult × List User → State → Page × State
login_with o ip target (none, users) s = (internal_server_error, record s { users = users })
login_with o ip target (some (refused message), users) s = (
  unauthorized message,
  record s { throttle = record_failure ip o.monotonic s.throttle; users = users },
)
login_with o ip target (some (authenticated user), users) s = (
  if user.must_change_password then see_other (codes "/account/password") else see_other target,
  record {
    throttle = reset ip s.throttle;
    users = users;
    session = start_session user.id o.sid o.csrf o.now s.session;
  },
)

-- `login`; `username` is the submitted one, stripped.
unfoldable pub login : Hasher → Outside → String → String → String → Text → State → Page × State
login h o ip username password next s =
    let (limited, throttle) = is_limited ip o.monotonic s.throttle in
    let (seconds, waited) = retry_after ip o.monotonic throttle in
    let checked = record s { throttle = throttle } in
    if limited
    then (too_many_requests seconds, record s { throttle = waited })
    else login_with o ip (safe_next next) (authenticate h o.now username password s.users) checked

unfoldable pub logout : State → Page × State
logout s = (see_other (codes "/login"), record s { session = end_session s.session })

abbrev pub min_password_length : ℕ
min_password_length = 12

pub data PasswordProblem : Type 0 where
  do_not_match too_short same_as_username : PasswordProblem

-- `validate_new_password`; `lower` is `str.lower`.
unfoldable pub validate_new_password : (Text → Text) → Text → Text → Text → Option PasswordProblem
validate_new_password lower password confirmation username =
    if not (eqb password confirmation)
    then some do_not_match
    else if ltb (length password) min_password_length
    then some too_short
    else if eqb (lower (strip password)) (lower (strip username))
    then some same_as_username
    else none

-- Why `change_password` answers with the form again; `uncaught` is an exception of `authenticate`,
-- which ends the request.
pub data PasswordRefusal : Type 0 where
  wrong_current same_as_current uncaught : PasswordRefusal
  unfit : PasswordProblem → PasswordRefusal

-- The rules for a new password, past the check of the current one.
unfoldable pub new_password_problem :
    (Text → Text) → User → String → String → String → Option PasswordRefusal
new_password_problem lower user current_password new_password confirm_password =
    elim (validate_new_password lower (codes new_password) (codes confirm_password)
      (codes user.username)) [
        | some problem ↦ some (unfit problem)
        | none ↦ if str_eq new_password current_password then some same_as_current else none
      ]

unfoldable pub store_password :
    Hasher
    → Outside
    → String
    → User
    → State
    → Option PasswordRefusal
    → Result PasswordRefusal Text × State
store_password h o new_password user s (some refusal) = (err refusal, s)
store_password h o new_password user s none = (
  ok (b'/' ∷ []),
  record s {
    users = write (set_password h new_password user) s.users;
    session = start_session user.id o.sid o.csrf o.now s.session;
  },
)

abbrev change_with :
    Hasher
    → (Text → Text)
    → Outside
    → String
    → String
    → String
    → Option AuthResult × List User
    → State
    → Result PasswordRefusal Text × State
change_with h lower o current_password new_password confirm_password (none, users) s =
    (err uncaught, record s { users = users })
change_with h lower o current_password new_password confirm_password (some (refused message), users)
      s =
    (err wrong_current, record s { users = users })
change_with h lower o current_password new_password confirm_password
      (some (authenticated user), users) s =
    store_password h o new_password user (record s { users = users })
      (new_password_problem lower user current_password new_password confirm_password)

-- `change_password`, for the user of the session; `lower` is `str.lower`.
unfoldable pub change_password :
    Hasher
    → (Text → Text)
    → Outside
    → User
    → String
    → String
    → String
    → State
    → Result PasswordRefusal Text × State
change_password h lower o user current_password new_password confirm_password s =
    change_with h lower o current_password new_password confirm_password
      (authenticate h o.now user.username current_password s.users) s
