-- ===== src/Auth/Login/Password.antt =====
-- What a change of the password asks for, and what it leaves.
use netops_console.Prelude.{some, Result, ◌≡◌, String, false, none, List, err, str_eq}
use netops_console.Prelude.Text.{Text, codes}
use netops_console.Session.{start_session}
use netops_console.Auth.Service.{User, Hasher, authenticated, authenticate, set_password, write}
use netops_console.Auth.Login.{State, Outside, PasswordRefusal, validate_new_password}

-- The password was changed: the current one was right, the new one is fit and another one, its hash
-- is stored for the user who was authenticated, and the session is a new one of that user.
pub record Changed (h : Hasher) (lower : Text → Text) (o : Outside) (user : User)
    (current_password new_password confirm_password : String) (s s' : State) : Type 0 where
  pub row : User
  pub users : List User
  pub current :
      authenticate h o.now user.username current_password s.users
      ≡ (some (authenticated row), users)
  pub fit :
      validate_new_password lower (codes new_password) (codes confirm_password) (codes row.username)
      ≡ none
  pub differs : str_eq new_password current_password ≡ false
  pub left : s' ≡ record s {
    users = write (set_password h new_password row) users;
    session = start_session row.id o.sid o.csrf o.now s.session;
  }

-- The password was not changed: of the state, only the table of users is what the check of the
-- current password left.
pub record Refused (users : List User) (s : State) (answer : Result PasswordRefusal Text × State)
    : Type 0 where
  pub refusal : PasswordRefusal
  pub answer_is : answer.0 ≡ err refusal
  pub left : answer.1 ≡ record s { users = users }
