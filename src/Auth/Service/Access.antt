-- ===== src/Auth/Service/Access.antt =====
-- Who gets past the gate in front of the pages.
use netops_console.Prelude.{
  ℕ, String, ◌≡◌, ◌⊎◌, true, false, none, some, List, first, ◌==◌, str_eq, arith, inl, inr,
  Option-cases,
}
use netops_console.Session.{SessionData, current_user_id, cleared}
use netops_console.Auth.Service.{
  User, admitted, redirect_to_login, get_current_user, require_password_change_complete,
}

-- A page is reached only by an active user whom a live session names and who has replaced a
-- generated password, unless the page is the one where that is done.
pub require_password_change_complete-admitted :
    (now : ℕ) (path : String) (users : List User) (s : SessionData) (u : User)
    → (require_password_change_complete now path users s).0 ≡ admitted u
    → (id : ℕ) × ((current_user_id now s).0 ≡ some id)
      × (first (λ v. v.id == id) users ≡ some u)
      × (u.is_active ≡ true)
      × ((u.must_change_password ≡ false) ⊎ (str_eq path "/account/password" ≡ true))
unfolding require_password_change_complete get_current_user
require_password_change_complete-admitted now path users s u h =
    elim (Option-cases (current_user_id now s).0) [
      | inl nobody ↦ absurd (ground arith)
      | inr (id, live) ↦ elim (Option-cases (first (λ v. v.id == id) users)) [
        | inl missing ↦ absurd (ground arith)
        | inr (v, found) ↦ (id, live, ground arith, ground arith, ground arith)
      ]
    ]

-- A session that names no active user of the table does not survive the request.
pub get_current_user-clears :
    (now : ℕ) (users : List User) (s : SessionData) (id : ℕ)
    → (current_user_id now s).0 ≡ some id
    → ((first (λ v. v.id == id) users ≡ none)
        ⊎ ((u : User) × (first (λ v. v.id == id) users ≡ some u) × (u.is_active ≡ false)))
    → get_current_user now users s ≡ (redirect_to_login, cleared)
unfolding get_current_user
get_current_user-clears now users s id live (inl missing) = ground arith
get_current_user-clears now users s id live (inr (u, found, inactive)) = ground arith
