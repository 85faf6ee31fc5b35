-- ===== src/Auth/Service/Examples.antt =====
-- The theorems on logging in at a concrete account.
use netops_console.Prelude.{
  ℕ, ◌+◌, ◌-◌, ◌*◌, ◌≤◌, ◌<◌, ◌↔◌, ◌≡◌, refl, ◌⊎◌, true, false, none, some, [], ◌∷◌, first, str_eq,
  ◌==◌, arith,
}
use netops_console.Session.{current_user_id, parse}
use netops_console.Session.Examples.{live}
use netops_console.Auth.Service.{
  User, Hasher, verify_password, authenticate, find_user, is_locked, lockout_threshold,
  lockout_base, attempt, get_current_user, require_password_change_complete,
}
use netops_console.Auth.Service.Lockout.{
  authenticate_uniform, attempt-raises_iff, guesses, guesses_take_time,
}
use netops_console.Auth.Service.Access.{require_password_change_complete-admitted}

-- A hash that is the password itself.
abbrev pub clear_text : Hasher
clear_text = record {
  hash = λ p. p;
  verify = λ hash p. str_eq hash p;
  check_needs_rehash = λ hash. false;
  dummy_hash = "x";
}

abbrev pub admin : User
admin = record {
  id = 1;
  username = "admin";
  password_hash = "secret";
  is_active = true;
  must_change_password = false;
  failed_login_count = 0;
  locked_until = none;
  last_login_at = none;
}

authenticate_uniform_example :
    ((authenticate clear_text 0 "admin" "guess" (admin ∷ [])).0
      ≡ (authenticate clear_text 0 "root" "guess" (admin ∷ [])).0)
    ↔ ((is_locked 0 admin ≡ false)
        × ((admin.is_active ≡ false)
            ⊎ (verify_password clear_text "guess" (some "secret") ≡ false)
              × (admin.failed_login_count < 45)))
unfolding find_user first
authenticate_uniform_example =
    authenticate_uniform clear_text 0 "admin" "root" "guess" (admin ∷ []) admin refl refl

-- An account that has been attacked for most of a day, and whose last lock has ended.
abbrev worn : User
worn = record admin { failed_login_count = 45; locked_until = some 5000 }

attempt-raises_iff_example :
    let (result, u') = attempt clear_text "guess" 9000 worn in
    (result ≡ none ↔ (
      (is_locked 9000 worn ≡ false)
      × (worn.is_active ≡ true)
      × (verify_password clear_text "guess" (some "secret") ≡ false)
      × (45 ≤ worn.failed_login_count)))
    × (result ≡ none → u' ≡ worn)
attempt-raises_iff_example = attempt-raises_iff clear_text "guess" 9000 worn

guesses_take_time_example :
    (100
        + ((guesses clear_text (("a", 100) ∷ ("b", 200) ∷ []) admin).failed_login_count
            - lockout_threshold)
          * lockout_base
      ≤ 300)
    × ((guesses clear_text (("a", 100) ∷ ("b", 200) ∷ []) admin).failed_login_count ≤ 45)
unfolding verify_password
guesses_take_time_example =
    guesses_take_time clear_text 100 300 (("a", 100) ∷ ("b", 200) ∷ []) admin refl
      (omega arith, refl, (omega arith, refl, omega arith))

require_password_change_complete-admitted_example :
    (id : ℕ) × ((current_user_id 2500 live).0 ≡ some id)
    × (first (λ v. v.id == id) (admin ∷ []) ≡ some admin)
    × (admin.is_active ≡ true)
    × ((admin.must_change_password ≡ false) ⊎ (str_eq "/" "/account/password" ≡ true))
unfolding require_password_change_complete get_current_user current_user_id first parse
require_password_change_complete-admitted_example =
    require_password_change_complete-admitted 2500 "/" (admin ∷ []) live admin refl
