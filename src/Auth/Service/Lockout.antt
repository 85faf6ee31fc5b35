-- ===== src/Auth/Service/Lockout.antt =====
-- How failed logins lock an account, and what a client can tell from the answers.
use netops_console.Prelude.{
  ◌<◌, Bool-cases, Option-cases, inl, inr, ◌⊎◌, ℕ, ◌+◌, ◌-◌, ◌*◌, ◌^◌, min, ◌≤◌, leb, String, ◌≡◌,
  ◌↔◌, refl, ◌∙◌, true, false, none, some, List, [], ◌∷◌, or_else, arith,
}
use native.Mathlib.Nat.{one-le-pow, pow-le-pow_right}
use netops_console.Auth.Service.{
  User, Hasher, verify_password, lockout_duration, lockout_threshold, lockout_base, lockout_max,
  is_locked, authenticated, count_failure, clear_failures, attempt, authenticate, find_user,
}

-- Every lockout lasts at least one minute and at most thirty, up to the 45th failure.
pub lockout_duration_bounds :
    (n : ℕ)
    → n ≤ 45
    → (d : ℕ) × (lockout_duration n ≡ some d) × (lockout_base ≤ d) × (d ≤ lockout_max)
unfolding lockout_duration
lockout_duration_bounds n few =
    let excess = n - lockout_threshold in
    let grows : 2 ^ excess ≤ 2 ^ 40 =
      pow-le-pow_right {n = 2} (omega arith) {i = excess} {j = 40} (omega arith) in
    let most : 2 ^ 40 ≡ 1099511627776 = refl in
    let least : 1 ≤ 2 ^ excess = one-le-pow excess 2 (omega arith) in
    (min (lockout_base * 2 ^ excess) lockout_max, ground arith, omega arith, omega arith)

-- The product overflows from the 46th failure on.
pub lockout_duration-overflows : (n : ℕ) → 46 ≤ n → lockout_duration n ≡ none
unfolding lockout_duration
lockout_duration-overflows n many =
    let excess = n - lockout_threshold in
    let grows : 2 ^ 41 ≤ 2 ^ excess =
      pow-le-pow_right {n = 2} (omega arith) {i = 41} {j = excess} (omega arith) in
    let least : 2 ^ 41 ≡ 2199023255552 = refl in ground arith

failures-cases : (n : ℕ) → (45 ≤ n) ⊎ (n < 45)
failures-cases n = elim (Bool-cases (leb 45 n)) [
  | inl e ↦ inl (ground arith)
  | inr e ↦ inr (ground arith)
]

-- A login succeeds exactly when the account is not locked, is active, and the password is right.
pub attempt-authenticated_iff :
    (h : Hasher) (password : String) (now : ℕ) (u : User)
    → ((attempt h password now u).0 ≡ some (authenticated (clear_failures h password now u))) ↔ (
        (is_locked now u ≡ false)
        × (u.is_active ≡ true)
        × (verify_password h password (some u.password_hash) ≡ true))
unfolding attempt count_failure
attempt-authenticated_iff h password now u = (λ x. ground arith, λ x. ground arith)

-- A wrong password for an active account that is not locked is an exception exactly when 45 or
-- more failures are counted, and then the account stays as it is, without a new lock; no other
-- attempt is an exception.
pub attempt-raises_iff :
    (h : Hasher) (password : String) (now : ℕ) (u : User)
    → let (result, u') = attempt h password now u in
      (result ≡ none ↔ (
        (is_locked now u ≡ false)
        × (u.is_active ≡ true)
        × (verify_password h password (some u.password_hash) ≡ false)
        × (45 ≤ u.failed_login_count)))
      × (result ≡ none → u' ≡ u)
unfolding attempt count_failure
attempt-raises_iff h password now u = elim (failures-cases u.failed_login_count) [
  | inl many ↦
      let over = lockout_duration-overflows (u.failed_login_count + 1) (omega arith) in
      ((λ x. ground arith, λ x. ground arith), λ x. ground arith)
  | inr few ↦
      let (d, e, least, most) = lockout_duration_bounds (u.failed_login_count + 1) (omega arith) in
      ((λ x. ground arith, λ x. ground arith), λ x. ground arith)
]

-- The answer to a user name that is in use is the one to a name that is not, for the same password,
-- exactly when the account is not locked and is disabled, or has a wrong password and fewer than 45
-- failures.
pub authenticate_uniform :
    (h : Hasher) (now : ℕ) (known unknown password : String) (users : List User) (u : User)
    → find_user unknown users ≡ none
    → find_user known users ≡ some u
    → ((authenticate h now known password users).0 ≡ (authenticate h now unknown password users).0)
      ↔ ((is_locked now u ≡ false)
          × ((u.is_active ≡ false)
              ⊎ (verify_password h password (some u.password_hash) ≡ false)
                × (u.failed_login_count < 45)))
unfolding authenticate attempt count_failure
authenticate_uniform h now known unknown password users u missing found =
    elim (failures-cases u.failed_login_count) [
      | inl many ↦
          let over = lockout_duration-overflows (u.failed_login_count + 1) (omega arith) in
          (λ x. ground arith, λ x. ground arith)
      | inr few ↦
          let (d, e, least, most) =
            lockout_duration_bounds (u.failed_login_count + 1) (omega arith) in
          (λ x. ground arith, λ x. ground arith)
    ]

-- An exception writes nothing.
pub authenticate-unchanged :
    (h : Hasher) (now : ℕ) (username password : String) (users : List User)
    → (authenticate h now username password users).0 ≡ none
    → (authenticate h now username password users).1 ≡ users
unfolding authenticate
authenticate-unchanged h now username password users e =
    elim (Option-cases (find_user username users)) [
      | inl k ↦ ground arith
      | inr (u, k) ↦ elim (Option-cases (attempt h password now u).0) [
        | inl l ↦ ground arith
        | inr (r, l) ↦ ground arith
      ]
    ]

-- Passwords tried one after the other, at the given times.
unfoldable pub guesses : Hasher → List (String × ℕ) → User → User
guesses h [] u = u
guesses h ((password, now) ∷ rest) u = guesses h rest (attempt h password now u).1

-- No time goes back, and no password is right for the hash.
abbrev pub WrongGuesses : Hasher → String → ℕ → List (String × ℕ) → ℕ → Type 0
WrongGuesses h hash t [] end = t ≤ end
WrongGuesses h hash t ((password, now) ∷ rest) end =
    (t ≤ now) × (verify_password h password (some hash) ≡ false) × WrongGuesses h hash now rest end

abbrev until : User → ℕ
until u = or_else u.locked_until 0

-- From `start` on, past the fourth failure each one has pushed the end of the lock out by a minute.
record Paced (start now : ℕ) (u : User) : Type 0 where
  locked :
      lockout_threshold ≤ u.failed_login_count
      → start + (u.failed_login_count - 4) * lockout_base ≤ until u
  waited : start + (u.failed_login_count - lockout_threshold) * lockout_base ≤ now
  few : u.failed_login_count ≤ 45

attempt-Paced :
    (h : Hasher) (password : String) (start t now : ℕ) (u : User)
    → start ≤ t
    → t ≤ now
    → verify_password h password (some u.password_hash) ≡ false
    → Paced start t u
    → Paced start now (attempt h password now u).1
unfolding attempt is_locked count_failure
attempt-Paced h password start t now u begin later wrong p =
    elim (failures-cases u.failed_login_count) [
      | inl many ↦
          let over = lockout_duration-overflows (u.failed_login_count + 1) (omega arith) in
          record {
            locked = λ many. ground (arith, p.locked);
            waited = ground (arith, p.locked, p.waited);
            few = ground (arith, p.few);
          }
      | inr few ↦
          let (d, e, least, most) =
            lockout_duration_bounds (u.failed_login_count + 1) (omega arith) in
          record {
            locked = λ many. ground (arith, p.locked);
            waited = ground (arith, p.locked, p.waited);
            few = ground (arith, p.few);
          }
    ]

attempt-password_hash :
    (h : Hasher) (password : String) (now : ℕ) (u : User)
    → verify_password h password (some u.password_hash) ≡ false
    → (attempt h password now u).1.password_hash ≡ u.password_hash
unfolding attempt count_failure
attempt-password_hash h password now u wrong =
    elim (Option-cases (lockout_duration (u.failed_login_count + 1))) [
      | inl e ↦ ground arith
      | inr (d, e) ↦ ground arith
    ]

guesses-Paced :
    (h : Hasher) (hash : String) (start t end : ℕ) (l : List (String × ℕ)) (u : User)
    → u.password_hash ≡ hash
    → start ≤ t
    → WrongGuesses h hash t l end
    → Paced start t u
    → Paced start end (guesses h l u)
unfolding guesses
guesses-Paced h hash start t end [] u e begin wrong p = record {
  locked = p.locked;
  waited = omega (arith, p.waited);
  few = p.few;
}
guesses-Paced h hash start t end ((password, now) ∷ l) u e begin wrong p =
    let refuted : verify_password h password (some u.password_hash) ≡ false = rw e wrong.1 in
    guesses-Paced h hash start now end l (attempt h password now u).1
      (attempt-password_hash h password now u refuted ∙ e) (omega arith) wrong.2
      (attempt-Paced h password start t now u begin wrong.0 refuted p)

-- Guessing is slow as long as it is counted: an account with no failures that has counted `n` of
-- them after any sequence of wrong passwords, the clock not going back, has been under attack for
-- at least `n - 5` minutes, and `n` is at most 45.
pub guesses_take_time :
    (h : Hasher) (start end : ℕ) (l : List (String × ℕ)) (u : User)
    → u.failed_login_count ≡ 0
    → WrongGuesses h u.password_hash start l end
    → (start + ((guesses h l u).failed_login_count - lockout_threshold) * lockout_base ≤ end)
      × ((guesses h l u).failed_login_count ≤ 45)
guesses_take_time h start end l u fresh wrong =
    let paced =
      guesses-Paced h u.password_hash start start end l u refl (omega arith) wrong (record {
        locked = λ many. absurd (omega arith);
        waited = omega arith;
        few = omega arith;
      }) in
    (paced.waited, paced.few)
