-- ===== src/Auth/Login/Effects.antt =====
-- What a login does to the throttle, the accounts and the session, and where it may lead.
use netops_console.Prelude.{
  ◌≤◌, String, ◌≡◌, ◌≢◌, ◌⊎◌, refl, true, false, none, [], ◌∷◌, arith, inl, inr, Option, some,
  Bool-cases, All, eq_refl,
}
use netops_console.Prelude.Text.{Text}
use netops_console.Prelude.Dict.{get, get-remove}
use netops_console.Session.{start_session}
use netops_console.Auth.Throttle.{LoginThrottle, is_limited, record_failure, reset}
use netops_console.Auth.Service.{
  User, Hasher, Message, AuthResult, authenticated, refused, authenticate,
}
use netops_console.Auth.Service.Lockout.{authenticate-unchanged}
use netops_console.Auth.Login.{State, unauthorized, internal_server_error, Outside, login}

-- A path that a browser resolves on this site: one slash first, and no backslash or control
-- character anywhere.
abbrev pub IsLocal : Text → Type 0
IsLocal [] = ⊥
IsLocal (c ∷ []) = c ≡ b'/'
IsLocal (c ∷ d ∷ s) =
    (c ≡ b'/') × (d ≢ b'/') × All (λ e. (32 ≤ e) × (e ≢ 92) × (e ≢ 127)) (c ∷ d ∷ s)

AuthResult-cases :
    (r : Option AuthResult)
    → (r ≡ none)
      ⊎ ((m : Message) × (r ≡ some (refused m)))
      ⊎ ((u : User) × (r ≡ some (authenticated u)))
AuthResult-cases none = inl refl
AuthResult-cases (some (refused m)) = inr (inl (m, refl))
AuthResult-cases (some (authenticated u)) = inr (inr (u, refl))

get-reset : (ip : String) (t : LoginThrottle) → get (reset ip t).buckets ip ≡ none
unfolding reset
get-reset ip t = ground (arith, get-remove t.buckets ip ip, eq_refl ip)

-- What a login attempt does, by its answer: one that comes too often changes no account and keeps
-- the session; one that ends in an exception changes no account and no session, and is not counted
-- against its address; a refused one is counted against its address and keeps the session; a
-- successful one clears the count of its address and starts a session of its own for the user.
pub login_effects :
    (h : Hasher) (o : Outside) (ip username password : String) (next : Text) (s : State)
    → let (page, s') = login h o ip username password next s in
      let (result, users) = authenticate h o.now username password s.users in
      let (limited, throttle) = is_limited ip o.monotonic s.throttle in
      ((limited ≡ true) × (s'.users ≡ s.users) × (s'.session ≡ s.session))
      ⊎ ((limited ≡ false)
          × (s'.users ≡ users)
          × (((result ≡ none)
                × (page ≡ internal_server_error)
                × (s'.users ≡ s.users)
                × (s'.session ≡ s.session)
                × (s'.throttle ≡ throttle))
              ⊎ ((m : Message) × (result ≡ some (refused m))
                  × (page ≡ unauthorized m)
                  × (s'.session ≡ s.session)
                  × (s'.throttle ≡ record_failure ip o.monotonic throttle))
              ⊎ ((u : User) × (result ≡ some (authenticated u))
                  × (s'.session ≡ start_session u.id o.sid o.csrf o.now s.session)
                  × (get s'.throttle.buckets ip ≡ none))))
unfolding login
login_effects h o ip username password next s =
    let r = authenticate h o.now username password s.users in
    elim (Bool-cases (is_limited ip o.monotonic s.throttle).0) [
      | inl limited ↦ inl (limited, ground arith, ground arith)
      | inr free ↦ elim (AuthResult-cases r.0) [
        | inl e ↦
            let same = authenticate-unchanged h o.now username password s.users e in
            inr
              (free, ground arith, inl (e, ground arith, ground arith, ground arith, ground arith))
        | inr (inl (m, e)) ↦
            inr (free, ground arith, inr (inl (m, e, ground arith, ground arith, ground arith)))
        | inr (inr (u, e)) ↦ inr (
          free,
          ground arith,
          inr (
              inr (
                u,
                e,
                ground arith,
                ground (arith, get-reset ip (is_limited ip o.monotonic s.throttle).1),
              )),
        )
      ]
    ]
