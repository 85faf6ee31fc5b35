-- ===== src/Auth/Login/Examples.antt =====
-- The theorems on the login page at a concrete request.
use netops_console.Prelude.{some, ◌≡◌, ◌⊎◌, true, false, none, [], ◌∷◌}
use netops_console.Prelude.Text.{codes}
use netops_console.Prelude.Dict.{get}
use netops_console.Session.{start_session}
use netops_console.Session.Examples.{live}
use netops_console.Auth.Throttle.{login_throttle, is_limited, record_failure}
use netops_console.Auth.Service.{User, Message, refused, authenticated, authenticate}
use netops_console.Auth.Service.Examples.{clear_text, admin}
use netops_console.Auth.Login.{State, Outside, login, unauthorized, internal_server_error}
use netops_console.Auth.Login.Effects.{login_effects}

abbrev before : State
before = record { throttle = login_throttle; users = admin ∷ []; session = live }

abbrev outside : Outside
outside = record { monotonic = 7; now = 3000; sid = "s"; csrf = "t" }

login_effects_example :
    let (page, s') =
      login clear_text outside "10.0.0.9" "admin" "secret" (codes "/devices") before in
    let (result, users) = authenticate clear_text 3000 "admin" "secret" before.users in
    let (limited, throttle) = is_limited "10.0.0.9" 7 before.throttle in
    ((limited ≡ true) × (s'.users ≡ before.users) × (s'.session ≡ before.session))
    ⊎ ((limited ≡ false)
        × (s'.users ≡ users)
        × (((result ≡ none)
              × (page ≡ internal_server_error)
              × (s'.users ≡ before.users)
              × (s'.session ≡ before.session)
              × (s'.throttle ≡ throttle))
            ⊎ ((m : Message) × (result ≡ some (refused m))
                × (page ≡ unauthorized m)
                × (s'.session ≡ before.session)
                × (s'.throttle ≡ record_failure "10.0.0.9" 7 throttle))
            ⊎ ((u : User) × (result ≡ some (authenticated u))
                × (s'.session ≡ start_session u.id "s" "t" 3000 before.session)
                × (get s'.throttle.buckets "10.0.0.9" ≡ none))))
login_effects_example =
    login_effects clear_text outside "10.0.0.9" "admin" "secret" (codes "/devices") before
