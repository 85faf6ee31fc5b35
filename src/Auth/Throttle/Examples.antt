-- ===== src/Auth/Throttle/Examples.antt =====
-- The theorems on the throttle at a concrete history.
use netops_console.Prelude.{◌≡◌, refl, List, [], ◌∷◌, leb, arith}
use netops_console.Auth.Throttle.{login_throttle, is_limited, max_attempts_per_ip, window_ms}
use netops_console.Auth.Throttle.Window.{
  Event, failed, checked, succeeded, run, failures, recent, is_limited-eq_recent,
}

-- Three failures of one client, a success of another, and a success of the first between.
abbrev history : List Event
history =
    failed "a" 0
    ∷ succeeded "a"
    ∷ failed "a" 10
    ∷ succeeded "b"
    ∷ checked "a" 20
    ∷ failed "a" 30
    ∷ []

is_limited-eq_recent_example :
    (is_limited "a" 40 (run history login_throttle)).0
    ≡ leb max_attempts_per_ip (recent window_ms 40 (failures "a" history []))
is_limited-eq_recent_example =
    is_limited-eq_recent "a" 40 history login_throttle refl (omega arith)
      (
        omega arith,
        (omega arith, (omega arith, (omega arith, (omega arith, (omega arith, omega arith))))),
      )
      (omega arith)
