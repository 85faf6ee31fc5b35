-- ===== src/Auth/Throttle.antt =====
-- `app/modules/auth/throttle.py`: failed logins counted for each client address. Times are the
-- readings of the monotonic clock, in milliseconds.
pub mod Window
mod Examples
use netops_console.Prelude.{
  ℕ, zero, suc, ◌+◌, ◌-◌, ◌*◌, ◌/◌, max, String, Bool, true, false, not, ◌&&◌, Option, none, some,
  List, [], ◌∷◌, ◌++◌, keep, length, ltb, leb, or_else, if◌then◌else◌,
}
use netops_console.Prelude.Dict.{Dict, get, put, remove, has_key}

abbrev pub max_attempts_per_ip : ℕ
max_attempts_per_ip = 10

abbrev pub window_ms : ℕ
window_ms = 300 * 1000

abbrev pub max_tracked_ips : ℕ
max_tracked_ips = 10000

-- `LoginThrottle`: its limits, and the times of the failed attempts from each address.
pub record LoginThrottle : Type 0 where
  pub max_attempts : ℕ
  pub window : ℕ
  pub buckets : Dict (List ℕ)

abbrev pub login_throttle : LoginThrottle
login_throttle = record { max_attempts = max_attempts_per_ip; window = window_ms; buckets = [] }

-- `_prune`: the attempts after `now - window`.
unfoldable pub prune : ℕ → ℕ → List ℕ → List ℕ
prune window now attempts = keep (λ t. ltb now (t + window)) attempts

-- Both queries prune the bucket that they read, so they return the new state too.
unfoldable pub is_limited : String → ℕ → LoginThrottle → Bool × LoginThrottle
is_limited ip now s = elim (get s.buckets ip) [
  | none ↦ (false, s)
  | some attempts ↦
      let recent = prune s.window now attempts in
      (leb s.max_attempts (length recent), record s { buckets = put s.buckets ip recent })
]

unfoldable pub record_failure : String → ℕ → LoginThrottle → LoginThrottle
record_failure ip now s =
    let full = leb max_tracked_ips (length s.buckets) && not (has_key s.buckets ip) in
    let buckets = if full then [] else s.buckets in
    let attempts = prune s.window now (or_else (get buckets ip) []) in
    record s { buckets = put buckets ip (attempts ++ now ∷ []) }

unfoldable pub reset : String → LoginThrottle → LoginThrottle
reset ip s = record s { buckets = remove s.buckets ip }

-- `min(attempts)`
unfoldable pub earliest : ℕ → List ℕ → ℕ
earliest t [] = t
earliest t (u ∷ us) = earliest (if ltb u t then u else t) us

-- Whole seconds, rounded down; `now - earliest` is less than the window after pruning.
unfoldable pub wait_seconds : ℕ → ℕ → ℕ → List ℕ → ℕ
wait_seconds limit window now [] = 0
wait_seconds limit window now (t ∷ ts) =
    if ltb (length (t ∷ ts)) limit then 0 else max 1 ((earliest t ts + window - now) / 1000)

unfoldable pub retry_after : String → ℕ → LoginThrottle → ℕ × LoginThrottle
retry_after ip now s = elim (get s.buckets ip) [
  | none ↦ (0, s)
  | some [] ↦ (0, s)
  | some (t ∷ ts) ↦
      let recent = prune s.window now (t ∷ ts) in
      (
        wait_seconds s.max_attempts s.window now recent,
        record s { buckets = put s.buckets ip recent },
      )
]
