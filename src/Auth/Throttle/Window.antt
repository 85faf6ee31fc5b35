-- ===== src/Auth/Throttle/Window.antt =====
-- The throttle against the history of events: a client is limited exactly when enough of its
-- failures since its last success fall in the window.
use netops_console.Prelude.{
  ℕ, ◌+◌, ◌≤◌, ◌<◌, String, ◌≡◌, ◌↔◌, refl, ap, ◌∙◌, Bool, true, List, [], ◌∷◌, ◌++◌, keep, length,
  ltb, leb, or_else, if◌then◌else◌, str_eq, eq_iff, arith, Option-cases, inl, inr,
}
use netops_console.Prelude.Dict.{get, get-put, get-remove, length-put-le, length-remove-le}
use netops_console.Auth.Throttle.{
  LoginThrottle, max_tracked_ips, prune, is_limited, record_failure, reset, retry_after,
  wait_seconds,
}

-- What the login page does with the throttle.
pub data Event : Type 0 where
  failed checked asked : String → ℕ → Event
  succeeded : String → Event

unfoldable pub apply : Event → LoginThrottle → LoginThrottle
apply (failed ip now) s = record_failure ip now s
apply (checked ip now) s = (is_limited ip now s).1
apply (asked ip now) s = (retry_after ip now s).1
apply (succeeded ip) s = reset ip s

unfoldable pub run : List Event → LoginThrottle → LoginThrottle
run [] s = s
run (e ∷ es) s = run es (apply e s)

-- The specification: the times at which `ip` has failed since it last succeeded.
abbrev step : String → Event → List ℕ → List ℕ
step ip (failed other now) times = if str_eq other ip then times ++ now ∷ [] else times
step ip (succeeded other) times = if str_eq other ip then [] else times
step ip (checked other now) times = times
step ip (asked other now) times = times

unfoldable pub failures : String → List Event → List ℕ → List ℕ
failures ip [] times = times
failures ip (e ∷ es) times = failures ip es (step ip e times)

-- When an event happens: a success has no time, and counts at the time before it.
abbrev pub time_of : ℕ → Event → ℕ
time_of t (failed ip u) = u
time_of t (checked ip u) = u
time_of t (asked ip u) = u
time_of t (succeeded ip) = t

-- The clock never goes back, up to `now`.
abbrev pub Ordered : ℕ → List Event → ℕ → Type 0
Ordered t [] now = t ≤ now
Ordered t (e ∷ es) now = (t ≤ time_of t e) × Ordered (time_of t e) es now

keep-append : (p : ℕ → Bool) (xs ys : List ℕ) → keep p (xs ++ ys) ≡ keep p xs ++ keep p ys
unfolding keep
keep-append p [] ys = refl
keep-append p (x ∷ xs) ys = ground (arith, keep-append p xs ys)

-- Pruning now and again later is pruning later.
prune-prune :
    (window t now : ℕ) (xs : List ℕ)
    → t ≤ now
    → prune window now (prune window t xs) ≡ prune window now xs
unfolding prune keep
prune-prune window t now [] h = refl
prune-prune window t now (x ∷ xs) h = ground (arith, prune-prune window t now xs h)

prune-nil : (window now : ℕ) → prune window now [] ≡ []
unfolding prune keep
prune-nil window now = refl

prune-append :
    (window now : ℕ) (xs ys : List ℕ)
    → prune window now (xs ++ ys) ≡ prune window now xs ++ prune window now ys
unfolding prune
prune-append window now xs ys = keep-append (λ t. ltb now (t + window)) xs ys

abbrev bucket : String → LoginThrottle → List ℕ
bucket ip s = or_else (get s.buckets ip) []

-- From time `t` on, the bucket of `ip` and the list of its failures prune to the same.
record Agrees (ip : String) (t : ℕ) (s : LoginThrottle) (times : List ℕ) : Type 0 where
  same : (now : ℕ) → t ≤ now → prune s.window now (bucket ip s) ≡ prune s.window now times

-- `apply` changes no limit, and opens one bucket at most.
window-apply : (e : Event) (s : LoginThrottle) → (apply e s).window ≡ s.window
unfolding apply is_limited record_failure reset retry_after
window-apply (failed ip now) s = refl
window-apply (checked ip now) s = ground arith
window-apply (asked ip now) s = ground arith
window-apply (succeeded ip) s = refl

max_attempts-apply : (e : Event) (s : LoginThrottle) → (apply e s).max_attempts ≡ s.max_attempts
unfolding apply is_limited record_failure reset retry_after
max_attempts-apply (failed ip now) s = refl
max_attempts-apply (checked ip now) s = ground arith
max_attempts-apply (asked ip now) s = ground arith
max_attempts-apply (succeeded ip) s = refl

buckets-apply : (e : Event) (s : LoginThrottle) → length (apply e s).buckets ≤ length s.buckets + 1
unfolding apply is_limited record_failure reset retry_after
buckets-apply (failed ip now) s = grind (arith, length-put-le)
buckets-apply (checked ip now) s = elim (Option-cases (get s.buckets ip)) [
  | inl e ↦ ground arith
  | inr (b, e) ↦ ground (arith, length-put-le s.buckets ip (prune s.window now b))
]
buckets-apply (asked ip now) s = grind (arith, length-put-le)
buckets-apply (succeeded ip) s = omega (arith, length-remove-le s.buckets ip)

-- The bucket of `ip` after each event; a failure finds room for its bucket.
bucket-failed :
    (ip other : String) (u : ℕ) (s : LoginThrottle)
    → length s.buckets < max_tracked_ips
    → bucket ip (record_failure other u s)
      ≡ (if str_eq other ip then prune s.window u (bucket ip s) ++ u ∷ [] else bucket ip s)
unfolding record_failure
bucket-failed ip other u s room = ground (
  arith,
  get-put s.buckets other ip (prune s.window u (bucket other s) ++ u ∷ []),
  eq_iff other ip,
)

bucket-checked :
    (ip other : String) (u : ℕ) (s : LoginThrottle)
    → bucket ip (is_limited other u s).1
      ≡ (if str_eq other ip then prune s.window u (bucket ip s) else bucket ip s)
unfolding is_limited
bucket-checked ip other u s = elim (Option-cases (get s.buckets other)) [
  | inl e ↦ ground (arith, eq_iff other ip, prune-nil s.window u)
  | inr (b, e) ↦ ground (arith, eq_iff other ip, get-put s.buckets other ip (prune s.window u b))
]

bucket-asked :
    (ip other : String) (u : ℕ) (s : LoginThrottle)
    → bucket ip (retry_after other u s).1
      ≡ (if str_eq other ip then prune s.window u (bucket ip s) else bucket ip s)
unfolding retry_after
bucket-asked ip other u s = elim (Option-cases (get s.buckets other)) [
  | inl e ↦ ground (arith, eq_iff other ip, prune-nil s.window u)
  | inr ([], e) ↦ ground (arith, eq_iff other ip, prune-nil s.window u)
  | inr (t ∷ ts, e) ↦
      ground (arith, eq_iff other ip, get-put s.buckets other ip (prune s.window u (t ∷ ts)))
]

bucket-succeeded :
    (ip other : String) (s : LoginThrottle)
    → bucket ip (reset other s) ≡ (if str_eq other ip then [] else bucket ip s)
unfolding reset
bucket-succeeded ip other s = ground (arith, get-remove s.buckets other ip)

Agrees-apply :
    (ip : String) (t : ℕ) (e : Event) (s : LoginThrottle) (times : List ℕ)
    → t ≤ time_of t e
    → length s.buckets < max_tracked_ips
    → Agrees ip t s times
    → Agrees ip (time_of t e) (apply e s) (step ip e times)
unfolding apply
Agrees-apply ip t (failed other u) s times later room h = record {
  same = λ now hn. ground (
    arith,
    window-apply (failed other u) s,
    bucket-failed ip other u s room,
    prune-append s.window now (prune s.window u (bucket ip s)) (u ∷ []),
    prune-append s.window now times (u ∷ []),
    prune-prune s.window u now (bucket ip s),
    h.same now,
  );
}
Agrees-apply ip t (checked other u) s times later room h = record {
  same = λ now hn. ground (
    arith,
    window-apply (checked other u) s,
    bucket-checked ip other u s,
    prune-prune s.window u now (bucket ip s),
    h.same now,
  );
}
Agrees-apply ip t (asked other u) s times later room h = record {
  same = λ now hn. ground (
    arith,
    window-apply (asked other u) s,
    bucket-asked ip other u s,
    prune-prune s.window u now (bucket ip s),
    h.same now,
  );
}
Agrees-apply ip t (succeeded other) s times later room h = record {
  same = λ now hn.
      ground (arith, window-apply (succeeded other) s, bucket-succeeded ip other s, h.same now);
}

Agrees-run :
    (ip : String) (t now : ℕ) (es : List Event) (s : LoginThrottle) (times : List ℕ)
    → Ordered t es now
    → length s.buckets + length es ≤ max_tracked_ips
    → Agrees ip t s times
    → prune s.window now (bucket ip (run es s)) ≡ prune s.window now (failures ip es times)
unfolding run failures
Agrees-run ip t now [] s times ordered room h = h.same now ordered
Agrees-run ip t now (e ∷ es) s times ordered room h =
    let rest =
      Agrees-run ip (time_of t e) now es (apply e s) (step ip e times) ordered.1
        (omega (arith, buckets-apply e s))
        (Agrees-apply ip t e s times ordered.0 (omega arith) h) in
    cc (rest, window-apply e s)

bucket-empty : (ip : String) (s : LoginThrottle) → s.buckets ≡ [] → bucket ip s ≡ []
unfolding get
bucket-empty ip s empty = rw empty refl

max_attempts-run : (es : List Event) (s : LoginThrottle) → (run es s).max_attempts ≡ s.max_attempts
unfolding run
max_attempts-run [] s = refl
max_attempts-run (e ∷ es) s = max_attempts-run es (apply e s) ∙ max_attempts-apply e s

window-run : (es : List Event) (s : LoginThrottle) → (run es s).window ≡ s.window
unfolding run
window-run [] s = refl
window-run (e ∷ es) s = window-run es (apply e s) ∙ window-apply e s

-- How many of the times lie in the window that ends at `now`.
unfoldable pub recent : ℕ → ℕ → List ℕ → ℕ
recent window now [] = 0
recent window now (t ∷ ts) = (if ltb now (t + window) then 1 else 0) + recent window now ts

length-prune : (window now : ℕ) (ts : List ℕ) → length (prune window now ts) ≡ recent window now ts
unfolding prune keep recent
length-prune window now [] = refl
length-prune window now (t ∷ ts) = ground (arith, length-prune window now ts)

is_limited-bucket :
    (ip : String) (now : ℕ) (s : LoginThrottle)
    → 0 < s.max_attempts
    → (is_limited ip now s).0 ≡ leb s.max_attempts (length (prune s.window now (bucket ip s)))
unfolding is_limited
is_limited-bucket ip now s positive = ground (arith, prune-nil s.window now)

-- With a positive limit, after any events on an empty throttle whose clock does not go back, as many
-- as it has room to track, a client is limited exactly when the failures since its last success that lie in the
-- window reach the limit.
pub is_limited-eq_recent :
    (ip : String) (now : ℕ) (es : List Event) (s : LoginThrottle)
    → s.buckets ≡ []
    → 0 < s.max_attempts
    → Ordered 0 es now
    → length es ≤ max_tracked_ips
    → (is_limited ip now (run es s)).0
      ≡ leb s.max_attempts (recent s.window now (failures ip es []))
is_limited-eq_recent ip now es s empty positive ordered room =
    let agrees : Agrees ip 0 s [] = record { same = λ n h. cc (bucket-empty ip s empty) } in
    ground (
      arith,
      is_limited-bucket ip now (run es s),
      max_attempts-run es s,
      window-run es s,
      Agrees-run ip 0 now es s [] ordered (omega (arith, ap length empty)) agrees,
      length-prune s.window now (failures ip es []),
    )

wait_seconds-pos_iff :
    (limit window now : ℕ) (ts : List ℕ)
    → 0 < limit
    → (0 < wait_seconds limit window now ts) ↔ (leb limit (length ts) ≡ true)
unfolding wait_seconds
wait_seconds-pos_iff limit window now [] positive = ground arith
wait_seconds-pos_iff limit window now (t ∷ ts) positive = ground arith

-- With a positive limit, a client is told to wait for some seconds exactly when it is limited.
pub retry_after_iff :
    (ip : String) (now : ℕ) (s : LoginThrottle)
    → 0 < s.max_attempts
    → ((is_limited ip now s).0 ≡ true) ↔ (0 < (retry_after ip now s).0)
unfolding is_limited retry_after
retry_after_iff ip now s positive = elim (Option-cases (get s.buckets ip)) [
  | inl e ↦ ground arith
  | inr ([], e) ↦ ground (arith, prune-nil s.window now)
  | inr (t ∷ ts, e) ↦ ground (
    arith,
    wait_seconds-pos_iff s.max_attempts s.window now (prune s.window now (t ∷ ts)) positive,
  )
]
