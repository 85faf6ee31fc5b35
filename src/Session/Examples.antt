-- ===== src/Session/Examples.antt =====
-- The theorems on sessions at concrete sessions.
use netops_console.Prelude.{◌+◌, ◌≤◌, String, ◌≡◌, ◌↔◌, ◌≢◌, some, arith, eq_iff}
use netops_console.Session.{
  SessionData, start_session, current_user_id, touch, cleared, absolute_lifetime, idle_lifetime,
  aware, naive,
}
use netops_console.Session.Lifetime.{start_session-lives}

abbrev pub live : SessionData
live = record {
  user_id = some 1;
  sid = some "s";
  csrf = some "t";
  created_at = some (aware 1000);
  last_seen = some (naive 2000);
}

pub nonempty : ◌≢◌ {A = String} "t" ""
nonempty = ground (arith, eq_iff "t" "")

start_session-lives_example :
    let s = touch 3000 (start_session 1 "s" "t" 2000 live) in
    (((current_user_id 4000 s).0 ≡ some 1)
      ↔ ((4000 ≤ 2000 + absolute_lifetime) × (4000 ≤ 3000 + idle_lifetime)))
    × (s ≡ touch 3000 (start_session 1 "s" "t" 2000 cleared))
start_session-lives_example = start_session-lives 1 2000 3000 4000 "s" "t" live
