-- ===== src/Execution/Slots.antt =====
-- The permits of the engine: never more processes than it allows, and none is lost.
use netops_console.Prelude.{ℕ, suc, ◌≤◌, ◌≡◌, refl, true, false, List, ok, arith}
use netops_console.Prelude.Text.{Text}
use netops_console.Execution.{Files, Engine, start_run, locked, acquire, release}

-- The history of an engine: how many runs of each kind are on their way.
pub data Runs (files : Files) (first : Engine) : Engine → ℕ → ℕ → Type 0 where
  fresh : first.taken ≡ 0 → first.discovery_taken ≡ 0 → Runs files first first 0 0
  start :
      (program : Text) (arguments argv : List Text) (timeout : ℕ) {e e' : Engine} {n d : ℕ}
      → Runs files first e n d
      → start_run files program arguments timeout false e ≡ ok (argv, e')
      → Runs files first e' (suc n) d
  start_discovery :
      (program : Text) (arguments argv : List Text) (timeout : ℕ) {e e' : Engine} {n d : ℕ}
      → Runs files first e n d
      → start_run files program arguments timeout true e ≡ ok (argv, e')
      → Runs files first e' n (suc d)
  end :
      {e : Engine} {n d : ℕ} → Runs files first e (suc n) d → Runs files first (release false e) n d
  end_discovery :
      {e : Engine} {n d : ℕ} → Runs files first e n (suc d) → Runs files first (release true e) n d

-- The permits that are taken are those of the runs on their way, within the limits.
abbrev pub Balanced : Engine → Engine → ℕ → ℕ → Type 0
Balanced first e n d =
    (e.taken ≡ n)
    × (e.discovery_taken ≡ d)
    × (e.max_concurrent ≡ first.max_concurrent)
    × (e.max_discovery_concurrent ≡ first.max_discovery_concurrent)
    × (n ≤ first.max_concurrent)
    × (d ≤ first.max_discovery_concurrent)

started-Balanced :
    (files : Files) (first e e' : Engine) (n d : ℕ) (program : Text) (arguments argv : List Text)
    (timeout : ℕ)
    → Balanced first e n d
    → start_run files program arguments timeout false e ≡ ok (argv, e')
    → Balanced first e' (suc n) d
unfolding start_run locked acquire
started-Balanced files first e e' n d program arguments argv timeout b h = ground arith

discovery-Balanced :
    (files : Files) (first e e' : Engine) (n d : ℕ) (program : Text) (arguments argv : List Text)
    (timeout : ℕ)
    → Balanced first e n d
    → start_run files program arguments timeout true e ≡ ok (argv, e')
    → Balanced first e' n (suc d)
unfolding start_run locked acquire
discovery-Balanced files first e e' n d program arguments argv timeout b h = ground arith

release-Balanced :
    (first e : Engine) (n d : ℕ) → Balanced first e (suc n) d → Balanced first (release false e) n d
unfolding release
release-Balanced first e n d b = ground arith

release_discovery-Balanced :
    (first e : Engine) (n d : ℕ) → Balanced first e n (suc d) → Balanced first (release true e) n d
unfolding release
release_discovery-Balanced first e n d b = ground arith

-- Whatever runs have started and ended on an engine, the permits taken are those of the runs that
-- are on their way, and these are never more than the limits.
pub Runs-Balanced :
    (files : Files) (first e : Engine) (n d : ℕ) → Runs files first e n d → Balanced first e n d
Runs-Balanced files first e n d (fresh t u) = (t, u, refl, refl, omega arith, omega arith)
Runs-Balanced files first e n d (start program arguments argv timeout {e = before} {n = m} r h) =
    started-Balanced files first before e m d program arguments argv timeout
      (Runs-Balanced files first before m d r) h
Runs-Balanced files first e n d
      (start_discovery program arguments argv timeout {e = before} {d = m} r h) =
    discovery-Balanced files first before e n m program arguments argv timeout
      (Runs-Balanced files first before n m r) h
Runs-Balanced files first e n d (end {e = before} r) =
    release-Balanced first before n d (Runs-Balanced files first before (suc n) d r)
Runs-Balanced files first e n d (end_discovery {e = before} r) =
    release_discovery-Balanced first before n d (Runs-Balanced files first before n (suc d) r)
