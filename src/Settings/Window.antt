-- ===== src/Settings/Window.antt =====
-- What the retention window deletes.
use netops_console.Prelude.{ℕ, ◌+◌, ◌≡◌, refl, Bool, not, List, [], ◌∷◌, keep, length, arith}
use netops_console.Prelude.Int.{ℤ, pos, negsuc}
use netops_console.Settings.{PruneResult, total, History, is_old, delete_old, prune_history}

unfoldable pub size : History → ℕ
size h = length h.diagnostics + length h.actions + length h.observations

length-delete_old :
    (now days : ℕ) (times : List ℕ)
    → length (delete_old now days times).0 + (delete_old now days times).1 ≡ length times
unfolding delete_old keep
length-delete_old now days [] = omega arith
length-delete_old now days (t ∷ ts) = ground (arith, length-delete_old now days ts)

keep-keep : (p : ℕ → Bool) (times : List ℕ) → keep p (keep p times) ≡ keep p times
unfolding keep
keep-keep p [] = refl
keep-keep p (t ∷ ts) = ground (arith, keep-keep p ts)

none_old :
    (now days : ℕ) (times : List ℕ)
    → length (keep (is_old now days) (keep (λ t. not (is_old now days t)) times)) ≡ 0
unfolding keep
none_old now days [] = refl
none_old now days (t ∷ ts) = ground (arith, none_old now days ts)

abbrev pub nothing : PruneResult
nothing = record { diagnostics = 0; actions = 0; observations = 0 }

-- Deleting again at the same time deletes nothing.
delete_old-delete_old :
    (now days : ℕ) (times : List ℕ)
    → delete_old now days (delete_old now days times).0 ≡ ((delete_old now days times).0, 0)
unfolding delete_old
delete_old-delete_old now days times =
    ground (arith, keep-keep (λ t. not (is_old now days t)) times, none_old now days times)

-- Pruning counts each row that it deletes, and pruning again at the same time deletes nothing.
pub prune_history-prune_history :
    (days : ℤ) (now : ℕ) (h : History)
    → let (after, result) = prune_history days now h in
      (size after + total result ≡ size h) × (prune_history days now after ≡ (after, nothing))
unfolding prune_history total size
prune_history-prune_history (negsuc n) now h = (omega arith, refl)
prune_history-prune_history (pos days) now h = (
  ground (
    arith,
    length-delete_old now days h.diagnostics,
    length-delete_old now days h.actions,
    length-delete_old now days h.observations,
  ),
  ground (
    arith,
    delete_old-delete_old now days h.diagnostics,
    delete_old-delete_old now days h.actions,
    delete_old-delete_old now days h.observations,
  ),
)
