-- ===== src/Execution/Examples.antt =====
-- The theorem on permits at a concrete engine.
use netops_console.Prelude.{◌≡◌, refl, false, any, some, ok, [], ◌∷◌}
use netops_console.Prelude.Text
use netops_console.Prelude.Text.{Text, codes, has, eqb, strip}
use netops_console.Execution
use netops_console.Execution.{Files, Engine, start_run, release}
use netops_console.Execution.Slots.{fresh, start, end, Balanced, Runs-Balanced}

abbrev files : Files
files = record { which = λ n. some n; resolve_file = λ p. some p }

abbrev idle : Engine
idle = record { max_concurrent = 1; max_discovery_concurrent = 1; taken = 0; discovery_taken = 0 }

abbrev working : Engine
working = record {
  max_concurrent = 1;
  max_discovery_concurrent = 1;
  taken = 1;
  discovery_taken = 0;
}

starts :
    start_run files (codes "ping") (codes "-c" ∷ []) 30 false idle
    ≡ ok (codes "ping" ∷ codes "-c" ∷ [], working)
unfolding start_run Execution.build_argv Execution.resolve_binary Execution.checked_arguments
    Execution.among Execution.locked Execution.acquire any has eqb strip Text.lstrip Text.is_space
starts = refl

-- One run that is on its way, after another that has ended.
Runs-Balanced_example : Balanced idle working 1 0
unfolding start_run release
Runs-Balanced_example = Runs-Balanced files idle working 1 0 (
    start (codes "ping") (codes "-c" ∷ []) (codes "ping" ∷ codes "-c" ∷ []) 30
      (end (
        start (codes "ping") (codes "-c" ∷ []) (codes "ping" ∷ codes "-c" ∷ []) 30 (fresh refl refl)
          starts))
      starts)
