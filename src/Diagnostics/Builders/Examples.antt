-- ===== src/Diagnostics/Builders/Examples.antt =====
-- The theorem on the diagnostics at a concrete target.
use netops_console.Prelude.{refl, none, some, All, ◌∷◌}
use netops_console.Prelude.Int.{negsuc}
use netops_console.Prelude.Text.{Text, codes, has}
use netops_console.Execution.{Files}
use netops_console.Diagnostics.Builders.Policy.{Accepted, commands, commands-Accepted}

abbrev bin : Text → Text
bin name = b'/' ∷ name

abbrev installed : Files
installed = record { which = λ name. some (bin name); resolve_file = λ path. some path }

commands-Accepted_example :
    All (Accepted installed) (commands (codes "192.168.1.7") (some (negsuc 3)) none 443)
unfolding has
commands-Accepted_example =
    commands-Accepted installed (codes "192.168.1.7") (some (negsuc 3)) none 443 refl
