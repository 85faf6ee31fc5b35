-- ===== src/Actions/Pages/Examples.antt =====
-- The theorem on the pages for actions at a form that is stored.
use netops_console.Prelude.{true, some, []}
use netops_console.Prelude.Int.{pos}
use netops_console.Prelude.Text.{codes}
use netops_console.Actions.Schema.{array, item, string_value, no_items}
use netops_console.Actions.Pages.{Outside, State, ActionForm}

abbrev o : Outside
o = record {
  files = record { which = λ n. some n; resolve_file = λ p. some p };
  regex = record { compiles = λ p. true; fullmatch = λ p t. true };
  loads = λ text. some (array (item (string_value (codes "nmap")) no_items));
  now = 5;
  next_id = 1;
  username = codes "admin";
}

abbrev form : ActionForm
form = record {
  name = codes " Scan ";
  argv_template = codes "[\"nmap\"]";
  execution_type = codes "local";
  param_schema = [];
  timeout_seconds = pos 30;
  applicable_types = codes "nas, ,switch";
}

abbrev nothing : State
nothing = record { definitions = []; changes = [] }
