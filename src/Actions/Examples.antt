-- ===== src/Actions/Examples.antt =====
-- The theorems on actions at a concrete action: restart a container by its name.
use netops_console.Prelude.{
  ℕ, ◌+◌, ◌≡◌, ◌≢◌, ◌⊎◌, inr, refl, Bool, true, false, not, ◌||◌, ◌&&◌, Option, none, some, List,
  [], ◌∷◌, any, all, length, Result, ok, err, arith,
}
use netops_console.Prelude.Text.{Text, codes, has, eqb}
use netops_console.Execution.{Files, among}
use netops_console.Actions.Shell.{shell_words, quote, join, escape, is_bare}
use netops_console.Actions.Schema
use netops_console.Actions.Schema.{
  Regex, ExecutionType, local, ssh, ParamSpec, string, integer, choice, Json, string_value, boolean,
  object, Members, member, no_members, parse_schema, null,
}
use netops_console.Actions.Schema.Command
use netops_console.Actions.Schema.Command.{
  find_spec, validate_template, coerce, build_argv, build_ssh_command,
}
use netops_console.Actions.Schema.Build.{
  shell_words-build_ssh_command, Built, validate_template-build_argv,
}
use netops_console.Actions.Schema.Limits.{Constrained, parse_schema-Constrained}

-- A pattern that accepts texts without a semicolon.
abbrev regex : Regex
regex = record { compiles = λ p. true; fullmatch = λ p t. not (has b';' t) }

abbrev files : Files
files = record { which = λ n. some n; resolve_file = λ p. some p }

abbrev raw : Members
raw =
    member (codes "name")
      (object (
        member (codes "pattern") (string_value (codes "[^;]+"))
          (member (codes "secret") (boolean true) no_members)))
      no_members

abbrev name_spec : ParamSpec
name_spec = record {
  name = codes "name";
  type = string;
  pattern = some (codes "[^;]+");
  minimum = none;
  maximum = none;
  choices = none;
  required = true;
  secret = true;
  description = null;
}

abbrev template : List Text
template = codes "docker" ∷ codes "restart" ∷ codes "{name}" ∷ []

abbrev values : List (Text × Text)
values = (codes "name", codes "my web") ∷ []

parsed : parse_schema regex ssh raw ≡ ok (name_spec ∷ [])
unfolding parse_schema Schema.count_members Schema.parse_params Schema.parse_param Schema.param_name
    netops_console.Prelude.Text.matches_line Schema.is_name Schema.is_letter
    netops_console.Prelude.Text.is_alpha all Schema.is_name_char Schema.param_type Schema.member_of
    eqb Schema.checked_pattern among any Schema.checked_choices Schema.is_ssh Schema.is_string
    Schema.is_true Schema.no_pattern Schema.optional_int Schema.strings
    netops_console.Prelude.Text.chomp netops_console.Prelude.Text.int_of_text
    netops_console.Prelude.Text.is_digit netops_console.Prelude.Text.is_space
    netops_console.Prelude.Text.lstrip netops_console.Prelude.Text.strip
parsed = refl

shell_words-build_ssh_command_example :
    (argv : List Text) × (build_argv regex template (name_spec ∷ []) values ≡ ok argv)
    × (shell_words (codes "docker restart 'my web'") ≡ some argv)
unfolding build_ssh_command Command.each Command.substitute Schema.placeholder Schema.braced
    netops_console.Prelude.Text.chomp Schema.inside Schema.is_name Schema.is_letter
    netops_console.Prelude.Text.is_alpha all Schema.is_name_char find_spec eqb Command.fill_in
    Command.lift coerce Command.coerce_text Command.coerce_value Command.mismatches
    Command.outside_choices Command.value_of escape is_bare join quote among any has
    netops_console.Prelude.Text.is_digit
shell_words-build_ssh_command_example =
    shell_words-build_ssh_command regex template (name_spec ∷ []) values
      (codes "docker restart 'my web'") refl

validate_template-build_argv_example :
    Built template (build_argv regex template (name_spec ∷ []) values)
unfolding validate_template Command.program_of Command.used_names Command.splices Schema.embedded
    Schema.closes Schema.placeholder Schema.braced netops_console.Prelude.Text.chomp Schema.inside
    Schema.is_name Schema.is_letter netops_console.Prelude.Text.is_alpha all Schema.is_name_char
    find_spec eqb among any netops_console.Prelude.Text.is_digit
validate_template-build_argv_example =
    validate_template-build_argv files regex template (name_spec ∷ []) ssh values refl

parse_schema-Constrained_example : Constrained regex name_spec (codes "my web")
unfolding find_spec eqb coerce Command.coerce_text Command.coerce_value Command.mismatches
    Command.outside_choices has
parse_schema-Constrained_example =
    parse_schema-Constrained regex raw (name_spec ∷ []) (codes "name") name_spec
      (some (codes "my web")) (codes "my web") parsed refl (ground arith) refl
