-- ===== src/Actions/Schema/Command.antt =====
-- The command of an action: the check of its template, and what is made of it for a run, for an
-- SSH server and for the record.

use netops_console.Prelude.{
  Bool, false, not, ◌&&◌, Option, none, some, List, [], ◌∷◌, map, any, length, is_empty, is_some,
  ltb, if◌then◌else◌, Result, ok, err, ◌>>=◌, ◌>>◌, raise_if, or_raise,
}
use netops_console.Prelude.Int.{ℤ, ltb_ℤ}
use netops_console.Prelude.Text.{Text, eqb, has, int_of_text, text_of_int}
use netops_console.Validation.Errors.{
  ValidationError, empty_template, too_many_tokens, placeholder_program, embedded_placeholder,
  unknown_params, unused_params, program_rejected, param_required, param_too_long, param_has_nul,
  param_not_whole, param_too_small, param_too_large, param_not_a_choice, param_no_match,
}
use netops_console.Execution.{among, Files, resolve_binary}
use netops_console.Actions.Shell.{quote, join}
use netops_console.Actions.Schema.{
  Regex, ExecutionType, local, ssh, ParamSpec, string, integer, choice, max_argv_tokens,
  max_string_length, mask, placeholder, embedded,
}

-- `specs.get(name)`
unfoldable pub find_spec : Text → List ParamSpec → Option ParamSpec
find_spec name [] = none
find_spec name (s ∷ specs) =
    let rest = find_spec name specs in if eqb name s.name then some s else rest

-- The names of the placeholders of a template.
unfoldable pub used_names : List Text → List Text
used_names [] = []
used_names (t ∷ ts) =
    let rest = used_names ts in elim (placeholder t) [ none ↦ rest | some n ↦ n ∷ rest ]

unfoldable pub splices : Text → Bool
splices token = not (is_some (placeholder token)) && embedded token

unfoldable pub program_of : List Text → Text
program_of [] = []
program_of (t ∷ ts) = t

abbrev resolvable : Files → Text → ExecutionType → Result ValidationError (Unit {0})
resolvable files program ssh = ok tt
resolvable files program local = elim (resolve_binary files program) [
  | ok path ↦ ok tt
  | err e ↦ err program_rejected
]

unfoldable pub validate_template :
    Files → List Text → List ParamSpec → ExecutionType → Result ValidationError (Unit {0})
validate_template files template specs execution_type = do
  raise_if (is_empty template) empty_template
  raise_if (ltb max_argv_tokens (length template)) too_many_tokens
  raise_if (is_some (placeholder (program_of template))) placeholder_program
  raise_if (any splices template) embedded_placeholder
  raise_if (any (λ n. not (is_some (find_spec n specs))) (used_names template)) unknown_params
  raise_if (any (λ (s : ParamSpec). not (among s.name (used_names template))) specs) unused_params
  resolvable files (program_of template) execution_type

unfoldable pub below : ℤ → Option ℤ → Bool
below n none = false
below n (some bound) = ltb_ℤ n bound

unfoldable pub above : ℤ → Option ℤ → Bool
above n none = false
above n (some bound) = ltb_ℤ bound n

unfoldable pub outside_choices : Text → Option (List Text) → Bool
outside_choices text none = false
outside_choices text (some choices) = not (among text choices)

unfoldable pub mismatches : Regex → Text → Option Text → Bool
mismatches regex text none = false
mismatches regex text (some pattern) = not (regex.fullmatch pattern text)

module _ (regex : Regex) where
  unfoldable pub coerce_integer : Text → ParamSpec → Result ValidationError Text
  coerce_integer text spec = do
    number ← or_raise (int_of_text text) param_not_whole
    raise_if (below number spec.minimum) param_too_small
    raise_if (above number spec.maximum) param_too_large
    ok (text_of_int number)

  unfoldable pub coerce_text : Text → ParamSpec → Result ValidationError Text
  coerce_text text spec = do
    raise_if (outside_choices text spec.choices) param_not_a_choice
    raise_if (mismatches regex text spec.pattern) param_no_match
    ok text

  -- Past the test for a missing value.
  unfoldable pub coerce_value : Text → ParamSpec → Result ValidationError Text
  coerce_value text spec = do
    raise_if (ltb max_string_length (length text)) param_too_long
    raise_if (has 0 text) param_has_nul
    elim spec.type [
      | integer ↦ coerce_integer text spec
      | string ↦ coerce_text text spec
      | choice ↦ coerce_text text spec
    ]

  -- `coerce`; a form's values are texts.
  unfoldable pub coerce : Option Text → ParamSpec → Result ValidationError Text
  coerce none spec = if spec.required then err param_required else ok []
  coerce (some []) spec = if spec.required then err param_required else ok []
  coerce (some (c ∷ s)) spec = coerce_value (c ∷ s) spec

-- What building a command may raise: a `ValidationError`, or the `KeyError` of `specs[name]`.
pub data BuildError : Type 0 where
  invalid : ValidationError → BuildError
  key_error : BuildError

unfoldable pub lift : Result ValidationError Text → Result BuildError Text
lift (ok text) = ok text
lift (err e) = err (invalid e)

-- `values.get(name)`
unfoldable pub value_of : Text → List (Text × Text) → Option Text
value_of name [] = none
value_of name ((key, value) ∷ rest) =
    let found = value_of name rest in if eqb name key then some value else found

-- One turn of a loop over a template: a literal token, or what `fill` makes of a placeholder's spec.
unfoldable pub substitute :
    (ParamSpec → Result BuildError Text) → List ParamSpec → Text → Result BuildError Text
substitute fill specs token = elim (placeholder token) [
  | none ↦ ok token
  | some name ↦ do spec ← or_raise (find_spec name specs) key_error; fill spec
]

unfoldable pub each : (Text → Result BuildError Text) → List Text → Result BuildError (List Text)
each f [] = ok []
each f (t ∷ ts) = do x ← f t; xs ← each f ts; ok (x ∷ xs)

module _ (regex : Regex) where
  -- `coerce(values.get(name), spec)`: a spec is found under its own name.
  unfoldable pub fill_in : List (Text × Text) → ParamSpec → Result BuildError Text
  fill_in values spec = lift (coerce regex (value_of spec.name values) spec)

  unfoldable pub masked : List (Text × Text) → ParamSpec → Result BuildError Text
  masked values spec = if spec.secret then ok mask else fill_in values spec

  -- `build_argv`
  unfoldable pub build_argv :
      List Text → List ParamSpec → List (Text × Text) → Result BuildError (List Text)
  build_argv template specs values = each (substitute (fill_in values) specs) template

  -- `build_ssh_command`
  unfoldable pub build_ssh_command :
      List Text → List ParamSpec → List (Text × Text) → Result BuildError Text
  build_ssh_command template specs values = do
    parts ← each (substitute (fill_in values) specs) template
    ok (join (map quote parts))

  -- `build_preview`
  unfoldable pub build_preview :
      Bool → List Text → List ParamSpec → List (Text × Text) → Result BuildError Text
  build_preview quoted template specs values = do
    parts ← each (substitute (masked values) specs) template
    ok (join (if quoted then map quote parts else parts))

-- `redact`
unfoldable pub is_secret : List ParamSpec → Text → Bool
is_secret specs name = elim (find_spec name specs) [ none ↦ false | some s ↦ s.secret ]

unfoldable pub redact : List (Text × Text) → List ParamSpec → List (Text × Text)
redact [] specs = []
redact ((name, value) ∷ rest) specs =
    (name, if is_secret specs name then mask else value) ∷ redact rest specs
