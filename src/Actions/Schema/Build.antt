-- ===== src/Actions/Schema/Build.antt =====
-- What a checked action makes of the values of a form.
use netops_console.Prelude.{
  ◌≡◌, ◌≢◌, ◌⊎◌, inl, inr, sym, true, false, not, some, List, [], ◌∷◌, any, all, length, is_some,
  Result, ok, err, Result-cases, Bool-cases, Option-cases, arith, All,
}
use netops_console.Prelude.Text.{Text, eqb}
use netops_console.Validation.Errors.{ValidationError}
use netops_console.Execution.{Files}
use netops_console.Actions.Shell.{shell_words, shell_words-join-quote}
use netops_console.Actions.Schema.{Regex, ExecutionType, ParamSpec, placeholder}
use netops_console.Actions.Schema.Command.{
  BuildError, invalid, key_error, find_spec, used_names, program_of, validate_template, coerce,
  lift, value_of, substitute, each, fill_in, build_argv, build_ssh_command,
}

-- An SSH server whose shell splits the line it is sent into words reads the very arguments that the
-- same action hands to a local program.
pub shell_words-build_ssh_command :
    (regex : Regex) (template : List Text) (specs : List ParamSpec) (values : List (Text × Text))
    (line : Text)
    → build_ssh_command regex template specs values ≡ ok line
    → (argv : List Text) × (build_argv regex template specs values ≡ ok argv)
      × (shell_words line ≡ some argv)
unfolding build_ssh_command build_argv
shell_words-build_ssh_command regex template specs values line h =
    elim (Result-cases (each (substitute (fill_in regex values) specs) template)) [
      | inl (argv, e) ↦ (argv, e, ground (arith, shell_words-join-quote argv))
      | inr (f, e) ↦ ground arith
    ]

pub All-find_spec :
    (P : ParamSpec → Type 0) (name : Text) (specs : List ParamSpec) (s : ParamSpec)
    → All P specs
    → find_spec name specs ≡ some s
    → P s
unfolding find_spec
All-find_spec P name [] s all h = cc
All-find_spec P name (spec ∷ specs) s all h = elim (Bool-cases (eqb name spec.name)) [
  | inl e ↦ let same : spec ≡ s = ground arith in rw (sym same) all.0
  | inr e ↦ All-find_spec P name specs s all.1 (ground arith)
]

-- The forms give the same value to each parameter that is not secret.
abbrev pub Agree : List (Text × Text) → List (Text × Text) → List ParamSpec → Type 0
Agree values others specs =
    All (λ s. (s.secret ≡ true) ⊎ (value_of s.name values ≡ value_of s.name others)) specs

-- What a passed check says.
record Checked (template : List Text) (specs : List ParamSpec) : Type 0 where
  literal_program : is_some (placeholder (program_of template)) ≡ false
  all_known : any (λ n. not (is_some (find_spec n specs))) (used_names template) ≡ false

checked :
    (files : Files) (template : List Text) (specs : List ParamSpec) (execution_type : ExecutionType)
    → validate_template files template specs execution_type ≡ ok tt
    → Checked template specs
unfolding validate_template
checked files template specs execution_type h = record {
  literal_program = ground arith;
  all_known = ground arith;
}

lift-no_key : (r : Result ValidationError Text) → lift r ≢ err key_error
unfolding lift
lift-no_key (ok t) h = cc
lift-no_key (err e) h = cc

each-no_key :
    (regex : Regex) (specs : List ParamSpec) (values : List (Text × Text)) (ts : List Text)
    → any (λ n. not (is_some (find_spec n specs))) (used_names ts) ≡ false
    → each (substitute (fill_in regex values) specs) ts ≢ err key_error
unfolding each substitute used_names any fill_in
each-no_key regex specs values [] known h = cc
each-no_key regex specs values (t ∷ ts) known h = elim (Option-cases (placeholder t)) [
  | inl e ↦ ground (arith, each-no_key regex specs values ts)
  | inr (name, e) ↦ elim (Option-cases (find_spec name specs)) [
    | inl k ↦ ground arith
    | inr (s, k) ↦ ground (
      arith,
      each-no_key regex specs values ts,
      lift-no_key (coerce regex (value_of s.name values) s),
    )
  ]
]

length-each :
    (f : Text → Result BuildError Text) (ts xs : List Text)
    → each f ts ≡ ok xs
    → length xs ≡ length ts
unfolding each
length-each f [] xs h = ground arith
length-each f (t ∷ ts) xs h = elim (Result-cases (f t)) [
  | inl (x, e) ↦ elim (Result-cases (each f ts)) [
    | inl (ys, k) ↦ ground (arith, length-each f ts ys k)
    | inr (g, k) ↦ ground arith
  ]
  | inr (g, e) ↦ ground arith
]

program-each :
    (regex : Regex) (specs : List ParamSpec) (values : List (Text × Text)) (ts xs : List Text)
    → is_some (placeholder (program_of ts)) ≡ false
    → each (substitute (fill_in regex values) specs) ts ≡ ok xs
    → program_of xs ≡ program_of ts
unfolding each substitute program_of
program-each regex specs values [] xs literal h = ground arith
program-each regex specs values (t ∷ ts) xs literal h = ground arith

-- What building from a checked template comes to: an argv with the template's program and one
-- argument for each of its tokens, or a refused value.
abbrev pub Built : List Text → Result BuildError (List Text) → Type 0
Built template built =
    ((argv : List Text) × (built ≡ ok argv)
      × (program_of argv ≡ program_of template)
      × (length argv ≡ length template))
    ⊎ ((e : ValidationError) × (built ≡ err (invalid e)))

-- A template that passed the check is built, whatever the values are, into an argv with the
-- template's program and one argument for each of its tokens, unless a value is refused. No
-- placeholder lacks its spec.
pub validate_template-build_argv :
    (files : Files) (regex : Regex) (template : List Text) (specs : List ParamSpec)
    (execution_type : ExecutionType) (values : List (Text × Text))
    → validate_template files template specs execution_type ≡ ok tt
    → Built template (build_argv regex template specs values)
unfolding build_argv
validate_template-build_argv files regex template specs execution_type values h =
    let c = checked files template specs execution_type h in
    elim (Result-cases (each (substitute (fill_in regex values) specs) template)) [
      | inl (argv, e) ↦ inl (
        argv,
        e,
        program-each regex specs values template argv c.literal_program e,
        length-each _ template argv e,
      )
      | inr (key_error, e) ↦ elim (each-no_key regex specs values template c.all_known e) [ ]
      | inr (invalid f, e) ↦ inr (f, e)
    ]
