-- ===== src/Actions/Schema/Preview.antt =====
-- The preview of a command: it is there whenever the command is.
use netops_console.Prelude.{
  ◌≡◌, refl, inl, inr, Bool, false, List, [], ◌∷◌, is_empty, map, if◌then◌else◌, ok, Result-cases,
  Bool-cases, Option-cases, arith,
}
use netops_console.Prelude.Text.{Text}
use netops_console.Execution.{Files}
use netops_console.Actions.Shell.{join, quote}
use netops_console.Actions.Schema.{Regex, ExecutionType, ParamSpec, placeholder, mask}
use netops_console.Actions.Schema.Command.{
  find_spec, validate_template, substitute, each, fill_in, masked, build_argv, build_preview,
}

-- A token that is filled in for a run is filled in or masked for the record.
substitute-masked :
    (regex : Regex) (specs : List ParamSpec) (values : List (Text × Text)) (t x : Text)
    → substitute (fill_in regex values) specs t ≡ ok x
    → (y : Text) × (substitute (masked regex values) specs t ≡ ok y)
unfolding substitute masked
substitute-masked regex specs values t x h = elim (Option-cases (placeholder t)) [
  | inl e ↦ (t, ground arith)
  | inr (name, e) ↦ elim (Option-cases (find_spec name specs)) [
    | inl k ↦ ground arith
    | inr (spec, k) ↦ elim (Bool-cases spec.secret) [
      | inl hidden ↦ (mask, ground arith)
      | inr shown ↦ (x, ground arith)
    ]
  ]
]

each-masked :
    (regex : Regex) (specs : List ParamSpec) (values : List (Text × Text)) (ts xs : List Text)
    → each (substitute (fill_in regex values) specs) ts ≡ ok xs
    → (ys : List Text) × (each (substitute (masked regex values) specs) ts ≡ ok ys)
unfolding each
each-masked regex specs values [] xs h = ([], refl)
each-masked regex specs values (t ∷ ts) xs h =
    elim (Result-cases (substitute (fill_in regex values) specs t)) [
      | inl (x, e) ↦ elim (Result-cases (each (substitute (fill_in regex values) specs) ts)) [
        | inl (rest, k) ↦
            let (y, same) = substitute-masked regex specs values t x e in
            let (ys, others) = each-masked regex specs values ts rest k in (y ∷ ys, ground arith)
        | inr (f, k) ↦ ground arith
      ]
      | inr (f, e) ↦ ground arith
    ]

-- An argv that is built has a preview.
pub preview_built :
    (regex : Regex) (quoted : Bool) (template : List Text) (specs : List ParamSpec)
    (values : List (Text × Text)) (argv : List Text)
    → build_argv regex template specs values ≡ ok argv
    → (preview : Text) × (build_preview regex quoted template specs values ≡ ok preview)
unfolding build_argv build_preview
preview_built regex quoted template specs values argv h =
    let (parts, e) = each-masked regex specs values template argv h in
    (join (if quoted then map quote parts else parts), rw e refl)

pub template_not_empty :
    (files : Files) (template : List Text) (specs : List ParamSpec) (execution_type : ExecutionType)
    → validate_template files template specs execution_type ≡ ok tt
    → is_empty template ≡ false
unfolding validate_template
template_not_empty files template specs execution_type h = ground arith
