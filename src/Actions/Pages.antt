-- ===== src/Actions/Pages.antt =====
-- The pages of `app/modules/actions/routes.py` that change the table of definitions, with their
-- entries in the change log (`record_change` of `app/modules/history/changes.py`). A definition's
-- description and its two notes for the operator are left out, and so are the texts of refusals.
pub mod Checked
mod Examples
use netops_console.Prelude.{
  ℕ, Bool, true, false, not, Option, none, some, List, [], ◌∷◌, ◌++◌, map, keep, any, first,
  is_empty, take, ◌==◌, if◌then◌else◌, Result, ok, err,
}
use netops_console.Prelude.Int.{ℤ, pos, negsuc}
use netops_console.Prelude.Text.{Text, codes, strip, split, eqb}
use netops_console.Validation.Errors.{ValidationError}
use netops_console.Execution.{Files}
use netops_console.Actions.Schema.{
  Regex, Json, object, array, Members, no_members, strings, ExecutionType, local, ssh, ParamSpec,
}
use netops_console.Actions.Runs.{ActionDefinition, execution_type_of, validate_definition}
use netops_console.History.Timeline.{ChangeEvent}

-- What a page reads from outside: the libraries, the clock, the next key of the table, the user, and
-- `json.loads`, which is none where it raises `JSONDecodeError`.
pub record Outside : Type 0 where
  pub files : Files
  pub regex : Regex
  pub loads : Text → Option Json
  pub now : ℕ
  pub next_id : ℕ
  pub username : Text

-- The two tables that the pages write.
pub record State : Type 0 where
  pub definitions : List ActionDefinition
  pub changes : List ChangeEvent

pub data Page : Type 0 where
  see_other not_found bad_request internal_server_error : Page

-- The form of `create_action`.
pub record ActionForm : Type 0 where
  pub name : Text
  pub argv_template : Text
  pub execution_type : Text
  pub param_schema : Text
  pub timeout_seconds : ℤ
  pub applicable_types : Text

-- `subject[:255] if subject else None`
unfoldable pub short_subject : Text → Option Text
short_subject [] = none
short_subject (c ∷ s) = some (take 255 (c ∷ s))

-- `record_change`, for a change that is not about a device.
unfoldable pub record_change : Outside → Text → Text → Option Text → ChangeEvent
record_change o kind subject detail = record {
  device_id = none;
  kind = kind;
  subject = short_subject subject;
  detail = detail;
  username_snapshot = some o.username;
  created_at = o.now;
}

-- `_parse_json_field`
unfoldable pub parse_json_field : (Text → Option Json) → Text → Option Json → Option Json
parse_json_field loads raw fallback = if is_empty (strip raw) then fallback else loads (strip raw)

-- A command template: a JSON list of texts.
unfoldable pub template_of : Option Json → Option (List Text)
template_of (some (array items)) = strings items
template_of other = none

-- A parameter schema: a JSON object.
unfoldable pub schema_of : Option Json → Option Members
schema_of (some (object members)) = some members
schema_of other = none

unfoldable pub seconds_of : ℤ → ℕ
seconds_of (pos n) = n
seconds_of (negsuc n) = 0

-- `[entry.strip() for entry in applicable_types.split(",") if entry.strip()]`
unfoldable pub types_of : Text → List Text
types_of text = keep (λ entry. not (is_empty entry)) (map strip (split b',' text))

unfoldable pub definition_of :
    Outside → ActionForm → ExecutionType → List Text → Members → ActionDefinition
definition_of o form kind template members = record {
  id = o.next_id;
  name = strip form.name;
  execution_type = kind;
  argv_template = template;
  param_schema = members;
  timeout_seconds = seconds_of form.timeout_seconds;
  enabled = true;
  applicable_types = types_of form.applicable_types;
}

unfoldable pub type_name : ExecutionType → Text
type_name local = codes "local"
type_name ssh = codes "ssh"

-- The definition that a form describes, if it passes every check.
unfoldable pub checked_definition :
    Outside → ActionForm → Option (List Text) → Option Members → Option ActionDefinition
checked_definition o form none members = none
checked_definition o form (some template) none = none
checked_definition o form (some template) (some members) =
    elim (execution_type_of form.execution_type) [
      | none ↦ none
      | some kind ↦
          elim (validate_definition o.files o.regex form.name form.execution_type template members
            form.timeout_seconds) [
              | err e ↦ none
              | ok specs ↦ some (definition_of o form kind template members)
            ]
    ]

-- The table has no two definitions of one name: the commit of a second one is an exception.
unfoldable pub store : Outside → Option ActionDefinition → State → Page × State
store o none s = (bad_request, s)
store o (some definition) s =
    let stored : State = record {
      definitions = s.definitions ++ definition ∷ [];
      changes =
          s.changes
          ++ record_change o (codes "action_created") definition.name
              (some (type_name definition.execution_type ++ codes " action defined"))
            ∷ [];
    } in
    if any (λ (d : ActionDefinition). eqb d.name definition.name) s.definitions
    then (internal_server_error, s)
    else (see_other, stored)

unfoldable pub create_action : Outside → ActionForm → State → Page × State
create_action o form s =
    let template = template_of (parse_json_field o.loads form.argv_template none) in
    let members =
      schema_of (parse_json_field o.loads form.param_schema (some (object no_members))) in
    store o (checked_definition o form template members) s

-- The rows with the one of a key switched.
unfoldable pub switch : ℕ → List ActionDefinition → List ActionDefinition
switch id [] = []
switch id (d ∷ ds) =
    let rest = switch id ds in
    if d.id == id then record d { enabled = not d.enabled } ∷ rest else d ∷ rest

abbrev find_definition : ℕ → State → Option ActionDefinition
find_definition id s = first (λ (d : ActionDefinition). d.id == id) s.definitions

unfoldable pub toggle_action : Outside → ℕ → State → Page × State
toggle_action o id s = elim (find_definition id s) [
  | none ↦ (not_found, s)
  | some definition ↦ (
    see_other,
    record {
      definitions = switch id s.definitions;
      changes =
          s.changes
          ++ record_change o
              (if definition.enabled then codes "action_disabled" else codes "action_enabled")
              definition.name none
            ∷ [];
    },
  )
]

unfoldable pub delete_action : Outside → ℕ → State → Page × State
delete_action o id s = elim (find_definition id s) [
  | none ↦ (not_found, s)
  | some definition ↦ (
    see_other,
    record {
      definitions = keep (λ (d : ActionDefinition). not (d.id == id)) s.definitions;
      changes =
          s.changes
          ++ record_change o (codes "action_deleted") definition.name
              (some (type_name definition.execution_type ++ codes " action deleted"))
            ∷ [];
    },
  )
]
