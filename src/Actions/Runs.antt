-- ===== src/Actions/Runs.antt =====
-- `app/modules/actions/service.py`: which actions a device is offered, the check of a definition,
-- and a run with the record it leaves (`app/models/action.py`).
use netops_console.Prelude.{
  ℕ, Bool, true, not, ◌&&◌, ◌||◌, Option, none, some, List, [], String, any, keep, length, is_empty,
  ltb, if◌then◌else◌, Result, ok, ◌>>=◌, ◌>>◌, raise_if, or_raise,
}
use netops_console.Prelude.Int.{ℤ, pos, leb_ℤ}
use netops_console.Prelude.Sort.{sort}
use netops_console.Prelude.Text.{Text, codes, eqb, strip, text_leb}
use netops_console.Net.{Network}
use netops_console.Net.Parse.{Ipv6}
use netops_console.Validation.Errors.{
  ValidationError, no_name, name_too_long, bad_execution_type, bad_timeout, address_blocked,
  address_outside,
}
use netops_console.Validation.{parse_ipv4, is_blocked, address_in_allowlist}
use netops_console.Execution.{Files}
use netops_console.Discovery.Inventory.{Device}
use netops_console.Actions.Schema.{
  Regex, Members, ExecutionType, local, ssh, ParamSpec, parse_schema,
}
use netops_console.Actions.Schema.Command.{validate_template}

abbrev pub max_timeout_seconds : ℕ
max_timeout_seconds = 300

-- A row of `action_definition`.
pub record ActionDefinition : Type 0 where
  pub id : ℕ
  pub name : Text
  pub execution_type : ExecutionType
  pub argv_template : List Text
  pub param_schema : Members
  pub timeout_seconds : ℕ
  pub enabled : Bool
  pub applicable_types : List Text

-- `list_definitions`
unfoldable pub list_definitions : Bool → List ActionDefinition → List ActionDefinition
list_definitions enabled_only definitions =
    sort (λ (a : ActionDefinition) (b : ActionDefinition). text_leb a.name b.name)
      (keep (λ (d : ActionDefinition). d.enabled || not enabled_only) definitions)

abbrev text_or_empty : Option String → Text
text_or_empty none = []
text_or_empty (some s) = codes s

-- `applicable_to`; `lower` is `str.lower`.
unfoldable pub applicable_to : (Text → Text) → ActionDefinition → Device → Bool
applicable_to lower definition device =
    is_empty definition.applicable_types
    || any (λ entry. eqb (lower (strip entry)) (lower (strip (text_or_empty device.device_type))))
        definition.applicable_types

unfoldable pub actions_for_device :
    (Text → Text) → List ActionDefinition → Device → List ActionDefinition
actions_for_device lower definitions device =
    keep (λ d. applicable_to lower d device) (list_definitions true definitions)

-- `execution_type` of a form.
unfoldable pub execution_type_of : Text → Option ExecutionType
execution_type_of s =
    if eqb s (codes "local") then some local else if eqb s (codes "ssh") then some ssh else none

-- `validate_definition`
unfoldable pub validate_definition :
    Files → Regex → Text → Text → List Text → Members → ℤ → Result ValidationError (List ParamSpec)
validate_definition files regex name execution_type argv_template param_schema timeout_seconds = do
  raise_if (is_empty (strip name)) no_name
  raise_if (ltb 128 (length name)) name_too_long
  kind ← or_raise (execution_type_of execution_type) bad_execution_type
  raise_if (not (leb_ℤ (pos 1) timeout_seconds && leb_ℤ timeout_seconds (pos max_timeout_seconds)))
      bad_timeout
  specs ← parse_schema regex kind param_schema
  validate_template files argv_template specs kind
  ok specs

-- `_validate_target`
unfoldable pub validate_target : Ipv6 → Device → List Network → Result ValidationError ℕ
validate_target ipv6 device allowed = do
  address ← parse_ipv4 ipv6 (codes device.ip_address)
  raise_if (is_blocked address) address_blocked
  raise_if (not (address_in_allowlist address allowed)) address_outside
  ok address
