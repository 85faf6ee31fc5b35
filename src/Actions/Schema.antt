-- ===== src/Actions/Schema.antt =====
-- `app/modules/actions/schema.py`: the parameters of an action, and the command they are put into.
pub mod Build
pub mod Preview
pub mod Command
pub mod Limits
use netops_console.Prelude.{
  ℕ, zero, suc, ◌+◌, ◌/◌, ◌%◌, Bool, true, false, not, ◌&&◌, ◌||◌, Option, none, some, List, [],
  ◌∷◌, any, all, length, is_empty, is_some, or_else, leb, ltb, ◌==◌, if◌then◌else◌, Result, ok, err,
  ◌>>=◌, ◌>>◌, raise_if, or_raise,
}
use netops_console.Prelude.Int.{ℤ, pos, negsuc, ltb_ℤ}
use netops_console.Prelude.Text.{
  Text, codes, eqb, has, strip, is_alpha, is_digit, int_of_text, matches_line, chomp,
}
use netops_console.Validation.Errors.{
  ValidationError, too_many_params, bad_param_name, definition_not_object, bad_param_type,
  pattern_not_string, useless_pattern, bad_pattern, ssh_needs_constraint, bad_choices,
  choice_not_string, bound_not_whole, empty_template, too_many_tokens, placeholder_program,
  embedded_placeholder, unknown_params, unused_params, program_rejected, param_required,
  param_too_long, param_has_nul, param_not_whole, param_too_small, param_too_large,
  param_not_a_choice, param_no_match,
}
use netops_console.Execution.{among, Files, resolve_binary}

-- A value of the stored schema. A number with a fraction is given by what `int` makes of it, and
-- by whether it is zero; the infinite numbers and the NaN that `json.loads` also reads are left out.
mutual
  pub data Json : Type 0 where
    null : Json
    boolean : Bool → Json
    integer_value : ℤ → Json
    decimal : ℤ → Bool → Json
    string_value : Text → Json
    array : Items → Json
    object : Members → Json

  pub data Items : Type 0 where
    no_items : Items
    item : Json → Items → Items

  pub data Members : Type 0 where
    no_members : Members
    member : Text → Json → Members → Members

-- The `re` module.
pub record Regex : Type 0 where
  pub compiles : Text → Bool
  pub fullmatch : Text → Text → Bool

pub data ExecutionType : Type 0 where
  local ssh : ExecutionType

pub data ParamType : Type 0 where
  string integer choice : ParamType

pub record ParamSpec : Type 0 where
  pub name : Text
  pub type : ParamType
  pub pattern : Option Text
  pub minimum : Option ℤ
  pub maximum : Option ℤ
  pub choices : Option (List Text)
  pub required : Bool
  pub secret : Bool
  pub description : Json

abbrev pub max_params : ℕ
max_params = 10

abbrev pub max_argv_tokens : ℕ
max_argv_tokens = 32

abbrev pub max_string_length : ℕ
max_string_length = 256

abbrev pub mask : Text
mask = codes "[redacted]"

-- `_USELESS_PATTERNS`
abbrev pub useless_patterns : List Text
useless_patterns =
    codes ".*"
    ∷ codes "^.*$"
    ∷ codes ".+"
    ∷ codes "^.+$"
    ∷ []
    ∷ codes "^$"
    ∷ codes "(.*)"
    ∷ codes "^(.*)$"
    ∷ []

-- `[a-z]` under `re.IGNORECASE`, with the four letters outside ASCII that fold to one of these.
unfoldable pub is_letter : ℕ → Bool
is_letter c = is_alpha c || c == 0x130 || c == 0x131 || c == 0x17F || c == 0x212A

unfoldable pub is_name_char : ℕ → Bool
is_name_char c = is_letter c || is_digit c || c == b'_'

-- `[a-z][a-z0-9_]{0,31}`, the whole text.
unfoldable pub is_name : Text → Bool
is_name [] = false
is_name (c ∷ s) = is_letter c && all is_name_char s && leb (length s) 31

-- `PARAM_NAME.match`
unfoldable pub param_name : Text → Bool
param_name = matches_line is_name

-- The text up to a closing brace that ends it.
unfoldable pub inside : Text → Option Text
inside [] = none
inside (c ∷ []) = if c == b'}' then some [] else none
inside (c ∷ d ∷ s) = let rest = inside (d ∷ s) in elim rest [ none ↦ none | some r ↦ some (c ∷ r) ]

unfoldable pub braced : Text → Option Text
braced [] = none
braced (c ∷ s) =
    if c == b'{'
    then (elim (inside s) [ none ↦ none | some n ↦ if is_name n then some n else none ])
    else none

-- `PLACEHOLDER.match(token)`: its group.
unfoldable pub placeholder : Text → Option Text
placeholder token = elim (braced token) [ some n ↦ some n | none ↦ braced (chomp token) ]

-- `[a-z0-9_]*\}` at the start of a text.
unfoldable pub closes : Text → Bool
closes [] = false
closes (c ∷ s) = c == b'}' || is_name_char c && closes s

abbrev starts_name : Text → Bool
starts_name [] = false
starts_name (c ∷ s) = is_letter c && closes s

-- `EMBEDDED.search(token)`
unfoldable pub embedded : Text → Bool
embedded [] = false
embedded (c ∷ s) = c == b'{' && starts_name s || embedded s

-- `definition.get(key)`
unfoldable pub member_of : Text → Members → Option Json
member_of key no_members = none
member_of key (member name value rest) =
    let found = member_of key rest in if eqb name key then some value else found

unfoldable pub count_members : Members → ℕ
count_members no_members = 0
count_members (member name value rest) = suc (count_members rest)

-- `bool(value)`
unfoldable pub is_true : Json → Bool
is_true null = false
is_true (boolean b) = b
is_true (integer_value n) = elim n [ pos k ↦ not (k == 0) | negsuc k ↦ true ]
is_true (decimal n nonzero) = nonzero
is_true (string_value s) = not (is_empty s)
is_true (array items) = elim items [ no_items ↦ false | item x xs ↦ true ]
is_true (object members) = elim members [ no_members ↦ false | member k v rest ↦ true ]

abbrev get_or : Text → Json → Members → Json
get_or key default members = or_else (member_of key members) default

-- `kind not in PARAM_TYPES`
unfoldable pub param_type : Json → Option ParamType
param_type (string_value s) =
    if eqb s (codes "string")
    then some string
    else if eqb s (codes "integer")
    then some integer
    else if eqb s (codes "choice")
    then some choice
    else none
param_type other = none

module _ (regex : Regex) where
  unfoldable pub checked_pattern : Json → Result ValidationError (Option Text)
  checked_pattern null = ok none
  checked_pattern (string_value s) = do
    raise_if (among (strip s) useless_patterns) useless_pattern
    raise_if (not (regex.compiles s)) bad_pattern
    ok (some s)
  checked_pattern other = err pattern_not_string

unfoldable pub strings : Items → Option (List Text)
strings no_items = some []
strings (item x xs) =
    let rest = strings xs in
    elim x [ string_value s ↦ elim rest [ none ↦ none | some ss ↦ some (s ∷ ss) ] | _ ↦ none ]

unfoldable pub checked_choices : Json → Result ValidationError (Option (List Text))
checked_choices null = ok none
checked_choices (array no_items) = err bad_choices
checked_choices (array (item x xs)) = do
  ss ← or_raise (strings (item x xs)) choice_not_string
  ok (some ss)
checked_choices other = err bad_choices

-- `_optional_int`
unfoldable pub optional_int : Json → Result ValidationError (Option ℤ)
optional_int null = ok none
optional_int (boolean b) = ok (some (pos (if b then 1 else 0)))
optional_int (integer_value n) = ok (some n)
optional_int (decimal n nonzero) = ok (some n)
optional_int (string_value s) = do n ← or_raise (int_of_text s) bound_not_whole; ok (some n)
optional_int other = err bound_not_whole

unfoldable pub is_ssh : ExecutionType → Bool
is_ssh local = false
is_ssh ssh = true

unfoldable pub is_string : ParamType → Bool
is_string string = true
is_string integer = false
is_string choice = false

-- `not pattern`
unfoldable pub no_pattern : Option Text → Bool
no_pattern none = true
no_pattern (some s) = is_empty s

-- One turn of the loop of `parse_schema`.
unfoldable pub parse_param : Regex → ExecutionType → Text → Json → Result ValidationError ParamSpec
parse_param regex execution_type name (object definition) = do
  raise_if (not (param_name name)) bad_param_name
  kind ←
      or_raise (param_type (get_or (codes "type") (string_value (codes "string")) definition))
        bad_param_type
  let choices = get_or (codes "choices") null definition
  pattern ← checked_pattern regex (get_or (codes "pattern") null definition)
  raise_if (is_ssh execution_type && is_string kind && no_pattern pattern && not (is_true choices))
      ssh_needs_constraint
  accepted ← checked_choices choices
  minimum ← optional_int (get_or (codes "min") null definition)
  maximum ← optional_int (get_or (codes "max") null definition)
  ok (record {
    name = name;
    type = kind;
    pattern = pattern;
    minimum = minimum;
    maximum = maximum;
    choices = accepted;
    required = is_true (get_or (codes "required") (boolean true) definition);
    secret = is_true (get_or (codes "secret") (boolean false) definition);
    description = get_or (codes "description") null definition;
  })
parse_param regex execution_type name other = do
  raise_if (not (param_name name)) bad_param_name
  err definition_not_object

unfoldable pub parse_params :
    Regex → ExecutionType → Members → Result ValidationError (List ParamSpec)
parse_params regex execution_type no_members = ok []
parse_params regex execution_type (member name definition rest) = do
  spec ← parse_param regex execution_type name definition
  specs ← parse_params regex execution_type rest
  ok (spec ∷ specs)

-- `parse_schema`. The names of an object are distinct, so that each adds its own entry.
unfoldable pub parse_schema :
    Regex → ExecutionType → Members → Result ValidationError (List ParamSpec)
parse_schema regex execution_type raw = do
  raise_if (ltb max_params (count_members raw)) too_many_params
  parse_params regex execution_type raw
