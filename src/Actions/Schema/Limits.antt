-- ===== src/Actions/Schema/Limits.antt =====
-- What an SSH action puts into its command line.
use netops_console.Prelude.{
  false, refl, ◌≡◌, ◌≢◌, ◌⊎◌, inl, inr, Bool, true, not, ◌||◌, is_some, or_else, sym, Option, none,
  some, List, [], ◌∷◌, ok, Result-cases, Option-cases, arith, All,
}
use netops_console.Prelude.Int.{ℤ}
use netops_console.Prelude.Text.{Text, codes, int_of_text, text_of_int}
use netops_console.Execution.{among}
use netops_console.Actions.Schema.{
  Regex, ssh, ParamSpec, ParamType, string, integer, choice, Json, object, Members, member,
  no_members, null, boolean, integer_value, decimal, string_value, array, item, no_items, strings,
  member_of, parse_schema, parse_params, parse_param, is_ssh, is_string, no_pattern,
  checked_choices, is_true,
}
use netops_console.Actions.Schema.Command.{
  find_spec, coerce, coerce_integer, coerce_value, coerce_text, below, above, outside_choices,
  mismatches,
}
use netops_console.Actions.Schema.Build.{All-find_spec}

-- The spec of a text has a pattern or choices.
unfoldable has_limit : ParamSpec → Bool
has_limit s = not (is_string s.type) || not (no_pattern s.pattern) || is_some s.choices

abbrev HasLimit : ParamSpec → Type 0
HasLimit s = has_limit s ≡ true

choices-some :
    (json : Json) (c : Option (List Text))
    → is_true json ≡ true
    → checked_choices json ≡ ok c
    → is_some c ≡ true
unfolding checked_choices is_true
choices-some null c h k = ground arith
choices-some (array no_items) c h k = ground arith
choices-some (array (item x xs)) c h k = elim (Option-cases (strings (item x xs))) [
  | inl e ↦ ground arith
  | inr (ss, e) ↦ ground arith
]
choices-some (boolean b) c h k = ground arith
choices-some (integer_value n) c h k = ground arith
choices-some (decimal n b) c h k = ground arith
choices-some (string_value t) c h k = ground arith
choices-some (object m) c h k = ground arith

parse_param-HasLimit :
    (regex : Regex) (name : Text) (json : Json) (s : ParamSpec)
    → parse_param regex ssh name json ≡ ok s
    → HasLimit s
unfolding parse_param is_ssh has_limit
parse_param-HasLimit regex name (object definition) s h =
    let choices = or_else (member_of (codes "choices") definition) null in
    elim (Result-cases (checked_choices choices)) [
      | inl (c, e) ↦ ground (arith, choices-some choices c)
      | inr (f, e) ↦ ground arith
    ]
parse_param-HasLimit regex name null s h = ground arith
parse_param-HasLimit regex name (boolean b) s h = ground arith
parse_param-HasLimit regex name (integer_value n) s h = ground arith
parse_param-HasLimit regex name (decimal n b) s h = ground arith
parse_param-HasLimit regex name (string_value t) s h = ground arith
parse_param-HasLimit regex name (array xs) s h = ground arith

All-HasLimit :
    (regex : Regex) (raw : Members) (specs : List ParamSpec)
    → parse_params regex ssh raw ≡ ok specs
    → All HasLimit specs
unfolding parse_params
All-HasLimit regex no_members [] h = tt
All-HasLimit regex no_members (s ∷ specs) h = cc
All-HasLimit regex (member name json rest) specs h =
    elim (Result-cases (parse_param regex ssh name json)) [
      | inl (s, e) ↦ elim (Result-cases (parse_params regex ssh rest)) [
        | inl (ss, k) ↦
            let same : s ∷ ss ≡ specs = ground arith in
            rw (sym same) (parse_param-HasLimit regex name json s e, All-HasLimit regex rest ss k)
        | inr (f, k) ↦ ground arith
      ]
      | inr (f, e) ↦ ground arith
    ]

-- What a parameter may be replaced with: nothing, for an integer a number in its bounds written out
-- in decimal digits, and else one of its choices, or a text that its pattern matches as a whole.
abbrev pub Constrained : Regex → ParamSpec → Text → Type 0
Constrained regex s text =
    (text ≡ [])
    ⊎ (s.type ≡ integer)
      × ((n : ℤ) × (text ≡ text_of_int n)
          × (below n s.minimum ≡ false)
          × (above n s.maximum ≡ false))
    ⊎ ((choices : List Text) × (s.choices ≡ some choices) × (among text choices ≡ true))
    ⊎ ((pattern : Text) × (s.pattern ≡ some pattern) × (regex.fullmatch pattern text ≡ true))

coerce_integer-InBounds :
    (regex : Regex) (s : ParamSpec) (raw text : Text)
    → coerce_integer regex raw s ≡ ok text
    → (n : ℤ) × (text ≡ text_of_int n) × (below n s.minimum ≡ false) × (above n s.maximum ≡ false)
unfolding coerce_integer
coerce_integer-InBounds regex s raw text h = elim (Option-cases (int_of_text raw)) [
  | inl e ↦ ground arith
  | inr (n, e) ↦ (n, ground arith, ground arith, ground arith)
]

coerce_text-Constrained :
    (regex : Regex) (s : ParamSpec) (raw text : Text)
    → HasLimit s
    → s.type ≡ string
    → coerce_text regex raw s ≡ ok text
    → Constrained regex s text
unfolding coerce_text has_limit outside_choices mismatches no_pattern is_string
coerce_text-Constrained regex s raw text limit kind h = elim (Option-cases s.choices) [
  | inl e ↦ elim (Option-cases s.pattern) [ inl k ↦ ground arith | inr (pattern, k) ↦ ground arith ]
  | inr (choices, e) ↦ ground arith
]

coerce-Constrained :
    (regex : Regex) (s : ParamSpec) (kind : ParamType) (value : Option Text) (text : Text)
    → s.type ≡ kind
    → HasLimit s
    → s.type ≢ choice
    → coerce regex value s ≡ ok text
    → Constrained regex s text
unfolding coerce coerce_value
coerce-Constrained regex s kind none text e limit other h = inl (ground arith)
coerce-Constrained regex s kind (some []) text e limit other h = inl (ground arith)
coerce-Constrained regex s integer (some (x ∷ xs)) text e limit other h =
    inr (inl (e, coerce_integer-InBounds regex s (x ∷ xs) text (ground arith)))
coerce-Constrained regex s string (some (x ∷ xs)) text e limit other h =
    coerce_text-Constrained regex s (x ∷ xs) text limit e (ground arith)
coerce-Constrained regex s choice (some (x ∷ xs)) text e limit other h = absurd (other e)

-- If a schema is accepted for SSH, each parameter whose type is not a choice is only ever replaced
-- with nothing, for an integer with a number within its bounds in decimal digits, and for a text
-- with one of its choices or with a text that its pattern matches.
pub parse_schema-Constrained :
    (regex : Regex) (raw : Members) (specs : List ParamSpec) (name : Text) (s : ParamSpec)
    (value : Option Text) (text : Text)
    → parse_schema regex ssh raw ≡ ok specs
    → find_spec name specs ≡ some s
    → s.type ≢ choice
    → coerce regex value s ≡ ok text
    → Constrained regex s text
unfolding parse_schema
parse_schema-Constrained regex raw specs name s value text h found kind coerced =
    coerce-Constrained regex s s.type value text refl
      (All-find_spec HasLimit name specs s (All-HasLimit regex raw specs (ground arith)) found) kind
      coerced
