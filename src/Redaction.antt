-- ===== src/Redaction.antt =====
-- `app/core/redaction.py`: what happens to the output of a program before it is stored.
pub mod Clean
mod Examples
use netops_console.Prelude.{
  ℕ, zero, suc, ◌+◌, ◌-◌, ◌*◌, Bool, true, false, not, ◌&&◌, ◌||◌, Option, none, some, List, [],
  ◌∷◌, ◌++◌, keep, length, is_empty, leb, ltb, ◌==◌, if◌then◌else◌,
}
use netops_console.Prelude.Text.{Text, codes}

abbrev range : ℕ → ℕ → ℕ → Bool
range lo hi c = leb lo c && leb c hi

-- `_CONTROL`: the control characters but the tab and the line feed, with those from 127 to 159.
unfoldable pub is_control : ℕ → Bool
is_control c = leb c 8 || range 11 31 c || range 127 159 c

-- Of a text behind `\x1B[`: the length of `[0-?]*[ -/]*[@-~]`.
unfoldable pub csi : Bool → Text → Option ℕ
csi intermediate [] = none
csi intermediate (c ∷ s) =
    let parameters = csi false s in
    let more = csi true s in
    if range 0x40 0x7E c
    then some 1
    else if range 0x20 0x2F c
    then (elim more [ none ↦ none | some n ↦ some (suc n) ])
    else if range 0x30 0x3F c && not intermediate
    then (elim parameters [ none ↦ none | some n ↦ some (suc n) ])
    else none

-- Of a text behind `\x1B]`: the length up to the first BEL or ST, included.
unfoldable pub osc : Text → Option ℕ
osc [] = none
osc (c ∷ s) =
    let rest = osc s in
    if c == 7
    then some 1
    else if c == 27 && starts_with_backslash s
    then some 2
    else (elim rest [ none ↦ none | some n ↦ some (suc n) ])
  where
    starts_with_backslash : Text → Bool
    starts_with_backslash [] = false
    starts_with_backslash (d ∷ t) = d == 92

-- Of a text behind `\x1B`: how much more `_ANSI` matches.
unfoldable pub escape : Text → Option ℕ
escape [] = none
escape (c ∷ s) =
    if c == b'['
    then (elim (csi false s) [ none ↦ none | some n ↦ some (suc n) ])
    else if c == b']'
    then (elim (osc s) [ none ↦ some 1 | some n ↦ some (suc n) ])
    else if range 0x40 0x5A c || range 0x5C 0x5F c
    then some 1
    else none

-- `_ANSI.sub("", text)`, after as many characters as a match still covers.
unfoldable pub strip_ansi : ℕ → Text → Text
strip_ansi covered [] = []
strip_ansi (suc covered) (c ∷ s) = strip_ansi covered s
strip_ansi zero (c ∷ s) =
    let plain = c ∷ strip_ansi 0 s in
    if c == 27 then (elim (escape s) [ none ↦ plain | some n ↦ strip_ansi n s ]) else plain

unfoldable pub strip_control_characters : Text → Text
strip_control_characters text = keep (λ c. not (is_control c)) (strip_ansi 0 text)

abbrev pub mask : Text
mask = codes "[redacted]"

abbrev pub truncation_notice : Text
truncation_notice = 10 ∷ 10 ∷ codes "[output truncated " ++ 0x2014 ∷ codes " limit reached]"

unfoldable pub starts_with : Text → Text → Bool
starts_with [] s = true
starts_with (c ∷ prefix) [] = false
starts_with (c ∷ prefix) (d ∷ s) = c == d && starts_with prefix s

-- `text.replace(value, MASK)`, after as many characters as an occurrence still covers.
unfoldable pub replace : Text → ℕ → Text → Text
replace value covered [] = []
replace value (suc covered) (c ∷ s) = replace value covered s
replace value zero (c ∷ s) =
    let rest = replace value 0 s in
    let behind = replace value (length value - 1) s in
    if starts_with value (c ∷ s) then mask ++ behind else c ∷ rest

unfoldable pub redact_values : Text → List Text → Text
redact_values text [] = text
redact_values text (value ∷ values) =
    redact_values (if leb 4 (length value) then replace value 0 text else text) values

-- The number of bytes of a code point, where a surrogate is written as `?`.
unfoldable pub utf8_length : ℕ → ℕ
utf8_length c =
    if ltb c 0x80 || range 0xD800 0xDFFF c
    then 1
    else if ltb c 0x800
    then 2
    else if ltb c 0x10000
    then 3
    else 4

unfoldable pub encoded_length : Text → ℕ
encoded_length [] = 0
encoded_length (c ∷ s) = utf8_length c + encoded_length s

-- The whole characters among the first bytes of a text.
unfoldable pub clip : ℕ → Text → Text
clip budget [] = []
clip budget (c ∷ s) =
    let rest = clip (budget - utf8_length c) s in
    if leb (utf8_length c) budget then (if range 0xD800 0xDFFF c then b'?' else c) ∷ rest else []

unfoldable pub truncate : ℕ → Text → Text × Bool
truncate max_bytes text =
    if leb (encoded_length text) max_bytes
    then (text, false)
    else (clip max_bytes text ++ truncation_notice, true)

-- A regular expression: its source, and whether a dot matches a line feed.
pub record Pattern : Type 0 where
  pub source : Text
  pub dotall : Bool

abbrev line_pattern : Text → Pattern
line_pattern source = record { source = source; dotall = false }

-- `_SECRET_PATTERNS`
unfoldable pub secret_patterns : List Pattern
secret_patterns =
    line_pattern (codes "(?i)\\b(password|passwd|pwd|secret|token|api[_-]?key)\\b\\s*[:=]\\s*.+")
    ∷ line_pattern (codes "(?i)\\bauthorization\\s*:\\s*.+")
    ∷ record {
      source = codes "-----BEGIN [A-Z ]*PRIVATE KEY-----.*?-----END [A-Z ]*PRIVATE KEY-----";
      dotall = true;
    }
    ∷ line_pattern (codes "(?i)\\bssh-(?:rsa|ed25519|dss)\\s+[A-Za-z0-9+/=]{40,}")
    ∷ []

-- The `re` module: `sub pattern replacement text`.
pub record Re : Type 0 where
  pub sub : Pattern → Text → Text → Text

unfoldable pub sub_all : Re → List Pattern → Text → Text
sub_all re [] text = text
sub_all re (pattern ∷ patterns) text = sub_all re patterns (re.sub pattern mask text)

unfoldable pub mask_secrets : Re → Text → Text
mask_secrets re text = sub_all re secret_patterns text

module _ (re : Re) where
  unfoldable pub sanitize : ℕ → List Text → Text → Text × Bool
  sanitize max_bytes secret_values text =
      truncate max_bytes
        (mask_secrets re (redact_values (strip_control_characters text) secret_values))
