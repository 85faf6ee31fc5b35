-- ===== src/Prelude/Text.antt =====
-- Text that the program walks: a list of code points, with the `str` methods in use.
use Prim.Native.Nat.{ℕ, zero, suc, ◌+◌, ◌-◌, ◌*◌, ◌/◌, ◌%◌, ◌<◌}
use Prim.Native.Char.{code}
use Prim.Native.String.{String}
use mathlib.Core.Path.{◌≡◌, refl, ap, ◌∙◌}
use mathlib.Core.Logic.{◌↔◌, inl, inr}
use mathlib.Core.Bool.{Bool, true, false, ◌&&◌, ◌||◌}
use mathlib.Core.Option
use mathlib.Core.Option.{Option, none, some}
use mathlib.Core.List.{List, [], ◌∷◌, reverse}
use native.Mathlib.Omega.{arith}
use netops_console.Prelude.Tests.{Bool-cases, leb, ltb, ◌==◌, if◌then◌else◌}
use netops_console.Prelude.Lists.{all}
use netops_console.Prelude.Int.{ℤ, pos, negsuc}

abbrev pub Text : Type 0
Text = List ℕ

-- The code points of a literal. `String` has its own `[]` and `∷`.
abbrev pub codes : String → Text
codes String.[] = []
codes (String.◌∷◌ c s) = code c ∷ codes s

-- Equality of texts, as a test.
unfoldable pub eqb : Text → Text → Bool
eqb [] [] = true
eqb [] (b ∷ t) = false
eqb (a ∷ s) [] = false
eqb (a ∷ s) (b ∷ t) = a == b && eqb s t

pub eqb→eq : (s t : Text) → eqb s t ≡ true → s ≡ t
unfolding eqb
eqb→eq [] [] h = refl
eqb→eq [] (b ∷ t) h = cc
eqb→eq (a ∷ s) [] h = cc
eqb→eq (a ∷ s) (b ∷ t) h = ground (arith, eqb→eq s t)

pub eqb_refl : (s : Text) → eqb s s ≡ true
unfolding eqb
eqb_refl [] = refl
eqb_refl (a ∷ s) = ground (arith, eqb_refl s)

pub eqb_iff : (s t : Text) → (eqb s t ≡ true) ↔ (s ≡ t)
eqb_iff s t = (eqb→eq s t, λ p. rw (← p) (eqb_refl s))

-- The order of two texts by code points, with their equality.
unfoldable pub text_leb : Text → Text → Bool
text_leb [] t = true
text_leb (a ∷ s) [] = false
text_leb (a ∷ s) (b ∷ t) = ltb a b || a == b && text_leb s t

abbrev between : ℕ → ℕ → ℕ → Bool
between lo hi c = leb lo c && leb c hi

-- `str.isspace` of one character: what `str.strip` removes.
unfoldable pub is_space : ℕ → Bool
is_space c =
    between 9 13 c
    || between 28 32 c
    || c == 133
    || c == 160
    || c == 5760
    || between 8192 8202 c
    || between 8232 8233 c
    || c == 8239
    || c == 8287
    || c == 12288

unfoldable pub lstrip : Text → Text
lstrip [] = []
lstrip (c ∷ s) = let rest = lstrip s in elim (is_space c) [ true ↦ rest | false ↦ c ∷ s ]

-- `str.strip()`
unfoldable pub strip : Text → Text
unfolding lstrip is_space
strip s = reverse (lstrip (reverse (lstrip s)))

-- `str.split(sep)` on one character: always at least one part.
abbrev push : ℕ → List Text → List Text
push c [] = (c ∷ []) ∷ []
push c (p ∷ ps) = (c ∷ p) ∷ ps

unfoldable pub split : ℕ → Text → List Text
split sep [] = [] ∷ []
split sep (c ∷ s) = let rest = split sep s in if c == sep then [] ∷ rest else push c rest

-- `c in s`
unfoldable pub has : ℕ → Text → Bool
has c [] = false
has c (d ∷ s) = c == d || has c s

unfoldable pub is_digit : ℕ → Bool
is_digit c = between b'0' b'9' c

unfoldable pub is_alpha : ℕ → Bool
is_alpha c = between b'a' b'z' c || between b'A' b'Z' c

-- `s.isascii() and s.isdigit()`
unfoldable pub is_number : Text → Bool
unfolding is_digit
is_number [] = false
is_number (c ∷ s) = all is_digit (c ∷ s)

unfoldable pub number_from : ℕ → Text → ℕ
number_from n [] = n
number_from n (c ∷ s) = number_from (n * 10 + (c - b'0')) s

-- The value of a decimal digit of any script (Unicode category Nd): ten consecutive code points
-- from each of these zeros.
abbrev zeros : List ℕ
zeros =
    0x30 ∷ 0x660 ∷ 0x6F0 ∷ 0x7C0 ∷ 0x966 ∷ 0x9E6 ∷ 0xA66 ∷ 0xAE6 ∷ 0xB66 ∷ 0xBE6 ∷ 0xC66 ∷ 0xCE6
    ∷ 0xD66 ∷ 0xDE6 ∷ 0xE50 ∷ 0xED0 ∷ 0xF20 ∷ 0x1040 ∷ 0x1090 ∷ 0x17E0 ∷ 0x1810 ∷ 0x1946 ∷ 0x19D0
    ∷ 0x1A80 ∷ 0x1A90 ∷ 0x1B50 ∷ 0x1BB0 ∷ 0x1C40 ∷ 0x1C50 ∷ 0xA620 ∷ 0xA8D0 ∷ 0xA900 ∷ 0xA9D0
    ∷ 0xA9F0 ∷ 0xAA50 ∷ 0xABF0 ∷ 0xFF10 ∷ 0x104A0 ∷ 0x10D30 ∷ 0x11066 ∷ 0x110F0 ∷ 0x11136 ∷ 0x111D0
    ∷ 0x112F0 ∷ 0x11450 ∷ 0x114D0 ∷ 0x11650 ∷ 0x116C0 ∷ 0x11730 ∷ 0x118E0 ∷ 0x11950 ∷ 0x11C50
    ∷ 0x11D50 ∷ 0x11DA0 ∷ 0x11F50 ∷ 0x16A60 ∷ 0x16AC0 ∷ 0x16B50 ∷ 0x1D7CE ∷ 0x1D7D8 ∷ 0x1D7E2
    ∷ 0x1D7EC ∷ 0x1D7F6 ∷ 0x1E140 ∷ 0x1E2F0 ∷ 0x1E4F0 ∷ 0x1E950 ∷ 0x1FBF0 ∷ []

digit_from : List ℕ → ℕ → Option ℕ
digit_from [] c = none
digit_from (z ∷ zs) c =
    let rest = digit_from zs c in if leb z c && leb c (z + 9) then some (c - z) else rest

-- `int(text)` past the sign: digits with single underscores between them, at most 4300.
int_digits : Bool → ℕ → ℕ → Text → Option ℕ
int_digits after_digit count n [] = if after_digit && leb count 4300 then some n else none
int_digits after_digit count n (c ∷ s) = elim (digit_from zeros c) [
  | some d ↦ int_digits true (count + 1) (n * 10 + d) s
  | none ↦ elim (c == b'_' && after_digit) [ true ↦ int_digits false count n s | false ↦ none ]
]

abbrev negate : ℕ → ℤ
negate zero = pos zero
negate (suc n) = negsuc n

signed : Text → Option ℤ
unfolding int_digits digit_from
signed [] = none
signed (c ∷ s) =
    let plain = int_digits false 0 0 (c ∷ s) in
    let rest = int_digits false 0 0 s in
    if c == b'-' then Option.map negate rest else Option.map pos (if c == b'+' then rest else plain)

-- `int(text)`; `none` is its `ValueError`.
unfoldable pub int_of_text : Text → Option ℤ
unfolding signed strip
int_of_text s = signed (strip s)

-- A text without its last line feed: what `$` may look past.
unfoldable pub chomp : Text → Text
chomp [] = []
chomp (c ∷ []) = if c == 10 then [] else c ∷ []
chomp (c ∷ d ∷ s) = c ∷ chomp (d ∷ s)

-- `re.compile(r"^...$").match(text)`, for an expression that takes no line feed.
unfoldable pub matches_line : (Text → Bool) → Text → Bool
matches_line whole s = whole s || whole (chomp s)

-- `str(number)`, with more fuel than digits.
unfoldable pub digits : ℕ → ℕ → Text → Text
digits zero n s = s
digits (suc fuel) n s =
    let more = digits fuel (n / 10) ((b'0' + n % 10) ∷ s) in
    if ltb n 10 then (b'0' + n) ∷ s else more

unfoldable pub text_of_int : ℤ → Text
text_of_int (pos n) = digits (suc n) n []
text_of_int (negsuc n) = b'-' ∷ digits (suc (suc n)) (suc n) []

-- With more fuel than its value, a number is written out whole: its digits read back as the number.
number_from-digits :
    (fuel n : ℕ) (s : Text) → n < fuel → number_from 0 (digits fuel n s) ≡ number_from n s
unfolding number_from digits
number_from-digits zero n s enough = elim enough [ ]
number_from-digits (suc fuel) n s enough = elim (Bool-cases (ltb n 10)) [
  | inl small ↦ rw small (ap (λ m. number_from m s) (omega arith))
  | inr large ↦ rw large (
      number_from-digits fuel (n / 10) ((b'0' + n % 10) ∷ s) (ground arith)
      ∙ ap (λ m. number_from m s) (omega arith))
]

number_from-text_of_int : (n : ℕ) → number_from 0 (text_of_int (pos n)) ≡ n
unfolding text_of_int number_from
number_from-text_of_int n = number_from-digits (suc n) n [] (omega arith)
