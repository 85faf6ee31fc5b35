-- ===== src/Actions/Shell.antt =====
-- Quoting for the login shell of an SSH server: `shlex.quote` and " ".join, as
-- `app/modules/actions/schema.py` uses them, and how a POSIX shell splits the line again.
use mathlib.Core.Option
use netops_console.Prelude.{
  ℕ, ◌≡◌, refl, sym, ◌∙◌, ap, Bool, true, ◌||◌, Option, none, some, List, [], ◌∷◌, ◌++◌, map, all,
  ◌==◌, if◌then◌else◌, arith, Bool-cases, inl, inr, &&-eq_true,
}
use netops_console.Prelude.Text.{Text, is_alpha, is_digit}

-- A character that `shlex.quote` leaves bare: `[\w@%+=:,./-]` in ASCII.
unfoldable pub is_bare : ℕ → Bool
is_bare c =
    is_alpha c
    || is_digit c
    || c == b'_'
    || c == b'@'
    || c == b'%'
    || c == b'+'
    || c == b'='
    || c == b':'
    || c == b','
    || c == b'.'
    || c == b'/'
    || c == b'-'

-- `s.replace("'", "'\"'\"'") + "'"`
unfoldable pub escape : Text → Text
escape [] = 39 ∷ []
escape (c ∷ s) = let rest = escape s in if c == 39 then 39 ∷ 34 ∷ 39 ∷ 34 ∷ 39 ∷ rest else c ∷ rest

-- `shlex.quote(s)`
unfoldable pub quote : Text → Text
quote [] = 39 ∷ 39 ∷ []
quote (c ∷ s) = if all is_bare (c ∷ s) then c ∷ s else 39 ∷ escape (c ∷ s)

-- `" ".join(parts)`
unfoldable pub join : List Text → Text
join [] = []
join (p ∷ []) = p
join (p ∷ q ∷ ps) = p ++ 32 ∷ join (q ∷ ps)

-- Where a POSIX shell stands in a line: between words, in a word, in single or in double quotes.
pub data Lexer : Type 0 where
  between bare single double : Lexer

-- The words of a line, from a state and the word read so far. `none` is a line that is not plain
-- words: it has another character with a meaning to the shell, or an open quote.
unfoldable pub lex : Lexer → Text → Text → Option (List Text)
lex between word [] = some []
lex bare word [] = some (word ∷ [])
lex single word [] = none
lex double word [] = none
lex between word (c ∷ s) =
    let skip = lex between word s in
    let quoted = lex single [] s in
    let doubled = lex double [] s in
    let started = lex bare (c ∷ []) s in
    if c == 32
    then skip
    else if c == 39
    then quoted
    else if c == 34
    then doubled
    else if is_bare c
    then started
    else none
lex bare word (c ∷ s) =
    let ended = lex between [] s in
    let quoted = lex single word s in
    let doubled = lex double word s in
    let longer = lex bare (word ++ c ∷ []) s in
    if c == 32
    then Option.map (λ ws. word ∷ ws) ended
    else if c == 39
    then quoted
    else if c == 34
    then doubled
    else if is_bare c
    then longer
    else none
lex single word (c ∷ s) =
    let closed = lex bare word s in
    let longer = lex single (word ++ c ∷ []) s in if c == 39 then closed else longer
lex double word (c ∷ s) =
    let closed = lex bare word s in
    let longer = lex double (word ++ c ∷ []) s in
    if c == 34 then closed else if c == 36 || c == 96 || c == 92 then none else longer

abbrev pub shell_words : Text → Option (List Text)
shell_words line = lex between [] line

append_assoc : (xs ys zs : Text) → (xs ++ ys) ++ zs ≡ xs ++ (ys ++ zs)
append_assoc [] ys zs = refl
append_assoc (x ∷ xs) ys zs = ap (λ s. x ∷ s) (append_assoc xs ys zs)

append_nil : (xs : Text) → xs ++ [] ≡ xs
append_nil [] = refl
append_nil (x ∷ xs) = ap (λ s. x ∷ s) (append_nil xs)

-- A bare word is read as it stands.
lex-bare :
    (word s rest : Text)
    → all is_bare s ≡ true
    → lex bare word (s ++ rest) ≡ lex bare (word ++ s) rest
unfolding lex all is_bare is_alpha is_digit
lex-bare word [] rest h = ap (λ w. lex bare w rest) (sym (append_nil word))
lex-bare word (c ∷ s) rest h =
    ground (arith, lex-bare (word ++ c ∷ []) s rest, append_assoc word (c ∷ []) s)

lex-escape : (word s rest : Text) → lex single word (escape s ++ rest) ≡ lex bare (word ++ s) rest
unfolding lex escape
lex-escape word [] rest = ap (λ w. lex bare w rest) (sym (append_nil word))
lex-escape word (c ∷ s) rest =
    ground (arith, lex-escape (word ++ c ∷ []) s rest, append_assoc word (c ∷ []) s)

lex_quotes : (rest : Text) → lex between [] (39 ∷ 39 ∷ rest) ≡ lex bare [] rest
unfolding lex
lex_quotes rest = refl

lex_quote : (s : Text) → lex between [] (39 ∷ s) ≡ lex single [] s
unfolding lex
lex_quote s = refl

lex_start : (c : ℕ) (s : Text) → is_bare c ≡ true → lex between [] (c ∷ s) ≡ lex bare (c ∷ []) s
unfolding lex is_bare is_alpha is_digit
lex_start c s h = ground arith

lex-quote : (s rest : Text) → lex between [] (quote s ++ rest) ≡ lex bare s rest
unfolding quote all
lex-quote [] rest = lex_quotes rest
lex-quote (c ∷ s) rest = elim (Bool-cases (all is_bare (c ∷ s))) [
  | inl e ↦ rw e (
      lex_start c (s ++ rest) (&&-eq_true (is_bare c) (all is_bare s) e).0
      ∙ lex-bare (c ∷ []) s rest (&&-eq_true (is_bare c) (all is_bare s) e).1)
  | inr e ↦ rw e (lex_quote (escape (c ∷ s) ++ rest) ∙ lex-escape [] (c ∷ s) rest)
]

-- The login shell splits a line of quoted words into those words, whatever they contain.
pub shell_words-join-quote : (words : List Text) → shell_words (join (map quote words)) ≡ some words
unfolding lex join
shell_words-join-quote [] = refl
shell_words-join-quote (w ∷ []) = ground (arith, lex-quote w [], append_nil (quote w))
shell_words-join-quote (w ∷ v ∷ ws) =
    ground (arith, lex-quote w (32 ∷ join (map quote (v ∷ ws))), shell_words-join-quote (v ∷ ws))
