-- ===== src/Redaction/Examples.antt =====
-- The theorems on stored output at the output of a program that echoes a password.
use netops_console.Prelude.{
  inl, inr, Bool-cases, zero, suc, ◌-◌, ℕ, ◌+◌, ◌≤◌, ◌≡◌, refl, Bool, true, false, all,
  if◌then◌else◌, List, [], ◌∷◌, ◌++◌, length, arith,
}
use netops_console.Prelude.Text.{Text, codes}
use netops_console.Redaction
use netops_console.Redaction.{Re, mask, replace, sanitize, encoded_length, is_control}
use netops_console.Redaction.Clean.{
  clean, Replaces, all_append, all-sanitize, encoded_length-sanitize,
}

-- The text with another in place of a word, after as many characters as the word still covers.
unfoldable swap : Text → Text → ℕ → Text → Text
swap replacement word covered [] = []
swap replacement word (suc covered) (c ∷ s) = swap replacement word covered s
swap replacement word zero (c ∷ s) =
    let rest = swap replacement word 0 s in
    let behind = swap replacement word (length word - 1) s in
    if Redaction.starts_with word (c ∷ s) then replacement ++ behind else c ∷ rest

all-swap :
    (p : ℕ → Bool) (replacement word : Text) (covered : ℕ) (s : Text)
    → all p replacement ≡ true
    → all p s ≡ true
    → all p (swap replacement word covered s) ≡ true
unfolding all swap
all-swap p replacement word covered [] masked h = refl
all-swap p replacement word (suc covered) (c ∷ s) masked h =
    all-swap p replacement word covered s masked (ground arith)
all-swap p replacement word zero (c ∷ s) masked h =
    elim (Bool-cases (Redaction.starts_with word (c ∷ s))) [
      | inl e ↦ rw e (
          all_append p replacement _ masked
            (all-swap p replacement word (length word - 1) s masked (ground arith)))
      | inr e ↦ rw e (ground (arith, all-swap p replacement word 0 s masked))
    ]

-- Every pattern finds one word.
abbrev re : Re
re = record { sub = λ pattern replacement s. swap replacement (codes "hunter2") 0 s }

re-Replaces : Replaces re
re-Replaces = record {
  keeps = λ p pattern replacement s plain passes h.
      all-swap p replacement (codes "hunter2") 0 s passes h;
}

-- A red line, with a bell and the password in it.
abbrev line : Text
line = 27 ∷ codes "[31mhunter2 abcd" ++ 7 ∷ 10 ∷ []

stored :
    sanitize re 100 (codes "abcd" ∷ []) line ≡ (codes "[redacted] [redacted]" ++ 10 ∷ [], false)
unfolding sanitize swap Redaction.mask_secrets Redaction.sub_all Redaction.secret_patterns
    Redaction.strip_control_characters Redaction.strip_ansi Redaction.escape Redaction.csi
    Redaction.redact_values replace Redaction.starts_with Redaction.truncate encoded_length
    Redaction.utf8_length is_control netops_console.Prelude.keep
stored = refl

all-sanitize_example : all clean (sanitize re 100 (codes "abcd" ∷ []) line).0 ≡ true
all-sanitize_example = all-sanitize re 100 (codes "abcd" ∷ []) line re-Replaces

encoded_length-sanitize_example :
    encoded_length (sanitize re 10 [] line).0 ≤ 10 + (if (sanitize re 10 [] line).1 then 38 else 0)
encoded_length-sanitize_example = encoded_length-sanitize re 10 [] line
