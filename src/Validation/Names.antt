-- ===== src/Validation/Names.antt =====
-- What `validate_hostname` and `validate_port` let through.
use netops_console.Prelude.{
  ℕ, ◌≤◌, ◌≡◌, ◌⊎◌, refl, ap, true, List, [], ◌∷◌, ◌++◌, arith, all, length, All, ok, Bool-cases,
  inl, inr,
}
use netops_console.Prelude.Text.{Text, strip, split, chomp, matches_line}
use netops_console.Validation.{
  Unicode, is_label, hostname_label, drop_dot, validate_hostname, max_hostname_length, PortValue,
  validate_port,
}

-- A text that `chomp` changes ends in a line feed.
pub chomp-cases : (s : Text) → (chomp s ≡ s) ⊎ (s ≡ chomp s ++ 10 ∷ [])
unfolding chomp
chomp-cases [] = inl refl
chomp-cases (c ∷ []) = ground arith
chomp-cases (c ∷ d ∷ s) = ground (arith, chomp-cases (d ∷ s))

-- A label, or a label and one line feed: the regular expression ends in `$`.
abbrev pub LabelLine : Text → Type 0
LabelLine s = (is_label s ≡ true) ⊎ ((t : Text) × (is_label t ≡ true) × (s ≡ t ++ 10 ∷ []))

hostname_label-LabelLine : (s : Text) → hostname_label s ≡ true → LabelLine s
unfolding hostname_label matches_line
hostname_label-LabelLine s h = elim (Bool-cases (is_label s)) [
  | inl plain ↦ inl plain
  | inr other ↦ elim (chomp-cases s) [
    | inl same ↦ absurd (ground arith)
    | inr line ↦ inr (chomp s, ground arith, line)
  ]
]

labels-LabelLine : (l : List Text) → all hostname_label l ≡ true → All LabelLine l
unfolding all
labels-LabelLine [] h = tt
labels-LabelLine (s ∷ l) h =
    (hostname_label-LabelLine s (ground arith), labels-LabelLine l (ground arith))

length-drop_dot-le : (s : Text) → length (drop_dot s) ≤ length s
unfolding drop_dot
length-drop_dot-le [] = omega arith
length-drop_dot-le (c ∷ []) = ground arith
length-drop_dot-le (c ∷ d ∷ s) = omega (arith, length-drop_dot-le (d ∷ s))

validate_hostname-checks :
    (u : Unicode) (value name : Text)
    → validate_hostname u value ≡ ok name
    → (length (u.lower (strip value)) ≤ max_hostname_length)
      × (u.idna_encodes name ≡ true)
      × (all hostname_label (split b'.' name) ≡ true)
      × (drop_dot (u.lower (strip value)) ≡ name)
unfolding validate_hostname
validate_hostname-checks u value name h = ground arith

-- An accepted host name has at most 253 characters, the codec encodes it, and each of its labels
-- is one to 63 letters, digits and inner hyphens, but for one line feed that may follow a label.
pub validate_hostname-accepts :
    (u : Unicode) (value name : Text)
    → validate_hostname u value ≡ ok name
    → (length name ≤ max_hostname_length)
      × (u.idna_encodes name ≡ true)
      × All LabelLine (split b'.' name)
validate_hostname-accepts u value name h =
    let (short, encodes, labels, eq) = validate_hostname-checks u value name h in
    let fits : length name ≤ max_hostname_length =
      omega (arith, ap length eq, length-drop_dot-le (u.lower (strip value))) in
    (fits, encodes, labels-LabelLine (split b'.' name) labels)

-- An accepted port is between 1 and 65535.
pub validate_port-bounds : (v : PortValue) (p : ℕ) → validate_port v ≡ ok p → (1 ≤ p) × (p ≤ 65535)
unfolding validate_port
validate_port-bounds v p h = ground arith
