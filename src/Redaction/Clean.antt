-- ===== src/Redaction/Clean.antt =====
-- What is left of an output: its size, and its characters.
use netops_console.Prelude.{
  ℕ, zero, suc, ◌+◌, ◌-◌, ◌≤◌, ◌≡◌, refl, inl, inr, Bool, true, false, not, List, [], ◌∷◌, ◌++◌,
  keep, all, length, leb, if◌then◌else◌, arith, Bool-cases,
}
use netops_console.Prelude.Text.{Text, has}
use netops_console.Redaction.{
  is_control, strip_ansi, strip_control_characters, mask, truncation_notice, starts_with, replace,
  redact_values, utf8_length, encoded_length, clip, truncate, Pattern, secret_patterns, Re, sub_all,
  mask_secrets, sanitize,
}

plain_mask : has 92 mask ≡ false
unfolding has
plain_mask = refl

-- A test that every character passes.
abbrev pub clean : ℕ → Bool
clean c = not (is_control c)

pub all_append :
    (p : ℕ → Bool) (s t : Text) → all p s ≡ true → all p t ≡ true → all p (s ++ t) ≡ true
unfolding all
all_append p [] t h k = k
all_append p (c ∷ s) t h k = ground (arith, all_append p s t)

all-keep : (p : ℕ → Bool) (s : Text) → all p (keep p s) ≡ true
unfolding all keep
all-keep p [] = refl
all-keep p (c ∷ s) = ground (arith, all-keep p s)

pub all-replace :
    (p : ℕ → Bool) (value : Text) (covered : ℕ) (s : Text)
    → all p mask ≡ true
    → all p s ≡ true
    → all p (replace value covered s) ≡ true
unfolding all replace
all-replace p value covered [] masked h = refl
all-replace p value (suc covered) (c ∷ s) masked h =
    all-replace p value covered s masked (ground arith)
all-replace p value zero (c ∷ s) masked h = elim (Bool-cases (starts_with value (c ∷ s))) [
  | inl e ↦
      rw e (
        all_append p mask _ masked (all-replace p value (length value - 1) s masked (ground arith)))
  | inr e ↦ rw e (ground (arith, all-replace p value 0 s masked))
]

all-redact_values :
    (p : ℕ → Bool) (values : List Text) (s : Text)
    → all p mask ≡ true
    → all p s ≡ true
    → all p (redact_values s values) ≡ true
unfolding redact_values
all-redact_values p [] s masked h = h
all-redact_values p (value ∷ values) s masked h = elim (Bool-cases (leb 4 (length value))) [
  | inl e ↦
      rw e
        (all-redact_values p values (replace value 0 s) masked (all-replace p value 0 s masked h))
  | inr e ↦ rw e (all-redact_values p values s masked h)
]

all-clip : (budget : ℕ) (s : Text) → all clean s ≡ true → all clean (clip budget s) ≡ true
unfolding all clip is_control
all-clip budget [] h = refl
all-clip budget (c ∷ s) h = ground (arith, all-clip (budget - utf8_length c) s)

notice_passes : all clean truncation_notice ≡ true
unfolding all is_control
notice_passes = refl

mask_passes : all clean mask ≡ true
unfolding all is_control
mask_passes = refl

all-truncate :
    (max_bytes : ℕ) (s : Text) → all clean s ≡ true → all clean (truncate max_bytes s).0 ≡ true
unfolding truncate
all-truncate max_bytes s h = elim (Bool-cases (leb (encoded_length s) max_bytes)) [
  | inl e ↦ rw e h
  | inr e ↦
      rw e (
        all_append clean (clip max_bytes s) truncation_notice (all-clip max_bytes s h)
          notice_passes)
]

-- What the documentation of `re.sub` says: it replaces matches in a text, and a replacement without a
-- backslash stands for itself; so each character of the result is of the text or the replacement.
pub record Replaces (re : Re) : Type 0 where
  pub keeps :
      (p : ℕ → Bool) (pattern : Pattern) (replacement s : Text)
      → has 92 replacement ≡ false
      → all p replacement ≡ true
      → all p s ≡ true
      → all p (re.sub pattern replacement s) ≡ true

all-sub_all :
    (re : Re) (p : ℕ → Bool) (patterns : List Pattern) (s : Text)
    → Replaces re
    → all p mask ≡ true
    → all p s ≡ true
    → all p (sub_all re patterns s) ≡ true
unfolding sub_all
all-sub_all re p [] s replaces masked h = h
all-sub_all re p (pattern ∷ patterns) s replaces masked h =
    all-sub_all re p patterns (re.sub pattern mask s) replaces masked
      (replaces.keeps p pattern mask s plain_mask masked h)

-- What `sanitize` makes of an output has no control characters besides tabs and line feeds, whatever
-- the output and the secrets were.
pub all-sanitize :
    (re : Re) (max_bytes : ℕ) (secret_values : List Text) (text : Text)
    → Replaces re
    → all clean (sanitize re max_bytes secret_values text).0 ≡ true
unfolding sanitize strip_control_characters mask_secrets
all-sanitize re max_bytes secret_values text replaces =
    let stripped = all-keep clean (strip_ansi 0 text) in
    all-truncate max_bytes _ (
      all-sub_all re clean secret_patterns _ replaces mask_passes
        (all-redact_values clean secret_values _ mask_passes stripped))

encoded_length-append : (s t : Text) → encoded_length (s ++ t) ≡ encoded_length s + encoded_length t
unfolding encoded_length
encoded_length-append [] t = omega arith
encoded_length-append (c ∷ s) t = omega (arith, encoded_length-append s t)

encoded_length-clip : (budget : ℕ) (s : Text) → encoded_length (clip budget s) ≤ budget
unfolding encoded_length clip utf8_length
encoded_length-clip budget [] = omega arith
encoded_length-clip budget (c ∷ s) = ground (arith, encoded_length-clip (budget - utf8_length c) s)

notice_bytes : encoded_length truncation_notice ≡ 38
unfolding encoded_length utf8_length
notice_bytes = refl

encoded_length-truncate :
    (max_bytes : ℕ) (s : Text)
    → encoded_length (truncate max_bytes s).0
      ≤ max_bytes + (if (truncate max_bytes s).1 then 38 else 0)
unfolding truncate
encoded_length-truncate max_bytes s = elim (Bool-cases (leb (encoded_length s) max_bytes)) [
  | inl e ↦ rw e (ground arith)
  | inr e ↦ rw e (
      ground (
        arith,
        encoded_length-append (clip max_bytes s) truncation_notice,
        encoded_length-clip max_bytes s,
        notice_bytes,
      ))
]

-- What `sanitize` makes of an output takes at most the permitted number of bytes, and 38 more for the
-- notice where something was cut off.
pub encoded_length-sanitize :
    (re : Re) (max_bytes : ℕ) (secret_values : List Text) (text : Text)
    → encoded_length (sanitize re max_bytes secret_values text).0
      ≤ max_bytes + (if (sanitize re max_bytes secret_values text).1 then 38 else 0)
unfolding sanitize
encoded_length-sanitize re max_bytes secret_values text = encoded_length-truncate max_bytes _
