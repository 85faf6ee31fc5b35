-- ===== src/History/Changes/Edits.antt =====
-- The change log has an entry exactly where something changed.
use netops_console.Prelude.{
  ℕ, All, ◌≡◌, ◌⊎◌, ◌↔◌, refl, inl, inr, ap, true, false, Option, none, some, List, [], ◌∷◌, ◌++◌,
  any, is_empty, if◌then◌else◌, Bool-cases, arith,
}
use netops_console.Prelude.Text.{Text, codes, eqb, eqb_iff, strip}
use netops_console.History.Changes.{
  same_value, FieldEdit, part, parts, join, describe_changes, describe_value, Change, Editable,
  edits, stripped, edited, log_edit, update_device,
}

same_value_iff : (a b : Option Text) → (same_value a b ≡ true) ↔ (a ≡ b)
unfolding same_value
same_value_iff none none = ground arith
same_value_iff none (some t) = ground arith
same_value_iff (some s) none = ground arith
same_value_iff (some s) (some t) = ground (arith, eqb_iff s t)

is_empty-append : (s t : Text) → is_empty t ≡ false → is_empty (s ++ t) ≡ false
is_empty-append [] t h = h
is_empty-append (d ∷ s) t h = refl

is_empty-part : (summarise : List Text) (e : FieldEdit) → is_empty (part summarise e) ≡ false
unfolding part
is_empty-part summarise e = elim (Bool-cases (any (eqb e.field) summarise)) [
  | inl h ↦ rw h (is_empty-append e.field _ refl)
  | inr h ↦ rw h (is_empty-append (e.field ++ codes ": " ++ describe_value e.old) _ refl)
]

All-parts :
    (summarise : List Text) (es : List FieldEdit)
    → All (λ p. is_empty p ≡ false) (parts summarise es)
unfolding parts
All-parts summarise [] = tt
All-parts summarise (e ∷ es) = elim (Bool-cases (same_value e.old e.new)) [
  | inl h ↦ rw (h, All) (All-parts summarise es)
  | inr h ↦ rw (h, All) (is_empty-part summarise e, All-parts summarise es)
]

-- Of two rows of a device, the same as texts in the edited fields.
abbrev pub Same : Editable → Editable → Type 0
Same a b = (a.name ≡ b.name) × (a.device_type ≡ b.device_type) × (a.notes ≡ b.notes)

is_empty-join : (p : Text) (ps : List Text) → is_empty p ≡ false → is_empty (join (p ∷ ps)) ≡ false
unfolding join
is_empty-join p [] h = h
is_empty-join [] (q ∷ ps) h = cc
is_empty-join (c ∷ p) (q ∷ ps) h = refl

logged :
    (id : ℕ) (text : Text)
    → is_empty text ≡ false
    → (c : Change) × (log_edit id (some text) ≡ c ∷ [])
unfolding log_edit
logged id [] h = cc
logged id (c ∷ s) h = (_, refl)

-- Either no field differs and nothing is logged, or one does and there is one entry.
log-described :
    (id : ℕ) (summarise : List Text) (es : List FieldEdit) (rest : List Text)
    → parts summarise es ≡ rest
    → All (λ p. is_empty p ≡ false) rest
    → ((rest ≡ []) × (log_edit id (describe_changes summarise es) ≡ []))
      ⊎ ((is_empty rest ≡ false)
          × ((c : Change) × (log_edit id (describe_changes summarise es) ≡ c ∷ [])))
unfolding describe_changes log_edit
log-described id summarise es [] e full = inl (refl, rw e refl)
log-described id summarise es (p ∷ ps) e full =
    let (c, k) = logged id (join (p ∷ ps)) (is_empty-join p ps full.0) in inr (refl, (c, rw e k))

-- No part is described of two rows exactly where they agree.
parts_none :
    (before after : Editable)
    → (is_empty (parts (codes "notes" ∷ []) (edits before after)) ≡ true) ↔ Same before after
unfolding parts edits
parts_none before after = ground (
  arith,
  same_value_iff before.name after.name,
  same_value_iff before.device_type after.device_type,
  same_value_iff before.notes after.notes,
)

-- A submitted value without the blanks around it, or none where nothing is left.
abbrev pub tidy : Text → Option Text
tidy value = if is_empty (strip value) then none else some (strip value)

-- Saving the form of a device that is in the inventory stores the submitted values without the
-- blanks around them, each in its own field, and writes one entry to the change log if one of them
-- differs from what was stored, and none otherwise.
pub update_device-logs :
    (device : Editable) (name device_type notes : Text)
    → device.is_deleted ≡ false
    → let after = record device {
      name = tidy name;
      device_type = tidy device_type;
      notes = tidy notes;
    } in
      (Same device after × (update_device (some device) name device_type notes ≡ some (after, [])))
      ⊎ (¬ Same device after
          × ((c : Change) × (update_device (some device) name device_type notes
                ≡ some (after, c ∷ []))))
unfolding update_device edited stripped
update_device-logs device name device_type notes kept =
    let after = edited device name device_type notes in
    let agree = parts_none device after in
    elim (log-described device.id (codes "notes" ∷ []) (edits device after) _ refl
      (All-parts _ _)) [
        | inl (nothing, logs) ↦ inl (agree.0 (ap is_empty nothing), ground arith)
        | inr (something, (c, logs)) ↦ inr (λ h. cc (agree.1 h), (c, ground arith))
      ]
