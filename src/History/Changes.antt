-- ===== src/History/Changes.antt =====
-- `app/modules/history/changes.py`, and the edits of a device in `app/modules/devices/routes.py` that
-- are written to the change log.
pub mod Edits
mod Examples
use netops_console.Prelude.{
  ℕ, ◌-◌, Bool, true, false, not, ◌&&◌, ◌||◌, Option, none, some, List, [], ◌∷◌, ◌++◌, any,
  is_empty, length, take, ltb, or_else, if◌then◌else◌,
}
use netops_console.Prelude.Text.{Text, codes, eqb, strip}

-- `MAX_VALUE_CHARS`
abbrev pub max_value_chars : ℕ
max_value_chars = 80

-- `CHANGE_KINDS`
abbrev pub change_kinds : List Text
change_kinds =
    codes "device_edited"
    ∷ codes "device_removed"
    ∷ codes "host_key_trusted"
    ∷ codes "host_key_revoked"
    ∷ codes "credential_created"
    ∷ codes "credential_deleted"
    ∷ codes "credential_assigned"
    ∷ codes "credential_unassigned"
    ∷ codes "action_created"
    ∷ codes "action_enabled"
    ∷ codes "action_disabled"
    ∷ codes "action_deleted"
    ∷ codes "settings_changed"
    ∷ []

-- `describe_value`, of a text that is there and is not empty.
unfoldable pub describe_text : Text → Text
describe_text text =
    0x201C
      ∷ (if ltb max_value_chars (length text)
          then take (max_value_chars - 1) text ++ 0x2026 ∷ []
          else text)
    ++ 0x201D ∷ []

-- `describe_value`
unfoldable pub describe_value : Option Text → Text
describe_value none = codes "(empty)"
describe_value (some []) = codes "(empty)"
describe_value (some (c ∷ s)) = describe_text (c ∷ s)

-- `old == new`
unfoldable pub same_value : Option Text → Option Text → Bool
same_value none none = true
same_value none (some t) = false
same_value (some s) none = false
same_value (some s) (some t) = eqb s t

-- A field, with its value before and after.
pub record FieldEdit : Type 0 where
  pub field : Text
  pub old : Option Text
  pub new : Option Text

unfoldable pub part : List Text → FieldEdit → Text
part summarise e =
    if any (eqb e.field) summarise
    then e.field ++ codes " changed"
    else e.field ++ codes ": " ++ describe_value e.old ++ 32 ∷ 0x2192 ∷ 32 ∷ describe_value e.new

unfoldable pub parts : List Text → List FieldEdit → List Text
parts summarise [] = []
parts summarise (e ∷ es) =
    let rest = parts summarise es in
    if same_value e.old e.new then rest else part summarise e ∷ rest

-- `"; ".join(parts)`
unfoldable pub join : List Text → Text
join [] = []
join (p ∷ []) = p
join (p ∷ q ∷ ps) = p ++ codes "; " ++ join (q ∷ ps)

-- `describe_changes`
unfoldable pub describe_changes : List Text → List FieldEdit → Option Text
describe_changes summarise edits =
    let described = parts summarise edits in
    if is_empty described then none else some (join described)

-- What the pages write to the log, by its kind.
pub record Change : Type 0 where
  pub kind : Text
  pub device_id : ℕ
  pub detail : Text

-- The columns of a device that its page edits, and those of its removal.
pub record Editable : Type 0 where
  pub id : ℕ
  pub name : Option Text
  pub device_type : Option Text
  pub notes : Option Text
  pub is_deleted : Bool
  pub deleted_at : Option ℕ

-- `value.strip() or None`
unfoldable pub stripped : Text → Option Text
stripped value = if is_empty (strip value) then none else some (strip value)

-- The fields of a device before and after an edit.
unfoldable pub edits : Editable → Editable → List FieldEdit
edits before after =
    record { field = codes "name"; old = before.name; new = after.name }
    ∷ record { field = codes "type"; old = before.device_type; new = after.device_type }
    ∷ record { field = codes "notes"; old = before.notes; new = after.notes }
    ∷ []

unfoldable pub edited : Editable → Text → Text → Text → Editable
edited device name device_type notes = record device {
  name = stripped name;
  device_type = stripped device_type;
  notes = stripped notes;
}

-- `if detail: record_change(...)`
unfoldable pub log_edit : ℕ → Option Text → List Change
log_edit id none = []
log_edit id (some []) = []
log_edit id (some (c ∷ s)) =
    record { kind = codes "device_edited"; device_id = id; detail = c ∷ s } ∷ []

-- `update_device`: the row, and what is added to the log. `none` is the page of a missing device.
unfoldable pub update_device :
    Option Editable → Text → Text → Text → Option (Editable × List Change)
update_device none name device_type notes = none
update_device (some device) name device_type notes =
    let after = edited device name device_type notes in
    if device.is_deleted
    then none
    else some
        (after, log_edit device.id (describe_changes (codes "notes" ∷ []) (edits device after)))

-- `delete_device`, with the address of the device in its log entry.
unfoldable pub delete_device : ℕ → Text → Editable → Editable × List Change
delete_device now ip_address device = (
  record device { is_deleted = true; deleted_at = some now },
  record {
    kind = codes "device_removed";
    device_id = device.id;
    detail = codes "Removed from the inventory at " ++ ip_address ++ codes ". History is kept.";
  }
      ∷ [],
)
