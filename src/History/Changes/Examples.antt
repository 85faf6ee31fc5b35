-- ===== src/History/Changes/Examples.antt =====
-- The theorem on edits at a device whose name is changed.
use netops_console.Prelude.{◌≡◌, ◌⊎◌, refl, false, none, some, [], ◌∷◌}
use netops_console.Prelude.Text.{codes}
use netops_console.History.Changes.{Change, Editable, update_device}
use netops_console.History.Changes.Edits.{Same, tidy, update_device-logs}

abbrev nas : Editable
nas = record {
  id = 7;
  name = some (codes "nas");
  device_type = none;
  notes = none;
  is_deleted = false;
  deleted_at = none;
}

update_device-logs_example :
    let after = record nas {
      name = tidy (codes " backup ");
      device_type = tidy [];
      notes = tidy [];
    } in
    (Same nas after × (update_device (some nas) (codes " backup ") [] [] ≡ some (after, [])))
    ⊎ (¬ Same nas after
        × ((c : Change) × (update_device (some nas) (codes " backup ") [] []
              ≡ some (after, c ∷ []))))
update_device-logs_example = update_device-logs nas (codes " backup ") [] [] refl
