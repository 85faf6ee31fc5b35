-- ===== src/Actions/Pages/Checked.antt =====
-- What the table of definitions keeps, whichever pages are called.
use netops_console.Prelude.{◌≡◌, ◌⊎◌, ℕ, some, List, [], ◌∷◌, ◌++◌, ok, All}
use netops_console.Prelude.Text.{Text}
use netops_console.Actions.Schema.{ParamSpec, parse_schema}
use netops_console.Actions.Schema.Command.{validate_template}
use netops_console.Actions.Runs.{ActionDefinition}
use netops_console.History.Timeline.{ChangeEvent}
use netops_console.Actions.Pages.{
  Outside, State, Page, see_other, ActionForm, create_action, toggle_action, delete_action,
}

-- The schema and the template of a definition pass the checks of `validate_definition`.
abbrev pub Checked : Outside → ActionDefinition → Type 0
Checked o d =
    (specs : List ParamSpec) × (parse_schema o.regex d.execution_type d.param_schema ≡ ok specs)
    × (validate_template o.files d.argv_template specs d.execution_type ≡ ok tt)

-- A request to one of the pages that change the table.
pub data Request : Type 0 where
  creation : ActionForm → Request
  toggle delete : ℕ → Request

abbrev pub serve : Outside → Request → State → Page × State
serve o (creation form) s = create_action o form s
serve o (toggle id) s = toggle_action o id s
serve o (delete id) s = delete_action o id s

-- Either the page changed nothing, or it wrote one entry to the log, and every definition that is
-- left passes its checks.
abbrev pub Kept : Outside → State → Page × State → Type 0
Kept o s (page, s') =
    (s' ≡ s)
    ⊎ ((page ≡ see_other)
        × ((c : ChangeEvent) × (s'.changes ≡ s.changes ++ c ∷ [])
            × (c.username_snapshot ≡ some o.username))
        × All (Checked o) s'.definitions)
