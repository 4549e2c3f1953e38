-- ===== src/Lltop/Clicks.antt =====
-- What a click on a list does (lltop/src/tui/mod.rs, `click_row`), against what was drawn there.
use landlock_observability.Prelude.{ℕ, ◌+◌, ◌-◌, ◌≤◌, ◌<◌, ◌≡◌, some, List, get_elem?}
use landlock_observability.Lltop.App.{App, Rect, RowKind}
use landlock_observability.Lltop.Input.{u16_max}

module _ (app : App) (wide : app.hit.list.x + app.hit.list.width ≤ u16_max)
    (tall : app.hit.list.y + app.hit.list.height ≤ u16_max) where
  abbrev right : ℕ
  right = app.hit.list.x + app.hit.list.width

  abbrev bottom : ℕ
  bottom = app.hit.list.y + (app.hit.list.height - 1)

-- A row that the list shows at a cell: within the border, `top` being the first row that is shown.
abbrev pub IsShownAt : Rect → List RowKind → (top column row : ℕ) → RowKind → Type 0
IsShownAt area rows top column row kind =
    (area.x ≤ column)
    × (column < area.x + area.width)
    × ((line : ℕ) × (row ≡ area.y + 1 + line)
        × (line + 2 < area.height)
        × (get_elem? rows (top + line) ≡ some kind))
