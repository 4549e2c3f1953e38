-- ===== src/Lltop/TabTests.antt =====
-- Tests and concrete instances for the tab that a click hits (lltop/src/tui/ui.rs).
use landlock_observability.Prelude.{suc, ◌-◌, ◌≤◌, ◌<◌, ◌≡◌, ◌↔◌, refl, none, some}
use landlock_observability.Lltop.App.{Tab, Rect}
use landlock_observability.Lltop.Input.{u16_max}
use landlock_observability.Lltop.TabBar.{tab_at, clicked_tab}
use landlock_observability.Lltop.TabCells.{IsInTab, clicked_tab-cells}

abbrev bar : Rect
bar = record { x = 2; y = 3; width = 60; height = 3 }

clicked_tab-rulesets : clicked_tab bar 31 4 ≡ some Tab.rulesets
unfolding clicked_tab tab_at
clicked_tab-rulesets = refl

clicked_tab-divider : clicked_tab bar 30 4 ≡ none
unfolding clicked_tab tab_at
clicked_tab-divider = refl

clicked_tab-cells_example :
    (clicked_tab bar 31 4 ≡ some Tab.rulesets)
    ↔ ((4 ≡ suc bar.y) × (4 ≤ u16_max) × (2 < 31) × IsInTab Tab.rulesets (31 - 2 - 1))
clicked_tab-cells_example = clicked_tab-cells bar 31 4 Tab.rulesets
