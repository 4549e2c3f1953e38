-- ===== src/Lltop/TabCells.antt =====
-- The cells of each tab (lltop/src/tui/ui.rs, `clicked_tab`).
use landlock_observability.Prelude.{ℕ, suc, ◌-◌, ◌≤◌, ◌<◌, ◌≡◌, ◌↔◌, some, arith}
use landlock_observability.Lltop.App.{Tab, Rect}
use landlock_observability.Lltop.Input.{u16_max}
use landlock_observability.Lltop.TabBar.{all_tabs, tab_at, clicked_tab}

-- The cells of a tab: its title with one cell of padding on each side, and a divider before the next
-- tab.
abbrev pub IsInTab : Tab → ℕ → Type 0
IsInTab Tab.domains relative = (0 ≤ relative) × (relative < 13)
IsInTab Tab.denials relative = (14 ≤ relative) × (relative < 27)
IsInTab Tab.rulesets relative = (28 ≤ relative) × (relative < 42)
IsInTab Tab.stats relative = (43 ≤ relative) × (relative < 54)

tab_at_complete :
    (tab : Tab) (relative : ℕ) → IsInTab tab relative → tab_at relative 0 all_tabs ≡ some tab
unfolding tab_at
tab_at_complete Tab.domains relative h = ground (arith, h.0, h.1)
tab_at_complete Tab.denials relative h = ground (arith, h.0, h.1)
tab_at_complete Tab.rulesets relative h = ground (arith, h.0, h.1)
tab_at_complete Tab.stats relative h = ground (arith, h.0, h.1)

tab_at_sound :
    (tab : Tab) (relative : ℕ) → tab_at relative 0 all_tabs ≡ some tab → IsInTab tab relative
unfolding tab_at
tab_at_sound Tab.domains relative h = (ground (arith, h), ground (arith, h))
tab_at_sound Tab.denials relative h = (ground (arith, h), ground (arith, h))
tab_at_sound Tab.rulesets relative h = (ground (arith, h), ground (arith, h))
tab_at_sound Tab.stats relative h = (ground (arith, h), ground (arith, h))

-- A click hits a tab exactly where it is on the line below the top border, inside of the left border,
-- and within the tab's title and padding; at the last line of the coordinates there is none below.
pub clicked_tab-cells :
    (area : Rect) (column row : ℕ) (tab : Tab)
    → (clicked_tab area column row ≡ some tab) ↔ (
        (row ≡ suc area.y)
        × (row ≤ u16_max)
        × (area.x < column)
        × IsInTab tab (column - area.x - 1))
unfolding clicked_tab
clicked_tab-cells area column row tab = (
  λ h.
      let hit : tab_at (column - area.x - 1) 0 all_tabs ≡ some tab = ground (arith, h) in
      (
        ground (arith, h),
        ground (arith, h),
        ground (arith, h),
        tab_at_sound tab (column - area.x - 1) hit,
      ),
  λ (line, bound, inside, within).
      ground (arith, line, bound, inside, tab_at_complete tab (column - area.x - 1) within),
)
