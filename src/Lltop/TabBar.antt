-- ===== src/Lltop/TabBar.antt =====
-- The tab that a click hits (lltop/src/tui/ui.rs, `Tab::ALL`, `Tab::title` and `clicked_tab`). Sums of
-- `usize` are below 64 here, so that their checks pass.
use landlock_observability.Prelude.{
  ℕ, ◌+◌, ◌-◌, not, ◌&&◌, ◌||◌, Option, none, some, List, [], ◌∷◌, leb, ltb, ◌==◌, if◌then◌else◌,
}
use landlock_observability.Lltop.App.{Tab, Rect}
use landlock_observability.Lltop.Input.{checked_add}

abbrev pub all_tabs : List Tab
all_tabs = Tab.domains ∷ Tab.denials ∷ Tab.rulesets ∷ Tab.stats ∷ []

-- The length of a title: `Domains [1]`, `Denials [2]`, `Rulesets [3]`, `Stats [4]`.
abbrev pub title_len : Tab → ℕ
title_len Tab.domains = 11
title_len Tab.denials = 11
title_len Tab.rulesets = 12
title_len Tab.stats = 9

-- The loop, from a start on.
unfoldable pub tab_at : ℕ → ℕ → List Tab → Option Tab
tab_at relative start [] = none
tab_at relative start (tab ∷ tabs) =
    let stop = start + title_len tab + 2 in
    let later = tab_at relative (stop + 1) tabs in
    if leb start relative && ltb relative stop then some tab else later

abbrev pub on_line : Rect → ℕ → ℕ → Option ℕ → Option Tab
on_line area column row none = none
on_line area column row (some line) =
    let hit = tab_at (column - area.x - 1) 0 all_tabs in
    if not (row == line) || leb column area.x then none else hit

-- `clicked_tab`
unfoldable pub clicked_tab : Rect → ℕ → ℕ → Option Tab
clicked_tab area column row = on_line area column row (checked_add area.y 1)
