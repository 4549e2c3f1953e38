-- ===== src/Lltop/Input.antt =====
-- What lltop's interactive mode makes of the mouse and the keys (lltop/src/tui/mod.rs):
-- `scrollbar_hit`, `click_row`, `drag_scrollbar`, `follow_domain` and the inner `match` of `run`.
use landlock_observability.Prelude.{
  ℕ, ◌+◌, ◌-◌, ◌*◌, ◌/◌, Bool, true, false, not, ◌&&◌, ◌||◌, Option, none, some, length, get_elem?,
  min, max, ltb, leb, ◌==◌, if◌then◌else◌,
}
use landlock_observability.Event.Ids.{DomainId, RulesetId}
use landlock_observability.State.Domains.{DomainState}
use landlock_observability.State.Apply.{State, find_domain}
use landlock_observability.Aggregate.Aggregator.{saturating_add}
use landlock_observability.Lltop.Batch.{usize_max}
use landlock_observability.Lltop.App.{
  Tab, RowKind, selectable, Rect, App, Delta, close_detail, set_tab, cycle_tab, scroll_by,
  scroll_to, move_selection,
}

abbrev pub u16_max : ℕ
u16_max = 65535

-- `checked_add` on `u16`.
abbrev pub checked_add : ℕ → ℕ → Option ℕ
checked_add a b = if leb (a + b) u16_max then some (a + b) else none

abbrev pub wheel_scroll_rows : ℕ
wheel_scroll_rows = 3

abbrev pub on_bar : ℕ → ℕ → Rect → Option ℕ → Option ℕ → Bool
on_bar column row area none bottom = false
on_bar column row area (some bar) none = false
on_bar column row area (some bar) (some bottom) = bar == column && ltb area.y row && ltb row bottom

-- `scrollbar_hit`
unfoldable pub scrollbar_hit : Rect → ℕ → ℕ → Bool
scrollbar_hit area column row =
    if area.width == 0
    then false
    else on_bar column row area (checked_add area.x (area.width - 1))
        (checked_add area.y (area.height - 1))

abbrev pub select_clicked : Option RowKind → App → App
select_clicked none app = app
select_clicked (some kind) app =
    if selectable kind then record app { selected = some kind; detail = true } else app

-- `row.checked_sub(area.y).and_then(|offset| offset.checked_sub(header_rows))`
abbrev pub line_in_list : ℕ → App → Option ℕ
line_in_list row app =
    if leb (app.hit.list.y + app.hit.header_rows) row
    then some (row - app.hit.list.y - app.hit.header_rows)
    else none

abbrev pub click_line : Option ℕ → App → App
click_line none app = app
click_line (some visible) app =
    select_clicked (get_elem? app.hit.rows (saturating_add usize_max app.scroll visible)) app

abbrev pub is_outside : ℕ → ℕ → Rect → ℕ → ℕ → Bool
is_outside column row area right bottom =
    ltb column area.x || leb right column || leb row area.y || leb bottom row

abbrev pub click_within : ℕ → ℕ → App → Option ℕ → Option ℕ → App
click_within column row app none bottom = app
click_within column row app (some right) none = app
click_within column row app (some right) (some bottom) =
    if is_outside column row app.hit.list right bottom
    then app
    else click_line (line_in_list row app) app

-- `click_row`
unfoldable pub click_row : ℕ → ℕ → App → App
click_row column row app =
    let area = app.hit.list in
    click_within column row app (checked_add area.x area.width)
      (checked_add area.y (area.height - 1))

-- `saturating_mul` on `usize`.
abbrev pub saturating_mul : ℕ → ℕ → ℕ
saturating_mul a b = min (a * b) usize_max

-- The position of a drag: `relative * max_scroll / max(height - 1, 1)`.
unfoldable pub drag_position : (height track_start row row_count : ℕ) → ℕ
drag_position height track_start row row_count =
    let relative = min (row - track_start) (height - 1) in
    saturating_mul relative (row_count - height) / max (height - 1) 1

abbrev pub drag_from : ℕ → Option ℕ → App → App
drag_from row none app = scroll_to 0 app
drag_from row (some track_start) app =
    scroll_to
      (drag_position (max (app.hit.list.height - 2) 1) track_start row (length app.hit.rows)) app

-- `drag_scrollbar`
unfoldable pub drag_scrollbar : ℕ → App → App
unfolding drag_position
drag_scrollbar row app = drag_from row (checked_add app.hit.list.y 1) app

abbrev pub domain_ruleset : Option DomainState → Option RulesetId
domain_ruleset none = none
domain_ruleset (some d) = elim d.frozen_ruleset [
  | none ↦ none
  | some version ↦ some version.ruleset_id
]

abbrev pub selected_domain : Option RowKind → Option DomainId
selected_domain none = none
selected_domain (some (RowKind.domain_row id)) = some id
selected_domain (some (RowKind.denial_domain_row id)) = some id
selected_domain (some (RowKind.denial_row key)) = none
selected_domain (some (RowKind.ruleset_row id)) = none
selected_domain (some RowKind.heading_row) = none

abbrev pub show_ruleset : Option RulesetId → App → App
show_ruleset none app = app
show_ruleset (some id) app = record (set_tab Tab.rulesets app) {
  selected = some (RowKind.ruleset_row id);
  detail = true;
}

abbrev pub follow_from : Option DomainId → State → App → App
follow_from none s app = app
follow_from (some id) s app = show_ruleset (domain_ruleset (find_domain id s)) app

-- `follow_domain`
unfoldable pub follow_domain : State → App → App
follow_domain s app = follow_from (selected_domain app.selected) s app

-- The events of the terminal that the loop tells apart. The tab that a click hits is a part of the
-- event, as are the keys for the tabs.
pub data Input : Type 0 where
  quit escape tab_key pause up down enter : Input
  choose_tab : Tab → Input
  wheel_up wheel_down release other : Input
  press : (column row : ℕ) → (clicked_tab : Option Tab) → Input
  drag : (row : ℕ) → Input

abbrev pub press_list : ℕ → ℕ → App → App
press_list column row app =
    if scrollbar_hit app.hit.list column row
    then drag_scrollbar row (record app { dragging_scrollbar = true })
    else click_row column row app

-- One turn of the loop after an event; `none` leaves the loop.
unfoldable pub handle : State → App → Input → Option App
unfolding follow_domain drag_scrollbar click_row scrollbar_hit
handle s app Input.quit = none
handle s app Input.escape = if app.detail then some (close_detail app) else none
handle s app Input.tab_key = some (cycle_tab app)
handle s app Input.pause = some (record app { paused = not app.paused })
handle s app Input.up = some (move_selection (Delta.back 1) app)
handle s app Input.down = some (move_selection (Delta.forth 1) app)
handle s app Input.enter = some (follow_domain s app)
handle s app (Input.choose_tab tab) = some (set_tab tab app)
handle s app Input.wheel_up = some (scroll_by (Delta.back wheel_scroll_rows) app)
handle s app Input.wheel_down = some (scroll_by (Delta.forth wheel_scroll_rows) app)
handle s app Input.release = some (record app { dragging_scrollbar = false })
handle s app Input.other = some app
handle s app (Input.press column row (some tab)) = some (set_tab tab app)
handle s app (Input.press column row none) = some (press_list column row app)
handle s app (Input.drag row) =
    if app.dragging_scrollbar then some (drag_scrollbar row app) else some app
