-- ===== src/Lltop/App.antt =====
-- The state of lltop's interactive mode (lltop/src/tui/ui.rs): `Tab`, `RowKind`, `App` and its
-- operations, and `viewport_scroll`.
use landlock_observability.Prelude.{
  ℕ, suc, ◌-◌, Bool, true, false, not, ◌&&◌, Option, none, some, List, [], ◌∷◌, String, length,
  get_elem?, min, ltb, leb, if◌then◌else◌, ite,
}
use landlock_observability.Event.Ids.{DomainId, RulesetId, LandlockId-discrete}
use landlock_observability.Aggregate.Keys.{DenialKey, DenialKey-discrete}
use landlock_observability.Aggregate.Aggregator.{saturating_add}
use landlock_observability.Lltop.Batch.{usize_max}

pub data Tab : Type 0 where
  domains denials rulesets stats : Tab

pub data RowKind : Type 0 where
  domain_row : DomainId → RowKind
  denial_domain_row : DomainId → RowKind
  denial_row : DenialKey → RowKind
  ruleset_row : RulesetId → RowKind
  heading_row : RowKind

-- `RowKind::selectable`
abbrev pub selectable : RowKind → Bool
selectable (RowKind.domain_row id) = true
selectable (RowKind.denial_domain_row id) = true
selectable (RowKind.denial_row key) = true
selectable (RowKind.ruleset_row id) = true
selectable RowKind.heading_row = false

abbrev pub same_id : {A : Type 0} → Discrete A → A → A → Bool
same_id dec a b = ite (dec a b) true false

-- The derived equality.
unfoldable pub same_row : RowKind → RowKind → Bool
same_row (RowKind.domain_row a) (RowKind.domain_row b) = same_id LandlockId-discrete a b
same_row (RowKind.denial_domain_row a) (RowKind.denial_domain_row b) =
    same_id LandlockId-discrete a b
same_row (RowKind.denial_row a) (RowKind.denial_row b) = same_id DenialKey-discrete a b
same_row (RowKind.ruleset_row a) (RowKind.ruleset_row b) = same_id LandlockId-discrete a b
same_row RowKind.heading_row RowKind.heading_row = true
same_row _ _ = false

-- `ratatui::layout::Rect`, in cells.
pub record Rect : Type 0 where
  pub x : ℕ
  pub y : ℕ
  pub width : ℕ
  pub height : ℕ

abbrev pub rect_default : Rect
rect_default = record { x = 0; y = 0; width = 0; height = 0 }

pub record HitMap : Type 0 where
  pub tabs : Rect
  pub list : Rect
  pub rows : List RowKind
  pub header_rows : ℕ

pub record App : Type 0 where
  pub tab : Tab
  pub paused : Bool
  pub collector_warning : Option String
  pub selected : Option RowKind
  pub detail : Bool
  pub scroll : ℕ
  pub follow_selection : Bool
  pub dragging_scrollbar : Bool
  pub hit : HitMap

-- `App::new`
abbrev pub app_new : App
app_new = record {
  tab = Tab.domains;
  paused = false;
  collector_warning = none;
  selected = none;
  detail = false;
  scroll = 0;
  follow_selection = true;
  dragging_scrollbar = false;
  hit = record { tabs = rect_default; list = rect_default; rows = []; header_rows = 0 };
}

abbrev pub set_collector_warning : String → App → App
set_collector_warning warning app = record app { collector_warning = some warning }

abbrev pub close_detail : App → App
close_detail app = record app { detail = false }

abbrev pub set_tab : Tab → App → App
set_tab tab app = record app {
  tab = tab;
  selected = none;
  detail = false;
  scroll = 0;
  follow_selection = true;
}

abbrev pub next_tab : Tab → Tab
next_tab Tab.domains = Tab.denials
next_tab Tab.denials = Tab.rulesets
next_tab Tab.rulesets = Tab.stats
next_tab Tab.stats = Tab.domains

abbrev pub cycle_tab : App → App
cycle_tab app = set_tab (next_tab app.tab) app

-- A signed distance: its sign and its absolute value.
pub data Delta : Type 0 where
  back forth : (amount : ℕ) → Delta

unfoldable pub scroll_by : Delta → App → App
scroll_by (Delta.back amount) app = record app {
  follow_selection = false;
  scroll = app.scroll - amount;
}
scroll_by (Delta.forth amount) app = record app {
  follow_selection = false;
  scroll = saturating_add usize_max app.scroll amount;
}

abbrev pub scroll_to : ℕ → App → App
scroll_to scroll app = record app { follow_selection = false; scroll = scroll }

abbrev pub is_last : Option RowKind → RowKind → Bool
is_last none row = false
is_last (some previous) row = same_row previous row

-- The selectable rows, without the repetitions that a wrapped row makes; `last` is the one before.
unfoldable pub selectable_rows : Option RowKind → List RowKind → List RowKind
selectable_rows last [] = []
selectable_rows last (row ∷ rows) =
    if selectable row && not (is_last last row)
    then row ∷ selectable_rows (some row) rows
    else selectable_rows last rows

-- `iter().position(|(_, row)| *row == selected)`, from an index on.
unfoldable pub position_of : RowKind → ℕ → List RowKind → Option ℕ
position_of selected index [] = none
position_of selected index (row ∷ rows) =
    let rest = position_of selected (suc index) rows in
    if same_row row selected then some index else rest

abbrev pub current_position : Option RowKind → List RowKind → Option ℕ
current_position none rows = none
current_position (some selected) rows = position_of selected 0 rows

-- The `match` on the current position and the sign, for a distance that is not zero.
unfoldable pub next_position : Option ℕ → Delta → ℕ → ℕ
next_position none (Delta.back amount) last = last
next_position none (Delta.forth amount) last = 0
next_position (some index) (Delta.back amount) last = index - 1
next_position (some index) (Delta.forth amount) last = min (saturating_add usize_max index 1) last

abbrev pub select_row : Option RowKind → App → App
select_row none app = app
select_row (some row) app = record app { selected = some row; detail = true }

-- `App::move_selection`
unfoldable pub move_selection : Delta → App → App
unfolding selectable_rows next_position
move_selection delta app =
    let rows = selectable_rows none app.hit.rows in
    let following : App = record app { follow_selection = true } in
    let next = next_position (current_position app.selected rows) delta (length rows - 1) in
    select_row (get_elem? rows next) following

abbrev pub scroll_for : ℕ → ℕ → Option ℕ → ℕ
scroll_for scroll visible none = scroll
scroll_for scroll visible (some index) =
    if ltb index scroll
    then index
    else if leb (saturating_add usize_max scroll visible) index
    then saturating_add usize_max index 1 - visible
    else scroll

-- `viewport_scroll`
unfoldable pub viewport_scroll : ℕ → ℕ → ℕ → Option ℕ → Bool → ℕ
viewport_scroll scroll row_count visible selected_index follow_selection =
    let clamped = min scroll (row_count - visible) in
    if not follow_selection then clamped else scroll_for clamped visible selected_index

-- `App::adjust_viewport`
unfoldable pub adjust_viewport : ℕ → ℕ → Option ℕ → App → App
unfolding viewport_scroll
adjust_viewport row_count visible selected_index app = record app {
  scroll = viewport_scroll app.scroll row_count visible selected_index app.follow_selection;
}

-- The part of `draw_list` that changes the app, for rows that are wrapped already.
unfoldable pub place_list : Rect → List RowKind → App → App
unfolding adjust_viewport
place_list area rows app =
    let visible = area.height - 2 in
    let adjusted = adjust_viewport (length rows) visible (current_position app.selected rows) app in
    record adjusted { hit = record adjusted.hit { list = area; header_rows = 1; rows = rows } }
