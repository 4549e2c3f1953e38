-- ===== src/Lltop/Selection.antt =====
-- The selection of lltop's interactive mode (lltop/src/tui): what it can be.
use landlock_observability.Prelude.{
  ℕ, zero, suc, ◌-◌, ◌≡◌, refl, Bool, true, false, not, ◌&&◌, Option, none, some, List, [], ◌∷◌,
  All, arith, get_elem?, inl, inr, Bool-cases, if◌then◌else◌,
}
use landlock_observability.Event.Ids.{DomainId, RulesetId}
use landlock_observability.State.Apply.{State, find_domain}
use landlock_observability.Aggregate.Aggregator.{saturating_add}
use landlock_observability.Lltop.Batch.{usize_max}
use landlock_observability.Lltop.App.{
  App, Rect, RowKind, Delta, app_new, selectable, selectable_rows, is_last, move_selection,
  select_row, scroll_by, place_list, adjust_viewport,
}
use landlock_observability.Lltop.Input.{
  Input, handle, click_row, click_line, click_within, line_in_list, is_outside, drag_scrollbar,
  drag_from, follow_domain, follow_from, show_ruleset, scrollbar_hit, select_clicked,
  domain_ruleset, selected_domain, checked_add,
}

-- The selected row, if any, can be selected.
abbrev pub IsSelected : Option RowKind → Type 0
IsSelected none = Unit
IsSelected (some row) = selectable row ≡ true

selectable_rows-All :
    (last : Option RowKind) (rows : List RowKind)
    → All (λ row. selectable row ≡ true) (selectable_rows last rows)
unfolding selectable_rows
selectable_rows-All last [] = tt
selectable_rows-All last (row ∷ rows) =
    elim (Bool-cases (selectable row && not (is_last last row))) [
      | inl e ↦ rw (e, selectable_rows) (ground (arith, e), selectable_rows-All (some row) rows)
      | inr e ↦ rw (e, selectable_rows) (selectable_rows-All last rows)
    ]

get_elem?-All :
    (rows : List RowKind) (i : ℕ)
    → All (λ row. selectable row ≡ true) rows
    → IsSelected (get_elem? rows i)
get_elem?-All [] i h = tt
get_elem?-All (row ∷ rows) zero h = h.0
get_elem?-All (row ∷ rows) (suc i) h = get_elem?-All rows i h.1

select_row-IsSelected :
    (o : Option RowKind) (app : App)
    → IsSelected o
    → IsSelected app.selected
    → IsSelected (select_row o app).selected
select_row-IsSelected none app h k = k
select_row-IsSelected (some row) app h k = h

move_selection-IsSelected :
    (delta : Delta) (app : App)
    → IsSelected app.selected
    → IsSelected (move_selection delta app).selected
unfolding move_selection
move_selection-IsSelected delta app h =
    select_row-IsSelected _ _
      (get_elem?-All (selectable_rows none app.hit.rows) _ (selectable_rows-All none app.hit.rows))
      h

select_clicked-IsSelected :
    (o : Option RowKind) (app : App)
    → IsSelected app.selected
    → IsSelected (select_clicked o app).selected
select_clicked-IsSelected none app h = h
select_clicked-IsSelected (some kind) app h = ground (arith, h)

-- An app, or one that was quit, whose selection can be selected.
abbrev pub IsSound : Option App → Type 0
IsSound none = Unit
IsSound (some app) = IsSelected app.selected

if-IsSound : (b : Bool) (x y : Option App) → IsSound x → IsSound y → IsSound (if b then x else y)
if-IsSound true x y h k = h
if-IsSound false x y h k = k

either-IsSelected :
    (b : Bool) (x y : App)
    → IsSelected x.selected
    → IsSelected y.selected
    → IsSelected (if b then x else y).selected
either-IsSelected true x y h k = h
either-IsSelected false x y h k = k

click_line-IsSelected :
    (app : App) (o : Option ℕ) → IsSelected app.selected → IsSelected (click_line o app).selected
click_line-IsSelected app none h = h
click_line-IsSelected app (some visible) h =
    select_clicked-IsSelected (get_elem? app.hit.rows (saturating_add usize_max app.scroll visible))
      app h

click_within-IsSelected :
    (column row : ℕ) (app : App) (right bottom : Option ℕ)
    → IsSelected app.selected
    → IsSelected (click_within column row app right bottom).selected
click_within-IsSelected column row app none bottom h = h
click_within-IsSelected column row app (some right) none h = h
click_within-IsSelected column row app (some right) (some bottom) h =
    either-IsSelected (is_outside column row app.hit.list right bottom) app
      (click_line (line_in_list row app) app) h (click_line-IsSelected app (line_in_list row app) h)

drag_from-IsSelected :
    (row : ℕ) (app : App) (o : Option ℕ)
    → IsSelected app.selected
    → IsSelected (drag_from row o app).selected
drag_from-IsSelected row app none h = h
drag_from-IsSelected row app (some start) h = h

show_ruleset-IsSelected :
    (o : Option RulesetId) (app : App)
    → IsSelected app.selected
    → IsSelected (show_ruleset o app).selected
show_ruleset-IsSelected none app h = h
show_ruleset-IsSelected (some id) app h = refl

follow_from-IsSelected :
    (o : Option DomainId) (s : State) (app : App)
    → IsSelected app.selected
    → IsSelected (follow_from o s app).selected
follow_from-IsSelected none s app h = h
follow_from-IsSelected (some id) s app h =
    show_ruleset-IsSelected (domain_ruleset (find_domain id s)) app h

handle-IsSound :
    (s : State) (app : App) (input : Input) → IsSelected app.selected → IsSound (handle s app input)
unfolding handle scroll_by follow_domain drag_scrollbar click_row
handle-IsSound s app Input.quit h = tt
handle-IsSound s app Input.escape h = if-IsSound app.detail _ none h tt
handle-IsSound s app Input.tab_key h = tt
handle-IsSound s app Input.pause h = h
handle-IsSound s app Input.up h = move_selection-IsSelected (Delta.back 1) app h
handle-IsSound s app Input.down h = move_selection-IsSelected (Delta.forth 1) app h
handle-IsSound s app Input.enter h = follow_from-IsSelected (selected_domain app.selected) s app h
handle-IsSound s app (Input.choose_tab tab) h = tt
handle-IsSound s app Input.wheel_up h = h
handle-IsSound s app Input.wheel_down h = h
handle-IsSound s app Input.release h = h
handle-IsSound s app Input.other h = h
handle-IsSound s app (Input.press column row (some tab)) h = tt
handle-IsSound s app (Input.press column row none) h =
    let dragging : App = record app { dragging_scrollbar = true } in
    either-IsSelected (scrollbar_hit app.hit.list column row) (drag_scrollbar row dragging)
      (click_row column row app)
      (drag_from-IsSelected row dragging (checked_add app.hit.list.y 1) h)
      (click_within-IsSelected column row app (checked_add app.hit.list.x app.hit.list.width)
        (checked_add app.hit.list.y (app.hit.list.height - 1)) h)
handle-IsSound s app (Input.drag row) h =
    if-IsSound app.dragging_scrollbar (some (drag_scrollbar row app)) (some app)
      (drag_from-IsSelected row app (checked_add app.hit.list.y 1) h) h

-- A session: lists are drawn, of whatever rows the model has then, and events are handled.
pub data Session : Type 0 where
  drawn : Rect → List RowKind → Session
  handled : State → Input → Session

abbrev pub session_step : Option App → Session → Option App
session_step none step = none
session_step (some app) (Session.drawn area rows) = some (place_list area rows app)
session_step (some app) (Session.handled s input) = handle s app input

unfoldable pub session : Option App → List Session → Option App
session o [] = o
session o (step ∷ steps) = session (session_step o step) steps

session_step-IsSound : (o : Option App) (step : Session) → IsSound o → IsSound (session_step o step)
unfolding place_list adjust_viewport
session_step-IsSound none step h = tt
session_step-IsSound (some app) (Session.drawn area rows) h = h
session_step-IsSound (some app) (Session.handled s input) h = handle-IsSound s app input h

session-lem : (o : Option App) (steps : List Session) → IsSound o → IsSound (session o steps)
unfolding session
session-lem o [] h = h
session-lem o (step ∷ steps) h =
    session-lem (session_step o step) steps (session_step-IsSound o step h)

-- Whatever is drawn and whatever the keys and the mouse do from the start, a heading is never the
-- selected row.
pub session-IsSound : (steps : List Session) → IsSound (session (some app_new) steps)
session-IsSound steps = session-lem (some app_new) steps tt
