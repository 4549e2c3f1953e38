-- ===== src/Lltop/View.antt =====
-- What is seen and hit of a list (lltop/src/tui/ui.rs and mod.rs): the viewport, drags of the
-- scroll bar, and clicks.
use native.Mathlib.Nat.{
  div-le_of_le-mul, le-div_iff_mul-le, div-mul-le_self, mul-div_cancel_left, zero-div, mul-le-mul,
  mul-le-mul_right,
}
use landlock_observability.Prelude.{
  ℕ, suc, ◌+◌, ◌-◌, ◌*◌, ◌/◌, ◌≤◌, ◌<◌, ◌≡◌, ap, ◌∙◌, true, false, some, arith, min, max,
}
use landlock_observability.Lltop.Batch.{usize_max}
use landlock_observability.Lltop.App.{viewport_scroll}
use landlock_observability.Lltop.Input.{drag_position, u16_max}

-- Following the selection, the viewport shows the selected row, for a list that `usize` can index;
-- it never begins after the last full page, and it moves only if it has to: when it does not follow,
-- or the row is in sight, it keeps its place up to that page.
pub viewport_scroll-shows :
    (scroll row_count visible index : ℕ)
    → index < row_count
    → row_count < usize_max
    → 0 < visible
    → let top = viewport_scroll scroll row_count visible (some index) true in
      let clamped = min scroll (row_count - visible) in
      ((top ≤ index) × (index < top + visible))
      × (top ≤ row_count - visible)
      × ((clamped ≤ index) → (index < clamped + visible) → (top ≡ clamped))
      × (viewport_scroll scroll row_count visible (some index) false ≡ clamped)
unfolding viewport_scroll
viewport_scroll-shows scroll row_count visible index inside bounded some_lines =
    ((ground arith, ground arith), ground arith, λ a b. ground arith, ground arith)

div_monotone : (a b d : ℕ) → 0 < d → a ≤ b → a / d ≤ b / d
div_monotone a b d pos le =
    (le-div_iff_mul-le {k = d} {x = a / d} {y = b} pos).1 (omega (arith, div-mul-le_self a d, le))

-- Dragging the scroll bar's handle over a list that `usize` can multiply with a height: the position
-- is at most the last full page, it grows with the row, and it is the start at the first row of the
-- track and, for a track of two rows or more, the last page at its last row. On a track of one row it is
-- always the start.
pub drag_position-bounds :
    (height track_start row row_count : ℕ)
    → 0 < height
    → height ≤ u16_max
    → row_count * suc u16_max ≤ usize_max
    → (drag_position height track_start row row_count ≤ row_count - height)
      × ((lower : ℕ)
          → row ≤ lower
          → drag_position height track_start row row_count
            ≤ drag_position height track_start lower row_count)
      × (row ≤ track_start → drag_position height track_start row row_count ≡ 0)
      × (height ≡ 1 → drag_position height track_start row row_count ≡ 0)
      × (2 ≤ height
          → track_start + height ≤ suc row
          → drag_position height track_start row row_count ≡ row_count - height)
unfolding drag_position
drag_position-bounds height track_start row row_count pos small bounded =
    let relative : ℕ = min (row - track_start) (height - 1) in
    let pages : ℕ = row_count - height in
    let d : ℕ = max (height - 1) 1 in
    let below : relative * pages ≤ d * pages = mul-le-mul_right pages (omega arith) in
    (
      div-le_of_le-mul d (omega (arith, below)),
      λ lower le.
          let lower_relative : ℕ = min (lower - track_start) (height - 1) in
          let more : relative * pages ≤ lower_relative * pages =
            mul-le-mul_right pages (omega (arith, le)) in
          div_monotone _ _ d (omega arith) (omega (arith, more)),
      λ le.
          let none_yet : relative * pages ≤ 0 * pages =
            mul-le-mul_right pages (omega (arith, le)) in
          let start : min (relative * pages) usize_max ≡ 0 = omega (arith, none_yet) in
          ap (λ n. n / d) start ∙ zero-div d,
      λ single.
          let none_yet : relative * pages ≤ 0 * pages =
            mul-le-mul_right pages (omega (arith, single)) in
          let start : min (relative * pages) usize_max ≡ 0 = omega (arith, none_yet) in
          ap (λ n. n / d) start ∙ zero-div d,
      λ tall last.
          let whole : relative ≡ d = omega (arith, tall, last) in
          let product : relative * pages ≡ d * pages = ap (λ n. n * pages) whole in
          let fits : d * pages ≤ suc u16_max * row_count =
            mul-le-mul (omega (arith, small)) (omega arith) in
          let full : min (relative * pages) usize_max ≡ d * pages =
            omega (arith, product, fits, bounded) in
          ap (λ n. n / d) full ∙ mul-div_cancel_left pages (omega arith),
    )
