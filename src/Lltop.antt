-- ===== src/Lltop.antt =====
-- The program lltop (lltop/src). `Stats` has the counters of its batch mode.
pub mod Stats
pub mod Batch
mod Counting
mod Affected
mod Allocated
pub mod Main
mod BatchLoop
pub mod App
pub mod Input
pub mod Model
pub mod TabBar
mod TabCells
pub mod Escape
mod Unescape
pub mod Tree
mod TreeWalk
mod TreeCount
mod TreeOnce
mod View
mod Clicks
mod Selection
mod Views
mod Tests
mod ModeTests
mod TreeTests
mod EscapeTests
mod TabTests
