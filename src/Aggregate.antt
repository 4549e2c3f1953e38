-- ===== src/Aggregate.antt =====
-- The bounded aggregation of denials (src/aggregate.rs). `Keys` has the keys and what an event says
-- of one, `Aggregator` the aggregator with its operations. The other modules compare it with a list
-- of the keys in the order of their last observation.
pub mod Keys
pub mod Aggregator
pub mod Sorting
pub mod Order
pub mod Recency
pub mod Refinement
pub mod Room
pub mod Simulation
pub mod Stream
mod Building
pub mod Tests
