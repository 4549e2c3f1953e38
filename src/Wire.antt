-- ===== src/Wire.antt =====
-- The decoding of the producer's records (src/wire.rs). `Reader` has the readers of single fields,
-- `Arms` those of the twelve records, `Decode` the match on the kind.
pub mod Reader
pub mod Ensures
pub mod Strings
pub mod Fields
pub mod Arms
pub mod Decode
pub mod Records
pub mod Guarantee
mod Tests
