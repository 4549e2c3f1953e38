-- ===== src/Event.antt =====
-- The semantic events of the crate (src/event/mod.rs, src/event/string.rs): identities, masks,
-- captured bytes and the twelve kinds of event, with what the decoder and the state read of them.
pub mod Ids
pub mod Access
pub mod Captured
pub mod Kinds
pub mod Validity
pub mod Ranges
mod Bits
pub mod Masks
mod Tests
