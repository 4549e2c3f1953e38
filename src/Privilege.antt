-- ===== src/Privilege.antt =====
-- Privilege management (src/privilege.rs). `Errors` has its errors, `Kernel` the calls that it makes
-- and what they answer, `Inspect` the loop over the capabilities and `verify`, `Policy` the states
-- of a `Privileges` value and how they are finished, `Minimize` how one is made.
pub mod Errors
pub mod Kernel
pub mod Inspect
pub mod Policy
pub mod Minimize
pub mod Ensures
pub mod Honest
pub mod Guarantee
pub mod Reuse
mod Tests
