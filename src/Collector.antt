-- ===== src/Collector.antt =====
-- The collector (src/collector.rs): the bounded queue between the thread that polls the kernel's
-- ring buffer and the one that receives events. `Config` has the configuration, `Errors` the
-- failures, `Pipe` the state that both threads share and the worker's side of it, `Receive` the
-- consumer's side, `Run` the interleavings of both.
pub mod Config
pub mod Errors
pub mod Pipe
pub mod Receive
pub mod Run
pub mod Stream
pub mod Refine
pub mod Invariant
pub mod Simulation
mod Steps
pub mod Runs
pub mod Tracepoint
pub mod Prepare
pub mod Preparation
pub mod Timeouts
mod Tests
mod PrepareTests
