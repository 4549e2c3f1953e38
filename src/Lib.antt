-- ===== src/Lib.antt =====
-- Landlock observability: the crate's pure core, checked.
--
-- The crate turns fixed-size records that eBPF programs write in the kernel into semantic events
-- (src/event, decoded by src/wire.rs), and offers two views of a stream of events: a partial
-- reconstruction of the rulesets and domains that the kernel has (src/state.rs), and a bounded
-- aggregation of denials (src/aggregate.rs). The two views do not know each other; each is a fold of one step function
-- over the events in the order of delivery. Between the kernel and them stand the collector
-- (src/collector.rs), whose worker thread decodes records into a bounded queue that the caller
-- receives from, and the privileges that it needs to be set up (src/privilege.rs).
--
-- Files and code:
--   Prelude   native numbers and their Boolean tests, lists, results.
--   Map       the part of `HashMap` that the code uses, as a list of pairs with a key equality:
--             `alter` is `entry().and_modify().or_insert()`, and `or_insert` is
--             `entry().or_insert()`.
--   Event     src/event: `Ids` has the identities and their constructors, `Access` the access masks
--             and src/event/access_names.rs, `Captured` src/event/string.rs, `Kinds` the events;
--             `Validity`, `Ranges`, `Bits` and `Masks` are about their values.
--   Wire      src/wire.rs: `Reader` has the readers of single fields, `Arms` those of the twelve
--             records, `Decode` has `decode`; `Strings`, `Fields`, `Records` and `Guarantee` are
--             about their results.
--   State     src/state.rs: `Facts`, `Rulesets` and `Domains` have what an event does to one object,
--             one function per arm of `State::apply`; `Apply` has `State`, `apply` and
--             `apply_denial`. The other modules are about streams: `Tally` joins what each
--             event says on its own, `RulesetFacts` and `DomainFacts` say what that is,
--             `Invariant` and its parts are about what every event keeps, `Creations`
--             and `Enforcements` describe the events that give a domain's facts.
--   Aggregate src/aggregate.rs: `Keys` has the denial keys and `denial_facts`, `Aggregator` the
--             operations of `DenialAggregator`. `Recency` is an abstract aggregator without numbers,
--             and `Refinement`, `Room`, `Simulation`, `Stream` and `Building` relate the real one to
--             it.
--   Privilege src/privilege.rs: `Errors`, `Kernel` (the system calls, a parameter, and the functions
--             that wrap one), `Inspect` (the loop over the capabilities, `verify`), `Policy`
--             (`finish_policy_with`) and `Minimize` have the code; `Ensures` is about chains of
--             calls, `Honest` says what the code relies on of the calls that read, `Guarantee` and
--             `Reuse` are about what is left.
--   Collector src/collector.rs and src/collector/tracepoint.rs: `Config`, `Errors`, `Pipe` (the shared
--             state and the worker's operations), `Receive` (the consumer's), `Run` (both as steps),
--             `Tracepoint` and `Prepare` have the code. `Stream` is what the collector promises, with
--             neither bounded queues nor slots; `Refine` reads a state as a stream, and `Invariant`,
--             `Simulation`, `Steps`, `Runs`, `Timeouts` and `Preparation` are about both.
--   Lltop     lltop/src, the program that shows both views: `Stats` and `Batch` have its batch mode
--             (lltop/src/batch.rs), `Main` its entry point (lltop/src/main.rs, with `BatchLoop`
--             about it), `Model`, `App` and `Input` its interactive mode (lltop/src/tui).
--             `Counting`, `Affected` and `Allocated` are about the batch's count of domains, `View`,
--             `Clicks` and `Selection` about what is seen and hit, `Views` about the model of the
--             events. `Tree` has its tree of domains, with `TreeCount`, `TreeOnce` and `TreeWalk`
--             about it, `Escape` the text of captured bytes (lltop/src/batch.rs), with `Unescape`
--             about it, and `TabBar` the tab that a click hits, with `TabCells` about it.
--
-- A record of the producer is a list of bytes, and the byte order of the machine is a parameter. A
-- state is a record and a method that changes it a function to the new state. A `u32`, `u64` or
-- `u128` is a native number; where the code saturates, the bound is written out. No code modelled
-- here wraps around. Loops run over a list or over the 64 capabilities, except that of `append`
-- (lltop/src/tui/model.rs): its fuel is one more than the number of children of all domains, and
-- each turn takes its first row or a child that a visit has pushed. In a run of the collector, a
-- step of the worker is the arrival of a sample, the return of a poll with all that it reports, or
-- the worker's end. A receive has two steps, its look at the channel of deliveries and its look at
-- the channel of failures, and the worker may take any steps between them. A receive that waits is
-- not a step of a run: `Timeouts` compares it with one that does not.
--
-- Not modelled: the text that `Display` and `Debug` make; the typestate builders, which are record
-- construction; what `HashMap` allocates (`try_reserve` is a parameter of `build`);
-- the eBPF programs, memory orderings, and
-- of the program lltop what draws and reads the terminal.
pub mod Prelude
pub mod Map
pub mod Event
pub mod State
pub mod Wire
pub mod Collector
pub mod Privilege
pub mod Aggregate
pub mod Lltop
