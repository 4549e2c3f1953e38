-- ===== src/State.antt =====
-- The state reconstructed from events (src/state.rs). `Facts` has the facts that grow, `Rulesets`
-- and `Domains` the two kinds of entry with the updates of one entry, and `Apply` the operation
-- `State::apply`. The other modules are about streams of events.
pub mod Facts
pub mod Rulesets
pub mod Domains
pub mod Apply
pub mod Tally
pub mod RulesetFacts
pub mod DomainFacts
pub mod DomainSteps
pub mod History
pub mod RulesetInvariant
pub mod DomainInvariant
pub mod Invariant
pub mod Validity
pub mod Preserves
pub mod Latest
pub mod Creations
pub mod Enforcements
mod Tests
