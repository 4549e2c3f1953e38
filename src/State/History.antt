-- ===== src/State/History.antt =====
-- What the state (src/state.rs) holds after a stream of events, against the stream itself.
use mathlib.Core.List.{Perm}
use landlock_observability.Prelude.{◌≡◌, ap, sym, ◌∙◌, List}
use landlock_observability.Event.Ids.{DomainId, RulesetId}
use landlock_observability.Event.Kinds.{Event}
use landlock_observability.State.Apply.{State, apply_all}
use landlock_observability.State.Tally.{tally, tally-perm, view-apply_all}
use landlock_observability.State.RulesetFacts
use landlock_observability.State.RulesetFacts.{
  ruleset_summary, ruleset_said, ruleset_summary-apply, RulesetSummary,
}
use landlock_observability.State.DomainFacts
use landlock_observability.State.DomainFacts.{domain_summary, domain_said}
use landlock_observability.State.DomainSteps.{domain_summary-apply}

-- After any stream of events, from any state, the lifecycle of a ruleset, its greatest observed and
-- final version and its latest free timestamp are what the state held joined with what the events
-- of the stream say of that ruleset, each on its own: deallocation is final, numbers take maxima.
pub ruleset_summary-apply_all :
    (id : RulesetId) (s : State) (events : List Event)
    → ruleset_summary id (apply_all s events)
      ≡ RulesetFacts.both
          (ruleset_summary id s)
          (tally RulesetFacts.summary_join (ruleset_said id) events)
ruleset_summary-apply_all id s events =
    view-apply_all RulesetFacts.summary_join (ruleset_summary id) (ruleset_said id)
      (ruleset_summary-apply id) s events

-- After any stream of events, from any state, the lifecycle of a domain, its cumulative and final
-- denial counts, its latest free timestamp and whether an enforcement was process-wide are what the
-- state held joined with what the events of the stream say of that domain, each on its own. Events
-- that only name the domain, as a parent or as the other party of a denial, say that it was allocated.
pub domain_summary-apply_all :
    (id : DomainId) (s : State) (events : List Event)
    → domain_summary id (apply_all s events)
      ≡ DomainFacts.both
          (domain_summary id s)
          (tally DomainFacts.summary_join (domain_said id) events)
domain_summary-apply_all id s events =
    view-apply_all DomainFacts.summary_join (domain_summary id) (domain_said id)
      (domain_summary-apply id) s events

-- Two streams with the same events in another order, applied to one state, agree on these facts of
-- every ruleset and of every domain.
pub summary-perm :
    (s : State) {events other : List Event}
    → Perm events other
    → ((id : RulesetId)
        → ruleset_summary id (apply_all s events) ≡ ruleset_summary id (apply_all s other))
      × ((id : DomainId)
          → domain_summary id (apply_all s events) ≡ domain_summary id (apply_all s other))
summary-perm s {events} {other} p = (
  λ id.
      ruleset_summary-apply_all id s events
      ∙ ap (RulesetFacts.both (ruleset_summary id s))
          (tally-perm RulesetFacts.summary_join (ruleset_said id) p)
      ∙ sym (ruleset_summary-apply_all id s other),
  λ id.
      domain_summary-apply_all id s events
      ∙ ap (DomainFacts.both (domain_summary id s))
          (tally-perm DomainFacts.summary_join (domain_said id) p)
      ∙ sym (domain_summary-apply_all id s other),
)
