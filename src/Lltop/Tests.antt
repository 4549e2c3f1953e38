-- ===== src/Lltop/Tests.antt =====
-- The counters of the batch mode after two events.
use landlock_observability.Prelude.{◌≡◌, min, List, [], ◌∷◌}
use landlock_observability.Event.Kinds.{Event, free_domain}
use landlock_observability.Aggregate.Aggregator.{u64_max}
use landlock_observability.Aggregate.Tests.{denial}
use landlock_observability.Lltop.Stats.{
  DenialKind, stats_default, process_all_stats, counter, denials_in, denials_of,
  process_all_stats-counts,
}

abbrev events : List Event
events =
    denial 10 80
    ∷ free_domain
        (record { timestamp = 20; domain_id = record { value = 0x1_0000_0001 }; denial_count = 1 })
    ∷ []

process_all_stats-counts_example :
    ((process_all_stats stats_default events).total_denials ≡ min (denials_in events) u64_max)
    × ((kind : DenialKind)
        → counter kind (process_all_stats stats_default events).denials
          ≡ min (denials_of kind events) u64_max)
process_all_stats-counts_example = process_all_stats-counts events
