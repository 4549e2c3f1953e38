-- ===== src/Aggregate/Tests.antt =====
-- An aggregator with room for one key, and what it holds after two denials with different keys.
use landlock_observability.Prelude.{
  Option, some, ltb, if◌then◌else◌, ℕ, ◌≡◌, true, false, none, List, [], ◌∷◌, arith, ◌↔◌, ◌⊎◌, ◌<◌,
  err, ok,
}
use landlock_observability.Event.Kinds.{Event, deny_access_net}
use landlock_observability.Aggregate.Keys.{denial_facts}
use landlock_observability.Aggregate.Aggregator.{
  build, with_capacity, observe_all, observe, observe_entry, DenialAggregator, BuildError,
  invalid_capacity, reservation,
}
use landlock_observability.Aggregate.Recency.{by_recency, log_all, log_event, observed?}
use landlock_observability.Aggregate.Refinement.{IsValid}
use landlock_observability.Aggregate.Building.{build-log}
use landlock_observability.Aggregate.Stream.{
  observe_all-IsValid, observe_all-log, observe_entry-log, log_result, with_capacity-IsValid,
}

abbrev pub denial : ℕ → ℕ → Event
denial timestamp port = deny_access_net (record {
  timestamp = timestamp;
  context = record {
    hierarchy = record {
      domain_id = record { value = 0x1_0000_0001 };
      parent_id = none;
      creator_tgid = record { value = 7 };
      creator_comm = record { bytes = b's' ∷ b'h' ∷ []; bytes_omitted = false };
    };
    cumulative_denial_count = 1;
    same_exec = true;
    logged = false;
  };
  blockers_type = record { raw = 2 };
  blockers_access = record { bits = 2 };
  source_port = 0;
  destination_port = port;
})

abbrev events : List Event
events = denial 10 80 ∷ denial 20 443 ∷ denial 15 443 ∷ []

observe_all-IsValid_example : IsValid (observe_all (with_capacity 1) events)
observe_all-IsValid_example = observe_all-IsValid 1 (omega arith) (omega arith) events

observe_all-log_example :
    by_recency (observe_all (with_capacity 1) events).entries ≡ log_all 1 [] events
observe_all-log_example = observe_all-log 1 (omega arith) (omega arith) events

observe_entry-log_example :
    IsValid (observe (with_capacity 1) (denial 10 80))
    × ((observe (with_capacity 1) (denial 10 80)).capacity ≡ 1)
    × (by_recency (observe (with_capacity 1) (denial 10 80)).entries
        ≡ log_event 1 (by_recency (with_capacity 1).entries) (denial 10 80))
    × (observed? (observe_entry (with_capacity 1) (denial 10 80)).1
        ≡ log_result
            (denial 10 80)
            (log_event 1 (by_recency (with_capacity 1).entries) (denial 10 80))
            (denial_facts (denial 10 80)))
observe_entry-log_example =
    observe_entry-log (with_capacity 1) (with_capacity-IsValid 1 (omega arith) (omega arith))
      (denial 10 80)

-- A reservation that succeeds up to a limit.
abbrev try_reserve : ℕ → Option ℕ
try_reserve n = if ltb 1000 n then some n else none

build-log_example :
    ((s : DenialAggregator)
      → build try_reserve 3 ≡ ok s
      → (events : List Event)
      → IsValid (observe_all s events)
        × (by_recency (observe_all s events).entries ≡ log_all 3 [] events))
    × ((s : DenialAggregator)
        → (build try_reserve 3 ≡ ok s) ↔ ((0 < 3) × (try_reserve 3 ≡ none) × (s ≡ with_capacity 3)))
    × ((e : BuildError ℕ)
        → (build try_reserve 3 ≡ err e) ↔ (
            ((◌≡◌ {A = ℕ} 3 0) × (e ≡ invalid_capacity 0))
            ⊎ ((0 < 3)
                × ((source : ℕ) × (try_reserve 3 ≡ some source) × (e ≡ reservation 3 source)))))
build-log_example = build-log try_reserve 3 (omega arith)
