-- ===== src/Aggregate/Stream.antt =====
-- One event and a stream of events in the aggregator (src/aggregate.rs), beside the abstract one.
use landlock_observability.Prelude.{
  ℕ, ◌<◌, ◌≡◌, refl, sym, ap, ◌∙◌, Option, none, some, List, [], ◌∷◌, Option-cases, inl, inr, arith,
}
use landlock_observability.Map.{get}
use landlock_observability.Event.Kinds.{Event}
use landlock_observability.Aggregate.Keys.{DenialKey-discrete, DenialFacts, denial_facts}
use landlock_observability.Aggregate.Aggregator.{
  AggregatedDenial, DenialAggregator, with_capacity, u128_max, next_ingestion_sequence,
  observe_denial, observe_entry, observe, observe_all, sort,
}
use landlock_observability.Aggregate.Recency.{
  Log, by_recency, Observed, log_denial, log_facts, log_event, log_all, observed?,
}
use landlock_observability.Aggregate.Refinement.{
  IsValid, next_ingestion_sequence-IsReady, by_recency-next, capacity-next,
}
use landlock_observability.Aggregate.Simulation.{observe_denial-Simulates}

-- What the caller gets back of an event: nothing, or the entry that the log now has of its key.
abbrev pub log_result : Event → Log → Option DenialFacts → Option Observed
log_result event log none = none
log_result event log (some facts) = get DenialKey-discrete facts.key log

-- One call: the invariant and the capacity stay, the log goes one step, and what is returned is
-- the entry that it then has.
record Steps (s : DenialAggregator) (event : Event) (r : DenialAggregator × Option AggregatedDenial)
    : Type 0 where
  valid : IsValid r.0
  capacity : r.0.capacity ≡ s.capacity
  log : by_recency r.0.entries ≡ log_event s.capacity (by_recency s.entries) event
  result :
      observed? r.1
      ≡ log_result event (log_event s.capacity (by_recency s.entries) event) (denial_facts event)

module _ (s : DenialAggregator) (valid : IsValid s) (event : Event) where
  ignored : denial_facts event ≡ none → Steps s event (observe_entry s event)
  unfolding observe_entry
  ignored e =
      rw (e, observe_entry)
        (record {
          valid = valid;
          capacity = refl;
          log = sym (ap (log_facts s.capacity (by_recency s.entries) event) e);
          result =
              sym (ap (log_result event (log_event s.capacity (by_recency s.entries) event)) e);
        })

  counted :
      (facts : DenialFacts)
      → denial_facts event ≡ some facts
      → Steps s event (observe_entry s event)
  unfolding observe_entry
  counted facts e =
      let (next_valid, same_capacity, same_log, returned) =
        observe_denial-Simulates (next_ingestion_sequence s)
          (next_ingestion_sequence-IsReady s valid) event facts e in
      let log_step : by_recency (observe_denial event facts (next_ingestion_sequence s)).0.entries
          ≡ log_event s.capacity (by_recency s.entries) event =
        same_log
        ∙ ap (λ c. log_denial c event facts (by_recency (next_ingestion_sequence s).entries))
            (capacity-next s valid)
        ∙ ap (log_denial s.capacity event facts) (by_recency-next s valid)
        ∙ sym (ap (log_facts s.capacity (by_recency s.entries) event) e) in
      rw (e, observe_entry)
        (record {
          valid = next_valid;
          capacity = same_capacity ∙ capacity-next s valid;
          log = log_step;
          result =
              returned
              ∙ ap (get DenialKey-discrete facts.key) log_step
              ∙ sym (ap (log_result event (log_event s.capacity (by_recency s.entries) event)) e);
        })

  observe_entry-Steps : Steps s event (observe_entry s event)
  observe_entry-Steps = elim (Option-cases (denial_facts event)) [
    | inl e ↦ ignored e
    | inr (facts, e) ↦ counted facts e
  ]

  -- From a valid aggregator, an event leaves a valid one of the same capacity. Read from the least
  -- to the most recently observed, its entries change as the abstract log does: a denial's key
  -- becomes the most recent, with its count raised by one up to the greatest `u64`, a new key takes
  -- the place of the least recent one at the capacity, and all other events change nothing. An
  -- event that is no denial returns nothing, and a denial returns the entry that is then stored.
  pub observe_entry-log :
      IsValid (observe s event)
      × ((observe s event).capacity ≡ s.capacity)
      × (by_recency (observe s event).entries ≡ log_event s.capacity (by_recency s.entries) event)
      × (observed? (observe_entry s event).1
          ≡ log_result event
              (log_event s.capacity (by_recency s.entries) event)
              (denial_facts event))
  observe_entry-log = let h = observe_entry-Steps in (h.valid, h.capacity, h.log, h.result)

pub with_capacity-IsValid : (c : ℕ) → 0 < c → c < u128_max → IsValid (with_capacity c)
with_capacity-IsValid c positive small = record {
  positive = positive;
  small = small;
  bounded = omega arith;
  nodup = tt;
  numbered = tt;
  in_range = omega arith;
  fits = tt;
}

observe_all_from :
    (s : DenialAggregator)
    → IsValid s
    → (events : List Event)
    → IsValid (observe_all s events)
      × (by_recency (observe_all s events).entries
          ≡ log_all s.capacity (by_recency s.entries) events)
unfolding observe_all
observe_all_from s valid [] = (valid, refl)
observe_all_from s valid (event ∷ events) =
    let h = observe_entry-Steps s valid event in
    let (kept, same) = observe_all_from (observe s event) h.valid events in
    (
      kept,
      same
          ∙ ap (λ c. log_all c (by_recency (observe s event).entries) events) h.capacity
          ∙ ap (λ l. log_all s.capacity l events) h.log,
    )

-- For every capacity that is not zero and below the greatest `u128`, and after every sequence of
-- events, the aggregator is valid: at most that many entries, no key twice, and each entry has the
-- key, the flags and the time of its latest event, which is a denial, and counts at least one.
pub observe_all-IsValid :
    (c : ℕ)
    → 0 < c
    → c < u128_max
    → (events : List Event) → IsValid (observe_all (with_capacity c) events)
observe_all-IsValid c positive small events =
    (observe_all_from (with_capacity c) (with_capacity-IsValid c positive small) events).0

-- For every capacity that is not zero and below the greatest `u128`, and after every sequence of
-- events, the entries from the least to the most recently observed are the log that the abstract
-- aggregator makes of those events. The numbers of the observations, and their compaction at the
-- greatest `u128`, do not show.
pub observe_all-log :
    (c : ℕ)
    → 0 < c
    → c < u128_max
    → (events : List Event)
    → by_recency (observe_all (with_capacity c) events).entries ≡ log_all c [] events
unfolding sort
observe_all-log c positive small events =
    (observe_all_from (with_capacity c) (with_capacity-IsValid c positive small) events).1
