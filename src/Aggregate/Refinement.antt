-- ===== src/Aggregate/Refinement.antt =====
-- The invariant of the aggregator, and the taking of a number (`next_ingestion_sequence` of
-- src/aggregate.rs) against the order of the entries.
use landlock_observability.Prelude.{
  ℕ, ◌+◌, ◌≤◌, ◌<◌, ◌≡◌, refl, ap, ◌∙◌, some, ◌==◌, length, All, arith, Bool-cases, inl, inr,
}
use landlock_observability.Event.Kinds.{timestamp}
use landlock_observability.Aggregate.Keys.{DenialKey, denial_facts}
use landlock_observability.Aggregate.Aggregator.{
  AggregatedDenial, DenialAggregator, u64_max, u128_max, saturating_add, sort, renumber, compacted,
  next_ingestion_sequence,
}
use landlock_observability.Aggregate.Sorting.{
  Entry, seq, NodupKeys, All-sort, All-weaken, sort-NodupKeys, length-sort,
}
use landlock_observability.Aggregate.Order.{
  sort_of_sorted, last_number-length, renumber-IsSorted, renumber_below, length-renumber,
  All-renumber, NodupKeys-renumber,
}
use landlock_observability.Aggregate.Recency.{by_recency, read, read-renumber}

-- An entry stands under its key, has counted an observation, and describes its latest event, which
-- is a denial with that key.
pub record EntryFits (x : Entry) : Type 0 where
  pub own_key : x.1.key ≡ x.0
  pub counted : 0 < x.1.occurrence_count
  pub count_range : x.1.occurrence_count ≤ u64_max
  pub latest : x.1.latest_timestamp ≡ timestamp x.1.latest_event
  pub described :
      denial_facts x.1.latest_event
      ≡ some (record { key = x.0; same_exec = x.1.same_exec; logged = x.1.logged })

pub record IsValid (s : DenialAggregator) : Type 0 where
  pub positive : 0 < s.capacity
  pub small : s.capacity < u128_max
  pub bounded : length s.entries ≤ s.capacity
  pub nodup : NodupKeys s.entries
  pub numbered : All (λ y. seq y ≤ s.ingestion_sequence) s.entries
  pub in_range : s.ingestion_sequence ≤ u128_max
  pub fits : All EntryFits s.entries

-- After a number is taken, it is greater than that of every entry.
pub record IsReady (s : DenialAggregator) : Type 0 where
  pub valid : IsValid s
  pub fresh : All (λ y. seq y < s.ingestion_sequence) s.entries

EntryFits-renumbered :
    (k : DenialKey) (v : AggregatedDenial) (i : ℕ)
    → EntryFits (k, v)
    → EntryFits (k, record v { last_observed_sequence = i })
EntryFits-renumbered k v i h = record {
  own_key = h.own_key;
  counted = h.counted;
  count_range = h.count_range;
  latest = h.latest;
  described = h.described;
}

module _ (s : DenialAggregator) (valid : IsValid s) where
  room : 0 + length (sort s.entries) ≤ u128_max
  room = omega (arith, length-sort s.entries, valid.bounded, valid.small)

  -- Compaction keeps the invariant and the order, and leaves room for a number.
  compacted-IsValid : IsValid (compacted s)
  unfolding compacted
  compacted-IsValid = elim (Bool-cases (s.ingestion_sequence == u128_max)) [
    | inl full ↦
        rw (full, compacted)
          (record {
            positive = valid.positive;
            small = valid.small;
            bounded = omega (arith, length-renumber 0 (sort s.entries), length-sort s.entries);
            nodup = NodupKeys-renumber 0 (sort s.entries) (sort-NodupKeys s.entries valid.nodup);
            numbered =
                rw (last_number-length 0 (sort s.entries) room)
                  (renumber_below 0 (sort s.entries) room);
            in_range = omega (arith, last_number-length 0 (sort s.entries) room, room);
            fits =
                All-renumber EntryFits EntryFits-renumbered 0 (sort s.entries)
                  (All-sort EntryFits s.entries valid.fits);
          })
    | inr more ↦ rw (more, compacted) valid
  ]

  compacted_room : (compacted s).ingestion_sequence < u128_max
  unfolding compacted
  compacted_room = elim (Bool-cases (s.ingestion_sequence == u128_max)) [
    | inl full ↦
        rw (full, compacted)
          (omega (arith, last_number-length 0 (sort s.entries) room, length-sort s.entries))
    | inr more ↦ rw (more, compacted) (ground (arith, valid.in_range))
  ]

  by_recency-compacted : by_recency (compacted s).entries ≡ by_recency s.entries
  unfolding compacted
  by_recency-compacted = elim (Bool-cases (s.ingestion_sequence == u128_max)) [
    | inl full ↦
        rw (full, compacted)
          (ap read (
              sort_of_sorted (renumber 0 (sort s.entries))
                (renumber-IsSorted 0 (sort s.entries) room))
            ∙ read-renumber 0 (sort s.entries))
    | inr more ↦ rw (more, compacted) refl
  ]

  capacity-compacted : (compacted s).capacity ≡ s.capacity
  unfolding compacted
  capacity-compacted = ground arith

  pub next_ingestion_sequence-IsReady : IsReady (next_ingestion_sequence s)
  unfolding next_ingestion_sequence
  next_ingestion_sequence-IsReady =
      let c = compacted-IsValid in
      record {
        valid = record {
          positive = c.positive;
          small = c.small;
          bounded = c.bounded;
          nodup = c.nodup;
          numbered =
              All-weaken (λ y. seq y ≤ (compacted s).ingestion_sequence)
                (λ y. seq y ≤ saturating_add u128_max (compacted s).ingestion_sequence 1) _
                (λ y q. omega (arith, compacted_room)) c.numbered;
          in_range = omega arith;
          fits = c.fits;
        };
        fresh =
            All-weaken (λ y. seq y ≤ (compacted s).ingestion_sequence)
              (λ y. seq y < saturating_add u128_max (compacted s).ingestion_sequence 1) _
              (λ y q. omega (arith, compacted_room)) c.numbered;
      }

  pub by_recency-next : by_recency (next_ingestion_sequence s).entries ≡ by_recency s.entries
  unfolding next_ingestion_sequence
  by_recency-next = by_recency-compacted

  pub capacity-next : (next_ingestion_sequence s).capacity ≡ s.capacity
  unfolding next_ingestion_sequence
  capacity-next = capacity-compacted
