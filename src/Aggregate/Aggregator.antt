-- ===== src/Aggregate/Aggregator.antt =====
-- `DenialAggregator` (src/aggregate.rs). The counters saturate as `u64` and `u128` do; the map's
-- entries stand in some order, which is the order of iteration.
use landlock_observability.Prelude.{
  ℕ, ◌+◌, ◌-◌, ◌^◌, Bool, Option, none, some, List, [], ◌∷◌, Result, ok, err, leb, ◌==◌,
  if◌then◌else◌, length, min,
}
use landlock_observability.Map.{Map, get, insert, remove}
use landlock_observability.Event.Ids.{KernelTimestamp}
use landlock_observability.Event.Kinds.{Event, timestamp}
use landlock_observability.Aggregate.Keys.{DenialKey, DenialKey-discrete, DenialFacts, denial_facts}

abbrev pub u64_max : ℕ
u64_max = 2 ^ 64 - 1

abbrev pub u128_max : ℕ
u128_max = 2 ^ 128 - 1

abbrev pub saturating_add : ℕ → ℕ → ℕ → ℕ
saturating_add bound a b = min (a + b) bound

pub record AggregatedDenial : Type 0 where
  pub key : DenialKey
  pub occurrence_count : ℕ
  pub first_timestamp : KernelTimestamp
  pub latest_timestamp : KernelTimestamp
  pub same_exec : Bool
  pub logged : Bool
  pub latest_event : Event
  pub last_observed_sequence : ℕ

abbrev pub Denials : Type 0
Denials = Map DenialKey AggregatedDenial

pub record DenialAggregator : Type 0 where
  pub capacity : ℕ
  pub entries : Denials
  pub ingestion_sequence : ℕ

-- `DEFAULT_CAPACITY`
abbrev pub default_capacity : ℕ
default_capacity = 1000

abbrev pub with_capacity : ℕ → DenialAggregator
with_capacity capacity = record { capacity = capacity; entries = []; ingestion_sequence = 0 }

-- `DenialAggregator::new`
abbrev pub aggregator_new : DenialAggregator
aggregator_new = with_capacity default_capacity

pub data BuildError (E : Type 0) : Type 0 where
  invalid_capacity : (configured : ℕ) → BuildError E
  reservation : (configured : ℕ) (source : E) → BuildError E

-- `DenialAggregatorBuilder::build`, over `HashMap::try_reserve`, which may fail with an error.
unfoldable pub build : {E : Type 0} → (ℕ → Option E) → ℕ → Result (BuildError E) DenialAggregator
build try_reserve capacity =
    if capacity == 0 then err (invalid_capacity capacity) else elim (try_reserve capacity) [
      | some source ↦ err (reservation capacity source)
      | none ↦ ok (with_capacity capacity)
    ]

-- `iter().min_by_key(|(_, entry)| entry.last_observed_sequence)`: the first of the least.
unfoldable pub less_recent :
    DenialKey × AggregatedDenial
    → Option (DenialKey × AggregatedDenial)
    → Option (DenialKey × AggregatedDenial)
less_recent x none = some x
less_recent x (some y) =
    if leb x.1.last_observed_sequence y.1.last_observed_sequence then some x else some y

unfoldable pub least_recent : Denials → Option (DenialKey × AggregatedDenial)
least_recent [] = none
least_recent (x ∷ entries) = less_recent x (least_recent entries)

-- `sort_unstable_by_key(|entry| entry.last_observed_sequence)`
unfoldable pub place : DenialKey × AggregatedDenial → Denials → Denials
place x [] = x ∷ []
place x (y ∷ entries) =
    if leb x.1.last_observed_sequence y.1.last_observed_sequence
    then x ∷ y ∷ entries
    else y ∷ place x entries

unfoldable pub sort : Denials → Denials
sort [] = []
sort (x ∷ entries) = place x (sort entries)

-- The loop that numbers the entries in the given order; `sequence` is the last number given.
unfoldable pub renumber : ℕ → Denials → Denials
renumber sequence [] = []
renumber sequence ((k, entry) ∷ entries) =
    let next = saturating_add u128_max sequence 1 in
    (k, record entry { last_observed_sequence = next }) ∷ renumber next entries

unfoldable pub last_number : ℕ → Denials → ℕ
last_number sequence [] = sequence
last_number sequence (x ∷ entries) = last_number (saturating_add u128_max sequence 1) entries

-- The branch of `next_ingestion_sequence` that compacts the numbers.
unfoldable pub compacted : DenialAggregator → DenialAggregator
compacted s =
    if s.ingestion_sequence == u128_max
    then record s {
      entries = renumber 0 (sort s.entries);
      ingestion_sequence = last_number 0 (sort s.entries);
    }
    else s

-- `next_ingestion_sequence`: the number is the field of the new state.
unfoldable pub next_ingestion_sequence : DenialAggregator → DenialAggregator
next_ingestion_sequence s =
    let c = compacted s in
    record c { ingestion_sequence = saturating_add u128_max c.ingestion_sequence 1 }

-- The entry of a key that is there already.
unfoldable pub observed_again : Event → DenialFacts → ℕ → AggregatedDenial → AggregatedDenial
observed_again event facts sequence entry = record entry {
  occurrence_count = saturating_add u64_max entry.occurrence_count 1;
  latest_timestamp = timestamp event;
  same_exec = facts.same_exec;
  logged = facts.logged;
  latest_event = event;
  last_observed_sequence = sequence;
}

-- The entry of a new key.
unfoldable pub observed_first : Event → DenialFacts → ℕ → AggregatedDenial
observed_first event facts sequence = record {
  key = facts.key;
  occurrence_count = 1;
  first_timestamp = timestamp event;
  latest_timestamp = timestamp event;
  same_exec = facts.same_exec;
  logged = facts.logged;
  latest_event = event;
  last_observed_sequence = sequence;
}

-- The entries with room for one more; `none` where the map is full and has no entry to evict.
unfoldable pub make_room : DenialAggregator → Option Denials
make_room s =
    if leb s.capacity (length s.entries)
    then elim (least_recent s.entries) [
      | none ↦ none
      | some (k, _) ↦ some (remove DenialKey-discrete k s.entries)
    ]
    else some s.entries

abbrev pub stored :
    DenialAggregator
    → DenialKey
    → AggregatedDenial
    → Denials
    → DenialAggregator × Option AggregatedDenial
stored s key entry entries =
    (record s { entries = insert DenialKey-discrete key entry entries }, some entry)

-- `observe_entry` for a denial, once the number is taken.
unfoldable pub observe_denial :
    Event → DenialFacts → DenialAggregator → DenialAggregator × Option AggregatedDenial
observe_denial event facts s = elim (get DenialKey-discrete facts.key s.entries) [
  | some entry ↦
      stored s facts.key (observed_again event facts s.ingestion_sequence entry) s.entries
  | none ↦ elim (make_room s) [
    | none ↦ (s, none)
    | some entries ↦ stored s facts.key (observed_first event facts s.ingestion_sequence) entries
  ]
]

-- `DenialAggregator::observe_entry`
unfoldable pub observe_entry : DenialAggregator → Event → DenialAggregator × Option AggregatedDenial
observe_entry s event = elim (denial_facts event) [
  | none ↦ (s, none)
  | some facts ↦ observe_denial event facts (next_ingestion_sequence s)
]

-- `DenialAggregator::observe`
abbrev pub observe : DenialAggregator → Event → DenialAggregator
observe s event = (observe_entry s event).0

unfoldable pub observe_all : DenialAggregator → List Event → DenialAggregator
observe_all s [] = s
observe_all s (event ∷ events) = observe_all (observe s event) events
