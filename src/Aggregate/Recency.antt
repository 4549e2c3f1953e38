-- ===== src/Aggregate/Recency.antt =====
-- The abstract aggregator beside that of src/aggregate.rs: a list of keys with what was observed of
-- each, the least recently observed first, with no sequence numbers; and how the real one is read
-- as such a list.
use mathlib.Core.List.{map-append}
use landlock_observability.Prelude.{
  ℕ, suc, ◌+◌, ◌≡◌, refl, ap, Bool, Option, none, some, List, [], ◌∷◌, ◌++◌, leb, if◌then◌else◌,
  length, drop, map, min, arith,
}
use landlock_observability.Map.{get, remove}
use landlock_observability.Event.Ids.{KernelTimestamp}
use landlock_observability.Event.Kinds.{Event, timestamp}
use landlock_observability.Aggregate.Keys.{DenialKey, DenialKey-discrete, DenialFacts, denial_facts}
use landlock_observability.Aggregate.Aggregator.{
  AggregatedDenial, Denials, sort, renumber, u64_max, u128_max, saturating_add,
}

pub record Observed : Type 0 where
  pub occurrence_count : ℕ
  pub first_timestamp : KernelTimestamp
  pub latest_timestamp : KernelTimestamp
  pub same_exec : Bool
  pub logged : Bool
  pub latest_event : Event

abbrev pub Log : Type 0
Log = List (DenialKey × Observed)

-- A first and a further observation of a key. The count stays at the greatest `u64`.
abbrev pub seen_first : Event → DenialFacts → Observed
seen_first event facts = record {
  occurrence_count = 1;
  first_timestamp = timestamp event;
  latest_timestamp = timestamp event;
  same_exec = facts.same_exec;
  logged = facts.logged;
  latest_event = event;
}

abbrev pub seen_again : Event → DenialFacts → Observed → Observed
seen_again event facts o = record {
  occurrence_count = min (o.occurrence_count + 1) u64_max;
  first_timestamp = o.first_timestamp;
  latest_timestamp = timestamp event;
  same_exec = facts.same_exec;
  logged = facts.logged;
  latest_event = event;
}

-- At the capacity the least recent key goes.
abbrev pub evicted : ℕ → Log → Log
evicted capacity log = if leb capacity (length log) then drop 1 log else log

-- A key that is observed becomes the most recent. The last argument is what the log has of it.
abbrev pub log_as : ℕ → Event → DenialFacts → Log → Option Observed → Log
log_as capacity event facts log (some o) =
    remove DenialKey-discrete facts.key log ++ (facts.key, seen_again event facts o) ∷ []
log_as capacity event facts log none =
    evicted capacity log ++ (facts.key, seen_first event facts) ∷ []

abbrev pub log_denial : ℕ → Event → DenialFacts → Log → Log
log_denial capacity event facts log =
    log_as capacity event facts log (get DenialKey-discrete facts.key log)

abbrev pub log_facts : ℕ → Log → Event → Option DenialFacts → Log
log_facts capacity log event none = log
log_facts capacity log event (some facts) = log_denial capacity event facts log

abbrev pub log_event : ℕ → Log → Event → Log
log_event capacity log event = log_facts capacity log event (denial_facts event)

abbrev pub log_all : ℕ → Log → List Event → Log
log_all capacity log [] = log
log_all capacity log (event ∷ events) = log_all capacity (log_event capacity log event) events

-- How the real entries are read.
abbrev pub observed : AggregatedDenial → Observed
observed e = record {
  occurrence_count = e.occurrence_count;
  first_timestamp = e.first_timestamp;
  latest_timestamp = e.latest_timestamp;
  same_exec = e.same_exec;
  logged = e.logged;
  latest_event = e.latest_event;
}

abbrev pub read : Denials → Log
read = map (λ e. (e.0, observed e.1))

abbrev pub by_recency : Denials → Log
by_recency m = read (sort m)

pub read-remove :
    (k : DenialKey) (m : Denials)
    → read (remove DenialKey-discrete k m) ≡ remove DenialKey-discrete k (read m)
unfolding remove
read-remove k [] = refl
read-remove k (x ∷ m) = ground (arith, read-remove k m)

pub read-renumber : (n : ℕ) (m : Denials) → read (renumber n m) ≡ read m
unfolding renumber
read-renumber n [] = refl
read-renumber n ((k, v) ∷ m) =
    ap (◌∷◌ (k, observed v)) (read-renumber (saturating_add u128_max n 1) m)

abbrev pub observed? : Option AggregatedDenial → Option Observed
observed? none = none
observed? (some e) = some (observed e)

pub get-read :
    (k : DenialKey) (m : Denials)
    → get DenialKey-discrete k (read m) ≡ observed? (get DenialKey-discrete k m)
unfolding get
get-read k [] = refl
get-read k (x ∷ m) = ground (arith, get-read k m)

pub length-read : (m : Denials) → length (read m) ≡ length m
length-read [] = refl
length-read (x ∷ m) = ap suc (length-read m)

pub read-append : (m n : Denials) → read (m ++ n) ≡ read m ++ read n
read-append m n = map-append (λ e. (e.0, observed e.1)) m n

pub read-drop : (m : Denials) → read (drop 1 m) ≡ drop 1 (read m)
read-drop [] = refl
read-drop (x ∷ m) = refl
