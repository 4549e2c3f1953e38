-- ===== src/Aggregate/Room.antt =====
-- How the aggregator makes room for a new key (`observe_entry` of src/aggregate.rs).
use landlock_observability.Prelude.{
  suc, ◌≤◌, ◌<◌, ◌≡◌, refl, ap, ◌∙◌, true, none, some, [], ◌∷◌, leb, if◌then◌else◌, length, drop,
  All, arith, Bool-cases, inl, inr, if_pos,
}
use landlock_observability.Map.{get, remove, alter, insert}
use landlock_observability.Aggregate.Keys.{DenialKey, DenialKey-discrete}
use landlock_observability.Aggregate.Aggregator.{
  AggregatedDenial, Denials, DenialAggregator, sort, make_room,
}
use landlock_observability.Aggregate.Sorting.{Entry, seq, NodupKeys, length-sort, least_recent-sort}
use landlock_observability.Aggregate.Order.{All-remove, NodupKeys-remove, sort-remove}
use landlock_observability.Aggregate.Refinement.{IsReady, EntryFits}

pub remove_absent :
    (k : DenialKey) (m : Denials)
    → get DenialKey-discrete k m ≡ none
    → remove DenialKey-discrete k m ≡ m
unfolding get remove
remove_absent k [] h = refl
remove_absent k (x ∷ m) h = ground (arith, remove_absent k m)

pub get-drop :
    (k : DenialKey) (m : Denials)
    → get DenialKey-discrete k m ≡ none
    → get DenialKey-discrete k (drop 1 m) ≡ none
unfolding get
get-drop k [] h = refl
get-drop k (x ∷ m) h = ground arith

pub length-insert_old :
    (k : DenialKey) (v w : AggregatedDenial) (m : Denials)
    → get DenialKey-discrete k m ≡ some w
    → length (insert DenialKey-discrete k v m) ≡ length m
unfolding get alter
length-insert_old k v w [] h = cc
length-insert_old k v w (x ∷ m) h = ground (arith, length-insert_old k v w m)

pub length-insert-le :
    (k : DenialKey) (v : AggregatedDenial) (m : Denials)
    → length (insert DenialKey-discrete k v m) ≤ suc (length m)
unfolding alter
length-insert-le k v [] = omega arith
length-insert-le k v (x ∷ m) = ground (arith, length-insert-le k v m)

-- What `make_room` leaves: all but the head of the entries in order, if the map is full.
pub record HasRoom (s : DenialAggregator) (m : Denials) : Type 0 where
  pub made : make_room s ≡ some m
  pub order :
      sort m
      ≡ (if leb s.capacity (length s.entries) then drop 1 (sort s.entries) else sort s.entries)
  pub shorter : length m < s.capacity
  pub nodup : NodupKeys m
  pub fresh : All (λ y. seq y < s.ingestion_sequence) m
  pub fits : All EntryFits m

sort-remove_head :
    (x : Entry) (l m : Denials)
    → NodupKeys m
    → sort m ≡ x ∷ l
    → sort (remove DenialKey-discrete x.0 m) ≡ l
unfolding remove
sort-remove_head x l m d e =
    sort-remove x.0 m d
    ∙ ap (remove DenialKey-discrete x.0) e
    ∙ if_pos (DenialKey-discrete x.0 x.0) refl l (x ∷ remove DenialKey-discrete x.0 l)

length-remove_head :
    (x : Entry) (l m : Denials)
    → NodupKeys m
    → sort m ≡ x ∷ l
    → suc (length (remove DenialKey-discrete x.0 m)) ≡ length m
length-remove_head x l m d e = omega (
  arith,
  length-sort (remove DenialKey-discrete x.0 m),
  length-sort m,
  ap length (sort-remove_head x l m d e),
  ap length e,
)

module _ (s : DenialAggregator) (ready : IsReady s) where
  evicts :
      (sorted : Denials)
      → sort s.entries ≡ sorted
      → leb s.capacity (length s.entries) ≡ true
      → (m : Denials) × HasRoom s m
  unfolding make_room
  evicts [] e full = absurd (ground (arith, length-sort s.entries, ready.valid.positive))
  evicts (x ∷ l) e full = (
    remove DenialKey-discrete x.0 s.entries,
    record {
      made = rw (full, least_recent-sort s.entries, e) refl;
      order = rw (full, e) (sort-remove_head x l s.entries ready.valid.nodup e);
      shorter =
          omega (arith, length-remove_head x l s.entries ready.valid.nodup e, ready.valid.bounded);
      nodup = NodupKeys-remove x.0 s.entries ready.valid.nodup;
      fresh = All-remove (λ y. seq y < s.ingestion_sequence) x.0 s.entries ready.fresh;
      fits = All-remove EntryFits x.0 s.entries ready.valid.fits;
    },
  )

  pub make_room-HasRoom : (m : Denials) × HasRoom s m
  unfolding make_room
  make_room-HasRoom = elim (Bool-cases (leb s.capacity (length s.entries))) [
    | inl full ↦ evicts (sort s.entries) refl full
    | inr space ↦ (
      s.entries,
      record {
        made = rw space;
        order = rw space;
        shorter = ground arith;
        nodup = ready.valid.nodup;
        fresh = ready.fresh;
        fits = ready.valid.fits;
      },
    )
  ]
