-- ===== src/Aggregate/Simulation.antt =====
-- One denial in `observe_entry` (src/aggregate.rs), beside the abstract aggregator.
use landlock_observability.Prelude.{
  ℕ, ◌≤◌, ◌<◌, ◌≡◌, refl, sym, ap, subst, ◌∙◌, Bool, true, false, Option, none, some, [], ◌∷◌, ◌++◌,
  leb, if◌then◌else◌, length, drop, All, arith, Bool-cases, Option-cases, inl, inr,
}
use landlock_observability.Map.{get, remove, alter, altered, insert, get-alter_self}
use landlock_observability.Event.Kinds.{Event}
use landlock_observability.Aggregate.Keys.{DenialKey, DenialKey-discrete, DenialFacts, denial_facts}
use landlock_observability.Aggregate.Aggregator.{
  AggregatedDenial, Denials, DenialAggregator, sort, stored, observed_again, observed_first,
  observe_denial,
}
use landlock_observability.Aggregate.Sorting.{
  Entry, seq, NodupKeys, All-weaken, length-sort, get-sort,
}
use landlock_observability.Aggregate.Order.{All-insert, NodupKeys-insert, sort-insert}
use landlock_observability.Aggregate.Recency.{
  by_recency, read, observed, observed?, log_as, log_denial, evicted, read-remove, get-read,
  length-read, read-append, read-drop, seen_again, seen_first,
}
use landlock_observability.Aggregate.Refinement.{EntryFits, IsValid, IsReady}
use landlock_observability.Aggregate.Room.{
  HasRoom, make_room-HasRoom, remove_absent, get-drop, length-insert_old, length-insert-le,
}

module _ (event : Event) (facts : DenialFacts) (says : denial_facts event ≡ some facts) where
  again-Fits :
      (sequence : ℕ) (e : AggregatedDenial)
      → EntryFits (facts.key, e)
      → EntryFits (facts.key, observed_again event facts sequence e)
  unfolding observed_again
  again-Fits sequence e h = record {
    own_key = h.own_key;
    counted = omega (arith, h.counted);
    count_range = omega arith;
    latest = refl;
    described = says;
  }

  first-Fits : (sequence : ℕ) → EntryFits (facts.key, observed_first event facts sequence)
  unfolding observed_first
  first-Fits sequence = record {
    own_key = refl;
    counted = omega arith;
    count_range = omega arith;
    latest = refl;
    described = says;
  }

-- An entry that the map holds satisfies what all do.
All-get :
    (P : Entry → Type 0) (k : DenialKey) (e : AggregatedDenial) (m : Denials)
    → All P m
    → get DenialKey-discrete k m ≡ some e
    → P (k, e)
unfolding get
All-get P k e [] h g = cc
All-get P k e (x ∷ m) h g = elim (DenialKey-discrete x.0 k) [
  | yes p ↦
      let found : x.1 ≡ e = ground arith in
      subst (λ j. P (j, e)) p (subst (λ v. P (x.0, v)) found h.0)
  | no n ↦ All-get P k e m h.1 (ground arith)
]

altered_const {ℓ} : {V : Type ℓ} (v : V) (o : Option V) → altered v (λ _. v) o ≡ v
altered_const v none = refl
altered_const v (some w) = refl

module _ (s : DenialAggregator) (ready : IsReady s) (event : Event) (facts : DenialFacts)
    (says : denial_facts event ≡ some facts) where
  -- Storing an entry with the number that was taken, in a map with room for it.
  stored-IsValid :
      (m : Denials) (e : AggregatedDenial)
      → e.last_observed_sequence ≡ s.ingestion_sequence
      → EntryFits (facts.key, e)
      → length (insert DenialKey-discrete facts.key e m) ≤ s.capacity
      → NodupKeys m
      → All (λ y. seq y < s.ingestion_sequence) m
      → All EntryFits m
      → IsValid (record s { entries = insert DenialKey-discrete facts.key e m })
  stored-IsValid m e number fit room nodup fresh fits = record {
    positive = ready.valid.positive;
    small = ready.valid.small;
    bounded = room;
    nodup = NodupKeys-insert facts.key e m nodup;
    numbered =
        All-insert (λ y. seq y ≤ s.ingestion_sequence) facts.key e m (omega arith)
          (All-weaken (λ y. seq y < s.ingestion_sequence) (λ y. seq y ≤ s.ingestion_sequence) m
            (λ y q. omega arith) fresh);
    in_range = ready.valid.in_range;
    fits = All-insert EntryFits facts.key e m fit fits;
  }

  -- And its place in the order.
  stored-by_recency :
      (m : Denials) (e : AggregatedDenial)
      → e.last_observed_sequence ≡ s.ingestion_sequence
      → NodupKeys m
      → All (λ y. seq y < s.ingestion_sequence) m
      → by_recency (insert DenialKey-discrete facts.key e m)
        ≡ remove DenialKey-discrete facts.key (by_recency m) ++ (facts.key, observed e) ∷ []
  stored-by_recency m e number nodup fresh =
      ap read (
        sort-insert facts.key e m nodup (
          All-weaken (λ y. seq y < s.ingestion_sequence) (λ y. seq y < e.last_observed_sequence) m
            (λ y q. omega arith) fresh))
      ∙ read-append (remove DenialKey-discrete facts.key (sort m)) ((facts.key, e) ∷ [])
      ∙ ap (λ l. l ++ (facts.key, observed e) ∷ []) (read-remove facts.key (sort m))

  stored-found :
      (m : Denials) (e : AggregatedDenial)
      → NodupKeys m
      → get DenialKey-discrete facts.key (by_recency (insert DenialKey-discrete facts.key e m))
        ≡ some (observed e)
  stored-found m e nodup =
      get-read facts.key (sort (insert DenialKey-discrete facts.key e m))
      ∙ ap observed? (
          get-sort facts.key (insert DenialKey-discrete facts.key e m)
            (NodupKeys-insert facts.key e m nodup)
          ∙ get-alter_self DenialKey-discrete facts.key e (λ _. e) m
          ∙ ap some (altered_const e (get DenialKey-discrete facts.key m)))

  log_found :
      get DenialKey-discrete facts.key (by_recency s.entries)
      ≡ observed? (get DenialKey-discrete facts.key s.entries)
  log_found =
      get-read facts.key (sort s.entries)
      ∙ ap observed? (get-sort facts.key s.entries ready.valid.nodup)

  -- The state and the returned entry, beside the abstract log after the event.
  abbrev pub Simulates : DenialAggregator × Option AggregatedDenial → Type 0
  Simulates r =
      IsValid r.0
      × (r.0.capacity ≡ s.capacity)
      × (by_recency r.0.entries ≡ log_denial s.capacity event facts (by_recency s.entries))
      × (observed? r.1 ≡ get DenialKey-discrete facts.key (by_recency r.0.entries))

  Simulates-again :
      (e : AggregatedDenial)
      → get DenialKey-discrete facts.key s.entries ≡ some e
      → Simulates (stored s facts.key (observed_again event facts s.ingestion_sequence e) s.entries)
  Simulates-again e old = (
    stored-IsValid s.entries again number
        (again-Fits event facts says s.ingestion_sequence e
          (All-get EntryFits facts.key e s.entries ready.valid.fits old))
        (omega (arith, length-insert_old facts.key again e s.entries old, ready.valid.bounded))
        ready.valid.nodup ready.fresh ready.valid.fits,
    refl,
    stored-by_recency s.entries again number ready.valid.nodup ready.fresh
        ∙ shown
        ∙ sym (
            ap (log_as s.capacity event facts (by_recency s.entries))
              (log_found ∙ ap observed? old)),
    sym (stored-found s.entries again ready.valid.nodup),
  )
    where
      again : AggregatedDenial
      again = observed_again event facts s.ingestion_sequence e

      number : again.last_observed_sequence ≡ s.ingestion_sequence
      number = unfold observed_again in refl

      shown :
          remove DenialKey-discrete facts.key (by_recency s.entries)
            ++ (facts.key, observed again) ∷ []
          ≡ remove DenialKey-discrete facts.key (by_recency s.entries)
            ++ (facts.key, seen_again event facts (observed e)) ∷ []
      shown = unfold observed_again in refl

  abbrev order : Bool → Denials
  order full = if full then drop 1 (sort s.entries) else sort s.entries

  room_order :
      (m : Denials) → HasRoom s m → by_recency m ≡ evicted s.capacity (by_recency s.entries)
  room_order m room = elim (Bool-cases (leb s.capacity (length s.entries))) [
    | inl full ↦
        ap read (room.order ∙ cut full)
        ∙ read-drop (sort s.entries)
        ∙ sym (rw (same_length, full) refl)
    | inr space ↦ ap read (room.order ∙ uncut space) ∙ sym (rw (same_length, space) refl)
  ]
    where
      same_length : length (by_recency s.entries) ≡ length s.entries
      same_length = length-read (sort s.entries) ∙ length-sort s.entries

      cut :
          leb s.capacity (length s.entries) ≡ true
          → order (leb s.capacity (length s.entries)) ≡ drop 1 (sort s.entries)
      cut full = ap order full

      uncut :
          leb s.capacity (length s.entries) ≡ false
          → order (leb s.capacity (length s.entries)) ≡ sort s.entries
      uncut space = ap order space

  room_absent :
      (m : Denials)
      → HasRoom s m
      → get DenialKey-discrete facts.key s.entries ≡ none
      → remove DenialKey-discrete facts.key (by_recency m) ≡ by_recency m
  room_absent m room new =
      sym (read-remove facts.key (sort m))
      ∙ ap read (
          remove_absent facts.key (sort m) (elim (Bool-cases (leb s.capacity (length s.entries))) [
            | inl full ↦
                ap (get DenialKey-discrete facts.key) (room.order ∙ ap order full)
                ∙ get-drop facts.key (sort s.entries) absent
            | inr space ↦
                ap (get DenialKey-discrete facts.key) (room.order ∙ ap order space) ∙ absent
          ]))
    where
      absent : get DenialKey-discrete facts.key (sort s.entries) ≡ none
      absent = get-sort facts.key s.entries ready.valid.nodup ∙ new

  Simulates-new :
      (m : Denials)
      → HasRoom s m
      → get DenialKey-discrete facts.key s.entries ≡ none
      → Simulates (stored s facts.key (observed_first event facts s.ingestion_sequence) m)
  Simulates-new m room new = (
    stored-IsValid m first number (first-Fits event facts says s.ingestion_sequence)
        (omega (arith, length-insert-le facts.key first m, room.shorter)) room.nodup room.fresh
        room.fits,
    refl,
    stored-by_recency m first number room.nodup room.fresh
        ∙ ap (λ l. l ++ (facts.key, observed first) ∷ [])
            (room_absent m room new ∙ room_order m room)
        ∙ shown
        ∙ sym (
            ap (log_as s.capacity event facts (by_recency s.entries))
              (log_found ∙ ap observed? new)),
    sym (stored-found m first room.nodup),
  )
    where
      first : AggregatedDenial
      first = observed_first event facts s.ingestion_sequence

      number : first.last_observed_sequence ≡ s.ingestion_sequence
      number = unfold observed_first in refl

      shown :
          evicted s.capacity (by_recency s.entries) ++ (facts.key, observed first) ∷ []
          ≡ evicted s.capacity (by_recency s.entries) ++ (facts.key, seen_first event facts) ∷ []
      shown = unfold observed_first in refl

  observe_again :
      (e : AggregatedDenial)
      → get DenialKey-discrete facts.key s.entries ≡ some e
      → observe_denial event facts s
        ≡ stored s facts.key (observed_again event facts s.ingestion_sequence e) s.entries
  unfolding observe_denial alter observed_again
  observe_again e old = rw (old, observe_denial) refl

  observe_new :
      (m : Denials)
      → HasRoom s m
      → get DenialKey-discrete facts.key s.entries ≡ none
      → observe_denial event facts s
        ≡ stored s facts.key (observed_first event facts s.ingestion_sequence) m
  unfolding observe_denial alter observed_first
  observe_new m room new = rw (new, room.made, observe_denial) refl

  pub observe_denial-Simulates : Simulates (observe_denial event facts s)
  observe_denial-Simulates = elim (Option-cases (get DenialKey-discrete facts.key s.entries)) [
    | inl new ↦
        let room = make_room-HasRoom s ready in
        subst Simulates (sym (observe_new room.0 room.1 new)) (Simulates-new room.0 room.1 new)
    | inr (e, old) ↦ subst Simulates (sym (observe_again e old)) (Simulates-again e old)
  ]
