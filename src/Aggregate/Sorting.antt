-- ===== src/Aggregate/Sorting.antt =====
-- Sorting the entries by the number of their last observation (src/aggregate.rs).
use mathlib.Core.List.{head?}
use landlock_observability.Prelude.{
  ℕ, suc, ◌≤◌, ◌<◌, ◌≡◌, ◌≢◌, refl, sym, ap, ◌∙◌, ite, some, [], ◌∷◌, ◌++◌, leb, length, All, arith,
  Bool-cases, inl, inr,
}
use landlock_observability.Map.{get, remove}
use landlock_observability.Aggregate.Keys.{DenialKey, DenialKey-discrete}
use landlock_observability.Aggregate.Aggregator.{
  AggregatedDenial, Denials, place, sort, least_recent, less_recent,
}

abbrev pub Entry : Type 0
Entry = DenialKey × AggregatedDenial

abbrev pub seq : Entry → ℕ
seq x = x.1.last_observed_sequence

-- No key stands twice.
abbrev pub NodupKeys : Denials → Type 0
NodupKeys [] = Unit
NodupKeys (x ∷ l) = All (λ y. x.0 ≢ y.0) l × NodupKeys l

-- The numbers do not fall.
abbrev pub IsSorted : Denials → Type 0
IsSorted [] = Unit
IsSorted (x ∷ l) = All (λ y. seq x ≤ seq y) l × IsSorted l

pub All-place : (P : Entry → Type 0) (x : Entry) (l : Denials) → P x → All P l → All P (place x l)
unfolding place
All-place P x [] px h = (px, tt)
All-place P x (y ∷ l) px h = elim (Bool-cases (leb (seq x) (seq y))) [
  | inl e ↦ rw (e, place) (px, h)
  | inr e ↦ rw (e, place) (h.0, All-place P x l px h.1)
]

pub All-sort : (P : Entry → Type 0) (m : Denials) → All P m → All P (sort m)
unfolding sort
All-sort P [] h = tt
All-sort P (x ∷ m) h = All-place P x (sort m) h.0 (All-sort P m h.1)

pub All-weaken :
    (P Q : Entry → Type 0) (l : Denials) → ((x : Entry) → P x → Q x) → All P l → All Q l
All-weaken P Q [] w h = tt
All-weaken P Q (x ∷ l) w h = (w x h.0, All-weaken P Q l w h.1)

place-IsSorted : (x : Entry) (l : Denials) → IsSorted l → IsSorted (place x l)
unfolding place
place-IsSorted x [] h = (tt, tt)
place-IsSorted x (y ∷ l) h = elim (Bool-cases (leb (seq x) (seq y))) [
  | inl e ↦
      rw (e, place)
        (
          (
            (ground arith),
            All-weaken (λ z. seq y ≤ seq z) (λ z. seq x ≤ seq z) l (λ z k. ground arith) h.0,
          ),
          h,
        )
  | inr e ↦
      rw (e, place) (All-place (λ z. seq y ≤ seq z) x l (ground arith) h.0, place-IsSorted x l h.1)
]

pub sort-IsSorted : (m : Denials) → IsSorted (sort m)
unfolding sort
sort-IsSorted [] = tt
sort-IsSorted (x ∷ m) = place-IsSorted x (sort m) (sort-IsSorted m)

length-place : (x : Entry) (l : Denials) → length (place x l) ≡ suc (length l)
unfolding place
length-place x [] = refl
length-place x (y ∷ l) = ground (arith, length-place x l)

pub length-sort : (m : Denials) → length (sort m) ≡ length m
unfolding sort
length-sort [] = refl
length-sort (x ∷ m) = length-place x (sort m) ∙ ap suc (length-sort m)

-- An entry with a greater number than all goes to the end, and others are placed before it.
pub place_last : (x : Entry) (l : Denials) → All (λ y. seq y < seq x) l → place x l ≡ l ++ x ∷ []
unfolding place
place_last x [] h = refl
place_last x (y ∷ l) h = ground (arith, place_last x l h.1)

pub place_before_last :
    (x y : Entry) (l : Denials) → seq x ≤ seq y → place x (l ++ y ∷ []) ≡ place x l ++ y ∷ []
unfolding place
place_before_last x y [] h = ground arith
place_before_last x y (z ∷ l) h = ground (arith, place_before_last x y l h)

pub place_first : (x : Entry) (l : Denials) → All (λ y. seq x ≤ seq y) l → place x l ≡ x ∷ l
unfolding place
place_first x [] h = refl
place_first x (y ∷ l) h = ground arith

pub remove-place_self :
    (k : DenialKey) (v : AggregatedDenial) (l : Denials)
    → All (λ y. k ≢ y.0) l
    → remove DenialKey-discrete k (place (k, v) l) ≡ l
unfolding place remove
remove-place_self k v [] h = ground arith
remove-place_self k v (y ∷ l) h = ground (arith, remove-place_self k v l h.1)

pub remove-place_ne :
    (k : DenialKey) (x : Entry) (l : Denials)
    → x.0 ≢ k
    → IsSorted l
    → remove DenialKey-discrete k (place x l) ≡ place x (remove DenialKey-discrete k l)
unfolding place remove
remove-place_ne k x [] h s = ground arith
remove-place_ne k x (y ∷ l) h s = elim (Bool-cases (leb (seq x) (seq y))) [
  | inl e ↦ ground (
    arith,
    place_first x l
        (All-weaken (λ z. seq y ≤ seq z) (λ z. seq x ≤ seq z) l (λ z q. ground arith) s.0),
  )
  | inr e ↦ ground (arith, remove-place_ne k x l h s.1)
]

get-place :
    (k : DenialKey) (x : Entry) (l : Denials)
    → All (λ y. x.0 ≢ y.0) l
    → get DenialKey-discrete k (place x l)
      ≡ ite (DenialKey-discrete x.0 k) (some x.1) (get DenialKey-discrete k l)
unfolding place get
get-place k x [] h = refl
get-place k x (y ∷ l) h = ground (arith, get-place k x l h.1)

place-NodupKeys :
    (x : Entry) (l : Denials) → All (λ y. x.0 ≢ y.0) l → NodupKeys l → NodupKeys (place x l)
unfolding place
place-NodupKeys x [] h d = (tt, tt)
place-NodupKeys x (y ∷ l) h d = elim (Bool-cases (leb (seq x) (seq y))) [
  | inl e ↦ rw (e, place) (h, d)
  | inr e ↦
      rw (e, place)
        (All-place (λ z. y.0 ≢ z.0) x l (λ q. h.0 (sym q)) d.0, place-NodupKeys x l h.1 d.1)
]

pub sort-NodupKeys : (m : Denials) → NodupKeys m → NodupKeys (sort m)
unfolding sort
sort-NodupKeys [] h = tt
sort-NodupKeys (x ∷ m) h =
    place-NodupKeys x (sort m) (All-sort (λ y. x.0 ≢ y.0) m h.0) (sort-NodupKeys m h.1)

-- Sorting changes no lookup.
pub get-sort :
    (k : DenialKey) (m : Denials)
    → NodupKeys m
    → get DenialKey-discrete k (sort m) ≡ get DenialKey-discrete k m
unfolding sort get
get-sort k [] h = refl
get-sort k (x ∷ m) h =
    get-place k x (sort m) (All-sort (λ y. x.0 ≢ y.0) m h.0)
    ∙ ap (ite (DenialKey-discrete x.0 k) (some x.1)) (get-sort k m h.1)

-- The first of the least entries is the head of the sorted list.
pub least_recent-sort : (m : Denials) → least_recent m ≡ head? (sort m)
unfolding sort least_recent place less_recent
least_recent-sort [] = refl
least_recent-sort (x ∷ m) = ap (less_recent x) (least_recent-sort m) ∙ head_place (sort m)
  where
    head_place : (l : Denials) → less_recent x (head? l) ≡ head? (place x l)
    head_place [] = refl
    head_place (y ∷ l) = ground arith
