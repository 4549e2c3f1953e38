-- ===== src/Aggregate/Order.antt =====
-- The sorted entries after an insertion, a removal and a renumbering (src/aggregate.rs).
use landlock_observability.Prelude.{
  ℕ, suc, ◌+◌, ◌≤◌, ◌<◌, ◌≡◌, ◌≢◌, refl, sym, ap, subst, ◌∙◌, if_pos, if_neg, [], ◌∷◌, ◌++◌, length,
  All, arith,
}
use landlock_observability.Map.{remove, alter, insert}
use landlock_observability.Aggregate.Keys.{DenialKey, DenialKey-discrete}
use landlock_observability.Aggregate.Aggregator.{
  AggregatedDenial, Denials, place, sort, renumber, last_number, u128_max, saturating_add,
}
use landlock_observability.Aggregate.Sorting.{
  Entry, seq, NodupKeys, IsSorted, All-sort, All-weaken, sort-IsSorted, place_last,
  place_before_last, place_first, remove-place_self, remove-place_ne,
}

pub All-remove :
    (P : Entry → Type 0) (k : DenialKey) (m : Denials)
    → All P m
    → All P (remove DenialKey-discrete k m)
unfolding remove
All-remove P k [] h = tt
All-remove P k (x ∷ m) h = elim (DenialKey-discrete x.0 k) [
  | yes e ↦ rw (if_pos (DenialKey-discrete x.0 k) e m _) h.1
  | no n ↦ rw (if_neg (DenialKey-discrete x.0 k) n m _) (h.0, All-remove P k m h.1)
]

pub NodupKeys-remove :
    (k : DenialKey) (m : Denials) → NodupKeys m → NodupKeys (remove DenialKey-discrete k m)
unfolding remove
NodupKeys-remove k [] h = tt
NodupKeys-remove k (x ∷ m) h = elim (DenialKey-discrete x.0 k) [
  | yes e ↦ rw (if_pos (DenialKey-discrete x.0 k) e m _) h.1
  | no n ↦
      rw (if_neg (DenialKey-discrete x.0 k) n m _)
        (All-remove (λ y. x.0 ≢ y.0) k m h.0, NodupKeys-remove k m h.1)
]

pub All-insert :
    (P : Entry → Type 0) (k : DenialKey) (v : AggregatedDenial) (m : Denials)
    → P (k, v)
    → All P m
    → All P (insert DenialKey-discrete k v m)
unfolding alter
All-insert P k v [] p h = (p, tt)
All-insert P k v ((j, w) ∷ m) p h = elim (DenialKey-discrete j k) [
  | yes e ↦
      rw (if_pos (DenialKey-discrete j k) e ((j, v) ∷ m) _) (subst (λ i. P (i, v)) (sym e) p, h.1)
  | no n ↦ rw (if_neg (DenialKey-discrete j k) n ((j, v) ∷ m) _) (h.0, All-insert P k v m p h.1)
]

pub NodupKeys-insert :
    (k : DenialKey) (v : AggregatedDenial) (m : Denials)
    → NodupKeys m
    → NodupKeys (insert DenialKey-discrete k v m)
unfolding alter
NodupKeys-insert k v [] h = (tt, tt)
NodupKeys-insert k v ((j, w) ∷ m) h = elim (DenialKey-discrete j k) [
  | yes e ↦ rw (if_pos (DenialKey-discrete j k) e ((j, v) ∷ m) _) h
  | no n ↦
      rw (if_neg (DenialKey-discrete j k) n ((j, v) ∷ m) _)
        (All-insert (λ y. j ≢ y.0) k v m n h.0, NodupKeys-insert k v m h.1)
]

no_other :
    {j k : DenialKey} (m : Denials) → j ≡ k → All (λ y. j ≢ y.0) m → All (λ y. k ≢ y.0) (sort m)
no_other m e h = All-sort (λ y. _ ≢ y.0) m (subst (λ i. All (λ y. i ≢ y.0) m) e h)

-- An entry stored with the greatest number is the last in order, and its key stands nowhere else.
pub sort-insert :
    (k : DenialKey) (v : AggregatedDenial) (m : Denials)
    → NodupKeys m
    → All (λ y. seq y < v.last_observed_sequence) m
    → sort (insert DenialKey-discrete k v m) ≡ remove DenialKey-discrete k (sort m) ++ (k, v) ∷ []
unfolding alter sort place remove
sort-insert k v [] d h = refl
sort-insert k v ((j, w) ∷ m) d h = elim (DenialKey-discrete j k) [
  | yes e ↦
      rw (if_pos (DenialKey-discrete j k) e ((j, v) ∷ m) _, e)
        (place_last (k, v) (sort m) (All-sort (λ y. seq y < v.last_observed_sequence) m h.1)
          ∙ ap (λ l. l ++ (k, v) ∷ []) (sym (remove-place_self k w (sort m) (no_other m e d.0))))
  | no n ↦ rw (if_neg (DenialKey-discrete j k) n ((j, v) ∷ m) _) (
      ap (place (j, w)) (sort-insert k v m d.1 h.1)
      ∙ place_before_last (j, w) (k, v) (remove DenialKey-discrete k (sort m)) (omega arith)
      ∙ ap (λ l. l ++ (k, v) ∷ []) (sym (remove-place_ne k (j, w) (sort m) n (sort-IsSorted m))))
]

pub sort-remove :
    (k : DenialKey) (m : Denials)
    → NodupKeys m
    → sort (remove DenialKey-discrete k m) ≡ remove DenialKey-discrete k (sort m)
unfolding sort remove
sort-remove k [] d = refl
sort-remove k ((j, w) ∷ m) d = elim (DenialKey-discrete j k) [
  | yes e ↦
      rw (if_pos (DenialKey-discrete j k) e m _, e)
        (sym (remove-place_self k w (sort m) (no_other m e d.0)))
  | no n ↦ rw (if_neg (DenialKey-discrete j k) n m _) (
      ap (place (j, w)) (sort-remove k m d.1)
      ∙ sym (remove-place_ne k (j, w) (sort m) n (sort-IsSorted m)))
]

-- A sorted list stays as it is.
pub sort_of_sorted : (l : Denials) → IsSorted l → sort l ≡ l
unfolding sort
sort_of_sorted [] h = refl
sort_of_sorted (x ∷ l) h = ap (place x) (sort_of_sorted l h.1) ∙ place_first x l h.0

-- With room up to the bound, the entries are numbered one by one from `n + 1`.
pub last_number-length :
    (n : ℕ) (l : Denials) → n + length l ≤ u128_max → last_number n l ≡ n + length l
unfolding last_number
last_number-length n [] h = omega arith
last_number-length n (x ∷ l) h =
    omega (arith, last_number-length (saturating_add u128_max n 1) l (omega arith))

renumber_above :
    (n : ℕ) (l : Denials) → n + length l ≤ u128_max → All (λ y. n < seq y) (renumber n l)
unfolding renumber
renumber_above n [] h = tt
renumber_above n ((k, v) ∷ l) h = (
  omega arith,
  All-weaken (λ y. saturating_add u128_max n 1 < seq y) (λ y. n < seq y) _ (λ y q. omega arith)
      (renumber_above (saturating_add u128_max n 1) l (omega arith)),
)

pub renumber-IsSorted : (n : ℕ) (l : Denials) → n + length l ≤ u128_max → IsSorted (renumber n l)
unfolding renumber
renumber-IsSorted n [] h = tt
renumber-IsSorted n ((k, v) ∷ l) h = (
  All-weaken (λ y. saturating_add u128_max n 1 < seq y) (λ y. saturating_add u128_max n 1 ≤ seq y) _
      (λ y q. omega arith) (renumber_above (saturating_add u128_max n 1) l (omega arith)),
  renumber-IsSorted (saturating_add u128_max n 1) l (omega arith),
)

pub renumber_below :
    (n : ℕ) (l : Denials) → n + length l ≤ u128_max → All (λ y. seq y ≤ n + length l) (renumber n l)
unfolding renumber
renumber_below n [] h = tt
renumber_below n ((k, v) ∷ l) h = (
  omega arith,
  All-weaken (λ y. seq y ≤ saturating_add u128_max n 1 + length l) (λ y. seq y ≤ n + suc (length l))
      _ (λ y q. omega arith) (renumber_below (saturating_add u128_max n 1) l (omega arith)),
)

pub length-renumber : (n : ℕ) (l : Denials) → length (renumber n l) ≡ length l
unfolding renumber
length-renumber n [] = refl
length-renumber n (x ∷ l) = ap suc (length-renumber (saturating_add u128_max n 1) l)

-- Numbering keeps what does not speak of the numbers.
pub All-renumber :
    (P : Entry → Type 0)
    → ((k : DenialKey) (v : AggregatedDenial) (i : ℕ)
        → P (k, v)
        → P (k, record v { last_observed_sequence = i }))
    → (n : ℕ) (l : Denials) → All P l
    → All P (renumber n l)
unfolding renumber
All-renumber P stable n [] h = tt
All-renumber P stable n ((k, v) ∷ l) h = (
  stable k v (saturating_add u128_max n 1) h.0,
  All-renumber P stable (saturating_add u128_max n 1) l h.1,
)

pub NodupKeys-renumber : (n : ℕ) (l : Denials) → NodupKeys l → NodupKeys (renumber n l)
unfolding renumber
NodupKeys-renumber n [] h = tt
NodupKeys-renumber n (x ∷ l) h = (
  All-renumber (λ y. x.0 ≢ y.0) (λ k v i q. q) (saturating_add u128_max n 1) l h.0,
  NodupKeys-renumber (saturating_add u128_max n 1) l h.1,
)
