-- ===== src/Map.antt =====
-- The standard `HashMap`, as an association list whose first entry of a key counts. The order of a
-- list stands for the unspecified order of iteration.
use landlock_observability.Prelude.{
  ◌≡◌, ◌≢◌, sym, subst, ◌∙◌, ite, if_pos, inl, inr, Option, none, some, List, [], ◌∷◌, arith,
  Option-cases,
}

abbrev pub Map {ℓ} : Type ℓ → Type ℓ → Type ℓ
Map K V = List (K × V)

-- What `entry(k).and_modify(f).or_insert(d)` stores, from what was there.
abbrev pub altered {ℓ} : {V : Type ℓ} → V → (V → V) → Option V → V
altered d f none = d
altered d f (some v) = f v

-- `contains_key`, as a predicate.
abbrev pub IsSome {ℓ} : {V : Type ℓ} → Option V → Type 0
IsSome none = ⊥
IsSome (some v) = Unit

module _ {ℓ} {K V : Type ℓ} (dec : Discrete K) where
  -- `get(k)`
  unfoldable pub get : K → Map K V → Option V
  get k [] = none
  get k ((j, v) ∷ m) = ite (dec j k) (some v) (get k m)

  -- `entry(k).and_modify(f).or_insert(d)`
  unfoldable pub alter : K → V → (V → V) → Map K V → Map K V
  alter k d f [] = (k, d) ∷ []
  alter k d f ((j, v) ∷ m) = ite (dec j k) ((j, f v) ∷ m) ((j, v) ∷ alter k d f m)

  -- `remove(k)`
  unfoldable pub remove : K → Map K V → Map K V
  remove k [] = []
  remove k ((j, v) ∷ m) = ite (dec j k) m ((j, v) ∷ remove k m)

  -- `insert(k, v)`
  abbrev pub insert : K → V → Map K V → Map K V
  insert k v = alter k v (λ _. v)

  -- `entry(k).or_insert(d)`
  abbrev pub or_insert : K → V → Map K V → Map K V
  or_insert k d = alter k d (λ v. v)

  pub get-alter :
      (j k : K) (d : V) (f : V → V) (m : Map K V)
      → get j (alter k d f m) ≡ ite (dec k j) (some (altered d f (get j m))) (get j m)
  unfolding get alter
  get-alter j k d f [] = ground arith
  get-alter j k d f ((i, v) ∷ m) = ground (arith, get-alter j k d f m)

  pub get-alter_self :
      (k : K) (d : V) (f : V → V) (m : Map K V)
      → get k (alter k d f m) ≡ some (altered d f (get k m))
  get-alter_self k d f m = ground (arith, get-alter k k d f m)

  pub get-alter_ne :
      (j k : K) (d : V) (f : V → V) (m : Map K V) → k ≢ j → get j (alter k d f m) ≡ get j m
  get-alter_ne j k d f m h = ground (arith, get-alter j k d f m)

-- A property of every entry, with its key.
abbrev pub Entries {ℓ} : {K V : Type ℓ} → Discrete K → (K → V → Type ℓ) → Map K V → Type ℓ
Entries {K} {V} dec P m = (k : K) (v : V) → get dec k m ≡ some v → P k v

module _ {ℓ} {K V : Type ℓ} (dec : Discrete K) where
  -- An update keeps a property of every entry that it establishes at the key.
  pub Entries-alter :
      (P : K → V → Type ℓ) (k : K) (d : V) (f : V → V) (m : Map K V)
      → P k d
      → ((v : V) → P k v → P k (f v))
      → Entries dec P m
      → Entries dec P (alter dec k d f m)
  Entries-alter P k d f m new old all j v e = elim (dec k j) [
    | yes same ↦
        let found : some (altered d f (get dec j m)) ≡ some v =
          sym (if_pos (dec k j) same _ _) ∙ sym (get-alter dec j k d f m) ∙ e in
        let stored : altered d f (get dec j m) ≡ v = cc in
        subst (P j) stored (subst (λ i. P i (altered d f (get dec j m))) same (at_key j same))
    | no different ↦ all j v (sym (get-alter_ne dec j k d f m different) ∙ e)
  ]
    where
      at_key : (j : K) → k ≡ j → P k (altered d f (get dec j m))
      at_key j same = elim (Option-cases (get dec j m)) [
        | inl missing ↦ rw missing new
        | inr (v, found) ↦ rw found (old v (rw same (all j v found)))
      ]

  -- An update loses no key, and stores its own.
  pub IsSome-alter :
      (j k : K) (d : V) (f : V → V) (m : Map K V)
      → IsSome (get dec j m)
      → IsSome (get dec j (alter dec k d f m))
  IsSome-alter j k d f m h = ground (arith, get-alter dec j k d f m)

  pub IsSome-alter_self :
      (k : K) (d : V) (f : V → V) (m : Map K V) → IsSome (get dec k (alter dec k d f m))
  IsSome-alter_self k d f m = rw (get-alter_self dec k d f m) tt

  pub Entries-weaken :
      (P Q : K → V → Type ℓ) (m : Map K V)
      → ((k : K) (v : V) → P k v → Q k v)
      → Entries dec P m
      → Entries dec Q m
  Entries-weaken P Q m weaker all k v e = weaker k v (all k v e)

  -- To know what an update leaves at a key, consider the key that it updates and the others.
  pub alter_cases {κ} :
      (P : Option V → Type κ) (j k : K) (d : V) (f : V → V) (m : Map K V)
      → (k ≡ j → P (some (altered d f (get dec j m))))
      → (k ≢ j → P (get dec j m))
      → P (get dec j (alter dec k d f m))
  alter_cases P j k d f m same different = elim (dec k j) [
    | yes e ↦
        rw
          (
            get-alter dec j k d f m,
            if_pos (dec k j) e (some (altered d f (get dec j m))) (get dec j m),
          )
          (same e)
    | no n ↦ rw (get-alter_ne dec j k d f m n) (different n)
  ]
