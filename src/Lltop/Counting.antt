-- ===== src/Lltop/Counting.antt =====
-- How many entries of a map satisfy a test, and how an update changes that, for the counts of lltop.
use landlock_observability.Prelude.{
  ℕ, ◌+◌, ◌≤◌, ◌≡◌, ◌≢◌, refl, sym, ap, subst, ◌∙◌, Bool, Option, none, some, List, [], ◌∷◌, All,
  arith, inl, inr, ◌⊎◌, length, if◌then◌else◌,
}
use landlock_observability.Map.{
  Map, get, alter, remove, altered, IsSome, get-alter_self, get-alter_ne, IsSome-alter,
}

-- A member of a list, and a list without a repetition.
abbrev pub IsIn : {A : Type 0} → A → List A → Type 0
IsIn x [] = ⊥
IsIn x (y ∷ ys) = (y ≡ x) ⊎ IsIn x ys

abbrev pub IsDistinct : {A : Type 0} → List A → Type 0
IsDistinct [] = Unit
IsDistinct (x ∷ xs) = All (λ y. x ≢ y) xs × IsDistinct xs

All-IsIn : {A : Type 0} (P : A → Type 0) (x : A) (ys : List A) → All P ys → IsIn x ys → P x
All-IsIn P x [] h i = elim i [ ]
All-IsIn P x (y ∷ ys) h (inl e) = subst P e h.0
All-IsIn P x (y ∷ ys) h (inr later) = All-IsIn P x ys h.1 later

module _ {K V : Type 0} (dec : Discrete K) (test : V → Bool) where
  abbrev pub weight : V → ℕ
  weight v = if test v then 1 else 0

  abbrev pub weight_of : Option V → ℕ
  weight_of none = 0
  weight_of (some v) = weight v

  -- The entries that satisfy the test, and those under some keys.
  abbrev pub count : Map K V → ℕ
  count [] = 0
  count ((k, v) ∷ m) = weight v + count m

  abbrev pub count_at : List K → Map K V → ℕ
  count_at [] m = 0
  count_at (k ∷ ks) m = weight_of (get dec k m) + count_at ks m

  count-alter :
      (k : K) (d : V) (f : V → V) (m : Map K V)
      → count (alter dec k d f m) + weight_of (get dec k m)
        ≡ count m + weight (altered d f (get dec k m))
  unfolding alter get
  count-alter k d f [] = omega arith
  count-alter k d f ((j, v) ∷ m) = ground (arith, count-alter k d f m)

  count-remove : (k : K) (m : Map K V) → count (remove dec k m) + weight_of (get dec k m) ≡ count m
  unfolding remove get
  count-remove k [] = omega arith
  count-remove k ((j, v) ∷ m) = ground (arith, count-remove k m)

  get-remove_ne : (j k : K) (m : Map K V) → k ≢ j → get dec j (remove dec k m) ≡ get dec j m
  unfolding remove get
  get-remove_ne j k [] h = refl
  get-remove_ne j k ((i, v) ∷ m) h = ground (arith, get-remove_ne j k m h)

  pub count-length : (m : Map K V) → count m ≤ length m
  count-length [] = omega arith
  count-length ((k, v) ∷ m) = ground (arith, count-length m)

  length-alter : (k : K) (d : V) (f : V → V) (m : Map K V) → length m ≤ length (alter dec k d f m)
  unfolding alter
  length-alter k d f [] = omega arith
  length-alter k d f ((j, v) ∷ m) = ground (arith, length-alter k d f m)

  -- Keys that an update does not touch.
  count_at-remove :
      (k : K) (ks : List K) (m : Map K V)
      → All (λ y. k ≢ y) ks
      → count_at ks (remove dec k m) ≡ count_at ks m
  count_at-remove k [] m h = refl
  count_at-remove k (j ∷ ks) m h =
      ap (λ o. weight_of o + count_at ks (remove dec k m)) (get-remove_ne j k m h.0)
      ∙ ap (λ n. weight_of (get dec j m) + n) (count_at-remove k ks m h.1)

  count_at-alter_ne :
      (k : K) (d : V) (f : V → V) (ks : List K) (m : Map K V)
      → All (λ y. k ≢ y) ks
      → count_at ks (alter dec k d f m) ≡ count_at ks m
  count_at-alter_ne k d f [] m h = refl
  count_at-alter_ne k d f (j ∷ ks) m h =
      ap (λ o. weight_of o + count_at ks (alter dec k d f m)) (get-alter_ne dec j k d f m h.0)
      ∙ ap (λ n. weight_of (get dec j m) + n) (count_at-alter_ne k d f ks m h.1)

  pub count_at-le : (ks : List K) (m : Map K V) → IsDistinct ks → count_at ks m ≤ count m
  count_at-le [] m h = omega arith
  count_at-le (k ∷ ks) m h =
      omega
        (arith, count_at-le ks (remove dec k m) h.1, count_at-remove k ks m h.0, count-remove k m)

  count_at-alter :
      (k : K) (d : V) (f : V → V) (ks : List K) (m : Map K V)
      → IsDistinct ks
      → IsIn k ks
      → count_at ks (alter dec k d f m) + weight_of (get dec k m)
        ≡ count_at ks m + weight (altered d f (get dec k m))
  count_at-alter k d f [] m h i = elim i [ ]
  count_at-alter k d f (j ∷ ks) m h (inl e) =
      let here : weight_of (get dec j (alter dec k d f m)) ≡ weight (altered d f (get dec k m)) =
        ap (λ i. weight_of (get dec i (alter dec k d f m))) e
        ∙ ap weight_of (get-alter_self dec k d f m) in
      let before : weight_of (get dec j m) ≡ weight_of (get dec k m) =
        ap (λ i. weight_of (get dec i m)) e in
      let others = count_at-alter_ne k d f ks m (subst (λ i. All (λ y. i ≢ y) ks) e h.0) in
      omega (arith, here, before, others)
  count_at-alter k d f (j ∷ ks) m h (inr later) =
      let apart : k ≢ j = λ e. All-IsIn (λ y. j ≢ y) k ks h.0 later (sym e) in
      let same : weight_of (get dec j (alter dec k d f m)) ≡ weight_of (get dec j m) =
        ap weight_of (get-alter_ne dec j k d f m apart) in
      omega (arith, same, count_at-alter k d f ks m h.1 later)

  -- What an update of entries under `ks` alone does to the count.
  pub record Moves (ks : List K) (m n : Map K V) : Type 0 where
    pub balanced : count n + count_at ks m ≡ count m + count_at ks n
    pub kept : (k : K) → IsSome (get dec k m) → IsSome (get dec k n)
    pub longer : length m ≤ length n

  pub Moves-refl : (ks : List K) (m : Map K V) → Moves ks m m
  Moves-refl ks m = record { balanced = refl; kept = λ k h. h; longer = omega arith }

  pub Moves-trans : (ks : List K) (l m n : Map K V) → Moves ks l m → Moves ks m n → Moves ks l n
  Moves-trans ks l m n a b = record {
    balanced = omega (arith, a.balanced, b.balanced);
    kept = λ k h. b.kept k (a.kept k h);
    longer = omega (arith, a.longer, b.longer);
  }

  pub Moves-alter :
      (k : K) (d : V) (f : V → V) (ks : List K) (m : Map K V)
      → IsDistinct ks
      → IsIn k ks
      → Moves ks m (alter dec k d f m)
  Moves-alter k d f ks m h e = record {
    balanced = omega (arith, count-alter k d f m, count_at-alter k d f ks m h e);
    kept = λ j s. IsSome-alter dec j k d f m s;
    longer = length-alter k d f m;
  }
