-- ===== src/Lltop/TreeOnce.antt =====
-- The tree has each domain of the state once (lltop/src/tui/model.rs).
use landlock_observability.Prelude.{
  ℕ, zero, suc, ◌≤◌, ◌≡◌, refl, sym, ap, subst, true, none, some, List, [], ◌∷◌, arith, inl, inr,
  Bool-cases, ◌==◌, if◌then◌else◌,
}
use landlock_observability.Map.{Map}
use landlock_observability.Event.Ids.{DomainId}
use landlock_observability.State.Domains.{DomainState}
use landlock_observability.Lltop.Batch.{sort_ids}
use landlock_observability.Lltop.Tree.{
  has_id, ids_in, children, Row, with_trails, Walk, pop, walk, children_of_all, append, append_all,
  add_missing, append_missing, domain_tree,
}
use landlock_observability.Lltop.TreeCount.{
  ids_of, times, times-append, among, among-append, has_id-same, among-sort_ids, among-rows,
}

module _ (x : DomainId) (m : Map DomainId DomainState) where
  -- What is visited is in the output once; it is in the state, and so is what is pending.
  unfoldable IsSound : Walk → Type 0
  IsSound w =
      (times x w.output ≡ among x w.visited)
      × ((among x w.visited ≤ among x (ids_in m))
          × (among x (ids_of w.pending) ≤ among x (ids_in m)))

  pop-IsSound : (rows : List Row) (w : Walk) → w.pending ≡ rows → IsSound w → IsSound (pop m rows w)
  unfolding IsSound
  pop-IsSound [] w e h = h
  pop-IsSound (row ∷ rest) w e (once, (within, due)) =
      let waits : among x (ids_of w.pending) ≡ among x (row.0 ∷ ids_of rest) =
        ap (λ rows. among x (ids_of rows)) e in
      elim (Bool-cases (has_id row.0 w.visited)) [
        | inl seen ↦ ground (arith, seen, once, within, due, waits)
        | inr new ↦ elim (Bool-cases (row.0.value == x.value)) [
          | inl same ↦ ground (
            arith,
            new,
            once,
            within,
            due,
            waits,
            same,
            has_id-same x row.0 w.visited (ground (arith, same)),
            times-append x w.output (row ∷ []),
            among-append x (with_trails row.1 (children m (some row.0))) rest,
            among-rows x m row.1 (some row.0),
          )
          | inr other ↦ ground (
            arith,
            new,
            once,
            within,
            due,
            waits,
            other,
            times-append x w.output (row ∷ []),
            among-append x (with_trails row.1 (children m (some row.0))) rest,
            among-rows x m row.1 (some row.0),
          )
        ]
      ]

  walk-IsSound : (fuel : ℕ) (w : Walk) → IsSound w → IsSound (walk m fuel w)
  unfolding walk
  walk-IsSound zero w h = h
  walk-IsSound (suc fuel) w h =
      walk-IsSound fuel (pop m w.pending w) (pop-IsSound w.pending w refl h)

  append-IsSound :
      (row : Row) (w : Walk)
      → IsSound w
      → among x (row.0 ∷ []) ≤ among x (ids_in m)
      → IsSound (append m row w)
  unfolding append IsSound
  append-IsSound row w (once, (within, due)) listed =
      walk-IsSound (suc (children_of_all m (ids_in m))) (record w { pending = row ∷ [] })
        (once, (within, listed))

  -- What is visited stays visited, and `append` visits its row.
  pop-visited : (rows : List Row) (w : Walk) → among x w.visited ≤ among x (pop m rows w).visited
  pop-visited [] w = omega arith
  pop-visited (row ∷ rest) w = ground arith

  pop-visits :
      (row : Row) (rest : List Row) (w : Walk)
      → among x (row.0 ∷ w.visited) ≤ among x (pop m (row ∷ rest) w).visited
  pop-visits row rest w = elim (Bool-cases (has_id row.0 w.visited)) [
    | inl seen ↦ elim (Bool-cases (row.0.value == x.value)) [
      | inl same ↦ ground (arith, seen, same, has_id-same x row.0 w.visited (ground (arith, same)))
      | inr other ↦ ground (arith, seen, other)
    ]
    | inr new ↦ ground (arith, new)
  ]

  walk-visited : (fuel : ℕ) (w : Walk) → among x w.visited ≤ among x (walk m fuel w).visited
  unfolding walk
  walk-visited zero w = omega arith
  walk-visited (suc fuel) w =
      omega (arith, pop-visited w.pending w, walk-visited fuel (pop m w.pending w))

  append-visited :
      (row : Row) (w : Walk) → among x (row.0 ∷ w.visited) ≤ among x (append m row w).visited
  unfolding append walk
  append-visited row w =
      let start : Walk = record w { pending = row ∷ [] } in
      omega (
        arith,
        pop-visits row [] start,
        walk-visited (children_of_all m (ids_in m)) (pop m (row ∷ []) start),
      )

  append_all-IsSound :
      (rows : List Row) (w : Walk)
      → IsSound w
      → among x (ids_of rows) ≤ among x (ids_in m)
      → IsSound (append_all m rows w)
  append_all-IsSound [] w h listed = h
  append_all-IsSound (row ∷ rows) w h listed =
      append_all-IsSound rows (append m row w) (append-IsSound row w h (ground (arith, listed)))
        (ground (arith, listed))

  add_missing-IsSound :
      (id : DomainId) (w : Walk)
      → IsSound w
      → among x (id ∷ []) ≤ among x (ids_in m)
      → IsSound (add_missing m id w)
  add_missing-IsSound id w h listed = elim (Bool-cases (has_id id w.visited)) [
    | inl seen ↦ subst (λ b. IsSound (if b then w else append m (id, true ∷ []) w)) (sym seen) h
    | inr new ↦
        subst (λ b. IsSound (if b then w else append m (id, true ∷ []) w)) (sym new)
          (append-IsSound (id, true ∷ []) w h listed)
  ]

  append_missing-IsSound :
      (ids : List DomainId) (w : Walk)
      → IsSound w
      → among x ids ≤ among x (ids_in m)
      → IsSound (append_missing m ids w)
  append_missing-IsSound [] w h listed = h
  append_missing-IsSound (id ∷ ids) w h listed =
      append_missing-IsSound ids (add_missing m id w)
        (add_missing-IsSound id w h (ground (arith, listed))) (ground (arith, listed))

  add_missing-visits :
      (id : DomainId) (w : Walk) → among x (id ∷ w.visited) ≤ among x (add_missing m id w).visited
  add_missing-visits id w = elim (Bool-cases (has_id id w.visited)) [
    | inl seen ↦ elim (Bool-cases (id.value == x.value)) [
      | inl same ↦ ground (arith, seen, same, has_id-same x id w.visited (ground (arith, same)))
      | inr other ↦ ground (arith, seen, other)
    ]
    | inr new ↦ ground (arith, new, append-visited (id, true ∷ []) w)
  ]

  append_missing-visits :
      (ids : List DomainId) (w : Walk)
      → (among x w.visited ≤ among x (append_missing m ids w).visited)
        × (among x ids ≤ among x (append_missing m ids w).visited)
  append_missing-visits [] w = (omega arith, omega arith)
  append_missing-visits (id ∷ ids) w =
      let later = append_missing-visits ids (add_missing m id w) in
      (
        ground (arith, add_missing-visits id w, later.0),
        ground (arith, add_missing-visits id w, later.0, later.1),
      )

-- The tree that lltop shows: each domain of the state is a row of it once, also where parents form a
-- cycle or a parent is not in the state, and no other domain is.
pub domain_tree-once :
    (m : Map DomainId DomainState) (x : DomainId)
    → times x (domain_tree m) ≡ (if has_id x (ids_in m) then 1 else 0)
unfolding domain_tree IsSound
domain_tree-once m x =
    let start : Walk = record { pending = []; visited = []; output = [] } in
    let from_roots = append_all m (with_trails [] (children m none)) start in
    let all = sort_ids (ids_in m) in
    let rooted =
      append_all-IsSound x m (with_trails [] (children m none)) start
        (omega arith, (omega arith, omega arith)) (among-rows x m [] none) in
    let sorted = among-sort_ids x (ids_in m) in
    let sound = append_missing-IsSound x m all from_roots rooted (omega (arith, sorted)) in
    let visits = append_missing-visits x m all from_roots in
    omega (arith, sound.0, sound.1.0, visits.1, sorted)
