-- ===== src/Lltop/TreeWalk.antt =====
-- The loop of `append` ends, and the tree has each domain once (lltop/src/tui/model.rs).
use landlock_observability.Prelude.{
  ℕ, zero, suc, ◌+◌, ◌≤◌, ◌<◌, ◌≡◌, refl, sym, ap, subst, ◌∙◌, Bool, true, false, Option, none,
  some, List, [], ◌∷◌, arith, length, length-append, inl, inr, ◌⊎◌, Bool-cases, ◌==◌, if◌then◌else◌,
}
use landlock_observability.Map.{Map}
use landlock_observability.Event.Ids.{DomainId}
use landlock_observability.State.Domains.{DomainParent, DomainState}
use landlock_observability.Lltop.Batch.{sort_ids}
use landlock_observability.Lltop.Tree.{
  has_id, ids_in, listed_under, same_parent, children, under, Row, with_trails, Walk, pop, walk,
  children_of_all, append,
}

rows-cases :
    (rows : List Row) → (rows ≡ []) ⊎ ((row : Row) × (rest : List Row) × (rows ≡ row ∷ rest))
rows-cases [] = inl refl
rows-cases (row ∷ rest) = inr (row, rest, refl)

module _ (m : Map DomainId DomainState) where
  -- The children of the domains that are not visited yet.
  abbrev still : List DomainId → List DomainId → ℕ
  still visited [] = 0
  still visited (id ∷ ids) =
      (if has_id id visited then 0 else length (children m (some id))) + still visited ids

  still-le : (visited ids : List DomainId) → still visited ids ≤ children_of_all m ids
  still-le visited [] = omega arith
  still-le visited (id ∷ ids) = ground (arith, still-le visited ids)

  still-visited :
      (x : DomainId) (visited ids : List DomainId) → still (x ∷ visited) ids ≤ still visited ids
  still-visited x visited [] = omega arith
  still-visited x visited (id ∷ ids) = ground (arith, still-visited x visited ids)

  has_id-cong :
      (x y : DomainId) (ids : List DomainId) → x.value ≡ y.value → has_id x ids ≡ has_id y ids
  has_id-cong x y ids e = λ i. has_id (record { value = e i }) ids

  at_itself :
      (x id : DomainId) (visited ids : List DomainId)
      → has_id x visited ≡ false
      → id.value ≡ x.value
      → still (x ∷ visited) (id ∷ ids) + length (children m (some x)) ≤ still visited (id ∷ ids)
  at_itself x id visited ids new e = ground (
    arith,
    e,
    new,
    still-visited x visited ids,
    ap (λ (v : ℕ). length (children m (some (record { value = v })))) e,
    has_id-cong id x visited e,
  )

  -- Visiting a domain takes its children from the sum.
  still-visit :
      (x : DomainId) (visited ids : List DomainId)
      → has_id x ids ≡ true
      → has_id x visited ≡ false
      → still (x ∷ visited) ids + length (children m (some x)) ≤ still visited ids
  still-visit x visited [] i new = absurd (ground arith)
  still-visit x visited (id ∷ ids) i new = elim (Bool-cases (id.value == x.value)) [
    | inl e ↦ at_itself x id visited ids new (ground (arith, e))
    | inr e ↦ ground (arith, e, i, still-visit x visited ids)
  ]

  -- A domain outside the map has no children.
  not_listed :
      (x : DomainId) (parent : Option DomainParent)
      → has_id x (ids_in m) ≡ false
      → same_parent (listed_under m parent) (some x) ≡ false
  not_listed x none absent = refl
  not_listed x (some DomainParent.root) absent = refl
  not_listed x (some (DomainParent.parent_domain id)) absent =
      elim (Bool-cases (id.value == x.value)) [
        | inl e ↦ ground (arith, e, absent, has_id-cong id x (ids_in m) (ground (arith, e)))
        | inr e ↦ ground (arith, e)
      ]

  under-absent :
      (x : DomainId) (rest : Map DomainId DomainState)
      → has_id x (ids_in m) ≡ false
      → under m (some x) rest ≡ []
  under-absent x [] absent = refl
  under-absent x ((id, d) ∷ rest) absent =
      ground (arith, not_listed x d.parent absent, under-absent x rest absent)

  childless : (x : DomainId) → has_id x (ids_in m) ≡ false → length (children m (some x)) ≡ 0
  unfolding children sort_ids
  childless x absent = ap (λ ids. length (sort_ids ids)) (under-absent x m absent)

  length-with_trails :
      (trail : List Bool) (ids : List DomainId) → length (with_trails trail ids) ≡ length ids
  length-with_trails trail [] = refl
  length-with_trails trail (x ∷ []) = refl
  length-with_trails trail (x ∷ y ∷ ids) = ap suc (length-with_trails trail (y ∷ ids))

  unfoldable measure : Walk → ℕ
  measure w = length w.pending + still w.visited (ids_in m)

  -- A turn of the loop takes a row.
  pop-measure :
      (row : Row) (rest : List Row) (w : Walk)
      → measure (pop m (row ∷ rest) w) < suc (length rest + still w.visited (ids_in m))
  unfolding measure
  pop-measure row rest w = elim (Bool-cases (has_id row.0 w.visited)) [
    | inl seen ↦ ground (arith, seen)
    | inr new ↦ elim (Bool-cases (has_id row.0 (ids_in m))) [
      | inl present ↦ ground (
        arith,
        new,
        still-visit row.0 w.visited (ids_in m) present new,
        length-append (with_trails row.1 (children m (some row.0))) rest,
        length-with_trails row.1 (children m (some row.0)),
      )
      | inr absent ↦ ground (
        arith,
        new,
        still-visited row.0 w.visited (ids_in m),
        childless row.0 absent,
        length-append (with_trails row.1 (children m (some row.0))) rest,
        length-with_trails row.1 (children m (some row.0)),
      )
    ]
  ]

  pop-none : (w : Walk) → w.pending ≡ [] → (pop m w.pending w).pending ≡ []
  pop-none w e = ap (λ rows. (pop m rows w).pending) e ∙ e

  walk-done : (fuel : ℕ) (w : Walk) → w.pending ≡ [] → (walk m fuel w).pending ≡ []
  unfolding walk
  walk-done zero w e = e
  walk-done (suc fuel) w e = walk-done fuel (pop m w.pending w) (pop-none w e)

  turn-measure :
      (fuel : ℕ) (w : Walk) (row : Row) (rest : List Row)
      → w.pending ≡ row ∷ rest
      → measure w ≤ suc fuel
      → measure (pop m w.pending w) ≤ fuel
  unfolding measure
  turn-measure fuel w row rest e h =
      subst (λ rows. measure (pop m rows w) ≤ fuel) (sym e)
        (ground (arith, pop-measure row rest w, h, ap length e))

  walk-ends : (fuel : ℕ) (w : Walk) → measure w ≤ fuel → (walk m fuel w).pending ≡ []
  unfolding walk measure
  walk-ends zero w h = elim (rows-cases w.pending) [
    | inl e ↦ e
    | inr (row, rest, e) ↦ absurd (ground (arith, h, ap length e))
  ]
  walk-ends (suc fuel) w h = elim (rows-cases w.pending) [
    | inl e ↦ walk-done fuel (pop m w.pending w) (pop-none w e)
    | inr (row, rest, e) ↦ walk-ends fuel (pop m w.pending w) (turn-measure fuel w row rest e h)
  ]

-- Termination: the loop of `append` ends, whatever the row it starts from and what is visited already,
-- also where a domain is its own ancestor. The fuel is enough: no row is left on the stack.
pub append-ends :
    (m : Map DomainId DomainState) (row : Row) (w : Walk) → (append m row w).pending ≡ []
unfolding append measure
append-ends m row w =
    walk-ends m (suc (children_of_all m (ids_in m))) (record w { pending = row ∷ [] })
      (ground (arith, still-le m w.visited (ids_in m)))
