-- ===== src/Lltop/TreeCount.antt =====
-- How often a domain is among rows and identities of the tree (lltop/src/tui/model.rs).
use landlock_observability.Prelude.{
  ℕ, ◌+◌, ◌≤◌, ◌≡◌, refl, sym, ap, subst, Bool, Option, List, [], ◌∷◌, ◌++◌, arith, ◌==◌,
  if◌then◌else◌,
}
use landlock_observability.Map.{Map}
use landlock_observability.Event.Ids.{DomainId}
use landlock_observability.State.Domains.{DomainState}
use landlock_observability.Lltop.Batch.{sort_ids, place_id}
use landlock_observability.Lltop.Tree.{has_id, ids_in, children, under, Row, with_trails}

abbrev pub ids_of : List Row → List DomainId
ids_of [] = []
ids_of (row ∷ rows) = row.0 ∷ ids_of rows

ids_of-with_trails :
    (trail : List Bool) (ids : List DomainId) → ids_of (with_trails trail ids) ≡ ids
ids_of-with_trails trail [] = refl
ids_of-with_trails trail (x ∷ []) = refl
ids_of-with_trails trail (x ∷ y ∷ ids) = ap (λ ids. x ∷ ids) (ids_of-with_trails trail (y ∷ ids))

abbrev pub here : Bool → ℕ
here b = if b then 1 else 0

-- How often a domain is among the rows.
abbrev pub times : DomainId → List Row → ℕ
times x [] = 0
times x (row ∷ rows) = here (row.0.value == x.value) + times x rows

module _ (x : DomainId) where
  pub times-append :
      (before after : List Row) → times x (before ++ after) ≡ times x before + times x after
  times-append [] after = omega arith
  times-append (a ∷ before) after = ground (arith, times-append before after)

  abbrev pub among : List DomainId → ℕ
  among ids = here (has_id x ids)

  among-place_id : (y : DomainId) (ids : List DomainId) → among (place_id y ids) ≡ among (y ∷ ids)
  unfolding place_id
  among-place_id y [] = refl
  among-place_id y (z ∷ ids) = ground (arith, among-place_id y ids)

  pub among-sort_ids : (ids : List DomainId) → among (sort_ids ids) ≡ among ids
  unfolding sort_ids
  among-sort_ids [] = refl
  among-sort_ids (y ∷ ids) = ground (arith, among-place_id y (sort_ids ids), among-sort_ids ids)

  pub among-append :
      (before after : List Row)
      → among (ids_of (before ++ after)) ≤ among (ids_of before) + among (ids_of after)
  among-append [] after = omega arith
  among-append (a ∷ before) after = ground (arith, among-append before after)

  pub has_id-same :
      (y : DomainId) (ids : List DomainId) → y.value ≡ x.value → has_id y ids ≡ has_id x ids
  has_id-same y ids e = λ i. has_id (record { value = e i }) ids

  module _ (m : Map DomainId DomainState) where
    among-under :
        (parent : Option DomainId) (rest : Map DomainId DomainState)
        → among (under m parent rest) ≤ among (ids_in rest)
    among-under parent [] = omega arith
    among-under parent ((id, d) ∷ rest) = ground (arith, among-under parent rest)

    among-children : (parent : Option DomainId) → among (children m parent) ≤ among (ids_in m)
    unfolding children
    among-children parent = ground (arith, among-sort_ids (under m parent m), among-under parent m)

    pub among-rows :
        (trail : List Bool) (parent : Option DomainId)
        → among (ids_of (with_trails trail (children m parent))) ≤ among (ids_in m)
    among-rows trail parent =
        subst (λ ids. among ids ≤ among (ids_in m))
          (sym (ids_of-with_trails trail (children m parent))) (among-children parent)
