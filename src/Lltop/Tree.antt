-- ===== src/Lltop/Tree.antt =====
-- The tree of domains that lltop shows (lltop/src/tui/model.rs, `ObservationModel::domain_tree`). The
-- map from a parent to its sorted children is a function; a stack is a list, its top first. The
-- `while` loop of `append` runs on fuel.
use landlock_observability.Prelude.{
  ℕ, zero, suc, ◌+◌, Bool, true, false, ◌||◌, Option, none, some, List, [], ◌∷◌, ◌++◌, length, ◌==◌,
  if◌then◌else◌,
}
use landlock_observability.Map.{Map}
use landlock_observability.Event.Ids.{DomainId}
use landlock_observability.State.Domains.{DomainParent, DomainState}
use landlock_observability.Lltop.Batch.{sort_ids}

-- `visited.contains(&id)`, and `domains.contains_key(&id)`.
abbrev pub has_id : DomainId → List DomainId → Bool
has_id x [] = false
has_id x (y ∷ ids) = y.value == x.value || has_id x ids

abbrev pub ids_in : Map DomainId DomainState → List DomainId
ids_in [] = []
ids_in ((id, d) ∷ m) = id ∷ ids_in m

-- The parent that a domain is listed under.
abbrev pub listed_under : Map DomainId DomainState → Option DomainParent → Option DomainId
listed_under m none = none
listed_under m (some DomainParent.root) = none
listed_under m (some (DomainParent.parent_domain id)) =
    if has_id id (ids_in m) then some id else none

abbrev pub same_parent : Option DomainId → Option DomainId → Bool
same_parent none none = true
same_parent none (some id) = false
same_parent (some id) none = false
same_parent (some a) (some b) = a.value == b.value

-- The domains of `rest` under a parent, before they are sorted.
abbrev pub under :
    Map DomainId DomainState → Option DomainId → Map DomainId DomainState → List DomainId
under m parent [] = []
under m parent ((id, d) ∷ rest) =
    if same_parent (listed_under m d.parent) parent
    then id ∷ under m parent rest
    else under m parent rest

unfoldable pub children : Map DomainId DomainState → Option DomainId → List DomainId
children m parent = sort_ids (under m parent m)

abbrev pub Row : Type 0
Row = DomainId × List Bool

-- `trail.push(index == last)`, for the children from the first to the last one.
abbrev pub with_trails : List Bool → List DomainId → List Row
with_trails trail [] = []
with_trails trail (id ∷ []) = (id, trail ++ true ∷ []) ∷ []
with_trails trail (id ∷ other ∷ ids) = (id, trail ++ false ∷ []) ∷ with_trails trail (other ∷ ids)

pub record Walk : Type 0 where
  pub pending : List Row
  pub visited : List DomainId
  pub output : List Row

module _ (m : Map DomainId DomainState) where
  abbrev pub visit : Row → List Row → Walk → Walk
  visit row rest w = record {
    pending = with_trails row.1 (children m (some row.0)) ++ rest;
    visited = row.0 ∷ w.visited;
    output = w.output ++ row ∷ [];
  }

  abbrev pub pop : List Row → Walk → Walk
  pop [] w = w
  pop (row ∷ rest) w =
      if has_id row.0 w.visited then record w { pending = rest } else visit row rest w

  -- One turn of the loop, and the loop.
  unfoldable pub walk : ℕ → Walk → Walk
  walk zero w = w
  walk (suc fuel) w = walk fuel (pop w.pending w)

  -- The children of all domains: so often the loop pushes.
  abbrev pub children_of_all : List DomainId → ℕ
  children_of_all [] = 0
  children_of_all (id ∷ ids) = length (children m (some id)) + children_of_all ids

  -- `append`
  unfoldable pub append : Row → Walk → Walk
  unfolding walk children
  append row w = walk (suc (children_of_all (ids_in m))) (record w { pending = row ∷ [] })

  abbrev pub append_all : List Row → Walk → Walk
  append_all [] w = w
  append_all (row ∷ rows) w = append_all rows (append row w)

  abbrev pub add_missing : DomainId → Walk → Walk
  add_missing id w = if has_id id w.visited then w else append (id, true ∷ []) w

  abbrev pub append_missing : List DomainId → Walk → Walk
  append_missing [] w = w
  append_missing (id ∷ ids) w = append_missing ids (add_missing id w)

-- `ObservationModel::domain_tree`
unfoldable pub domain_tree : Map DomainId DomainState → List Row
unfolding append
domain_tree m =
    let start : Walk = record { pending = []; visited = []; output = [] } in
    let from_roots = append_all m (with_trails [] (children m none)) start in
    (append_missing m (sort_ids (ids_in m)) from_roots).output
