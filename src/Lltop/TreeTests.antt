-- ===== src/Lltop/TreeTests.antt =====
-- Tests and concrete instances for the tree of domains (lltop/src/tui/model.rs).
use landlock_observability.Prelude.{◌+◌, ◌≡◌, refl, true, false, some, [], ◌∷◌, ℕ, if◌then◌else◌}
use landlock_observability.Map.{Map}
use landlock_observability.Event.Ids.{DomainId}
use landlock_observability.State.Facts.{LifecycleState}
use landlock_observability.State.Domains.{DomainParent, DomainState, domain_state_new}
use landlock_observability.Lltop.Batch.{sort_ids}
use landlock_observability.Lltop.Tree.{has_id, ids_in, append, domain_tree}
use landlock_observability.Lltop.TreeCount.{times}
use landlock_observability.Lltop.TreeWalk.{append-ends}
use landlock_observability.Lltop.TreeOnce.{domain_tree-once}

abbrev domain : ℕ → DomainId
domain n = record { value = 0x1_0000_0000 + n }

abbrev created : ℕ → DomainParent → DomainId × DomainState
created n parent = (
  domain n,
  record (domain_state_new (domain n) LifecycleState.allocated) { parent = some parent },
)

abbrev below : ℕ → DomainParent
below n = DomainParent.parent_domain (domain n)

abbrev family : Map DomainId DomainState
family =
    created 4 (below 2)
    ∷ created 3 (below 1)
    ∷ created 1 DomainParent.root
    ∷ (domain 5, domain_state_new (domain 5) LifecycleState.allocated)
    ∷ created 2 (below 1)
    ∷ []

-- The test `tree_retains_ancestor_last_child_metadata`.
tree_retains_ancestor_last_child_metadata :
    domain_tree family
    ≡ (domain 1, false ∷ [])
      ∷ (domain 2, false ∷ false ∷ [])
      ∷ (domain 4, false ∷ false ∷ true ∷ [])
      ∷ (domain 3, false ∷ true ∷ [])
      ∷ (domain 5, true ∷ [])
      ∷ []
unfolding domain_tree sort_ids
tree_retains_ancestor_last_child_metadata = refl

-- The test `cyclic_observations_are_rendered_once_without_recursion`.
abbrev cycle : Map DomainId DomainState
cycle = created 1 (below 2) ∷ created 2 (below 1) ∷ []

cyclic_observations_are_rendered_once_without_recursion :
    domain_tree cycle ≡ (domain 1, true ∷ []) ∷ (domain 2, true ∷ true ∷ []) ∷ []
unfolding domain_tree sort_ids
cyclic_observations_are_rendered_once_without_recursion = refl

append-ends_example :
    (append cycle
      (domain 1, true ∷ [])
      (record { pending = []; visited = []; output = [] })).pending
    ≡ []
append-ends_example =
    append-ends cycle (domain 1, true ∷ []) (record { pending = []; visited = []; output = [] })

domain_tree-once_example :
    times (domain 2) (domain_tree cycle) ≡ (if has_id (domain 2) (ids_in cycle) then 1 else 0)
domain_tree-once_example = domain_tree-once cycle (domain 2)
