-- ===== src/State/Facts.antt =====
-- The lifecycle of an object and the updates that only strengthen a fact (src/state.rs):
-- `LifecycleState`, `mark_allocated`, `update_max`, `update_latest_timestamp`.
use landlock_observability.Prelude.{ℕ, Bool, true, Option, none, some, leb, if◌then◌else◌}
use landlock_observability.Event.Ids.{KernelTimestamp}

pub data LifecycleState : Type 0 where
  allocated deallocated : LifecycleState

-- `if self.lifecycle != Deallocated { self.lifecycle = Allocated }`
unfoldable pub marked_allocated : LifecycleState → LifecycleState
marked_allocated LifecycleState.deallocated = LifecycleState.deallocated
marked_allocated LifecycleState.allocated = LifecycleState.allocated

-- `current.is_none_or(|value| candidate >= value)`
unfoldable pub none_or_le : Option ℕ → ℕ → Bool
none_or_le none candidate = true
none_or_le (some value) candidate = leb value candidate

unfoldable pub update_max : Option ℕ → ℕ → Option ℕ
unfolding none_or_le
update_max current candidate = if none_or_le current candidate then some candidate else current

unfoldable pub update_latest_timestamp :
    Option KernelTimestamp → KernelTimestamp → Option KernelTimestamp
unfolding none_or_le
update_latest_timestamp current candidate =
    if none_or_le current candidate then some candidate else current
