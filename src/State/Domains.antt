-- ===== src/State/Domains.antt =====
-- Reconstructed domains (src/state.rs): `DomainState`, and what one event does to one domain, in
-- the arms of `State::apply` and in `State::apply_denial`.
use landlock_observability.Prelude.{
  ℕ, Bool, true, false, ◌&&◌, ◌||◌, Option, none, some, [], ◌∷◌, leb, if◌then◌else◌,
}
use landlock_observability.Map.{Map, alter}
use landlock_observability.Event.Ids.{
  DomainId, RulesetId, ProcessId, ThreadId, KernelTimestamp, ThreadId-discrete,
}
use landlock_observability.Event.Captured.{CapturedCommand}
use landlock_observability.Event.Kinds.{
  DenialContext, CreateDomainEvent, FreeDomainEvent, EnforceDomainEvent,
}
use landlock_observability.State.Facts.{
  LifecycleState, marked_allocated, none_or_le, update_max, update_latest_timestamp,
}

pub data DomainParent : Type 0 where
  root : DomainParent
  parent_domain : DomainId → DomainParent

pub record RulesetVersion : Type 0 where
  pub ruleset_id : RulesetId
  pub ruleset_version : ℕ

-- The field `frozen_ruleset` is the source's `ruleset`.
pub record DomainState : Type 0 where
  pub id : DomainId
  pub lifecycle : LifecycleState
  pub creation_timestamp : Option KernelTimestamp
  pub parent : Option DomainParent
  pub creator_tgid : Option ProcessId
  pub creator_comm : Option CapturedCommand
  pub frozen_ruleset : Option RulesetVersion
  pub cumulative_denial_count : Option ℕ
  pub final_denial_count : Option ℕ
  pub free_timestamp : Option KernelTimestamp
  pub enforcement_events : Map ThreadId EnforceDomainEvent
  pub any_process_wide_enforcement : Bool

-- `DomainState::new`
abbrev pub domain_state_new : DomainId → LifecycleState → DomainState
domain_state_new id lifecycle = record {
  id = id;
  lifecycle = lifecycle;
  creation_timestamp = none;
  parent = none;
  creator_tgid = none;
  creator_comm = none;
  frozen_ruleset = none;
  cumulative_denial_count = none;
  final_denial_count = none;
  free_timestamp = none;
  enforcement_events = [];
  any_process_wide_enforcement = false;
}

-- `match parent_id { Some(id) => DomainParent::Domain(id), None => DomainParent::Root }`
abbrev pub parent_of : Option DomainId → DomainParent
parent_of none = DomainParent.root
parent_of (some id) = DomainParent.parent_domain id

abbrev pub is_none {ℓ} : {A : Type ℓ} → Option A → Bool
is_none none = true
is_none (some a) = false

-- `Event::CreateDomain`, on the created domain: the latest creation by timestamp gives the facts.
unfoldable pub note_domain_created : CreateDomainEvent → DomainState → DomainState
note_domain_created e s =
    let marked : DomainState = record s {
      lifecycle = marked_allocated s.lifecycle;
      cumulative_denial_count = update_max s.cumulative_denial_count 0;
    } in
    if none_or_le s.creation_timestamp e.timestamp
    then record marked {
      creation_timestamp = some e.timestamp;
      parent = some (parent_of e.parent_id);
      creator_tgid = some e.creator_tgid;
      creator_comm = some e.creator_comm;
      frozen_ruleset =
          some (record { ruleset_id = e.ruleset_id; ruleset_version = e.ruleset_version });
    }
    else marked

-- `apply_denial`, on the denying domain: the snapshot fills only what is unknown.
unfoldable pub with_snapshot_parent : DenialContext → DomainState → DomainState
with_snapshot_parent c s =
    if is_none s.parent then record s { parent = some (parent_of c.hierarchy.parent_id) } else s

unfoldable pub with_snapshot_creator : DenialContext → DomainState → DomainState
with_snapshot_creator c s =
    if is_none s.creator_tgid && is_none s.creator_comm
    then record s {
      creator_tgid = some c.hierarchy.creator_tgid;
      creator_comm = some c.hierarchy.creator_comm;
    }
    else s

unfoldable pub note_denial : DenialContext → DomainState → DomainState
unfolding with_snapshot_parent with_snapshot_creator
note_denial c s =
    let filled =
      with_snapshot_creator c
        (with_snapshot_parent c (record s { lifecycle = marked_allocated s.lifecycle })) in
    record filled {
      cumulative_denial_count = update_max filled.cumulative_denial_count c.cumulative_denial_count;
    }

-- `Event::FreeDomain`
unfoldable pub note_domain_freed : FreeDomainEvent → DomainState → DomainState
note_domain_freed e s = record s {
  lifecycle = LifecycleState.deallocated;
  free_timestamp = update_latest_timestamp s.free_timestamp e.timestamp;
  final_denial_count = update_max s.final_denial_count e.denial_count;
  cumulative_denial_count = update_max s.cumulative_denial_count e.denial_count;
}

-- The enforcement event that is kept for a thread: the latest by timestamp.
unfoldable pub selected : EnforceDomainEvent → EnforceDomainEvent → EnforceDomainEvent
selected e current = if leb current.timestamp e.timestamp then e else current

-- `Event::EnforceDomain`
unfoldable pub note_enforced : EnforceDomainEvent → DomainState → DomainState
note_enforced e s = record s {
  lifecycle = marked_allocated s.lifecycle;
  any_process_wide_enforcement = s.any_process_wide_enforcement || e.process_wide;
  enforcement_events = alter ThreadId-discrete e.enforcing_tid e (selected e) s.enforcement_events;
}

-- `enforcement_events.values().all(EnforceDomainEvent::no_new_privs)`
abbrev pub all_no_new_privs : Map ThreadId EnforceDomainEvent → Bool
all_no_new_privs [] = true
all_no_new_privs ((_, e) ∷ events) = e.no_new_privs && all_no_new_privs events

-- `DomainState::no_new_privs`
unfoldable pub no_new_privs : DomainState → Option Bool
no_new_privs s = elim s.enforcement_events [
  | [] ↦ none
  | e ∷ events ↦ some (all_no_new_privs (e ∷ events))
]
