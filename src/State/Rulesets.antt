-- ===== src/State/Rulesets.antt =====
-- Reconstructed rulesets (src/state.rs): `RulesetState`, its rules, and what one event does to one
-- ruleset, in the arms of `State::apply`.
use landlock_observability.Prelude.{ℕ, Option, none, some, [], leb, if◌then◌else◌, max, ℕ_discrete}
use landlock_observability.Map.{Map, alter}
use landlock_observability.Event.Ids.{RulesetId, KernelTimestamp}
use landlock_observability.Event.Access.{FilesystemAccess, NetworkAccess, ScopeAccess, union}
use landlock_observability.Event.Captured.{CapturedPath}
use landlock_observability.Event.Kinds.{
  CreateRulesetEvent, AddRulePathBeneathEvent, AddRuleNetPortEvent, FreeRulesetEvent,
}
use landlock_observability.State.Facts.{
  LifecycleState, marked_allocated, none_or_le, update_max, update_latest_timestamp,
}

pub record FilesystemRuleState : Type 0 where
  pub device : ℕ
  pub inode : ℕ
  pub access_rights : FilesystemAccess
  pub pathname : CapturedPath
  pub pathname_timestamp : KernelTimestamp

pub record NetworkRuleState : Type 0 where
  pub port : ℕ
  pub access_rights : NetworkAccess

-- The key of a filesystem rule, `(device, inode)`.
pub record FilesystemTarget : Type 0 where
  pub device : ℕ
  pub inode : ℕ

unfoldable pub FilesystemTarget-discrete : Discrete FilesystemTarget
unfolding ℕ_discrete
FilesystemTarget-discrete = hlevel ℕ_discrete

pub record RulesetState : Type 0 where
  pub id : RulesetId
  pub lifecycle : LifecycleState
  pub creation_timestamp : Option KernelTimestamp
  pub handled_fs : Option FilesystemAccess
  pub handled_net : Option NetworkAccess
  pub scoped : Option ScopeAccess
  pub max_observed_version : ℕ
  pub final_version : Option ℕ
  pub free_timestamp : Option KernelTimestamp
  pub filesystem_rules : Map FilesystemTarget FilesystemRuleState
  pub network_rules : Map ℕ NetworkRuleState

-- `RulesetState::new`
abbrev pub ruleset_state_new : RulesetId → LifecycleState → ℕ → RulesetState
ruleset_state_new id lifecycle version = record {
  id = id;
  lifecycle = lifecycle;
  creation_timestamp = none;
  handled_fs = none;
  handled_net = none;
  scoped = none;
  max_observed_version = version;
  final_version = none;
  free_timestamp = none;
  filesystem_rules = [];
  network_rules = [];
}

-- `mark_allocated` and then `update_version`.
unfoldable pub note_used : ℕ → RulesetState → RulesetState
note_used version s = record s {
  lifecycle = marked_allocated s.lifecycle;
  max_observed_version = max s.max_observed_version version;
}

-- `Event::CreateRuleset`: the latest creation by timestamp gives the handled rights.
unfoldable pub note_created : CreateRulesetEvent → RulesetState → RulesetState
unfolding note_used
note_created e s =
    let used = note_used e.ruleset_version s in
    if none_or_le used.creation_timestamp e.timestamp
    then record used {
      creation_timestamp = some e.timestamp;
      handled_fs = some e.handled_fs;
      handled_net = some e.handled_net;
      scoped = some e.scoped;
    }
    else used

-- A filesystem rule that is there already: its rights grow, and its path is the latest.
unfoldable pub merged_path_rule :
    AddRulePathBeneathEvent → FilesystemRuleState → FilesystemRuleState
merged_path_rule e rule =
    let grown : FilesystemRuleState = record rule {
      access_rights = union rule.access_rights e.access_rights;
    } in
    if leb rule.pathname_timestamp e.timestamp
    then record grown { pathname = e.pathname; pathname_timestamp = e.timestamp }
    else grown

abbrev pub new_path_rule : AddRulePathBeneathEvent → FilesystemRuleState
new_path_rule e = record {
  device = e.device;
  inode = e.inode;
  access_rights = e.access_rights;
  pathname = e.pathname;
  pathname_timestamp = e.timestamp;
}

-- `Event::AddRulePathBeneath`
unfoldable pub note_path_rule : AddRulePathBeneathEvent → RulesetState → RulesetState
unfolding note_used
note_path_rule e s =
    let used = note_used e.ruleset_version s in
    record used {
      filesystem_rules =
          alter FilesystemTarget-discrete (record { device = e.device; inode = e.inode })
            (new_path_rule e) (merged_path_rule e) used.filesystem_rules;
    }

unfoldable pub merged_port_rule : AddRuleNetPortEvent → NetworkRuleState → NetworkRuleState
merged_port_rule e rule = record rule { access_rights = union rule.access_rights e.access_rights }

-- `Event::AddRuleNetPort`
unfoldable pub note_port_rule : AddRuleNetPortEvent → RulesetState → RulesetState
unfolding note_used
note_port_rule e s =
    let used = note_used e.ruleset_version s in
    record used {
      network_rules =
          alter ℕ_discrete e.port (record { port = e.port; access_rights = e.access_rights })
            (merged_port_rule e) used.network_rules;
    }

-- `Event::FreeRuleset`
unfoldable pub note_freed : FreeRulesetEvent → RulesetState → RulesetState
note_freed e s = record s {
  lifecycle = LifecycleState.deallocated;
  free_timestamp = update_latest_timestamp s.free_timestamp e.timestamp;
  final_version = update_max s.final_version e.ruleset_version;
  max_observed_version = max s.max_observed_version e.ruleset_version;
}
