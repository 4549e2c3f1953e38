-- ===== src/Event/Kinds.antt =====
-- The facts that events carry and the twelve events (src/event/mod.rs). A typestate builder gives
-- each field once, so a record literal stands for it, and a getter is a projection.
use landlock_observability.Prelude.{ℕ, Bool, ◌&&◌, Option, none, some, ◌==◌, if◌then◌else◌}
use landlock_observability.Event.Ids.{DomainId, RulesetId, ProcessId, ThreadId, KernelTimestamp}
use landlock_observability.Event.Access.{FilesystemAccess, NetworkAccess, ScopeAccess}
use landlock_observability.Event.Captured.{
  CapturedPath, CapturedCommand, CapturedAbstractUnixSocketName,
}

pub record BlockerType : Type 0 where
  pub raw : ℕ

-- The associated constants.
abbrev pub ptrace : BlockerType
ptrace = record { raw = 1 }

abbrev pub fs_change_topology : BlockerType
fs_change_topology = record { raw = 2 }

abbrev pub fs_access : BlockerType
fs_access = record { raw = 3 }

abbrev pub net_access : BlockerType
net_access = record { raw = 4 }

abbrev pub scope_abstract_unix_socket : BlockerType
scope_abstract_unix_socket = record { raw = 5 }

abbrev pub scope_signal : BlockerType
scope_signal = record { raw = 6 }

pub data FilesystemBlockers : Type 0 where
  access : FilesystemAccess → FilesystemBlockers
  change_topology : FilesystemBlockers
  other : (request_type : BlockerType) (access : FilesystemAccess) → FilesystemBlockers

-- `FilesystemBlockers::classify`
unfoldable pub classify : BlockerType → FilesystemAccess → FilesystemBlockers
classify request_type mask =
    if request_type.raw == fs_access.raw
    then FilesystemBlockers.access mask
    else if request_type.raw == fs_change_topology.raw && mask.bits == 0
    then FilesystemBlockers.change_topology
    else FilesystemBlockers.other request_type mask

pub data DomainMembership : Type 0 where
  unsandboxed : DomainMembership
  sandboxed : DomainId → DomainMembership

-- `DomainMembership::domain_id`, and the two conversions.
abbrev pub membership_domain_id : DomainMembership → Option DomainId
membership_domain_id DomainMembership.unsandboxed = none
membership_domain_id (DomainMembership.sandboxed id) = some id

abbrev pub membership_of_option : Option DomainId → DomainMembership
membership_of_option none = DomainMembership.unsandboxed
membership_of_option (some id) = DomainMembership.sandboxed id

pub record HierarchySnapshot : Type 0 where
  pub domain_id : DomainId
  pub parent_id : Option DomainId
  pub creator_tgid : ProcessId
  pub creator_comm : CapturedCommand

pub record DenialContext : Type 0 where
  pub hierarchy : HierarchySnapshot
  pub cumulative_denial_count : ℕ
  pub same_exec : Bool
  pub logged : Bool

pub record CreateRulesetEvent : Type 0 where
  pub timestamp : KernelTimestamp
  pub ruleset_id : RulesetId
  pub ruleset_version : ℕ
  pub handled_fs : FilesystemAccess
  pub handled_net : NetworkAccess
  pub scoped : ScopeAccess

pub record AddRulePathBeneathEvent : Type 0 where
  pub timestamp : KernelTimestamp
  pub ruleset_id : RulesetId
  pub ruleset_version : ℕ
  pub access_rights : FilesystemAccess
  pub device : ℕ
  pub inode : ℕ
  pub pathname : CapturedPath

pub record AddRuleNetPortEvent : Type 0 where
  pub timestamp : KernelTimestamp
  pub ruleset_id : RulesetId
  pub ruleset_version : ℕ
  pub access_rights : NetworkAccess
  pub port : ℕ

pub record CreateDomainEvent : Type 0 where
  pub timestamp : KernelTimestamp
  pub ruleset_id : RulesetId
  pub ruleset_version : ℕ
  pub domain_id : DomainId
  pub parent_id : Option DomainId
  pub creator_tgid : ProcessId
  pub creator_comm : CapturedCommand

pub record DenyAccessFsEvent : Type 0 where
  pub timestamp : KernelTimestamp
  pub context : DenialContext
  pub blockers_type : BlockerType
  pub blockers_access : FilesystemAccess
  pub device : ℕ
  pub inode : ℕ
  pub pathname : CapturedPath

pub record DenyAccessNetEvent : Type 0 where
  pub timestamp : KernelTimestamp
  pub context : DenialContext
  pub blockers_type : BlockerType
  pub blockers_access : NetworkAccess
  pub source_port : ℕ
  pub destination_port : ℕ

pub record DenyPtraceEvent : Type 0 where
  pub timestamp : KernelTimestamp
  pub context : DenialContext
  pub tracee_domain : DomainMembership
  pub tracee_pid : ProcessId
  pub tracee_comm : CapturedCommand

pub record DenyScopeSignalEvent : Type 0 where
  pub timestamp : KernelTimestamp
  pub context : DenialContext
  pub target_domain : DomainMembership
  pub target_pid : ProcessId
  pub target_comm : CapturedCommand

pub record DenyScopeAbstractUnixSocketEvent : Type 0 where
  pub timestamp : KernelTimestamp
  pub context : DenialContext
  pub peer_domain : DomainMembership
  pub peer_pid : Option ProcessId
  pub abstract_name : CapturedAbstractUnixSocketName

pub record FreeDomainEvent : Type 0 where
  pub timestamp : KernelTimestamp
  pub domain_id : DomainId
  pub denial_count : ℕ

pub record FreeRulesetEvent : Type 0 where
  pub timestamp : KernelTimestamp
  pub ruleset_id : RulesetId
  pub ruleset_version : ℕ

pub record EnforceDomainEvent : Type 0 where
  pub timestamp : KernelTimestamp
  pub domain_id : DomainId
  pub enforcing_tid : ThreadId
  pub complete : Bool
  pub process_wide : Bool
  pub no_new_privs : Bool

pub data Event : Type 0 where
  create_ruleset : CreateRulesetEvent → Event
  add_rule_path_beneath : AddRulePathBeneathEvent → Event
  add_rule_net_port : AddRuleNetPortEvent → Event
  create_domain : CreateDomainEvent → Event
  deny_access_fs : DenyAccessFsEvent → Event
  deny_access_net : DenyAccessNetEvent → Event
  deny_ptrace : DenyPtraceEvent → Event
  deny_scope_signal : DenyScopeSignalEvent → Event
  deny_scope_abstract_unix_socket : DenyScopeAbstractUnixSocketEvent → Event
  free_domain : FreeDomainEvent → Event
  free_ruleset : FreeRulesetEvent → Event
  enforce_domain : EnforceDomainEvent → Event

-- `<Event as Observation>::timestamp`
unfoldable pub timestamp : Event → KernelTimestamp
timestamp (create_ruleset e) = e.timestamp
timestamp (add_rule_path_beneath e) = e.timestamp
timestamp (add_rule_net_port e) = e.timestamp
timestamp (create_domain e) = e.timestamp
timestamp (deny_access_fs e) = e.timestamp
timestamp (deny_access_net e) = e.timestamp
timestamp (deny_ptrace e) = e.timestamp
timestamp (deny_scope_signal e) = e.timestamp
timestamp (deny_scope_abstract_unix_socket e) = e.timestamp
timestamp (free_domain e) = e.timestamp
timestamp (free_ruleset e) = e.timestamp
timestamp (enforce_domain e) = e.timestamp
