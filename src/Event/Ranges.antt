-- ===== src/Event/Ranges.antt =====
-- The ranges of an event's values (src/event/mod.rs): identities, captured bytes within their
-- origin's domain, and numbers of their width.
use landlock_observability.Prelude.{ℕ, ◌^◌, ◌<◌, Option, none, some}
use landlock_observability.Event.Ids.{
  LandlockId-IsValid, ProcessId, ProcessId-IsValid, ThreadId-IsValid, DomainId,
}
use landlock_observability.Event.Kinds.{
  DomainMembership, HierarchySnapshot, DenialContext, CreateRulesetEvent, AddRulePathBeneathEvent,
  AddRuleNetPortEvent, CreateDomainEvent, DenyAccessFsEvent, DenyAccessNetEvent, DenyPtraceEvent,
  DenyScopeSignalEvent, DenyScopeAbstractUnixSocketEvent, FreeDomainEvent, FreeRulesetEvent,
  EnforceDomainEvent, Event, create_ruleset, add_rule_path_beneath, add_rule_net_port,
  create_domain, deny_access_fs, deny_access_net, deny_ptrace, deny_scope_signal,
  deny_scope_abstract_unix_socket, free_domain, free_ruleset, enforce_domain,
}
use landlock_observability.Event.Validity.{CapturedBytes-IsValid}

abbrev pub IsU32 : ℕ → Type 0
IsU32 n = n < 2 ^ 32

abbrev pub IsU64 : ℕ → Type 0
IsU64 n = n < 2 ^ 64

abbrev pub OptionalDomain-IsValid : Option DomainId → Type 0
OptionalDomain-IsValid none = Unit
OptionalDomain-IsValid (some i) = LandlockId-IsValid i

abbrev pub OptionalProcess-IsValid : Option ProcessId → Type 0
OptionalProcess-IsValid none = Unit
OptionalProcess-IsValid (some p) = ProcessId-IsValid p

abbrev pub Membership-IsValid : DomainMembership → Type 0
Membership-IsValid DomainMembership.unsandboxed = Unit
Membership-IsValid (DomainMembership.sandboxed i) = LandlockId-IsValid i

abbrev pub Hierarchy-IsValid : HierarchySnapshot → Type 0
Hierarchy-IsValid h =
    LandlockId-IsValid h.domain_id
    × OptionalDomain-IsValid h.parent_id
    × ProcessId-IsValid h.creator_tgid
    × CapturedBytes-IsValid h.creator_comm

abbrev pub Context-IsValid : DenialContext → Type 0
Context-IsValid c = Hierarchy-IsValid c.hierarchy × IsU64 c.cumulative_denial_count

abbrev pub CreateRuleset-IsValid : CreateRulesetEvent → Type 0
CreateRuleset-IsValid e =
    LandlockId-IsValid e.ruleset_id
    × IsU64 e.ruleset_version
    × IsU64 e.handled_fs.bits
    × IsU64 e.handled_net.bits
    × IsU64 e.scoped.bits

abbrev pub AddRulePathBeneath-IsValid : AddRulePathBeneathEvent → Type 0
AddRulePathBeneath-IsValid e =
    LandlockId-IsValid e.ruleset_id
    × IsU64 e.ruleset_version
    × IsU64 e.access_rights.bits
    × IsU32 e.device
    × IsU64 e.inode
    × CapturedBytes-IsValid e.pathname

abbrev pub AddRuleNetPort-IsValid : AddRuleNetPortEvent → Type 0
AddRuleNetPort-IsValid e =
    LandlockId-IsValid e.ruleset_id
    × IsU64 e.ruleset_version
    × IsU64 e.access_rights.bits
    × IsU64 e.port

abbrev pub CreateDomain-IsValid : CreateDomainEvent → Type 0
CreateDomain-IsValid e =
    LandlockId-IsValid e.ruleset_id
    × IsU64 e.ruleset_version
    × LandlockId-IsValid e.domain_id
    × OptionalDomain-IsValid e.parent_id
    × ProcessId-IsValid e.creator_tgid
    × CapturedBytes-IsValid e.creator_comm

abbrev pub DenyAccessFs-IsValid : DenyAccessFsEvent → Type 0
DenyAccessFs-IsValid e =
    Context-IsValid e.context
    × IsU32 e.blockers_type.raw
    × IsU64 e.blockers_access.bits
    × IsU32 e.device
    × IsU64 e.inode
    × CapturedBytes-IsValid e.pathname

abbrev pub DenyAccessNet-IsValid : DenyAccessNetEvent → Type 0
DenyAccessNet-IsValid e =
    Context-IsValid e.context
    × IsU32 e.blockers_type.raw
    × IsU64 e.blockers_access.bits
    × IsU64 e.source_port
    × IsU64 e.destination_port

abbrev pub DenyPtrace-IsValid : DenyPtraceEvent → Type 0
DenyPtrace-IsValid e =
    Context-IsValid e.context
    × Membership-IsValid e.tracee_domain
    × ProcessId-IsValid e.tracee_pid
    × CapturedBytes-IsValid e.tracee_comm

abbrev pub DenyScopeSignal-IsValid : DenyScopeSignalEvent → Type 0
DenyScopeSignal-IsValid e =
    Context-IsValid e.context
    × Membership-IsValid e.target_domain
    × ProcessId-IsValid e.target_pid
    × CapturedBytes-IsValid e.target_comm

abbrev pub DenyScopeAbstractUnixSocket-IsValid : DenyScopeAbstractUnixSocketEvent → Type 0
DenyScopeAbstractUnixSocket-IsValid e =
    Context-IsValid e.context
    × Membership-IsValid e.peer_domain
    × OptionalProcess-IsValid e.peer_pid
    × CapturedBytes-IsValid e.abstract_name

abbrev pub FreeDomain-IsValid : FreeDomainEvent → Type 0
FreeDomain-IsValid e = LandlockId-IsValid e.domain_id × IsU64 e.denial_count

abbrev pub FreeRuleset-IsValid : FreeRulesetEvent → Type 0
FreeRuleset-IsValid e = LandlockId-IsValid e.ruleset_id × IsU64 e.ruleset_version

abbrev pub EnforceDomain-IsValid : EnforceDomainEvent → Type 0
EnforceDomain-IsValid e = LandlockId-IsValid e.domain_id × ThreadId-IsValid e.enforcing_tid

abbrev pub Event-IsValid : Event → Type 0
Event-IsValid (create_ruleset e) = CreateRuleset-IsValid e
Event-IsValid (add_rule_path_beneath e) = AddRulePathBeneath-IsValid e
Event-IsValid (add_rule_net_port e) = AddRuleNetPort-IsValid e
Event-IsValid (create_domain e) = CreateDomain-IsValid e
Event-IsValid (deny_access_fs e) = DenyAccessFs-IsValid e
Event-IsValid (deny_access_net e) = DenyAccessNet-IsValid e
Event-IsValid (deny_ptrace e) = DenyPtrace-IsValid e
Event-IsValid (deny_scope_signal e) = DenyScopeSignal-IsValid e
Event-IsValid (deny_scope_abstract_unix_socket e) = DenyScopeAbstractUnixSocket-IsValid e
Event-IsValid (free_domain e) = FreeDomain-IsValid e
Event-IsValid (free_ruleset e) = FreeRuleset-IsValid e
Event-IsValid (enforce_domain e) = EnforceDomain-IsValid e
