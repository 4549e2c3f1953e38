-- ===== src/Aggregate/Keys.antt =====
-- The aggregation keys and `denial_facts` (src/aggregate.rs).
use landlock_observability.Prelude.{ℕ, Bool, Option, none, some, ℕ_discrete}
use landlock_observability.Event.Ids.{DomainId, ProcessId}
use landlock_observability.Event.Access.{FilesystemAccess, NetworkAccess}
use landlock_observability.Event.Captured.{CapturedCommand, CapturedAbstractUnixSocketName}
use landlock_observability.Event.Kinds.{
  BlockerType, DomainMembership, DenialContext, Event, deny_access_fs, deny_access_net, deny_ptrace,
  deny_scope_signal, deny_scope_abstract_unix_socket,
}

pub record FilesystemDenialKey : Type 0 where
  pub domain_id : DomainId
  pub blockers_type : BlockerType
  pub blockers_access : FilesystemAccess
  pub device : ℕ
  pub inode : ℕ

pub record NetworkDenialKey : Type 0 where
  pub domain_id : DomainId
  pub blockers_type : BlockerType
  pub blockers_access : NetworkAccess
  pub source_port : ℕ
  pub destination_port : ℕ

pub record PtraceDenialKey : Type 0 where
  pub domain_id : DomainId
  pub tracee_domain : DomainMembership
  pub tracee_pid : ProcessId
  pub tracee_comm : CapturedCommand

pub record SignalDenialKey : Type 0 where
  pub domain_id : DomainId
  pub target_domain : DomainMembership
  pub target_pid : ProcessId
  pub target_comm : CapturedCommand

pub record AbstractUnixSocketDenialKey : Type 0 where
  pub domain_id : DomainId
  pub peer_domain : DomainMembership
  pub abstract_name : CapturedAbstractUnixSocketName

pub data DenialKey : Type 0 where
  filesystem : FilesystemDenialKey → DenialKey
  network : NetworkDenialKey → DenialKey
  ptrace : PtraceDenialKey → DenialKey
  signal : SignalDenialKey → DenialKey
  abstract_unix_socket : AbstractUnixSocketDenialKey → DenialKey

-- The derived `Eq`.
unfoldable pub DenialKey-discrete : Discrete DenialKey
unfolding ℕ_discrete
DenialKey-discrete = hlevel ℕ_discrete

-- `DenialKey::domain_id`
unfoldable pub key_domain_id : DenialKey → DomainId
key_domain_id (filesystem key) = key.domain_id
key_domain_id (network key) = key.domain_id
key_domain_id (ptrace key) = key.domain_id
key_domain_id (signal key) = key.domain_id
key_domain_id (abstract_unix_socket key) = key.domain_id

-- What `denial_facts` returns: the key, `same_exec` and `logged`.
pub record DenialFacts : Type 0 where
  pub key : DenialKey
  pub same_exec : Bool
  pub logged : Bool

abbrev pub facts_of : DenialKey → DenialContext → Option DenialFacts
facts_of key c = some (record { key = key; same_exec = c.same_exec; logged = c.logged })

unfoldable pub denial_facts : Event → Option DenialFacts
denial_facts (deny_access_fs e) =
    facts_of
      (filesystem (record {
        domain_id = e.context.hierarchy.domain_id;
        blockers_type = e.blockers_type;
        blockers_access = e.blockers_access;
        device = e.device;
        inode = e.inode;
      }))
      e.context
denial_facts (deny_access_net e) =
    facts_of
      (network (record {
        domain_id = e.context.hierarchy.domain_id;
        blockers_type = e.blockers_type;
        blockers_access = e.blockers_access;
        source_port = e.source_port;
        destination_port = e.destination_port;
      }))
      e.context
denial_facts (deny_ptrace e) =
    facts_of
      (ptrace (record {
        domain_id = e.context.hierarchy.domain_id;
        tracee_domain = e.tracee_domain;
        tracee_pid = e.tracee_pid;
        tracee_comm = e.tracee_comm;
      }))
      e.context
denial_facts (deny_scope_signal e) =
    facts_of
      (signal (record {
        domain_id = e.context.hierarchy.domain_id;
        target_domain = e.target_domain;
        target_pid = e.target_pid;
        target_comm = e.target_comm;
      }))
      e.context
denial_facts (deny_scope_abstract_unix_socket e) =
    facts_of
      (abstract_unix_socket (record {
        domain_id = e.context.hierarchy.domain_id;
        peer_domain = e.peer_domain;
        abstract_name = e.abstract_name;
      }))
      e.context
denial_facts _ = none
