-- ===== src/Wire/Arms.antt =====
-- The readers of the twelve records (src/wire.rs): the builder calls in the arms of `decode`, and
-- `denial_context`. Each reads its fields in the order of the calls, so that the first malformed
-- field gives the error.
use landlock_observability.Prelude.{ℕ, List, ok, ◌>>=◌}
use landlock_observability.Event.Ids.{LandlockIdKind, KernelTimestamp}
use landlock_observability.Event.Access.{from_bits}
use landlock_observability.Event.Captured.{Origin}
use landlock_observability.Event.Kinds.{
  HierarchySnapshot, DenialContext, CreateRulesetEvent, AddRulePathBeneathEvent,
  AddRuleNetPortEvent, CreateDomainEvent, DenyAccessFsEvent, DenyAccessNetEvent, DenyPtraceEvent,
  DenyScopeSignalEvent, DenyScopeAbstractUnixSocketEvent, FreeDomainEvent, FreeRulesetEvent,
  EnforceDomainEvent,
}
use landlock_observability.Wire.Reader.{
  path_size, Decoded, ByteOrder, u32_at, u64_at, captured_at, abstract_unix_socket_name_at,
  command_at, boolean_at, id_of, process_id, thread_id, optional_process_id, parent,
  domain_membership,
}

module _ (order : ByteOrder) where
  unfoldable pub hierarchy_at : List ℕ → Decoded HierarchySnapshot
  hierarchy_at sample = do
    domain_id ← id_of LandlockIdKind.domain_kind (← u64_at order sample 16 "domain_id") "domain_id"
    parent_id ← parent (← u64_at order sample 24 "parent_id") "parent_id"
    creator_tgid ← process_id (← u32_at order sample 32 "creator_tgid") "creator_tgid"
    creator_comm ← command_at sample 36 "creator_comm"
    ok (record {
      domain_id = domain_id;
      parent_id = parent_id;
      creator_tgid = creator_tgid;
      creator_comm = creator_comm;
    })

  unfoldable pub denial_context : List ℕ → Decoded DenialContext
  denial_context sample = do
    hierarchy ← hierarchy_at sample
    count ← u64_at order sample 56 "cumulative_denial_count"
    same_exec ← boolean_at sample 72 "same_exec"
    logged ← boolean_at sample 73 "logged"
    ok (record {
      hierarchy = hierarchy;
      cumulative_denial_count = count;
      same_exec = same_exec;
      logged = logged;
    })

  unfoldable pub read_create_ruleset : KernelTimestamp → List ℕ → Decoded CreateRulesetEvent
  read_create_ruleset timestamp sample = do
    ruleset_id ←
        id_of LandlockIdKind.ruleset_kind (← u64_at order sample 16 "ruleset_id") "ruleset_id"
    ruleset_version ← u64_at order sample 24 "ruleset_version"
    handled_fs ← u64_at order sample 32 "handled_fs"
    handled_net ← u64_at order sample 40 "handled_net"
    scoped ← u64_at order sample 48 "scoped"
    ok (record {
      timestamp = timestamp;
      ruleset_id = ruleset_id;
      ruleset_version = ruleset_version;
      handled_fs = from_bits handled_fs;
      handled_net = from_bits handled_net;
      scoped = from_bits scoped;
    })

  unfoldable pub read_add_rule_path_beneath :
      KernelTimestamp → List ℕ → Decoded AddRulePathBeneathEvent
  read_add_rule_path_beneath timestamp sample = do
    ruleset_id ←
        id_of LandlockIdKind.ruleset_kind (← u64_at order sample 16 "ruleset_id") "ruleset_id"
    ruleset_version ← u64_at order sample 24 "ruleset_version"
    access_rights ← u64_at order sample 32 "access_rights"
    device ← u32_at order sample 40 "device"
    inode ← u64_at order sample 48 "inode"
    pathname ←
        captured_at Origin.pathname sample 56 path_size 44 "pathname" "pathname_bytes_omitted"
    ok (record {
      timestamp = timestamp;
      ruleset_id = ruleset_id;
      ruleset_version = ruleset_version;
      access_rights = from_bits access_rights;
      device = device;
      inode = inode;
      pathname = pathname;
    })

  unfoldable pub read_add_rule_net_port : KernelTimestamp → List ℕ → Decoded AddRuleNetPortEvent
  read_add_rule_net_port timestamp sample = do
    ruleset_id ←
        id_of LandlockIdKind.ruleset_kind (← u64_at order sample 16 "ruleset_id") "ruleset_id"
    ruleset_version ← u64_at order sample 24 "ruleset_version"
    access_rights ← u64_at order sample 32 "access_rights"
    port ← u64_at order sample 40 "port"
    ok (record {
      timestamp = timestamp;
      ruleset_id = ruleset_id;
      ruleset_version = ruleset_version;
      access_rights = from_bits access_rights;
      port = port;
    })

  unfoldable pub read_create_domain : KernelTimestamp → List ℕ → Decoded CreateDomainEvent
  read_create_domain timestamp sample = do
    ruleset_id ←
        id_of LandlockIdKind.ruleset_kind (← u64_at order sample 16 "ruleset_id") "ruleset_id"
    ruleset_version ← u64_at order sample 24 "ruleset_version"
    domain_id ← id_of LandlockIdKind.domain_kind (← u64_at order sample 32 "domain_id") "domain_id"
    parent_id ← parent (← u64_at order sample 40 "parent_id") "parent_id"
    creator_tgid ← process_id (← u32_at order sample 48 "creator_tgid") "creator_tgid"
    creator_comm ← command_at sample 52 "creator_comm"
    ok (record {
      timestamp = timestamp;
      ruleset_id = ruleset_id;
      ruleset_version = ruleset_version;
      domain_id = domain_id;
      parent_id = parent_id;
      creator_tgid = creator_tgid;
      creator_comm = creator_comm;
    })

  unfoldable pub read_deny_access_fs : KernelTimestamp → List ℕ → Decoded DenyAccessFsEvent
  read_deny_access_fs timestamp sample = do
    context ← denial_context sample
    blockers_type ← u32_at order sample 52 "blockers_type"
    blockers_access ← u64_at order sample 64 "blockers_access"
    device ← u32_at order sample 80 "device"
    inode ← u64_at order sample 88 "inode"
    pathname ←
        captured_at Origin.pathname sample 96 path_size 84 "pathname" "pathname_bytes_omitted"
    ok (record {
      timestamp = timestamp;
      context = context;
      blockers_type = record { raw = blockers_type };
      blockers_access = from_bits blockers_access;
      device = device;
      inode = inode;
      pathname = pathname;
    })

  unfoldable pub read_deny_access_net : KernelTimestamp → List ℕ → Decoded DenyAccessNetEvent
  read_deny_access_net timestamp sample = do
    context ← denial_context sample
    blockers_type ← u32_at order sample 52 "blockers_type"
    blockers_access ← u64_at order sample 64 "blockers_access"
    source_port ← u64_at order sample 80 "source_port"
    destination_port ← u64_at order sample 88 "destination_port"
    ok (record {
      timestamp = timestamp;
      context = context;
      blockers_type = record { raw = blockers_type };
      blockers_access = from_bits blockers_access;
      source_port = source_port;
      destination_port = destination_port;
    })

  unfoldable pub read_deny_ptrace : KernelTimestamp → List ℕ → Decoded DenyPtraceEvent
  read_deny_ptrace timestamp sample = do
    context ← denial_context sample
    tracee_domain ← domain_membership (← u64_at order sample 80 "tracee_domain") "tracee_domain"
    tracee_pid ← process_id (← u32_at order sample 88 "tracee_pid") "tracee_pid"
    tracee_comm ← command_at sample 92 "tracee_comm"
    ok (record {
      timestamp = timestamp;
      context = context;
      tracee_domain = tracee_domain;
      tracee_pid = tracee_pid;
      tracee_comm = tracee_comm;
    })

  unfoldable pub read_deny_scope_signal : KernelTimestamp → List ℕ → Decoded DenyScopeSignalEvent
  read_deny_scope_signal timestamp sample = do
    context ← denial_context sample
    target_domain ← domain_membership (← u64_at order sample 80 "target_domain") "target_domain"
    target_pid ← process_id (← u32_at order sample 88 "target_pid") "target_pid"
    target_comm ← command_at sample 92 "target_comm"
    ok (record {
      timestamp = timestamp;
      context = context;
      target_domain = target_domain;
      target_pid = target_pid;
      target_comm = target_comm;
    })

  unfoldable pub read_deny_scope_abstract_unix_socket :
      KernelTimestamp → List ℕ → Decoded DenyScopeAbstractUnixSocketEvent
  read_deny_scope_abstract_unix_socket timestamp sample = do
    context ← denial_context sample
    peer_domain ← domain_membership (← u64_at order sample 80 "peer_domain") "peer_domain"
    peer_pid ← u32_at order sample 88 "peer_pid"
    abstract_name ← abstract_unix_socket_name_at order sample 92 96
    ok (record {
      timestamp = timestamp;
      context = context;
      peer_domain = peer_domain;
      peer_pid = optional_process_id peer_pid;
      abstract_name = abstract_name;
    })

  unfoldable pub read_free_domain : KernelTimestamp → List ℕ → Decoded FreeDomainEvent
  read_free_domain timestamp sample = do
    domain_id ← id_of LandlockIdKind.domain_kind (← u64_at order sample 16 "domain_id") "domain_id"
    denial_count ← u64_at order sample 24 "denial_count"
    ok (record { timestamp = timestamp; domain_id = domain_id; denial_count = denial_count })

  unfoldable pub read_free_ruleset : KernelTimestamp → List ℕ → Decoded FreeRulesetEvent
  read_free_ruleset timestamp sample = do
    ruleset_id ←
        id_of LandlockIdKind.ruleset_kind (← u64_at order sample 16 "ruleset_id") "ruleset_id"
    ruleset_version ← u64_at order sample 24 "ruleset_version"
    ok (record {
      timestamp = timestamp;
      ruleset_id = ruleset_id;
      ruleset_version = ruleset_version;
    })

  unfoldable pub read_enforce_domain : KernelTimestamp → List ℕ → Decoded EnforceDomainEvent
  read_enforce_domain timestamp sample = do
    domain_id ← id_of LandlockIdKind.domain_kind (← u64_at order sample 16 "domain_id") "domain_id"
    enforcing_tid ← thread_id (← u32_at order sample 24 "enforcing_tid") "enforcing_tid"
    complete ← boolean_at sample 28 "complete"
    process_wide ← boolean_at sample 29 "process_wide"
    no_new_privs ← boolean_at sample 30 "no_new_privs"
    ok (record {
      timestamp = timestamp;
      domain_id = domain_id;
      enforcing_tid = enforcing_tid;
      complete = complete;
      process_wide = process_wide;
      no_new_privs = no_new_privs;
    })
