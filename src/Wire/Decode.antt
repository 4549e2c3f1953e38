-- ===== src/Wire/Decode.antt =====
-- `decode` (src/wire.rs): the length of the record, its kind and its timestamp, and the match on the
-- kind.
use landlock_observability.Prelude.{
  ℕ, not, Option, none, some, List, [], ◌∷◌, err, map_ok, ◌>>=◌, ◌==◌, if◌then◌else◌, length,
}
use landlock_observability.Event.Ids.{KernelTimestamp}
use landlock_observability.Event.Kinds.{
  Event, create_ruleset, add_rule_path_beneath, add_rule_net_port, create_domain, deny_access_fs,
  deny_access_net, deny_ptrace, deny_scope_signal, deny_scope_abstract_unix_socket, free_domain,
  free_ruleset, enforce_domain,
}
use landlock_observability.Wire.Reader.{
  record_size, wrong_length, event_kind, Decoded, ByteOrder, u64_at, byte_at,
}
use landlock_observability.Wire.Arms.{
  read_create_ruleset, read_add_rule_path_beneath, read_add_rule_net_port, read_create_domain,
  read_deny_access_fs, read_deny_access_net, read_deny_ptrace, read_deny_scope_signal,
  read_deny_scope_abstract_unix_socket, read_free_domain, read_free_ruleset, read_enforce_domain,
}

-- The numbers of the kinds, `CREATE_RULESET` to `ENFORCE_DOMAIN`.
pub data EventKind : Type 0 where
  create_ruleset_kind add_rule_path_beneath_kind add_rule_net_port_kind create_domain_kind
        deny_access_fs_kind deny_access_net_kind deny_ptrace_kind deny_scope_signal_kind
        deny_scope_abstract_unix_socket_kind free_domain_kind free_ruleset_kind
        enforce_domain_kind :
      EventKind

abbrev pub numbered_kinds : List (ℕ × EventKind)
numbered_kinds =
    (1, EventKind.create_ruleset_kind)
    ∷ (2, EventKind.add_rule_path_beneath_kind)
    ∷ (3, EventKind.add_rule_net_port_kind)
    ∷ (4, EventKind.create_domain_kind)
    ∷ (5, EventKind.deny_access_fs_kind)
    ∷ (6, EventKind.deny_access_net_kind)
    ∷ (7, EventKind.deny_ptrace_kind)
    ∷ (8, EventKind.deny_scope_signal_kind)
    ∷ (9, EventKind.deny_scope_abstract_unix_socket_kind)
    ∷ (10, EventKind.free_domain_kind)
    ∷ (11, EventKind.free_ruleset_kind)
    ∷ (12, EventKind.enforce_domain_kind)
    ∷ []

-- The arms of the match, tried in order.
unfoldable pub kind_in : ℕ → List (ℕ × EventKind) → Option EventKind
kind_in event_type [] = none
kind_in event_type ((number, kind) ∷ kinds) =
    if event_type == number then some kind else kind_in event_type kinds

module _ (order : ByteOrder) where
  unfoldable pub decode_kind : EventKind → KernelTimestamp → List ℕ → Decoded Event
  decode_kind EventKind.create_ruleset_kind t sample =
      map_ok create_ruleset (read_create_ruleset order t sample)
  decode_kind EventKind.add_rule_path_beneath_kind t sample =
      map_ok add_rule_path_beneath (read_add_rule_path_beneath order t sample)
  decode_kind EventKind.add_rule_net_port_kind t sample =
      map_ok add_rule_net_port (read_add_rule_net_port order t sample)
  decode_kind EventKind.create_domain_kind t sample =
      map_ok create_domain (read_create_domain order t sample)
  decode_kind EventKind.deny_access_fs_kind t sample =
      map_ok deny_access_fs (read_deny_access_fs order t sample)
  decode_kind EventKind.deny_access_net_kind t sample =
      map_ok deny_access_net (read_deny_access_net order t sample)
  decode_kind EventKind.deny_ptrace_kind t sample =
      map_ok deny_ptrace (read_deny_ptrace order t sample)
  decode_kind EventKind.deny_scope_signal_kind t sample =
      map_ok deny_scope_signal (read_deny_scope_signal order t sample)
  decode_kind EventKind.deny_scope_abstract_unix_socket_kind t sample =
      map_ok deny_scope_abstract_unix_socket (read_deny_scope_abstract_unix_socket order t sample)
  decode_kind EventKind.free_domain_kind t sample =
      map_ok free_domain (read_free_domain order t sample)
  decode_kind EventKind.free_ruleset_kind t sample =
      map_ok free_ruleset (read_free_ruleset order t sample)
  decode_kind EventKind.enforce_domain_kind t sample =
      map_ok enforce_domain (read_enforce_domain order t sample)

  -- The match on the event type.
  unfoldable pub decode_as : ℕ → Option EventKind → KernelTimestamp → List ℕ → Decoded Event
  unfolding decode_kind
  decode_as event_type none timestamp sample = err (event_kind event_type)
  decode_as event_type (some kind) timestamp sample = decode_kind kind timestamp sample

  -- What follows the test of the length.
  unfoldable pub decode_sized : List ℕ → Decoded Event
  unfolding kind_in decode_as
  decode_sized sample = do
    event_type ← byte_at sample 8 "event_type"
    timestamp ← u64_at order sample 0 "timestamp"
    decode_as event_type (kind_in event_type numbered_kinds) timestamp sample

  unfoldable pub decode : List ℕ → Decoded Event
  unfolding decode_sized
  decode sample =
      if not (length sample == record_size)
      then err (wrong_length record_size (length sample))
      else decode_sized sample
