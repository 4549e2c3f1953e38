-- ===== src/State/DomainFacts.antt =====
-- What each event says of a domain, read off the event alone (src/state.rs).
use landlock_observability.Prelude.{ℕ, ◌≡◌, Bool, false, ◌||◌, Option, none, some}
use landlock_observability.Event.Ids.{DomainId, LandlockId-discrete}
use landlock_observability.Event.Kinds.{
  DenialContext, DomainMembership, Event, create_domain, deny_access_fs, deny_access_net,
  deny_ptrace, deny_scope_signal, deny_scope_abstract_unix_socket, free_domain, enforce_domain,
}
use landlock_observability.State.Facts.{LifecycleState}
use landlock_observability.State.Domains.{DomainState}
use landlock_observability.State.Apply.{State, find_domain, sandboxed_id}
use landlock_observability.State.Tally.{
  Join, max_option, max_option_comm, max_option_assoc, max_option-none, stronger, stronger_comm,
  stronger_assoc, stronger-none, or_comm, or_assoc, or_false, about,
}

-- The facts of a domain that only grow.
pub record DomainSummary : Type 0 where
  pub lifecycle : Option LifecycleState
  pub cumulative_denial_count : Option ℕ
  pub final_denial_count : Option ℕ
  pub free_timestamp : Option ℕ
  pub any_process_wide_enforcement : Bool

abbrev pub nothing : DomainSummary
nothing = record {
  lifecycle = none;
  cumulative_denial_count = none;
  final_denial_count = none;
  free_timestamp = none;
  any_process_wide_enforcement = false;
}

abbrev pub both : DomainSummary → DomainSummary → DomainSummary
both a b = record {
  lifecycle = stronger a.lifecycle b.lifecycle;
  cumulative_denial_count = max_option a.cumulative_denial_count b.cumulative_denial_count;
  final_denial_count = max_option a.final_denial_count b.final_denial_count;
  free_timestamp = max_option a.free_timestamp b.free_timestamp;
  any_process_wide_enforcement = a.any_process_wide_enforcement || b.any_process_wide_enforcement;
}

pub both_comm : (a b : DomainSummary) → both a b ≡ both b a
both_comm a b = λ i. record {
  lifecycle = stronger_comm a.lifecycle b.lifecycle i;
  cumulative_denial_count = max_option_comm a.cumulative_denial_count b.cumulative_denial_count i;
  final_denial_count = max_option_comm a.final_denial_count b.final_denial_count i;
  free_timestamp = max_option_comm a.free_timestamp b.free_timestamp i;
  any_process_wide_enforcement =
      or_comm a.any_process_wide_enforcement b.any_process_wide_enforcement i;
}

pub both_assoc : (a b c : DomainSummary) → both (both a b) c ≡ both a (both b c)
both_assoc a b c = λ i. record {
  lifecycle = stronger_assoc a.lifecycle b.lifecycle c.lifecycle i;
  cumulative_denial_count =
      max_option_assoc a.cumulative_denial_count b.cumulative_denial_count c.cumulative_denial_count
        i;
  final_denial_count =
      max_option_assoc a.final_denial_count b.final_denial_count c.final_denial_count i;
  free_timestamp = max_option_assoc a.free_timestamp b.free_timestamp c.free_timestamp i;
  any_process_wide_enforcement =
      or_assoc a.any_process_wide_enforcement b.any_process_wide_enforcement
        c.any_process_wide_enforcement i;
}

pub both-nothing : (a : DomainSummary) → both a nothing ≡ a
both-nothing a = λ i. record {
  lifecycle = stronger-none a.lifecycle i;
  cumulative_denial_count = max_option-none a.cumulative_denial_count i;
  final_denial_count = max_option-none a.final_denial_count i;
  free_timestamp = max_option-none a.free_timestamp i;
  any_process_wide_enforcement = or_false a.any_process_wide_enforcement i;
}

abbrev pub summary_join : Join DomainSummary
summary_join = record {
  unit = nothing;
  join = both;
  join_comm = both_comm;
  join_assoc = both_assoc;
  join_unit = both-nothing;
  is_set = hlevel;
}

-- A domain that is only named, one that has counted `n` denials, one freed after `n` of them, and
-- one enforced on a thread.
abbrev pub named : DomainSummary
named = record nothing { lifecycle = some LifecycleState.allocated }

abbrev pub counted : ℕ → DomainSummary
counted n = record named { cumulative_denial_count = some n }

abbrev pub freed_after : ℕ → ℕ → DomainSummary
freed_after n timestamp = record {
  lifecycle = some LifecycleState.deallocated;
  cumulative_denial_count = some n;
  final_denial_count = some n;
  free_timestamp = some timestamp;
  any_process_wide_enforcement = false;
}

abbrev pub enforced : Bool → DomainSummary
enforced process_wide = record named { any_process_wide_enforcement = process_wide }

-- What is said of the domain `id` by something about `other`.
abbrev pub of_domain : DomainId → DomainId → DomainSummary → DomainSummary
of_domain id other m = about summary_join LandlockId-discrete id other m

abbrev pub named_if : DomainId → Option DomainId → DomainSummary
named_if id none = nothing
named_if id (some other) = of_domain id other named

-- A denial counts for its domain, and names the parent and the other party.
abbrev pub denial_said : DomainId → DenialContext → Option DomainMembership → DomainSummary
denial_said id c membership =
    both
      (both (of_domain id c.hierarchy.domain_id (counted c.cumulative_denial_count))
        (named_if id c.hierarchy.parent_id))
      (named_if id (sandboxed_id membership))

-- What an event says of the domain `id`.
abbrev pub domain_said : DomainId → Event → DomainSummary
domain_said id (create_domain e) =
    both (named_if id e.parent_id) (of_domain id e.domain_id (counted 0))
domain_said id (deny_access_fs e) = denial_said id e.context none
domain_said id (deny_access_net e) = denial_said id e.context none
domain_said id (deny_ptrace e) = denial_said id e.context (some e.tracee_domain)
domain_said id (deny_scope_signal e) = denial_said id e.context (some e.target_domain)
domain_said id (deny_scope_abstract_unix_socket e) = denial_said id e.context (some e.peer_domain)
domain_said id (free_domain e) = of_domain id e.domain_id (freed_after e.denial_count e.timestamp)
domain_said id (enforce_domain e) = of_domain id e.domain_id (enforced e.process_wide)
domain_said id _ = nothing

-- The same facts, as the state holds them.
abbrev pub summary : Option DomainState → DomainSummary
summary none = nothing
summary (some d) = record {
  lifecycle = some d.lifecycle;
  cumulative_denial_count = d.cumulative_denial_count;
  final_denial_count = d.final_denial_count;
  free_timestamp = d.free_timestamp;
  any_process_wide_enforcement = d.any_process_wide_enforcement;
}

abbrev pub domain_summary : DomainId → State → DomainSummary
domain_summary id s = summary (find_domain id s)
