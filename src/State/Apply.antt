-- ===== src/State/Apply.antt =====
-- `State` and `State::apply` (src/state.rs). An `entry(id).or_insert_with(new)` that is then
-- updated is `alter`, with the update on the new entry and on an old one.
use landlock_observability.Prelude.{ℕ, Option, none, some, List, [], ◌∷◌}
use landlock_observability.Map.{Map, get, alter, or_insert}
use landlock_observability.Event.Ids.{DomainId, RulesetId, LandlockId-discrete}
use landlock_observability.Event.Kinds.{
  DenialContext, DomainMembership, CreateDomainEvent, Event, create_ruleset, add_rule_path_beneath,
  add_rule_net_port, create_domain, deny_access_fs, deny_access_net, deny_ptrace, deny_scope_signal,
  deny_scope_abstract_unix_socket, free_domain, free_ruleset, enforce_domain,
}
use landlock_observability.State.Facts.{LifecycleState}
use landlock_observability.State.Rulesets.{
  RulesetState, ruleset_state_new, note_used, note_created, note_path_rule, note_port_rule,
  note_freed,
}
use landlock_observability.State.Domains.{
  DomainState, domain_state_new, note_domain_created, note_denial, note_domain_freed, note_enforced,
}

pub record State : Type 0 where
  pub rulesets : Map RulesetId RulesetState
  pub domains : Map DomainId DomainState

-- `State::new`
abbrev pub state_new : State
state_new = record { rulesets = []; domains = [] }

-- The entry of a ruleset, made by `RulesetState::new` if it is missing, and then updated.
unfoldable pub update_ruleset :
    RulesetId
    → LifecycleState
    → ℕ
    → (RulesetState → RulesetState)
    → Map RulesetId RulesetState
    → Map RulesetId RulesetState
update_ruleset id lifecycle version f =
    alter LandlockId-discrete id (f (ruleset_state_new id lifecycle version)) f

unfoldable pub update_domain :
    DomainId
    → LifecycleState
    → (DomainState → DomainState)
    → Map DomainId DomainState
    → Map DomainId DomainState
update_domain id lifecycle f = alter LandlockId-discrete id (f (domain_state_new id lifecycle)) f

-- `if let Some(id) = id { self.domains.entry(id).or_insert_with(..) }`
unfoldable pub with_placeholder :
    Option DomainId → Map DomainId DomainState → Map DomainId DomainState
with_placeholder none domains = domains
with_placeholder (some id) domains =
    or_insert LandlockId-discrete id (domain_state_new id LifecycleState.allocated) domains

-- `if let Some(DomainMembership::Sandboxed(other_id)) = domain_membership`
abbrev pub sandboxed_id : Option DomainMembership → Option DomainId
sandboxed_id none = none
sandboxed_id (some DomainMembership.unsandboxed) = none
sandboxed_id (some (DomainMembership.sandboxed id)) = some id

-- `State::apply_denial`
unfoldable pub apply_denial : DenialContext → Option DomainMembership → State → State
unfolding update_domain with_placeholder
apply_denial c membership s =
    let updated =
      update_domain c.hierarchy.domain_id LifecycleState.allocated (note_denial c) s.domains in
    let with_parent = with_placeholder c.hierarchy.parent_id updated in
    record s { domains = with_placeholder (sandboxed_id membership) with_parent }

-- The arm `Event::CreateDomain`.
unfoldable pub apply_create_domain : CreateDomainEvent → State → State
unfolding update_ruleset update_domain with_placeholder
apply_create_domain e s = record {
  rulesets =
      update_ruleset e.ruleset_id LifecycleState.allocated e.ruleset_version
        (note_used e.ruleset_version) s.rulesets;
  domains =
      update_domain e.domain_id LifecycleState.allocated (note_domain_created e)
        (with_placeholder e.parent_id s.domains);
}

-- `State::apply`
unfoldable pub apply : State → Event → State
unfolding update_ruleset update_domain apply_denial apply_create_domain
apply s (create_ruleset e) = record s {
  rulesets =
      update_ruleset e.ruleset_id LifecycleState.allocated e.ruleset_version (note_created e)
        s.rulesets;
}
apply s (add_rule_path_beneath e) = record s {
  rulesets =
      update_ruleset e.ruleset_id LifecycleState.allocated e.ruleset_version (note_path_rule e)
        s.rulesets;
}
apply s (add_rule_net_port e) = record s {
  rulesets =
      update_ruleset e.ruleset_id LifecycleState.allocated e.ruleset_version (note_port_rule e)
        s.rulesets;
}
apply s (create_domain e) = apply_create_domain e s
apply s (deny_access_fs e) = apply_denial e.context none s
apply s (deny_access_net e) = apply_denial e.context none s
apply s (deny_ptrace e) = apply_denial e.context (some e.tracee_domain) s
apply s (deny_scope_signal e) = apply_denial e.context (some e.target_domain) s
apply s (deny_scope_abstract_unix_socket e) = apply_denial e.context (some e.peer_domain) s
apply s (free_domain e) = record s {
  domains = update_domain e.domain_id LifecycleState.deallocated (note_domain_freed e) s.domains;
}
apply s (free_ruleset e) = record s {
  rulesets =
      update_ruleset e.ruleset_id LifecycleState.deallocated e.ruleset_version (note_freed e)
        s.rulesets;
}
apply s (enforce_domain e) = record s {
  domains = update_domain e.domain_id LifecycleState.allocated (note_enforced e) s.domains;
}

-- The events of a stream, applied in order.
unfoldable pub apply_all : State → List Event → State
apply_all s [] = s
apply_all s (e ∷ events) = apply_all (apply s e) events

-- `State::ruleset` and `State::domain`.
abbrev pub find_ruleset : RulesetId → State → Option RulesetState
find_ruleset id s = get LandlockId-discrete id s.rulesets

abbrev pub find_domain : DomainId → State → Option DomainState
find_domain id s = get LandlockId-discrete id s.domains
