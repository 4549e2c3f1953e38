-- ===== src/State/Preserves.antt =====
-- The invariant of the state across `State::apply` (src/state.rs), event by event.
use landlock_observability.Prelude.{◌≤◌, refl, Option, none, some, List, [], ◌∷◌, arith}
use landlock_observability.Map.{Entries-alter, IsSome-alter}
use landlock_observability.Event.Ids.{LandlockId-discrete}
use landlock_observability.Event.Kinds.{
  DenialContext, DomainMembership, CreateRulesetEvent, CreateDomainEvent, Event, create_ruleset,
  add_rule_path_beneath, add_rule_net_port, create_domain, deny_access_fs, deny_access_net,
  deny_ptrace, deny_scope_signal, deny_scope_abstract_unix_socket, free_domain, free_ruleset,
  enforce_domain,
}
use landlock_observability.State.Facts.{LifecycleState}
use landlock_observability.State.Rulesets.{
  RulesetState, note_used, note_created, note_path_rule, note_port_rule, note_freed,
}
use landlock_observability.State.Domains.{
  parent_of, DomainState, note_domain_created, note_denial, note_domain_freed, note_enforced,
}
use landlock_observability.State.Apply.{
  State, state_new, apply, apply_all, update_ruleset, update_domain, with_placeholder, sandboxed_id,
  apply_denial, apply_create_domain,
}
use landlock_observability.State.RulesetInvariant
use landlock_observability.State.RulesetInvariant.{RulesetFits}
use landlock_observability.State.DomainInvariant
use landlock_observability.State.DomainInvariant.{DomainFits}
use landlock_observability.State.Validity.{
  on_ruleset, on_domain, created_parent, created_frozen, created_observed, used_grows,
  denied_parent, note_denial_frozen,
}
use landlock_observability.State.Invariant.{
  Domains, Rulesets, Within, IsValid, DomainFitsIn, Grows-alter, Within-placeholder,
  ParentIn-Within, still_fit, placeholder-Fits, placeholder-ParentIn, state_new-IsValid,
}

module _ (s : State) (valid : IsValid s) where
  create_domain-IsValid : (e : CreateDomainEvent) → IsValid (apply_create_domain e s)
  unfolding apply_create_domain
  create_domain-IsValid e = record {
    ruleset_entries =
        (on_ruleset s valid e.ruleset_id LifecycleState.allocated e.ruleset_version
          (note_used e.ruleset_version)
          (RulesetInvariant.used-Fits _ _ _ (RulesetInvariant.new-Fits _ _))
          (RulesetInvariant.used-Fits _ _) (used_grows e.ruleset_version)).ruleset_entries;
    domain_entries =
        unfold update_domain in
        Entries-alter LandlockId-discrete (DomainFitsIn rulesets _) e.domain_id _
          (note_domain_created e) placed
          (fits_created _
            (record { fits = DomainInvariant.new-Fits _; parent_in = tt; frozen_in = tt }))
          fits_created
          (still_fit s.rulesets rulesets s.domains _ placed
            (Grows-alter e.ruleset_id _ _ s.rulesets (used_grows e.ruleset_version)) within
            (placeholder-Fits s.rulesets s.domains e.parent_id s.domains valid.domain_entries));
  }
    where
      rulesets : Rulesets
      rulesets =
          update_ruleset e.ruleset_id LifecycleState.allocated e.ruleset_version
            (note_used e.ruleset_version) s.rulesets

      placed : Domains
      placed = with_placeholder e.parent_id s.domains

      domains : Domains
      domains = update_domain e.domain_id LifecycleState.allocated (note_domain_created e) placed

      placed_within : Within placed domains
      placed_within id h = IsSome-alter LandlockId-discrete id e.domain_id _ _ placed h

      within : Within s.domains domains
      within id h = placed_within id (Within-placeholder e.parent_id s.domains id h)

      fits_created :
          (d : DomainState)
          → DomainFitsIn rulesets domains e.domain_id d
          → DomainFitsIn rulesets domains e.domain_id (note_domain_created e d)
      fits_created d h = record {
        fits = DomainInvariant.created-Fits e.domain_id e d h.fits;
        parent_in =
            created_parent domains e d
              (ParentIn-Within placed domains (some (parent_of e.parent_id)) placed_within
                (placeholder-ParentIn e.parent_id s.domains))
              h.parent_in;
        frozen_in = created_frozen rulesets e d (created_observed e s.rulesets) h.frozen_in;
      }

  denial-IsValid :
      (c : DenialContext) (membership : Option DomainMembership)
      → IsValid (apply_denial c membership s)
  unfolding apply_denial
  denial-IsValid c membership = record {
    ruleset_entries = valid.ruleset_entries;
    domain_entries = placeholder-Fits s.rulesets last (sandboxed_id membership) with_parent (
        placeholder-Fits s.rulesets last c.hierarchy.parent_id updated (
          Entries-alter LandlockId-discrete (DomainFitsIn s.rulesets last) c.hierarchy.domain_id _
            (note_denial c) s.domains
            (fits_denied _
              (record { fits = DomainInvariant.new-Fits _; parent_in = tt; frozen_in = tt }))
            fits_denied
            (still_fit s.rulesets s.rulesets s.domains last s.domains (λ _ _ h. h) within
              valid.domain_entries)));
  }
    where
      updated : Domains
      updated =
          update_domain c.hierarchy.domain_id LifecycleState.allocated (note_denial c) s.domains

      with_parent : Domains
      with_parent = with_placeholder c.hierarchy.parent_id updated

      last : Domains
      last = with_placeholder (sandboxed_id membership) with_parent

      within : Within s.domains last
      within id h = Within-placeholder (sandboxed_id membership) with_parent id (
          Within-placeholder c.hierarchy.parent_id updated id
            (IsSome-alter LandlockId-discrete id c.hierarchy.domain_id _ _ s.domains h))

      fits_denied :
          (d : DomainState)
          → DomainFitsIn s.rulesets last c.hierarchy.domain_id d
          → DomainFitsIn s.rulesets last c.hierarchy.domain_id (note_denial c d)
      fits_denied d h = record {
        fits = DomainInvariant.denial-Fits c.hierarchy.domain_id c d h.fits;
        parent_in =
            denied_parent last c d
              (ParentIn-Within with_parent last (some (parent_of c.hierarchy.parent_id))
                (Within-placeholder (sandboxed_id membership) with_parent)
                (placeholder-ParentIn c.hierarchy.parent_id updated))
              h.parent_in;
        frozen_in = rw (note_denial_frozen c d) h.frozen_in;
      }

module _ (s : State) (valid : IsValid s) where
  created_grows :
      (e : CreateRulesetEvent) (r : RulesetState)
      → r.max_observed_version ≤ (note_created e r).max_observed_version
  unfolding note_created
  created_grows e r = ground arith

  -- Every event keeps the invariant.
  apply-IsValid : (e : Event) → IsValid (apply s e)
  unfolding apply
  apply-IsValid (create_ruleset e) =
      on_ruleset s valid e.ruleset_id LifecycleState.allocated e.ruleset_version (note_created e)
        (RulesetInvariant.created-Fits _ e _ (RulesetInvariant.new-Fits _ _))
        (RulesetInvariant.created-Fits _ e) (created_grows e)
  apply-IsValid (add_rule_path_beneath e) =
      on_ruleset s valid e.ruleset_id LifecycleState.allocated e.ruleset_version (note_path_rule e)
        (RulesetInvariant.path_rule-Fits _ e _ (RulesetInvariant.new-Fits _ _))
        (RulesetInvariant.path_rule-Fits _ e)
        (λ r. unfold note_path_rule in used_grows e.ruleset_version r)
  apply-IsValid (add_rule_net_port e) =
      on_ruleset s valid e.ruleset_id LifecycleState.allocated e.ruleset_version (note_port_rule e)
        (RulesetInvariant.port_rule-Fits _ e _ (RulesetInvariant.new-Fits _ _))
        (RulesetInvariant.port_rule-Fits _ e)
        (λ r. unfold note_port_rule in used_grows e.ruleset_version r)
  apply-IsValid (create_domain e) = create_domain-IsValid s valid e
  apply-IsValid (deny_access_fs e) = denial-IsValid s valid e.context none
  apply-IsValid (deny_access_net e) = denial-IsValid s valid e.context none
  apply-IsValid (deny_ptrace e) = denial-IsValid s valid e.context (some e.tracee_domain)
  apply-IsValid (deny_scope_signal e) = denial-IsValid s valid e.context (some e.target_domain)
  apply-IsValid (deny_scope_abstract_unix_socket e) =
      denial-IsValid s valid e.context (some e.peer_domain)
  apply-IsValid (free_domain e) =
      on_domain s valid e.domain_id LifecycleState.deallocated (note_domain_freed e)
        (DomainInvariant.freed_new-Fits _ e) (DomainInvariant.freed-Fits _ e)
        (λ d. unfold note_domain_freed in (refl, refl))
  apply-IsValid (free_ruleset e) =
      on_ruleset s valid e.ruleset_id LifecycleState.deallocated e.ruleset_version (note_freed e)
        (RulesetInvariant.freed_new-Fits _ e) (RulesetInvariant.freed-Fits _ e)
        (λ r. unfold note_freed in (omega arith))
  apply-IsValid (enforce_domain e) =
      on_domain s valid e.domain_id LifecycleState.allocated (note_enforced e)
        (DomainInvariant.enforced-Fits _ e _ refl (DomainInvariant.new-Fits _))
        (λ d. DomainInvariant.enforced-Fits _ e d refl) (λ d. unfold note_enforced in (refl, refl))

apply_all_keeps : (s : State) (events : List Event) → IsValid s → IsValid (apply_all s events)
unfolding apply_all
apply_all_keeps s [] valid = valid
apply_all_keeps s (e ∷ events) valid = apply_all_keeps (apply s e) events (apply-IsValid s valid e)

-- After every stream of events from the empty state, the state is valid: every ruleset and domain
-- stands under its own identity, a known parent domain and a known frozen ruleset are in the state,
-- an object is deallocated exactly if its final facts are known, final counts and versions are at
-- most the observed ones, a seen creation leaves no descriptive fact unknown, and rules and
-- enforcement events stand under their own targets and threads.
pub apply_all-IsValid : (events : List Event) → IsValid (apply_all state_new events)
apply_all-IsValid events = apply_all_keeps state_new events state_new-IsValid
