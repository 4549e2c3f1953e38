-- ===== src/State/DomainSteps.antt =====
-- One step of the domains in `State::apply` (src/state.rs), against what the event says, placeholders
-- for parents and other parties included.
use landlock_observability.Prelude.{◌≡◌, refl, sym, ap, ◌∙◌, Option, none, some, arith}
use landlock_observability.Map.{Map, get}
use landlock_observability.Event.Ids.{DomainId, LandlockId-discrete}
use landlock_observability.Event.Kinds.{
  DenialContext, DomainMembership, CreateDomainEvent, FreeDomainEvent, EnforceDomainEvent, Event,
  create_domain, deny_access_fs, deny_access_net, deny_ptrace, deny_scope_signal,
  deny_scope_abstract_unix_socket, free_domain, enforce_domain,
}
use landlock_observability.State.Facts.{
  LifecycleState, update_max, marked_allocated, update_latest_timestamp,
}
use landlock_observability.State.Domains.{
  DomainState, domain_state_new, note_domain_created, note_denial, note_domain_freed, note_enforced,
}
use landlock_observability.State.Apply.{State, apply, with_placeholder, sandboxed_id, apply_denial}
use landlock_observability.State.Tally.{view-alter}
use landlock_observability.State.DomainFacts.{
  DomainSummary, both, both_assoc, both-nothing, named, counted, freed_after, enforced, of_domain,
  named_if, denial_said, domain_said, summary, domain_summary, summary_join,
}

abbrev fresh : DomainId → DomainState
fresh id = domain_state_new id LifecycleState.allocated

created-both :
    (e : CreateDomainEvent) (d : DomainState)
    → summary (some (note_domain_created e d)) ≡ both (summary (some d)) (counted 0)
unfolding note_domain_created marked_allocated update_max
created-both e d = ground arith

created-new :
    (e : CreateDomainEvent) (id : DomainId)
    → summary (some (note_domain_created e (fresh id))) ≡ counted 0
unfolding note_domain_created marked_allocated update_max
created-new e id = ground arith

denial-both :
    (c : DenialContext) (d : DomainState)
    → summary (some (note_denial c d)) ≡ both (summary (some d)) (counted c.cumulative_denial_count)
unfolding note_denial marked_allocated update_max
denial-both c d = ground arith

denial-new :
    (c : DenialContext) (id : DomainId)
    → summary (some (note_denial c (fresh id))) ≡ counted c.cumulative_denial_count
unfolding note_denial marked_allocated update_max
denial-new c id = ground arith

freed-both :
    (e : FreeDomainEvent) (d : DomainState)
    → summary (some (note_domain_freed e d))
      ≡ both (summary (some d)) (freed_after e.denial_count e.timestamp)
unfolding note_domain_freed update_max update_latest_timestamp
freed-both e d = ground arith

freed-new :
    (e : FreeDomainEvent) (id : DomainId)
    → summary (some (note_domain_freed e (domain_state_new id LifecycleState.deallocated)))
      ≡ freed_after e.denial_count e.timestamp
unfolding note_domain_freed update_max update_latest_timestamp
freed-new e id = ground arith

enforced-both :
    (e : EnforceDomainEvent) (d : DomainState)
    → summary (some (note_enforced e d)) ≡ both (summary (some d)) (enforced e.process_wide)
unfolding note_enforced marked_allocated
enforced-both e d = ground arith

enforced-new :
    (e : EnforceDomainEvent) (id : DomainId)
    → summary (some (note_enforced e (fresh id))) ≡ enforced e.process_wide
unfolding note_enforced marked_allocated
enforced-new e id = ground arith

named-both : (d : DomainState) → summary (some d) ≡ both (summary (some d)) named
named-both d = ground arith

regroup : (a b c d : DomainSummary) → both (both (both a b) c) d ≡ both a (both (both b c) d)
regroup a b c d = ap (λ m. both m d) (both_assoc a b c) ∙ both_assoc a (both b c) d

module _ (id : DomainId) where
  abbrev at_id : Map DomainId DomainState → DomainSummary
  at_id m = summary (get LandlockId-discrete id m)

  placeholder-both :
      (other : Option DomainId) (m : Map DomainId DomainState)
      → at_id (with_placeholder other m) ≡ both (at_id m) (named_if id other)
  unfolding with_placeholder
  placeholder-both none m = sym (both-nothing (at_id m))
  placeholder-both (some other) m =
      view-alter summary_join LandlockId-discrete summary id other (fresh other) (λ d. d) named refl
        named-both m

  denial_step :
      (c : DenialContext) (membership : Option DomainMembership) (s : State)
      → domain_summary id (apply_denial c membership s)
        ≡ both (domain_summary id s) (denial_said id c membership)
  unfolding apply_denial
  denial_step c membership s =
      placeholder-both (sandboxed_id membership) _
      ∙ ap (λ m. both m (named_if id (sandboxed_id membership)))
          (placeholder-both c.hierarchy.parent_id _
            ∙ ap (λ m. both m (named_if id c.hierarchy.parent_id))
                (view-alter summary_join LandlockId-discrete summary id c.hierarchy.domain_id _
                  (note_denial c) _ (denial-new c _) (denial-both c) s.domains))
      ∙ regroup (domain_summary id s)
          (of_domain id c.hierarchy.domain_id (counted c.cumulative_denial_count))
          (named_if id c.hierarchy.parent_id) (named_if id (sandboxed_id membership))

  -- One step: `apply` joins what the event says.
  pub domain_summary-apply :
      (s : State) (e : Event)
      → domain_summary id (apply s e) ≡ both (domain_summary id s) (domain_said id e)
  unfolding apply
  domain_summary-apply s (create_domain e) =
      view-alter summary_join LandlockId-discrete summary id e.domain_id _ (note_domain_created e) _
        (created-new e _) (created-both e) (with_placeholder e.parent_id s.domains)
      ∙ ap (λ m. both m (of_domain id e.domain_id (counted 0)))
          (placeholder-both e.parent_id s.domains)
      ∙ both_assoc (domain_summary id s) (named_if id e.parent_id)
          (of_domain id e.domain_id (counted 0))
  domain_summary-apply s (deny_access_fs e) = denial_step e.context none s
  domain_summary-apply s (deny_access_net e) = denial_step e.context none s
  domain_summary-apply s (deny_ptrace e) = denial_step e.context (some e.tracee_domain) s
  domain_summary-apply s (deny_scope_signal e) = denial_step e.context (some e.target_domain) s
  domain_summary-apply s (deny_scope_abstract_unix_socket e) =
      denial_step e.context (some e.peer_domain) s
  domain_summary-apply s (free_domain e) =
      view-alter summary_join LandlockId-discrete summary id e.domain_id _ (note_domain_freed e) _
        (freed-new e _) (freed-both e) s.domains
  domain_summary-apply s (enforce_domain e) =
      view-alter summary_join LandlockId-discrete summary id e.domain_id _ (note_enforced e) _
        (enforced-new e _) (enforced-both e) s.domains
  domain_summary-apply s _ = sym (both-nothing (domain_summary id s))
