-- ===== src/State/Validity.antt =====
-- The ways in which an event changes the state, against its invariant (src/state.rs).
use landlock_observability.Prelude.{
  ℕ, ◌≤◌, ◌≡◌, some, arith, Option-cases, inl, inr, ◌⊎◌, Bool-cases,
}
use landlock_observability.Map.{get, Entries-alter, IsSome-alter, get-alter_self}
use landlock_observability.Event.Ids.{DomainId, RulesetId, LandlockId-discrete}
use landlock_observability.Event.Kinds.{DenialContext, CreateDomainEvent}
use landlock_observability.State.Facts.{LifecycleState, none_or_le}
use landlock_observability.State.Rulesets.{RulesetState, ruleset_state_new, note_used}
use landlock_observability.State.Domains.{
  parent_of, DomainState, domain_state_new, note_domain_created, note_denial,
}
use landlock_observability.State.Apply.{State, update_ruleset, update_domain}
use landlock_observability.State.RulesetInvariant.{RulesetFits}
use landlock_observability.State.DomainInvariant.{DomainFits}
use landlock_observability.State.Invariant.{
  Domains, Rulesets, IsValid, DomainFitsIn, ParentIn, FrozenIn, ObservedAt, Grows-alter, still_fit,
}

module _ (s : State) (valid : IsValid s) where
  -- An event that only updates a ruleset.
  pub on_ruleset :
      (id : RulesetId) (lifecycle : LifecycleState) (version : ℕ) (f : RulesetState → RulesetState)
      → RulesetFits id (f (ruleset_state_new id lifecycle version))
      → ((r : RulesetState) → RulesetFits id r → RulesetFits id (f r))
      → ((r : RulesetState) → r.max_observed_version ≤ (f r).max_observed_version)
      → IsValid (record s { rulesets = update_ruleset id lifecycle version f s.rulesets })
  unfolding update_ruleset
  on_ruleset id lifecycle version f new old grows = record {
    ruleset_entries =
        Entries-alter LandlockId-discrete RulesetFits id _ f s.rulesets new old
          valid.ruleset_entries;
    domain_entries =
        still_fit s.rulesets _ s.domains s.domains s.domains (Grows-alter id _ f s.rulesets grows)
          (λ _ h. h) valid.domain_entries;
  }

  -- An event that only updates a domain, and gives it no parent and no ruleset.
  pub on_domain :
      (id : DomainId) (lifecycle : LifecycleState) (f : DomainState → DomainState)
      → DomainFits id (f (domain_state_new id lifecycle))
      → ((d : DomainState) → DomainFits id d → DomainFits id (f d))
      → ((d : DomainState) → ((f d).parent ≡ d.parent) × ((f d).frozen_ruleset ≡ d.frozen_ruleset))
      → IsValid (record s { domains = update_domain id lifecycle f s.domains })
  unfolding update_domain
  on_domain id lifecycle f new old same = record {
    ruleset_entries = valid.ruleset_entries;
    domain_entries =
        Entries-alter LandlockId-discrete (DomainFitsIn s.rulesets _) id _ f s.domains
          (record {
            fits = new;
            parent_in = rw (same (domain_state_new id lifecycle)).0 tt;
            frozen_in = rw (same (domain_state_new id lifecycle)).1 tt;
          })
          (λ d h. record {
            fits = old d h.fits;
            parent_in = rw (same d).0 h.parent_in;
            frozen_in = rw (same d).1 h.frozen_in;
          })
          (still_fit s.rulesets s.rulesets s.domains _ s.domains (λ _ _ h. h)
            (λ k h. IsSome-alter LandlockId-discrete k id _ f s.domains h) valid.domain_entries);
  }

pub created_parent :
    (m : Domains) (e : CreateDomainEvent) (d : DomainState)
    → ParentIn m (some (parent_of e.parent_id))
    → ParentIn m d.parent
    → ParentIn m (note_domain_created e d).parent
unfolding note_domain_created
created_parent m e d new old = elim (Bool-cases (none_or_le d.creation_timestamp e.timestamp)) [
  | inl b ↦ rw (b, note_domain_created) new
  | inr b ↦ rw (b, note_domain_created) old
]

pub created_frozen :
    (m : Rulesets) (e : CreateDomainEvent) (d : DomainState)
    → ObservedAt e.ruleset_version (get LandlockId-discrete e.ruleset_id m)
    → FrozenIn m d.frozen_ruleset
    → FrozenIn m (note_domain_created e d).frozen_ruleset
unfolding note_domain_created
created_frozen m e d new old = elim (Bool-cases (none_or_le d.creation_timestamp e.timestamp)) [
  | inl b ↦ rw (b, note_domain_created) new
  | inr b ↦ rw (b, note_domain_created) old
]

-- The ruleset that a creation names is observed at its version.
pub created_observed :
    (e : CreateDomainEvent) (m : Rulesets)
    → ObservedAt e.ruleset_version (
        get LandlockId-discrete e.ruleset_id (
          update_ruleset e.ruleset_id LifecycleState.allocated e.ruleset_version
            (note_used e.ruleset_version)
            m))
unfolding update_ruleset note_used
created_observed e m =
    rw (get-alter_self LandlockId-discrete e.ruleset_id)
      (elim (Option-cases (get LandlockId-discrete e.ruleset_id m)) [
        | inl missing ↦ rw missing (omega arith)
        | inr (r, found) ↦ rw found (omega arith)
      ])

pub used_grows :
    (v : ℕ) (r : RulesetState) → r.max_observed_version ≤ (note_used v r).max_observed_version
unfolding note_used
used_grows v r = omega arith

pub note_denial_parent :
    (c : DenialContext) (d : DomainState)
    → ((note_denial c d).parent ≡ some (parent_of c.hierarchy.parent_id))
      ⊎ ((note_denial c d).parent ≡ d.parent)
unfolding note_denial
note_denial_parent c d = ground arith

pub note_denial_frozen :
    (c : DenialContext) (d : DomainState) → (note_denial c d).frozen_ruleset ≡ d.frozen_ruleset
unfolding note_denial
note_denial_frozen c d = ground arith

pub denied_parent :
    (m : Domains) (c : DenialContext) (d : DomainState)
    → ParentIn m (some (parent_of c.hierarchy.parent_id))
    → ParentIn m d.parent
    → ParentIn m (note_denial c d).parent
denied_parent m c d new old = elim (note_denial_parent c d) [ inl e ↦ rw e new | inr e ↦ rw e old ]
