-- ===== src/State/DomainInvariant.antt =====
-- The invariant of one reconstructed domain by itself, and the updates of one (src/state.rs).
use landlock_observability.Prelude.{
  ℕ, ◌≤◌, ◌≡◌, refl, Bool, true, false, ◌||◌, Option, none, some, arith,
}
use landlock_observability.Map.{get, Entries, Entries-alter, Entries-weaken}
use landlock_observability.Event.Ids.{DomainId, ThreadId, ThreadId-discrete}
use landlock_observability.Event.Kinds.{
  DenialContext, CreateDomainEvent, FreeDomainEvent, EnforceDomainEvent,
}
use landlock_observability.State.Facts.{
  LifecycleState, marked_allocated, update_max, update_latest_timestamp,
}
use landlock_observability.State.Domains.{
  DomainState, domain_state_new, note_domain_created, note_denial, note_domain_freed, note_enforced,
  selected,
}
use landlock_observability.State.RulesetInvariant.{is_some, is_deallocated}

-- Where the first is known, so is the second.
abbrev pub Known {ℓ κ} : {A : Type ℓ} {B : Type κ} → Option A → Option B → Type 0
Known none b = Unit
Known (some a) none = ⊥
Known (some a) (some b) = Unit

-- Where the first is known, the second is known and at least as great.
abbrev pub KnownAtMost : Option ℕ → Option ℕ → Type 0
KnownAtMost none n = Unit
KnownAtMost (some m) none = ⊥
KnownAtMost (some m) (some n) = m ≤ n

abbrev pub Implies : Bool → Bool → Type 0
Implies false b = Unit
Implies true b = b ≡ true

-- A domain is deallocated exactly if a free event gave a final count and a timestamp, the final
-- count is at most the cumulative one, a creation leaves no descriptive fact unknown, and the two
-- facts about the creator are known together.
pub record FactsFit (id : DomainId) (d : DomainState) : Type 0 where
  pub own_id : d.id ≡ id
  pub final_known : is_some d.final_denial_count ≡ is_deallocated d.lifecycle
  pub free_known : is_some d.free_timestamp ≡ is_deallocated d.lifecycle
  pub final_bounded : KnownAtMost d.final_denial_count d.cumulative_denial_count
  pub parent_known : Known d.creation_timestamp d.parent
  pub creator_known : Known d.creation_timestamp d.creator_tgid
  pub creator_whole : is_some d.creator_comm ≡ is_some d.creator_tgid
  pub frozen_known : is_some d.frozen_ruleset ≡ is_some d.creation_timestamp
  pub counted : Known d.creation_timestamp d.cumulative_denial_count

-- An enforcement event is about the domain, is stored under its thread, and a process-wide one has
-- set the flag.
abbrev pub Enforces : DomainId → Bool → ThreadId → EnforceDomainEvent → Type 0
Enforces id process_wide tid e =
    (e.enforcing_tid ≡ tid) × (e.domain_id ≡ id) × Implies e.process_wide process_wide

pub record DomainFits (id : DomainId) (d : DomainState) : Type 0 where
  pub facts : FactsFit id d
  pub enforcements :
      Entries ThreadId-discrete (Enforces id d.any_process_wide_enforcement) d.enforcement_events

pub new-Fits : (id : DomainId) → DomainFits id (domain_state_new id LifecycleState.allocated)
unfolding get
new-Fits id = record { facts = ground arith; enforcements = λ t e h. cc }

created-facts :
    (id : DomainId) (e : CreateDomainEvent) (d : DomainState)
    → FactsFit id d
    → FactsFit id (note_domain_created e d)
unfolding note_domain_created marked_allocated update_max
created-facts id e d h = ground arith

created-events :
    (e : CreateDomainEvent) (d : DomainState)
    → (note_domain_created e d).enforcement_events ≡ d.enforcement_events
unfolding note_domain_created
created-events e d = ground arith

created-flag :
    (e : CreateDomainEvent) (d : DomainState)
    → (note_domain_created e d).any_process_wide_enforcement ≡ d.any_process_wide_enforcement
unfolding note_domain_created
created-flag e d = ground arith

pub created-Fits :
    (id : DomainId) (e : CreateDomainEvent) (d : DomainState)
    → DomainFits id d
    → DomainFits id (note_domain_created e d)
created-Fits id e d h = record {
  facts = created-facts id e d h.facts;
  enforcements = rw (created-events e d, created-flag e d) h.enforcements;
}

denial-facts :
    (id : DomainId) (c : DenialContext) (d : DomainState)
    → FactsFit id d
    → FactsFit id (note_denial c d)
unfolding note_denial marked_allocated update_max
denial-facts id c d h = ground arith

denial-events :
    (e : DenialContext) (d : DomainState)
    → (note_denial e d).enforcement_events ≡ d.enforcement_events
unfolding note_denial
denial-events e d = ground arith

denial-flag :
    (e : DenialContext) (d : DomainState)
    → (note_denial e d).any_process_wide_enforcement ≡ d.any_process_wide_enforcement
unfolding note_denial
denial-flag e d = ground arith

pub denial-Fits :
    (id : DomainId) (e : DenialContext) (d : DomainState)
    → DomainFits id d
    → DomainFits id (note_denial e d)
denial-Fits id e d h = record {
  facts = denial-facts id e d h.facts;
  enforcements = rw (denial-events e d, denial-flag e d) h.enforcements;
}

freed-facts :
    (id : DomainId) (e : FreeDomainEvent) (d : DomainState)
    → FactsFit id d
    → FactsFit id (note_domain_freed e d)
unfolding note_domain_freed update_max update_latest_timestamp
freed-facts id e d h = ground arith

pub freed-Fits :
    (id : DomainId) (e : FreeDomainEvent) (d : DomainState)
    → DomainFits id d
    → DomainFits id (note_domain_freed e d)
unfolding note_domain_freed
freed-Fits id e d h = record { facts = freed-facts id e d h.facts; enforcements = h.enforcements }

pub freed_new-Fits :
    (id : DomainId) (e : FreeDomainEvent)
    → DomainFits id (note_domain_freed e (domain_state_new id LifecycleState.deallocated))
unfolding note_domain_freed update_max update_latest_timestamp get
freed_new-Fits id e = record { facts = ground arith; enforcements = λ t e h. cc }

enforced-facts :
    (id : DomainId) (e : EnforceDomainEvent) (d : DomainState)
    → FactsFit id d
    → FactsFit id (note_enforced e d)
unfolding note_enforced marked_allocated
enforced-facts id e d h = ground arith

pub enforced-Fits :
    (id : DomainId) (e : EnforceDomainEvent) (d : DomainState)
    → e.domain_id ≡ id
    → DomainFits id d
    → DomainFits id (note_enforced e d)
unfolding note_enforced selected
enforced-Fits id e d own h = record {
  facts = enforced-facts id e d h.facts;
  enforcements =
      Entries-alter ThreadId-discrete (Enforces id flag) e.enforcing_tid e _ d.enforcement_events
        (refl, own, ground arith) (λ current k. ground arith)
        (Entries-weaken ThreadId-discrete (Enforces id d.any_process_wide_enforcement)
          (Enforces id flag) d.enforcement_events (λ t current k. ground arith) h.enforcements);
}
  where
    flag : Bool
    flag = d.any_process_wide_enforcement || e.process_wide
