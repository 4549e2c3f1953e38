-- ===== src/State/Tests.antt =====
-- A short stream of events, what the state holds after it, and the theorems at that stream.
use mathlib.Core.List.Perm
use landlock_observability.Prelude.{
  ℕ, ℕ_discrete, arith, ◌≡◌, refl, true, false, none, some, List, [], ◌∷◌,
}
use landlock_observability.Map.{get, alter}
use landlock_observability.Event.Ids.{
  ThreadId, ThreadId-discrete, DomainId, RulesetId, LandlockId-discrete,
}
use landlock_observability.Event.Kinds.{
  EnforceDomainEvent, enforce_domain, DomainMembership, CreateDomainEvent, DenyPtraceEvent,
  FreeDomainEvent, Event, create_domain, deny_ptrace, free_domain,
}
use landlock_observability.State.Facts.{LifecycleState, none_or_le, marked_allocated}
use landlock_observability.State.Domains.{
  DomainState, note_domain_created, note_domain_freed, note_denial,
}
use landlock_observability.State.Apply.{state_new, apply, apply_all, find_domain}
use landlock_observability.State.Tally.{tally}
use landlock_observability.State.RulesetFacts
use landlock_observability.State.RulesetFacts.{ruleset_summary, ruleset_said}
use landlock_observability.State.DomainFacts
use landlock_observability.State.DomainFacts.{domain_summary, domain_said}
use landlock_observability.State.Invariant.{IsValid}
use landlock_observability.State.Latest.{IsLatest}
use landlock_observability.State.Creations.{CreatedBy, creations, latest_creation}
use landlock_observability.State.Enforcements.{enforcements, enforcement_event, latest_enforcement}
use landlock_observability.State.History.{
  ruleset_summary-apply_all, domain_summary-apply_all, summary-perm,
}
use landlock_observability.State.Preserves.{apply_all-IsValid}

abbrev child : DomainId
child = record { value = 0x1_0000_0002 }

abbrev parent : DomainId
parent = record { value = 0x1_0000_0001 }

abbrev rules : RulesetId
rules = record { value = 0x1_0000_0000 }

abbrev creation : CreateDomainEvent
creation = record {
  timestamp = 20;
  ruleset_id = rules;
  ruleset_version = 3;
  domain_id = child;
  parent_id = some parent;
  creator_tgid = record { value = 7 };
  creator_comm = record { bytes = b's' ∷ b'h' ∷ []; bytes_omitted = false };
}

-- A denial that was seen first, and whose snapshot has no parent.
abbrev denial : DenyPtraceEvent
denial = record {
  timestamp = 30;
  context = record {
    hierarchy = record {
      domain_id = child;
      parent_id = none;
      creator_tgid = record { value = 9 };
      creator_comm = record { bytes = []; bytes_omitted = false };
    };
    cumulative_denial_count = 5;
    same_exec = true;
    logged = false;
  };
  tracee_domain = DomainMembership.unsandboxed;
  tracee_pid = record { value = 11 };
  tracee_comm = record { bytes = []; bytes_omitted = false };
}

abbrev freed : FreeDomainEvent
freed = record { timestamp = 40; domain_id = child; denial_count = 6 }

abbrev events : List Event
events = deny_ptrace denial ∷ free_domain freed ∷ create_domain creation ∷ []

abbrev reordered : List Event
reordered = free_domain freed ∷ deny_ptrace denial ∷ create_domain creation ∷ []

lifecycle_after_events :
    (domain_summary child (apply_all state_new events)).lifecycle ≡ some LifecycleState.deallocated
unfolding apply_all apply get alter LandlockId-discrete note_domain_created none_or_le
    note_domain_freed note_denial marked_allocated
lifecycle_after_events = refl

ruleset_summary-apply_all_example :
    ruleset_summary rules (apply_all state_new events)
    ≡ RulesetFacts.both
        (ruleset_summary rules state_new)
        (tally RulesetFacts.summary_join (ruleset_said rules) events)
ruleset_summary-apply_all_example = ruleset_summary-apply_all rules state_new events

domain_summary-apply_all_example :
    domain_summary child (apply_all state_new events)
    ≡ DomainFacts.both
        (domain_summary child state_new)
        (tally DomainFacts.summary_join (domain_said child) events)
domain_summary-apply_all_example = domain_summary-apply_all child state_new events

summary-perm_example :
    ((id : RulesetId)
      → ruleset_summary id (apply_all state_new events)
        ≡ ruleset_summary id (apply_all state_new reordered))
    × ((id : DomainId)
        → domain_summary id (apply_all state_new events)
          ≡ domain_summary id (apply_all state_new reordered))
summary-perm_example =
    summary-perm state_new
      (Perm.swap (free_domain freed) (deny_ptrace denial) (create_domain creation ∷ []))

apply_all-IsValid_example : IsValid (apply_all state_new events)
apply_all-IsValid_example = apply_all-IsValid events

latest : IsLatest (λ (e : CreateDomainEvent). e.timestamp) creation (creations child events)
unfolding LandlockId-discrete
latest = record { before = []; after = []; split = refl; none_later = tt; then_earlier = tt }

latest_creation_example :
    (d : DomainState) × (find_domain child (apply_all state_new events) ≡ some d)
    × CreatedBy creation d
latest_creation_example = latest_creation child events creation latest

abbrev thread : ThreadId
thread = record { value = 8 }

-- Two enforcements on one thread, applied against the order of their timestamps.
abbrev enforcement : ℕ → EnforceDomainEvent
enforcement timestamp = record {
  timestamp = timestamp;
  domain_id = child;
  enforcing_tid = thread;
  complete = true;
  process_wide = false;
  no_new_privs = true;
}

abbrev enforced : List Event
enforced =
    enforce_domain (enforcement 26) ∷ deny_ptrace denial ∷ enforce_domain (enforcement 25) ∷ []

IsLatest-enforced :
    IsLatest
      (λ (e : EnforceDomainEvent). e.timestamp)
      (enforcement 26)
      (enforcements child thread enforced)
unfolding LandlockId-discrete ThreadId-discrete ℕ_discrete
IsLatest-enforced = record {
  before = [];
  after = enforcement 25 ∷ [];
  split = refl;
  none_later = tt;
  then_earlier = (omega arith, tt);
}

latest_enforcement_example :
    enforcement_event thread (find_domain child (apply_all state_new enforced))
    ≡ some (enforcement 26)
latest_enforcement_example =
    latest_enforcement child thread enforced (enforcement 26) IsLatest-enforced
