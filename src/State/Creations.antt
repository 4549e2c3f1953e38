-- ===== src/State/Creations.antt =====
-- The creation events of a domain in a stream, and its descriptive facts (src/state.rs).
use landlock_observability.Prelude.{
  ℕ, ◌≡◌, refl, subst, ite, if_pos, if_neg, Option, none, some, List, [], ◌∷◌, arith,
}
use landlock_observability.Map.{Map, get, altered, alter_cases}
use landlock_observability.Event.Ids.{DomainId, LandlockId-discrete}
use landlock_observability.Event.Kinds.{
  DenialContext, DomainMembership, CreateDomainEvent, FreeDomainEvent, EnforceDomainEvent, Event,
  create_domain, deny_access_fs, deny_access_net, deny_ptrace, deny_scope_signal,
  deny_scope_abstract_unix_socket, free_domain, enforce_domain,
}
use landlock_observability.State.Facts.{LifecycleState, none_or_le}
use landlock_observability.State.Domains.{
  parent_of, DomainState, domain_state_new, note_domain_created, note_denial, note_domain_freed,
  note_enforced,
}
use landlock_observability.State.Apply.{
  State, state_new, apply, apply_all, find_domain, update_domain, with_placeholder, sandboxed_id,
  apply_denial, apply_create_domain,
}
use landlock_observability.State.Latest.{pick, pick_all, IsLatest, pick_all-IsLatest}

-- The creation events of a domain in a stream, in order.
abbrev pub creation_of : DomainId → Event → Option CreateDomainEvent
creation_of id (create_domain e) = ite (LandlockId-discrete e.domain_id id) (some e) none
creation_of id _ = none

abbrev pub and_then {ℓ} : {A : Type ℓ} → Option A → List A → List A
and_then none events = events
and_then (some e) events = e ∷ events

abbrev pub creations : DomainId → List Event → List CreateDomainEvent
creations id [] = []
creations id (e ∷ events) = and_then (creation_of id e) (creations id events)

-- The facts of a domain are those of the creation `e`.
pub record CreatedBy (e : CreateDomainEvent) (d : DomainState) : Type 0 where
  pub timestamp_fact : d.creation_timestamp ≡ some e.timestamp
  pub parent_fact : d.parent ≡ some (parent_of e.parent_id)
  pub tgid_fact : d.creator_tgid ≡ some e.creator_tgid
  pub comm_fact : d.creator_comm ≡ some e.creator_comm
  pub ruleset_fact :
      d.frozen_ruleset
      ≡ some (record { ruleset_id = e.ruleset_id; ruleset_version = e.ruleset_version })

-- The state of a domain against the creation event that is kept.
abbrev Keeps : Option CreateDomainEvent → Option DomainState → Type 0
Keeps none none = Unit
Keeps (some e) none = ⊥
Keeps none (some d) = (d.creation_timestamp ≡ none) × (d.frozen_ruleset ≡ none)
Keeps (some e) (some d) = CreatedBy e d

abbrev time : CreateDomainEvent → ℕ
time e = e.timestamp

-- An update of any domain that keeps the creation facts of it where they are known.
module _ (id : DomainId) where
  creation_Keeps :
      (e : CreateDomainEvent) (kept : Option CreateDomainEvent) (o : Option DomainState)
      → Keeps kept o
      → Keeps (pick time kept e) (
          some (
            altered
              (note_domain_created e (domain_state_new id LifecycleState.allocated))
              (note_domain_created e)
              o))
  unfolding note_domain_created none_or_le
  creation_Keeps e none none h = ground arith
  creation_Keeps e none (some d) h = ground arith
  creation_Keeps e (some k) none h = absurd h
  creation_Keeps e (some k) (some d) h = ground arith

  denial_Keeps :
      (c : DenialContext) (kept : Option CreateDomainEvent) (o : Option DomainState)
      → Keeps kept o
      → Keeps kept (
          some (
            altered
              (note_denial c (domain_state_new id LifecycleState.allocated))
              (note_denial c)
              o))
  unfolding note_denial
  denial_Keeps c none none h = ground arith
  denial_Keeps c none (some d) h = ground arith
  denial_Keeps c (some k) none h = absurd h
  denial_Keeps c (some k) (some d) h = ground arith

  freed_Keeps :
      (e : FreeDomainEvent) (kept : Option CreateDomainEvent) (o : Option DomainState)
      → Keeps kept o
      → Keeps kept (
          some (
            altered
              (note_domain_freed e (domain_state_new id LifecycleState.deallocated))
              (note_domain_freed e)
              o))
  unfolding note_domain_freed
  freed_Keeps e none none h = ground arith
  freed_Keeps e none (some d) h = h
  freed_Keeps e (some k) none h = absurd h
  freed_Keeps e (some k) (some d) h = ground arith

  enforced_Keeps :
      (e : EnforceDomainEvent) (kept : Option CreateDomainEvent) (o : Option DomainState)
      → Keeps kept o
      → Keeps kept (
          some (
            altered
              (note_enforced e (domain_state_new id LifecycleState.allocated))
              (note_enforced e)
              o))
  unfolding note_enforced
  enforced_Keeps e none none h = ground arith
  enforced_Keeps e none (some d) h = h
  enforced_Keeps e (some k) none h = absurd h
  enforced_Keeps e (some k) (some d) h = ground arith

  named_Keeps :
      (kept : Option CreateDomainEvent) (o : Option DomainState)
      → Keeps kept o
      → Keeps kept (some (altered (domain_state_new id LifecycleState.allocated) (λ d. d) o))
  named_Keeps none none h = ground arith
  named_Keeps none (some d) h = h
  named_Keeps (some k) none h = absurd h
  named_Keeps (some k) (some d) h = h

abbrev KeepsIn : DomainId → Option CreateDomainEvent → Map DomainId DomainState → Type 0
KeepsIn id kept m = Keeps kept (get LandlockId-discrete id m)

placeholder_KeepsIn :
    (id : DomainId) (kept : Option CreateDomainEvent) (o : Option DomainId)
    (m : Map DomainId DomainState)
    → KeepsIn id kept m
    → KeepsIn id kept (with_placeholder o m)
unfolding with_placeholder
placeholder_KeepsIn id kept none m h = h
placeholder_KeepsIn id kept (some other) m h =
    alter_cases LandlockId-discrete (Keeps kept) id other _ _ m (λ _. named_Keeps other kept _ h)
      (λ _. h)

denial_KeepsIn :
    (id : DomainId) (kept : Option CreateDomainEvent) (c : DenialContext)
    (membership : Option DomainMembership) (s : State)
    → KeepsIn id kept s.domains
    → KeepsIn id kept (apply_denial c membership s).domains
unfolding apply_denial
denial_KeepsIn id kept c membership s h = placeholder_KeepsIn id kept (sandboxed_id membership) _ (
    placeholder_KeepsIn id kept c.hierarchy.parent_id _ (
      alter_cases LandlockId-discrete (Keeps kept) id c.hierarchy.domain_id _ _ s.domains
        (λ _. denial_Keeps c.hierarchy.domain_id c kept _ h) (λ _. h)))

creation_KeepsIn :
    (id : DomainId) (kept : Option CreateDomainEvent) (e : CreateDomainEvent)
    (m : Map DomainId DomainState)
    → KeepsIn id kept m
    → KeepsIn id
        (pick_all time kept (and_then (creation_of id (create_domain e)) []))
        (update_domain e.domain_id LifecycleState.allocated (note_domain_created e) m)
unfolding update_domain
creation_KeepsIn id kept e m h = elim (LandlockId-discrete e.domain_id id) [
  | yes same ↦ rw (if_pos (LandlockId-discrete e.domain_id id) same (some e) none) (
      alter_cases LandlockId-discrete (Keeps (pick time kept e)) id e.domain_id _ _ m
        (λ _. creation_Keeps e.domain_id e kept _ h) (λ n. absurd (n same)))
  | no different ↦ rw (if_neg (LandlockId-discrete e.domain_id id) different (some e) none) (
      alter_cases LandlockId-discrete (Keeps kept) id e.domain_id _ _ m (λ e. absurd (different e))
        (λ _. h))
]

-- One step of a domain's creation facts.
step_KeepsIn :
    (id : DomainId) (kept : Option CreateDomainEvent) (s : State) (e : Event)
    → KeepsIn id kept s.domains
    → KeepsIn id (pick_all time kept (and_then (creation_of id e) [])) (apply s e).domains
unfolding apply apply_create_domain
step_KeepsIn id kept s (create_domain e) h =
    creation_KeepsIn id kept e (with_placeholder e.parent_id s.domains)
      (placeholder_KeepsIn id kept e.parent_id s.domains h)
step_KeepsIn id kept s (deny_access_fs e) h = denial_KeepsIn id kept e.context none s h
step_KeepsIn id kept s (deny_access_net e) h = denial_KeepsIn id kept e.context none s h
step_KeepsIn id kept s (deny_ptrace e) h =
    denial_KeepsIn id kept e.context (some e.tracee_domain) s h
step_KeepsIn id kept s (deny_scope_signal e) h =
    denial_KeepsIn id kept e.context (some e.target_domain) s h
step_KeepsIn id kept s (deny_scope_abstract_unix_socket e) h =
    denial_KeepsIn id kept e.context (some e.peer_domain) s h
step_KeepsIn id kept s (free_domain e) h =
    alter_cases LandlockId-discrete (Keeps kept) id e.domain_id _ _ s.domains
      (λ _. freed_Keeps e.domain_id e kept _ h) (λ _. h)
step_KeepsIn id kept s (enforce_domain e) h =
    alter_cases LandlockId-discrete (Keeps kept) id e.domain_id _ _ s.domains
      (λ _. enforced_Keeps e.domain_id e kept _ h) (λ _. h)
step_KeepsIn id kept s _ h = h

all_KeepsIn :
    (id : DomainId) (events : List Event) (kept : Option CreateDomainEvent) (s : State)
    → KeepsIn id kept s.domains
    → KeepsIn id (pick_all time kept (creations id events)) (apply_all s events).domains
unfolding apply_all
all_KeepsIn id [] kept s h = h
all_KeepsIn id (e ∷ events) kept s h =
    rw (pick_first (creation_of id e) kept (creations id events)) (
      all_KeepsIn id events (pick_all time kept (and_then (creation_of id e) [])) (apply s e)
        (step_KeepsIn id kept s e h))
  where
    pick_first :
        (o : Option CreateDomainEvent) (kept : Option CreateDomainEvent)
        (rest : List CreateDomainEvent)
        → pick_all time kept (and_then o rest)
          ≡ pick_all time (pick_all time kept (and_then o [])) rest
    pick_first none kept rest = refl
    pick_first (some c) kept rest = refl

kept_found :
    (e : CreateDomainEvent) (o : Option DomainState)
    → Keeps (some e) o
    → (d : DomainState) × (o ≡ some d) × CreatedBy e d
kept_found e none h = absurd h
kept_found e (some d) h = (d, refl, h)

-- After any stream of events from the empty state, a domain whose creation is in the stream has the
-- creation timestamp, the parent, the creator and the frozen ruleset of its latest creation event:
-- that with the greatest timestamp, and of those the one applied last. Denials that carry another
-- parent or creator, before or after it, change none of these.
pub latest_creation :
    (id : DomainId) (events : List Event) (e : CreateDomainEvent)
    → IsLatest time e (creations id events)
    → (d : DomainState) × (find_domain id (apply_all state_new events) ≡ some d) × CreatedBy e d
unfolding get
latest_creation id events e latest = kept_found e _ (
    subst (λ kept. KeepsIn id kept (apply_all state_new events).domains)
      (pick_all-IsLatest time e (creations id events) latest)
      (all_KeepsIn id events none state_new tt))
