-- ===== src/State/Enforcements.antt =====
-- Which enforcement event a domain keeps for each thread (src/state.rs).
use landlock_observability.Prelude.{
  ℕ, ◌≡◌, refl, ap, ◌∙◌, ite, if_pos, if_neg, Option, none, some, List, [], ◌∷◌, arith,
  Option-cases, inl, inr,
}
use landlock_observability.Map.{Map, get, alter, altered, get-alter}
use landlock_observability.Event.Ids.{DomainId, ThreadId, LandlockId-discrete, ThreadId-discrete}
use landlock_observability.Event.Kinds.{
  CreateDomainEvent, DenialContext, DomainMembership, EnforceDomainEvent, Event, create_ruleset,
  add_rule_path_beneath, add_rule_net_port, create_domain, deny_access_fs, deny_access_net,
  deny_ptrace, deny_scope_signal, deny_scope_abstract_unix_socket, free_domain, free_ruleset,
  enforce_domain,
}
use landlock_observability.State.Facts.{LifecycleState}
use landlock_observability.State.Domains.{
  DomainState, domain_state_new, selected, note_domain_created, note_denial, note_domain_freed,
  note_enforced, with_snapshot_parent, with_snapshot_creator,
}
use landlock_observability.State.Apply.{
  State, state_new, apply, apply_all, find_domain, update_domain, with_placeholder, sandboxed_id,
  apply_denial, apply_create_domain,
}
use landlock_observability.State.Latest.{pick, pick_all, IsLatest, pick_all-IsLatest}
use landlock_observability.State.Creations.{and_then}

-- The enforcements of a domain on a thread in a stream, in order.
abbrev pub enforcement_of : DomainId → ThreadId → Event → Option EnforceDomainEvent
enforcement_of id tid (enforce_domain e) =
    ite (LandlockId-discrete e.domain_id id)
      (ite (ThreadId-discrete e.enforcing_tid tid) (some e) none) none
enforcement_of id tid _ = none

abbrev pub enforcements : DomainId → ThreadId → List Event → List EnforceDomainEvent
enforcements id tid [] = []
enforcements id tid (e ∷ events) = and_then (enforcement_of id tid e) (enforcements id tid events)

-- `DomainState::enforcement_event`, of a domain that may be unknown.
abbrev pub enforcement_event : ThreadId → Option DomainState → Option EnforceDomainEvent
enforcement_event tid none = none
enforcement_event tid (some d) = get ThreadId-discrete tid d.enforcement_events

abbrev pub time : EnforceDomainEvent → ℕ
time e = e.timestamp

-- What is kept after an event that may be an enforcement.
abbrev after : Option EnforceDomainEvent → Option EnforceDomainEvent → Option EnforceDomainEvent
after kept none = kept
after kept (some e) = pick time kept e

-- An update of a domain, observed by what is kept, changes only what is kept of that domain.
alter_observed :
    (id other : DomainId) (tid : ThreadId) (d : DomainState) (f : DomainState → DomainState)
    (says : Option EnforceDomainEvent) (m : Map DomainId DomainState)
    → enforcement_event tid (some d) ≡ after none says
    → ((v : DomainState)
        → enforcement_event tid (some (f v)) ≡ after (enforcement_event tid (some v)) says)
    → enforcement_event tid (get LandlockId-discrete id (alter LandlockId-discrete other d f m))
      ≡ after
          (enforcement_event tid (get LandlockId-discrete id m))
          (ite (LandlockId-discrete other id) says none)
alter_observed id other tid d f says m at_new at_old = elim (LandlockId-discrete other id) [
  | yes same ↦
      rw
        (
          get-alter LandlockId-discrete id other d f m,
          if_pos _ same,
          if_pos (LandlockId-discrete other id) same says none,
        )
        (elim (Option-cases (get LandlockId-discrete id m)) [
          | inl e ↦ rw (e, at_new)
          | inr (v, e) ↦ rw (e, at_old)
        ])
  | no different ↦ rw (get-alter, if_neg _ different, if_neg _ different)
]

pick-selected :
    (e : EnforceDomainEvent) (o : Option EnforceDomainEvent)
    → some (altered e (selected e) o) ≡ pick time o e
unfolding selected
pick-selected e none = refl
pick-selected e (some kept) = ground arith

enforced-observed :
    (tid : ThreadId) (e : EnforceDomainEvent) (d : DomainState)
    → enforcement_event tid (some (note_enforced e d))
      ≡ after
          (enforcement_event tid (some d))
          (ite (ThreadId-discrete e.enforcing_tid tid) (some e) none)
unfolding note_enforced
enforced-observed tid e d = elim (ThreadId-discrete e.enforcing_tid tid) [
  | yes same ↦
      rw
        (
          get-alter ThreadId-discrete tid e.enforcing_tid e (selected e) d.enforcement_events,
          if_pos _ same,
          if_pos (ThreadId-discrete e.enforcing_tid tid) same (some e) none,
        )
        (pick-selected e (get ThreadId-discrete tid d.enforcement_events))
  | no different ↦ rw (get-alter, if_neg _ different, if_neg _ different)
]

created-observed :
    (tid : ThreadId) (e : CreateDomainEvent) (d : DomainState)
    → enforcement_event tid (some (note_domain_created e d)) ≡ enforcement_event tid (some d)
unfolding note_domain_created
created-observed tid e d = ap (get ThreadId-discrete tid) (ground arith)

denied-observed :
    (tid : ThreadId) (c : DenialContext) (d : DomainState)
    → enforcement_event tid (some (note_denial c d)) ≡ enforcement_event tid (some d)
unfolding note_denial with_snapshot_parent with_snapshot_creator
denied-observed tid c d = ap (get ThreadId-discrete tid) (ground arith)

module _ (id : DomainId) (tid : ThreadId) where
  abbrev kept_in : Map DomainId DomainState → Option EnforceDomainEvent
  kept_in m = enforcement_event tid (get LandlockId-discrete id m)

  alter_unobserved :
      (other : DomainId) (d : DomainState) (f : DomainState → DomainState)
      (m : Map DomainId DomainState)
      → enforcement_event tid (some d) ≡ none
      → ((v : DomainState) → enforcement_event tid (some (f v)) ≡ enforcement_event tid (some v))
      → kept_in (alter LandlockId-discrete other d f m) ≡ kept_in m
  alter_unobserved other d f m at_new at_old =
      alter_observed id other tid d f none m at_new at_old
      ∙ ap (after (kept_in m)) (ite_none (LandlockId-discrete other id))
    where
      nothing_enforced : Option EnforceDomainEvent
      nothing_enforced = none

      ite_none : (q : Dec (other ≡ id)) → ite q nothing_enforced nothing_enforced ≡ nothing_enforced
      ite_none (yes p) = refl
      ite_none (no p) = refl

  placeholder-kept_in :
      (o : Option DomainId) (m : Map DomainId DomainState)
      → kept_in (with_placeholder o m) ≡ kept_in m
  unfolding with_placeholder get
  placeholder-kept_in none m = refl
  placeholder-kept_in (some other) m = alter_unobserved other _ _ m refl (λ v. refl)

  denial-kept_in :
      (c : DenialContext) (membership : Option DomainMembership) (s : State)
      → kept_in (apply_denial c membership s).domains ≡ kept_in s.domains
  unfolding apply_denial
  denial-kept_in c membership s =
      placeholder-kept_in (sandboxed_id membership) _
      ∙ placeholder-kept_in c.hierarchy.parent_id _
      ∙ alter_unobserved c.hierarchy.domain_id _ (note_denial c) s.domains
          (denied-observed tid c _ ∙ nothing_kept c.hierarchy.domain_id) (denied-observed tid c)
    where
      nothing_kept :
          (other : DomainId)
          → enforcement_event tid (some (domain_state_new other LifecycleState.allocated)) ≡ none
      nothing_kept other = unfold get in refl

  apply-kept_in :
      (s : State) (e : Event)
      → kept_in (apply s e).domains ≡ after (kept_in s.domains) (enforcement_of id tid e)
  unfolding apply apply_create_domain update_domain note_domain_freed get
  apply-kept_in s (create_domain e) =
      alter_unobserved e.domain_id _ (note_domain_created e)
        (with_placeholder e.parent_id s.domains) (created-observed tid e _) (created-observed tid e)
      ∙ placeholder-kept_in e.parent_id s.domains
  apply-kept_in s (deny_access_fs e) = denial-kept_in e.context none s
  apply-kept_in s (deny_access_net e) = denial-kept_in e.context none s
  apply-kept_in s (deny_ptrace e) = denial-kept_in e.context (some e.tracee_domain) s
  apply-kept_in s (deny_scope_signal e) = denial-kept_in e.context (some e.target_domain) s
  apply-kept_in s (deny_scope_abstract_unix_socket e) =
      denial-kept_in e.context (some e.peer_domain) s
  apply-kept_in s (free_domain e) =
      alter_unobserved e.domain_id _ (note_domain_freed e) s.domains refl (λ v. refl)
  apply-kept_in s (enforce_domain e) =
      alter_observed id e.domain_id tid _ (note_enforced e) _ s.domains (enforced-observed tid e _)
        (enforced-observed tid e)
  apply-kept_in s (create_ruleset e) = refl
  apply-kept_in s (add_rule_path_beneath e) = refl
  apply-kept_in s (add_rule_net_port e) = refl
  apply-kept_in s (free_ruleset e) = refl

  pick_all-and_then :
      (kept : Option EnforceDomainEvent) (o : Option EnforceDomainEvent)
      (events : List EnforceDomainEvent)
      → pick_all time (after kept o) events ≡ pick_all time kept (and_then o events)
  pick_all-and_then kept none events = refl
  pick_all-and_then kept (some e) events = refl

  apply_all-kept_in :
      (s : State) (events : List Event)
      → kept_in (apply_all s events).domains
        ≡ pick_all time (kept_in s.domains) (enforcements id tid events)
  unfolding apply_all
  apply_all-kept_in s [] = refl
  apply_all-kept_in s (e ∷ events) =
      apply_all-kept_in (apply s e) events
      ∙ ap (λ kept. pick_all time kept (enforcements id tid events)) (apply-kept_in s e)
      ∙ pick_all-and_then (kept_in s.domains) (enforcement_of id tid e) (enforcements id tid events)

-- After any stream of events from the empty state, the enforcement event that a domain keeps for a
-- thread is the latest of the stream for that domain and thread: that with the greatest timestamp,
-- and of those the one applied last. Other events and other threads do not change it.
pub latest_enforcement :
    (id : DomainId) (tid : ThreadId) (events : List Event) (e : EnforceDomainEvent)
    → IsLatest time e (enforcements id tid events)
    → enforcement_event tid (find_domain id (apply_all state_new events)) ≡ some e
unfolding get
latest_enforcement id tid events e latest =
    apply_all-kept_in id tid state_new events
    ∙ pick_all-IsLatest time e (enforcements id tid events) latest
