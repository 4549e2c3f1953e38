-- ===== src/Lltop/Allocated.antt =====
-- The number of allocated domains that the batch mode keeps (lltop/src/batch.rs).
use landlock_observability.Prelude.{
  ℕ, suc, ◌+◌, ◌≤◌, ◌≡◌, refl, Option, none, some, List, [], ◌∷◌, ◌++◌, arith, inl, inr, ◌⊎◌,
  length,
}
use landlock_observability.Map.{Map, IsSome}
use landlock_observability.Event.Ids.{DomainId, LandlockId-discrete}
use landlock_observability.Event.Kinds.{
  Event, DenialContext, DomainMembership, create_domain, free_domain, enforce_domain,
  deny_access_fs, deny_access_net, deny_ptrace, deny_scope_signal, deny_scope_abstract_unix_socket,
  create_ruleset, add_rule_path_beneath, add_rule_net_port, free_ruleset,
}
use landlock_observability.State.Domains.{DomainState}
use landlock_observability.State.Apply.{
  State, state_new, apply, apply_all, apply_denial, apply_create_domain, update_domain,
  with_placeholder, sandboxed_id, find_domain,
}
use landlock_observability.Lltop.Stats.{stats_default, process_all_stats}
use landlock_observability.Lltop.Batch.{
  Batch, Formats, batch_new, usize_max, is_allocated, was_allocated, count_change, count_changes,
  named_ids, opt_list, add_denial, affected_domain_ids, process, process_all,
}
use landlock_observability.Lltop.Counting.{
  IsIn, IsDistinct, count, count_at, count-length, count_at-le, weight_of, Moves, Moves-refl,
  Moves-trans, Moves-alter,
}
use landlock_observability.Lltop.Affected.{
  affected_domain_ids-IsDistinct, affected_domain_ids-IsIn, length-affected_domain_ids,
}

-- The domains of a state that are allocated.
abbrev pub allocated_in : State → ℕ
allocated_in s = count LandlockId-discrete is_allocated s.domains

module _ (ids : List DomainId) (distinct : IsDistinct ids) where
  abbrev MovesDomains : Map DomainId DomainState → Map DomainId DomainState → Type 0
  MovesDomains = Moves LandlockId-discrete is_allocated ids

  with_placeholder-Moves :
      (o : Option DomainId) (m : Map DomainId DomainState)
      → ((id : DomainId) → IsIn id (opt_list o) → IsIn id ids)
      → MovesDomains m (with_placeholder o m)
  unfolding with_placeholder
  with_placeholder-Moves none m h = Moves-refl LandlockId-discrete is_allocated ids m
  with_placeholder-Moves (some id) m h =
      Moves-alter LandlockId-discrete is_allocated id _ _ ids m distinct (h id (inl refl))

  IsIn-append : (z : DomainId) (xs ys : List DomainId) → IsIn z xs ⊎ IsIn z ys → IsIn z (xs ++ ys)
  IsIn-append z [] ys (inl i) = elim i [ ]
  IsIn-append z [] ys (inr i) = i
  IsIn-append z (x ∷ xs) ys (inl (inl e)) = inl e
  IsIn-append z (x ∷ xs) ys (inl (inr i)) = inr (IsIn-append z xs ys (inl i))
  IsIn-append z (x ∷ xs) ys (inr i) = inr (IsIn-append z xs ys (inr i))

  apply_denial-Moves :
      (c : DenialContext) (membership : Option DomainMembership) (s : State)
      → ((id : DomainId) → IsIn id (add_denial c membership) → IsIn id ids)
      → MovesDomains s.domains (apply_denial c membership s).domains
  unfolding apply_denial update_domain
  apply_denial-Moves c membership s h =
      let parent = c.hierarchy.parent_id in
      let other = sandboxed_id membership in
      Moves-trans LandlockId-discrete is_allocated ids s.domains _ _
        (Moves-alter LandlockId-discrete is_allocated c.hierarchy.domain_id _ _ ids s.domains
          distinct (h c.hierarchy.domain_id (inl refl)))
        (Moves-trans LandlockId-discrete is_allocated ids _ _ _
          (with_placeholder-Moves parent _
            (λ id i. h id (inr (IsIn-append id (opt_list parent) (opt_list other) (inl i)))))
          (with_placeholder-Moves other _
            (λ id i. h id (inr (IsIn-append id (opt_list parent) (opt_list other) (inr i))))))

  apply-Moves :
      (s : State) (event : Event)
      → ((id : DomainId) → IsIn id (named_ids event) → IsIn id ids)
      → MovesDomains s.domains (apply s event).domains
  unfolding apply apply_create_domain update_domain
  apply-Moves s (create_domain e) h =
      Moves-trans LandlockId-discrete is_allocated ids s.domains _ _
        (with_placeholder-Moves e.parent_id s.domains (λ id i. h id (inr i)))
        (Moves-alter LandlockId-discrete is_allocated e.domain_id _ _ ids _ distinct
          (h e.domain_id (inl refl)))
  apply-Moves s (free_domain e) h =
      Moves-alter LandlockId-discrete is_allocated e.domain_id _ _ ids s.domains distinct
        (h e.domain_id (inl refl))
  apply-Moves s (enforce_domain e) h =
      Moves-alter LandlockId-discrete is_allocated e.domain_id _ _ ids s.domains distinct
        (h e.domain_id (inl refl))
  apply-Moves s (deny_access_fs e) h = apply_denial-Moves e.context none s h
  apply-Moves s (deny_access_net e) h = apply_denial-Moves e.context none s h
  apply-Moves s (deny_ptrace e) h = apply_denial-Moves e.context (some e.tracee_domain) s h
  apply-Moves s (deny_scope_signal e) h = apply_denial-Moves e.context (some e.target_domain) s h
  apply-Moves s (deny_scope_abstract_unix_socket e) h =
      apply_denial-Moves e.context (some e.peer_domain) s h
  apply-Moves s (create_ruleset e) h = Moves-refl LandlockId-discrete is_allocated ids s.domains
  apply-Moves s (add_rule_path_beneath e) h =
      Moves-refl LandlockId-discrete is_allocated ids s.domains
  apply-Moves s (add_rule_net_port e) h = Moves-refl LandlockId-discrete is_allocated ids s.domains
  apply-Moves s (free_ruleset e) h = Moves-refl LandlockId-discrete is_allocated ids s.domains

abbrev domain_ids : Discrete DomainId
domain_ids = LandlockId-discrete

abbrev is_one : Option DomainState → ℕ
is_one = weight_of domain_ids is_allocated

is_one-le : (o : Option DomainState) → is_one o ≤ 1
is_one-le none = omega arith
is_one-le (some d) = ground arith

-- One turn of the loop, away from the bounds of the counter.
count_change-lem :
    (before after : Option DomainState) (n : ℕ)
    → (IsSome before → IsSome after)
    → is_one before ≤ n
    → suc n ≤ usize_max
    → count_change (was_allocated before) (was_allocated after) n + is_one before ≡ n + is_one after
unfolding count_change
count_change-lem none none n kept low high = refl
count_change-lem none (some a) n kept low high = ground arith
count_change-lem (some b) none n kept low high = absurd (kept tt)
count_change-lem (some b) (some a) n kept low high = ground arith

count_changes-lem :
    (before after : State) (ids : List DomainId) (n : ℕ)
    → ((id : DomainId) → IsSome (find_domain id before) → IsSome (find_domain id after))
    → count_at LandlockId-discrete is_allocated ids before.domains ≤ n
    → n + length ids ≤ usize_max
    → count_changes before after ids n
        + count_at LandlockId-discrete is_allocated ids before.domains
      ≡ n + count_at LandlockId-discrete is_allocated ids after.domains
unfolding count_changes
count_changes-lem before after [] n kept low high = refl
count_changes-lem before after (id ∷ ids) n kept low high =
    let b = find_domain id before in
    let a = find_domain id after in
    let one = count_change-lem b a n (kept id) (omega (arith, low)) (omega (arith, high)) in
    let m = count_change (was_allocated b) (was_allocated a) n in
    let rest =
      count_changes-lem before after ids m kept (omega (arith, one, low))
        (omega (arith, one, high, is_one-le a)) in
    omega (arith, one, rest)

process-allocated :
    {R : Type 0} (f : Formats R) (b : Batch) (event : Event)
    → b.allocated_domains ≡ allocated_in b.state
    → length b.state.domains + 3 ≤ usize_max
    → (process f b event).0.allocated_domains ≡ allocated_in (process f b event).0.state
unfolding process
process-allocated f b event h bound =
    let ids = affected_domain_ids event in
    let distinct = affected_domain_ids-IsDistinct event in
    let moves = apply-Moves ids distinct b.state event (affected_domain_ids-IsIn event) in
    let few = length-affected_domain_ids event in
    let low = count_at-le domain_ids is_allocated ids b.state.domains distinct in
    let high = count-length domain_ids is_allocated b.state.domains in
    let loop =
      count_changes-lem b.state (apply b.state event) ids b.allocated_domains moves.kept
        (omega (arith, h, low)) (omega (arith, h, high, few, bound)) in
    omega (arith, h, loop, moves.balanced)

process-longer : (s : State) (event : Event) → length s.domains ≤ length (apply s event).domains
process-longer s event =
    (apply-Moves (affected_domain_ids event) (affected_domain_ids-IsDistinct event) s event
      (affected_domain_ids-IsIn event)).longer

apply_all-longer :
    (s : State) (events : List Event) → length s.domains ≤ length (apply_all s events).domains
unfolding apply_all
apply_all-longer s [] = omega arith
apply_all-longer s (event ∷ events) =
    omega (arith, process-longer s event, apply_all-longer (apply s event) events)

process_all-lem :
    {R : Type 0} (f : Formats R) (b : Batch) (events : List Event)
    → b.allocated_domains ≡ allocated_in b.state
    → length (apply_all b.state events).domains + 3 ≤ usize_max
    → ((process_all f b events).state ≡ apply_all b.state events)
      × ((process_all f b events).allocated_domains ≡ allocated_in (process_all f b events).state)
      × ((process_all f b events).stats ≡ process_all_stats b.stats events)
unfolding process_all process apply_all process_all_stats
process_all-lem f b [] h bound = (refl, h, refl)
process_all-lem f b (event ∷ events) h bound =
    let longer = process-longer b.state event in
    let rest = apply_all-longer (apply b.state event) events in
    process_all-lem f (process f b event).0 events
      (process-allocated f b event h (omega (arith, longer, rest, bound))) bound

-- After every stream of events, as long as the state has three domains fewer than `usize` can
-- count, the batch's count of allocated domains is the number of allocated domains of its state,
-- its state is the one that the events give, and its counters are those of their denials.
pub process_all-allocated :
    {R : Type 0} (f : Formats R) (events : List Event)
    → length (apply_all state_new events).domains + 3 ≤ usize_max
    → let b = process_all f batch_new events in
      (b.state ≡ apply_all state_new events)
      × (b.allocated_domains ≡ allocated_in b.state)
      × (b.stats ≡ process_all_stats stats_default events)
process_all-allocated f events bound = process_all-lem f batch_new events refl bound
