-- ===== src/Lltop/Batch.antt =====
-- The batch mode of lltop (lltop/src/batch.rs): `Batch`, `Batch::process` and
-- `Batch::process_and_write`. The text of the records is a parameter.
use landlock_observability.Prelude.{
  ℕ, ◌-◌, Bool, true, false, ◌&&◌, Option, none, some, List, [], ◌∷◌, ◌++◌, Result, err, ok, length,
  ltb, ◌==◌, if◌then◌else◌,
}
use landlock_observability.Event.Ids.{DomainId, RulesetId}
use landlock_observability.Event.Kinds.{
  DomainMembership, DenialContext, Event, create_ruleset, add_rule_path_beneath, add_rule_net_port,
  create_domain, deny_access_fs, deny_access_net, deny_ptrace, deny_scope_signal,
  deny_scope_abstract_unix_socket, free_domain, free_ruleset, enforce_domain,
}
use landlock_observability.State.Facts.{LifecycleState}
use landlock_observability.State.Rulesets.{RulesetState}
use landlock_observability.State.Domains.{DomainState}
use landlock_observability.State.Apply.{
  State, state_new, apply, find_domain, find_ruleset, sandboxed_id,
}
use landlock_observability.Aggregate.Aggregator.{
  AggregatedDenial, DenialAggregator, aggregator_new, observe_entry, u64_max, saturating_add,
}
use landlock_observability.Lltop.Stats.{DenialKind, from_event, Stats, stats_default, process_stats}

-- `usize::MAX`, of 64 bits.
abbrev pub usize_max : ℕ
usize_max = u64_max

-- The functions that write a record, and the equality of records.
pub record Formats (R : Type 0) : Type 0 where
  pub format_domain : DomainState → R
  pub format_dropped : RulesetId → ℕ → R
  pub format_denial : DenialKind → AggregatedDenial → Option R
  pub format_stats : ℕ → ℕ → Stats → R
  pub same_record : R → R → Bool

pub record Batch : Type 0 where
  pub state : State
  pub denials : DenialAggregator
  pub stats : Stats
  pub allocated_domains : ℕ

-- `Batch::new`
abbrev pub batch_new : Batch
batch_new = record {
  state = state_new;
  denials = aggregator_new;
  stats = stats_default;
  allocated_domains = 0;
}

abbrev pub opt_list {ℓ} : {A : Type ℓ} → Option A → List A
opt_list none = []
opt_list (some a) = a ∷ []

-- `add_denial`
abbrev pub add_denial : DenialContext → Option DomainMembership → List DomainId
add_denial c membership =
    c.hierarchy.domain_id ∷ opt_list c.hierarchy.parent_id ++ opt_list (sandboxed_id membership)

-- The identities that an event names, in the order of the code.
abbrev pub named_ids : Event → List DomainId
named_ids (create_domain e) = e.domain_id ∷ opt_list e.parent_id
named_ids (free_domain e) = e.domain_id ∷ []
named_ids (enforce_domain e) = e.domain_id ∷ []
named_ids (deny_access_fs e) = add_denial e.context none
named_ids (deny_access_net e) = add_denial e.context none
named_ids (deny_ptrace e) = add_denial e.context (some e.tracee_domain)
named_ids (deny_scope_signal e) = add_denial e.context (some e.target_domain)
named_ids (deny_scope_abstract_unix_socket e) = add_denial e.context (some e.peer_domain)
named_ids (create_ruleset e) = []
named_ids (add_rule_path_beneath e) = []
named_ids (add_rule_net_port e) = []
named_ids (free_ruleset e) = []

-- `sort_unstable_by_key(|id| id.get())`
unfoldable pub place_id : DomainId → List DomainId → List DomainId
place_id x [] = x ∷ []
place_id x (y ∷ ids) =
    let rest = place_id x ids in if ltb y.value x.value then y ∷ rest else x ∷ y ∷ ids

unfoldable pub sort_ids : List DomainId → List DomainId
unfolding place_id
sort_ids [] = []
sort_ids (x ∷ ids) = place_id x (sort_ids ids)

-- `dedup`, with the element before.
unfoldable pub dedup_after : DomainId → List DomainId → List DomainId
dedup_after x [] = []
dedup_after x (y ∷ ids) =
    let rest = dedup_after y ids in if x.value == y.value then rest else y ∷ rest

abbrev pub dedup : List DomainId → List DomainId
dedup [] = []
dedup (x ∷ ids) = x ∷ dedup_after x ids

unfoldable pub affected_domain_ids : Event → List DomainId
unfolding sort_ids dedup_after
affected_domain_ids event = dedup (sort_ids (named_ids event))

-- `deallocated_ruleset_identity`: the identity with its final version.
abbrev pub final_identity : RulesetState → Option ℕ
final_identity r = elim r.lifecycle [
  | LifecycleState.allocated ↦ none
  | LifecycleState.deallocated ↦ r.final_version
]

abbrev pub deallocated_ruleset_identity : State → RulesetId → Option ℕ
deallocated_ruleset_identity s id = elim (find_ruleset id s) [
  | none ↦ none
  | some r ↦ final_identity r
]

abbrev pub is_allocated : DomainState → Bool
is_allocated d = elim d.lifecycle [
  | LifecycleState.allocated ↦ true
  | LifecycleState.deallocated ↦ false
]

abbrev pub was_allocated : Option DomainState → Option Bool
was_allocated none = none
was_allocated (some d) = some (is_allocated d)

-- The first `match` of the loop.
unfoldable pub count_change : Option Bool → Option Bool → ℕ → ℕ
count_change (some true) (some false) n = n - 1
count_change (some true) (some true) n = n
count_change (some true) none n = n
count_change (some false) (some true) n = saturating_add usize_max n 1
count_change (some false) (some false) n = n
count_change (some false) none n = n
count_change none (some true) n = saturating_add usize_max n 1
count_change none (some false) n = n
count_change none none n = n

-- The loop over the affected domains, with the states before and after.
unfoldable pub count_changes : State → State → List DomainId → ℕ → ℕ
unfolding count_change
count_changes before after [] n = n
count_changes before after (id ∷ ids) n =
    count_changes before after ids (
      count_change (was_allocated (find_domain id before)) (was_allocated (find_domain id after)) n)

module _ {R : Type 0} (f : Formats R) where
  abbrev pub formatted : Option DomainState → Option R
  formatted none = none
  formatted (some d) = some (f.format_domain d)

  abbrev pub same_formatted : Option R → Option R → Bool
  same_formatted none none = true
  same_formatted none (some r) = false
  same_formatted (some r) none = false
  same_formatted (some r) (some q) = f.same_record r q

  unfoldable pub domain_records : State → State → List DomainId → List R
  domain_records before after [] = []
  domain_records before after (id ∷ ids) =
      let current = formatted (find_domain id after) in
      let previous = formatted (find_domain id before) in
      (if same_formatted current previous then [] else opt_list current)
      ++ domain_records before after ids

  abbrev pub drop_of : RulesetId → Option ℕ → Option ℕ → List R
  drop_of id none previous = []
  drop_of id (some version) none = f.format_dropped id version ∷ []
  drop_of id (some version) (some previous) =
      if version == previous then [] else f.format_dropped id version ∷ []

  unfoldable pub drop_records : State → State → Event → List R
  drop_records before after (free_ruleset e) =
      drop_of e.ruleset_id (deallocated_ruleset_identity after e.ruleset_id)
        (deallocated_ruleset_identity before e.ruleset_id)
  drop_records before after _ = []

  abbrev pub denial_record : Option DenialKind → Option AggregatedDenial → List R
  denial_record none o = []
  denial_record (some kind) none = []
  denial_record (some kind) (some denial) = opt_list (f.format_denial kind denial)

  -- `if let Some(kind) = …`: the aggregator only sees denials.
  abbrev pub observed_if :
      Option DenialKind → DenialAggregator → Event → DenialAggregator × Option AggregatedDenial
  observed_if none a event = (a, none)
  observed_if (some kind) a event = observe_entry a event

  abbrev pub is_empty : List R → Bool
  is_empty [] = true
  is_empty (r ∷ rs) = false

  -- `Batch::process`
  unfoldable pub process : Batch → Event → Batch × List R
  unfolding affected_domain_ids count_changes domain_records drop_records
  process b event =
      let ids = affected_domain_ids event in
      let after : State = apply b.state event in
      let kind = from_event event in
      let observed = observed_if kind b.denials event in
      let stats : Stats = process_stats b.stats kind in
      let allocated = count_changes b.state after ids b.allocated_domains in
      let records =
        domain_records b.state after ids
        ++ (drop_records b.state after event ++ denial_record kind observed.1) in
      let count = length after.domains in
      let unchanged = allocated == b.allocated_domains && count == length b.state.domains in
      (
        record {
          state = after;
          denials = observed.0;
          stats = stats;
          allocated_domains = allocated;
        },
        if is_empty records && unchanged
            then records
            else records ++ f.format_stats allocated count stats ∷ [],
      )

  -- `process_and_write`, over an output `W` with `writeln!` and `flush`.
  unfoldable pub write_all :
      {W E : Type 0} → (R → W → W × Result E Unit) → List R → W → W × Result E Unit
  write_all write [] w = (w, ok tt)
  write_all write (r ∷ rs) w =
      let o = write r w in elim o.1 [ err error ↦ (o.0, err error) | ok u ↦ write_all write rs o.0 ]

  abbrev pub then_flush :
      {W E : Type 0} → (W → W × Result E Unit) → W × Result E Unit → W × Result E Unit
  then_flush flush (w, err error) = (w, err error)
  then_flush flush (w, ok u) = flush w

  unfoldable pub process_and_write :
      {W E : Type 0}
      → (R → W → W × Result E Unit)
      → (W → W × Result E Unit)
      → Batch
      → Event
      → W
      → Batch × (W × Result E Unit)
  unfolding process write_all
  process_and_write write flush b event w =
      let r = process b event in
      (r.0, if is_empty r.1 then (w, ok tt) else then_flush flush (write_all write r.1 w))

  unfoldable pub process_all : Batch → List Event → Batch
  unfolding process
  process_all b [] = b
  process_all b (event ∷ events) = process_all (process b event).0 events
