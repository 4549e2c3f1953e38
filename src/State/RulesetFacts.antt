-- ===== src/State/RulesetFacts.antt =====
-- What each event says of a ruleset, read off the event alone (src/state.rs).
use landlock_observability.Prelude.{ℕ, ◌≡◌, sym, Option, none, some, arith}
use landlock_observability.Event.Ids.{RulesetId, LandlockId-discrete}
use landlock_observability.Event.Kinds.{
  CreateRulesetEvent, AddRulePathBeneathEvent, AddRuleNetPortEvent, FreeRulesetEvent, Event,
  create_ruleset, add_rule_path_beneath, add_rule_net_port, create_domain, free_ruleset,
}
use landlock_observability.State.Facts.{
  LifecycleState, update_max, marked_allocated, update_latest_timestamp,
}
use landlock_observability.State.Rulesets.{
  RulesetState, ruleset_state_new, note_used, note_created, note_path_rule, note_port_rule,
  note_freed,
}
use landlock_observability.State.Apply.{State, apply, find_ruleset}
use landlock_observability.State.Tally.{
  Join, max_option, max_option_comm, max_option_assoc, max_option-none, stronger, stronger_comm,
  stronger_assoc, stronger-none, about, view-alter,
}

-- The facts of a ruleset that only grow.
pub record RulesetSummary : Type 0 where
  pub lifecycle : Option LifecycleState
  pub max_observed_version : Option ℕ
  pub final_version : Option ℕ
  pub free_timestamp : Option ℕ

abbrev pub nothing : RulesetSummary
nothing = record {
  lifecycle = none;
  max_observed_version = none;
  final_version = none;
  free_timestamp = none;
}

abbrev pub both : RulesetSummary → RulesetSummary → RulesetSummary
both a b = record {
  lifecycle = stronger a.lifecycle b.lifecycle;
  max_observed_version = max_option a.max_observed_version b.max_observed_version;
  final_version = max_option a.final_version b.final_version;
  free_timestamp = max_option a.free_timestamp b.free_timestamp;
}

pub both_comm : (a b : RulesetSummary) → both a b ≡ both b a
both_comm a b = λ i. record {
  lifecycle = stronger_comm a.lifecycle b.lifecycle i;
  max_observed_version = max_option_comm a.max_observed_version b.max_observed_version i;
  final_version = max_option_comm a.final_version b.final_version i;
  free_timestamp = max_option_comm a.free_timestamp b.free_timestamp i;
}

pub both_assoc : (a b c : RulesetSummary) → both (both a b) c ≡ both a (both b c)
both_assoc a b c = λ i. record {
  lifecycle = stronger_assoc a.lifecycle b.lifecycle c.lifecycle i;
  max_observed_version =
      max_option_assoc a.max_observed_version b.max_observed_version c.max_observed_version i;
  final_version = max_option_assoc a.final_version b.final_version c.final_version i;
  free_timestamp = max_option_assoc a.free_timestamp b.free_timestamp c.free_timestamp i;
}

pub both-nothing : (a : RulesetSummary) → both a nothing ≡ a
both-nothing a = λ i. record {
  lifecycle = stronger-none a.lifecycle i;
  max_observed_version = max_option-none a.max_observed_version i;
  final_version = max_option-none a.final_version i;
  free_timestamp = max_option-none a.free_timestamp i;
}

abbrev pub summary_join : Join RulesetSummary
summary_join = record {
  unit = nothing;
  join = both;
  join_comm = both_comm;
  join_assoc = both_assoc;
  join_unit = both-nothing;
  is_set = hlevel;
}

-- An event that uses a ruleset at a version, and one that frees it.
abbrev pub used_at : ℕ → RulesetSummary
used_at version = record nothing {
  lifecycle = some LifecycleState.allocated;
  max_observed_version = some version;
}

abbrev pub freed_at : ℕ → ℕ → RulesetSummary
freed_at version timestamp = record {
  lifecycle = some LifecycleState.deallocated;
  max_observed_version = some version;
  final_version = some version;
  free_timestamp = some timestamp;
}

-- What an event says of the ruleset `id`.
abbrev pub ruleset_said : RulesetId → Event → RulesetSummary
ruleset_said id (create_ruleset e) =
    about summary_join LandlockId-discrete id e.ruleset_id (used_at e.ruleset_version)
ruleset_said id (add_rule_path_beneath e) =
    about summary_join LandlockId-discrete id e.ruleset_id (used_at e.ruleset_version)
ruleset_said id (add_rule_net_port e) =
    about summary_join LandlockId-discrete id e.ruleset_id (used_at e.ruleset_version)
ruleset_said id (create_domain e) =
    about summary_join LandlockId-discrete id e.ruleset_id (used_at e.ruleset_version)
ruleset_said id (free_ruleset e) =
    about summary_join LandlockId-discrete id e.ruleset_id (freed_at e.ruleset_version e.timestamp)
ruleset_said id _ = nothing

-- The same facts, as the state holds them.
abbrev pub summary : Option RulesetState → RulesetSummary
summary none = nothing
summary (some r) = record {
  lifecycle = some r.lifecycle;
  max_observed_version = some r.max_observed_version;
  final_version = r.final_version;
  free_timestamp = r.free_timestamp;
}

abbrev pub ruleset_summary : RulesetId → State → RulesetSummary
ruleset_summary id s = summary (find_ruleset id s)

used-both :
    (v : ℕ) (r : RulesetState)
    → summary (some (note_used v r)) ≡ both (summary (some r)) (used_at v)
unfolding note_used marked_allocated
used-both v r = ground arith

used-new :
    (id : RulesetId) (v : ℕ)
    → summary (some (note_used v (ruleset_state_new id LifecycleState.allocated v))) ≡ used_at v
unfolding note_used marked_allocated
used-new id v = ground arith

created-both :
    (e : CreateRulesetEvent) (r : RulesetState)
    → summary (some (note_created e r)) ≡ both (summary (some r)) (used_at e.ruleset_version)
unfolding note_created marked_allocated
created-both e r = ground arith

freed-both :
    (e : FreeRulesetEvent) (r : RulesetState)
    → summary (some (note_freed e r))
      ≡ both (summary (some r)) (freed_at e.ruleset_version e.timestamp)
unfolding note_freed update_max update_latest_timestamp
freed-both e r = ground arith

created-new :
    (e : CreateRulesetEvent)
    → summary (
        some (
          note_created e
            (ruleset_state_new e.ruleset_id LifecycleState.allocated e.ruleset_version)))
      ≡ used_at e.ruleset_version
unfolding note_created marked_allocated
created-new e = ground arith

freed-new :
    (e : FreeRulesetEvent)
    → summary (
        some (
          note_freed e
            (ruleset_state_new e.ruleset_id LifecycleState.deallocated e.ruleset_version)))
      ≡ freed_at e.ruleset_version e.timestamp
unfolding note_freed update_max update_latest_timestamp
freed-new e = ground arith

path_rule-both :
    (e : AddRulePathBeneathEvent) (r : RulesetState)
    → summary (some (note_path_rule e r)) ≡ both (summary (some r)) (used_at e.ruleset_version)
unfolding note_path_rule
path_rule-both e r = used-both e.ruleset_version r

path_rule-new :
    (e : AddRulePathBeneathEvent)
    → summary (
        some (
          note_path_rule e
            (ruleset_state_new e.ruleset_id LifecycleState.allocated e.ruleset_version)))
      ≡ used_at e.ruleset_version
unfolding note_path_rule
path_rule-new e = used-new e.ruleset_id e.ruleset_version

port_rule-both :
    (e : AddRuleNetPortEvent) (r : RulesetState)
    → summary (some (note_port_rule e r)) ≡ both (summary (some r)) (used_at e.ruleset_version)
unfolding note_port_rule
port_rule-both e r = used-both e.ruleset_version r

port_rule-new :
    (e : AddRuleNetPortEvent)
    → summary (
        some (
          note_port_rule e
            (ruleset_state_new e.ruleset_id LifecycleState.allocated e.ruleset_version)))
      ≡ used_at e.ruleset_version
unfolding note_port_rule
port_rule-new e = used-new e.ruleset_id e.ruleset_version

-- One step: `apply` joins what the event says.
pub ruleset_summary-apply :
    (id : RulesetId) (s : State) (e : Event)
    → ruleset_summary id (apply s e) ≡ both (ruleset_summary id s) (ruleset_said id e)
unfolding apply
ruleset_summary-apply id s (create_ruleset e) =
    view-alter summary_join LandlockId-discrete summary id e.ruleset_id _ (note_created e) _
      (created-new e) (created-both e) s.rulesets
ruleset_summary-apply id s (add_rule_path_beneath e) =
    view-alter summary_join LandlockId-discrete summary id e.ruleset_id _ (note_path_rule e) _
      (path_rule-new e) (path_rule-both e) s.rulesets
ruleset_summary-apply id s (add_rule_net_port e) =
    view-alter summary_join LandlockId-discrete summary id e.ruleset_id _ (note_port_rule e) _
      (port_rule-new e) (port_rule-both e) s.rulesets
ruleset_summary-apply id s (create_domain e) =
    view-alter summary_join LandlockId-discrete summary id e.ruleset_id _
      (note_used e.ruleset_version) _ (used-new e.ruleset_id e.ruleset_version)
      (used-both e.ruleset_version) s.rulesets
ruleset_summary-apply id s (free_ruleset e) =
    view-alter summary_join LandlockId-discrete summary id e.ruleset_id _ (note_freed e) _
      (freed-new e) (freed-both e) s.rulesets
ruleset_summary-apply id s _ = sym (both-nothing (ruleset_summary id s))
