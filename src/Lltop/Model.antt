-- ===== src/Lltop/Model.antt =====
-- What lltop's interactive mode knows of the events (lltop/src/tui/model.rs, `ObservationModel`), and
-- how it takes them from the collector (lltop/src/tui/mod.rs, `drain_ready_events`,
-- `handle_collector_error`).
use landlock_observability.Prelude.{
  ℕ, suc, ◌-◌, Bool, true, false, Option, some, List, [], ◌∷◌, String, max, Result, err, ok, ltb,
  if◌then◌else◌,
}
use landlock_observability.Event.Ids.{KernelTimestamp, LandlockId-discrete}
use landlock_observability.Event.Kinds.{
  Event, timestamp, deny_access_fs, deny_access_net, deny_ptrace, deny_scope_signal,
  deny_scope_abstract_unix_socket,
}
use landlock_observability.State.Apply.{State, state_new, apply}
use landlock_observability.State.Rulesets.{RulesetState}
use landlock_observability.State.Facts.{LifecycleState}
use landlock_observability.Aggregate.Aggregator.{
  AggregatedDenial, DenialAggregator, aggregator_new, observe, u64_max, saturating_add,
}
use landlock_observability.Collector.Errors.{CollectorReceiveErrorKind, CollectorReceiveError}
use landlock_observability.Collector.Receive.{TryReceiveError}
use landlock_observability.Lltop.Stats.{Counters, Stats, stats_default}
use landlock_observability.Lltop.Batch.{is_allocated}
use landlock_observability.Lltop.App.{App, set_collector_warning}
use landlock_observability.Lltop.Counting.{count}

-- The two fields of this mode's own `Stats` are those of the batch mode's.
pub record ObservationModel : Type 0 where
  pub state : State
  pub denials : DenialAggregator
  pub stats : Stats
  pub latest_seen : KernelTimestamp

abbrev pub model_new : ObservationModel
model_new = record {
  state = state_new;
  denials = aggregator_new;
  stats = stats_default;
  latest_seen = 0;
}

abbrev pub plus_one : ℕ → ℕ
plus_one count = saturating_add u64_max count 1

abbrev pub counted : Stats → Counters → Stats
counted s by_kind = record { total_denials = plus_one s.total_denials; denials = by_kind }

-- The `match` that picks a counter, and `if let Some(count) = count { … }`.
unfoldable pub count_denial : Event → Stats → Stats
count_denial (deny_access_fs e) s = counted s (record s.denials { fs = plus_one s.denials.fs })
count_denial (deny_access_net e) s = counted s (record s.denials { net = plus_one s.denials.net })
count_denial (deny_ptrace e) s = counted s (record s.denials { ptrace = plus_one s.denials.ptrace })
count_denial (deny_scope_signal e) s =
    counted s (record s.denials { signal = plus_one s.denials.signal })
count_denial (deny_scope_abstract_unix_socket e) s =
    counted s (record s.denials { abstract_unix = plus_one s.denials.abstract_unix })
count_denial _ s = s

-- `ObservationModel::observe`
unfoldable pub model_observe : ObservationModel → Event → ObservationModel
unfolding count_denial
model_observe m event = record {
  state = apply m.state event;
  denials = observe m.denials event;
  stats = count_denial event m.stats;
  latest_seen = max m.latest_seen (timestamp event);
}

-- `allocated_domains` and `allocated_rulesets`
abbrev pub allocated_domains : ObservationModel → ℕ
allocated_domains m = count LandlockId-discrete is_allocated m.state.domains

abbrev pub is_allocated_ruleset : RulesetState → Bool
is_allocated_ruleset r = elim r.lifecycle [
  | LifecycleState.allocated ↦ true
  | LifecycleState.deallocated ↦ false
]

abbrev pub allocated_rulesets : ObservationModel → ℕ
allocated_rulesets m = count LandlockId-discrete is_allocated_ruleset m.state.rulesets

-- `denial_age_ns`
unfoldable pub denial_age_ns : ObservationModel → AggregatedDenial → ℕ
denial_age_ns m denial = m.latest_seen - denial.latest_timestamp

unfoldable pub model_observe_all : ObservationModel → List Event → ObservationModel
unfolding model_observe
model_observe_all m [] = m
model_observe_all m (event ∷ events) = model_observe_all (model_observe m event) events

abbrev pub max_ready_events_per_cycle : ℕ
max_ready_events_per_cycle = 1024

unfoldable pub recoverable_collector_error : Option CollectorReceiveErrorKind → Bool
recoverable_collector_error (some CollectorReceiveErrorKind.output_queue_full) = true
recoverable_collector_error (some CollectorReceiveErrorKind.malformed_sample) = true
recoverable_collector_error _ = false

-- What a cycle leaves: the app, the model, and the number of events or a fatal error.
pub record Drained (E : Type 0) : Type 0 where
  pub app : App
  pub model : ObservationModel
  pub result : Result (CollectorReceiveError E) ℕ

module _ {E : Type 0} (to_string : CollectorReceiveError E → String) where
  -- `drain_ready_events`, for what the receives give in turn; after these nothing is ready. A
  -- recoverable error of `handle_collector_error` is shown and not counted.
  unfoldable pub drain_ready_events :
      App → ObservationModel → ℕ → List (Result (TryReceiveError E) Event) → Drained E
  drain_ready_events app m count [] = record { app = app; model = m; result = ok count }
  drain_ready_events app m count (ok event ∷ results) =
      let rest = drain_ready_events app (model_observe m event) (suc count) results in
      if ltb count max_ready_events_per_cycle
      then rest
      else record { app = app; model = m; result = ok count }
  drain_ready_events app m count (err TryReceiveError.empty ∷ results) = record {
    app = app;
    model = m;
    result = ok count;
  }
  drain_ready_events app m count (err (TryReceiveError.collector error) ∷ results) =
      let rest = drain_ready_events (set_collector_warning (to_string error) app) m count results in
      if ltb count max_ready_events_per_cycle
      then if recoverable_collector_error (some error.kind)
        then rest
        else record { app = app; model = m; result = err error }
      else record { app = app; model = m; result = ok count }
