-- ===== src/Lltop/ModeTests.antt =====
-- Tests and concrete instances for both modes of lltop (lltop/src).
use landlock_observability.Prelude.{
  ℕ, ◌+◌, ◌≤◌, ◌<◌, ◌≡◌, true, false, none, some, List, [], ◌∷◌, String, Result, ok, err, length,
  take, arith, min,
}
use landlock_observability.Map.{alter}
use landlock_observability.Event.Ids.{LandlockId-discrete}
use landlock_observability.Event.Kinds.{Event, free_domain}
use landlock_observability.State.Apply.{
  state_new, apply, apply_all, apply_denial, update_domain, with_placeholder,
}
use landlock_observability.Aggregate.Aggregator.{u64_max, default_capacity}
use landlock_observability.Aggregate.Tests.{denial}
use landlock_observability.Collector.Errors.{
  CollectorReceiveError, queue_full_error, worker_stop_error,
}
use landlock_observability.Collector.Receive.{ReceiveTimeoutError, TryReceiveError}
use landlock_observability.Lltop.Stats.{
  stats_default, process_all_stats, DenialKind, counter, denials_in, denials_of,
}
use landlock_observability.Lltop.Batch.{Formats, batch_new, process_all, usize_max}
use landlock_observability.Lltop.Allocated.{allocated_in, process_all-allocated}
use landlock_observability.Lltop.Main.{Outputs, Running, run_batch, is_warning}
use landlock_observability.Lltop.BatchLoop.{Follows, run_batch-Follows_all}
use landlock_observability.Lltop.App.{App, Rect, RowKind, app_new, viewport_scroll, place_list}
use landlock_observability.Lltop.Input.{Input, drag_position}
use landlock_observability.Lltop.View.{viewport_scroll-shows, drag_position-bounds}
use landlock_observability.Aggregate.Recency.{by_recency, log_all}
use landlock_observability.Lltop.Selection.{Session, session, IsSound, session-IsSound}
use landlock_observability.Lltop.Model.{
  model_new, model_observe_all, drain_ready_events, max_ready_events_per_cycle,
}
use landlock_observability.Lltop.Views.{
  IsUpTo, ready, model_observe_all-views, drain_ready_events-takes,
}

abbrev stream : List Event
stream =
    denial 10 80
    ∷ denial 12 81
    ∷ free_domain
        (record { timestamp = 20; domain_id = record { value = 0x1_0000_0001 }; denial_count = 1 })
    ∷ []

-- Records are numbered by their kind.
abbrev numbers : Formats ℕ
numbers = record {
  format_domain = λ d. 1;
  format_dropped = λ id version. 2;
  format_denial = λ kind denial. some 3;
  format_stats = λ allocated count stats. 4;
  same_record = λ a b. true;
}

few_domains : length (apply_all state_new stream).domains + 3 ≤ usize_max
unfolding apply_all apply apply_denial update_domain with_placeholder alter LandlockId-discrete
few_domains = omega arith

process_all-allocated_example :
    let b = process_all numbers batch_new stream in
    (b.state ≡ apply_all state_new stream)
    × (b.allocated_domains ≡ allocated_in b.state)
    × (b.stats ≡ process_all_stats stats_default stream)
process_all-allocated_example = process_all-allocated numbers stream few_domains

abbrev counted : Outputs ℕ ℕ ℕ ℕ
counted = record {
  write = λ r n. (n + 1, ok tt);
  flush = λ n. (n, ok tt);
  write_warning = λ error n. (n, ok tt);
}

abbrev receives_of_batch : List (Result (ReceiveTimeoutError ℕ) Event)
receives_of_batch =
    ok (denial 10 80)
    ∷ err ReceiveTimeoutError.timeout
    ∷ err (ReceiveTimeoutError.collector queue_full_error)
    ∷ ok (denial 12 81)
    ∷ err (ReceiveTimeoutError.collector worker_stop_error)
    ∷ []

run_batch-Follows_all_example :
    Follows numbers counted batch_new receives_of_batch
      (run_batch numbers counted (Running.going_on batch_new 0) receives_of_batch)
run_batch-Follows_all_example = run_batch-Follows_all numbers counted batch_new 0 receives_of_batch

viewport_scroll-shows_example :
    let top = viewport_scroll 2 30 10 (some 25) true in
    ((top ≤ 25) × (25 < top + 10))
    × (top ≤ 20)
    × (2 ≤ 25 → 25 < 2 + 10 → top ≡ 2)
    × (viewport_scroll 2 30 10 (some 25) false ≡ 2)
viewport_scroll-shows_example =
    viewport_scroll-shows 2 30 10 25 (omega arith) (omega arith) (omega arith)

drag_position-bounds_example :
    (drag_position 10 4 7 50 ≤ 40)
    × ((lower : ℕ) → 7 ≤ lower → drag_position 10 4 7 50 ≤ drag_position 10 4 lower 50)
    × (7 ≤ 4 → drag_position 10 4 7 50 ≡ 0)
    × (◌≡◌ {A = ℕ} 10 1 → drag_position 10 4 7 50 ≡ 0)
    × (2 ≤ 10 → 14 ≤ 8 → drag_position 10 4 7 50 ≡ 40)
drag_position-bounds_example =
    drag_position-bounds 10 4 7 50 (omega arith) (omega arith) (omega arith)

abbrev pane : Rect
pane = record { x = 0; y = 3; width = 40; height = 12 }

abbrev listed_rows : List RowKind
listed_rows =
    RowKind.heading_row
    ∷ RowKind.domain_row (record { value = 0x1_0000_0001 })
    ∷ RowKind.domain_row (record { value = 0x1_0000_0002 })
    ∷ []

abbrev drawn_app : App
drawn_app = place_list pane listed_rows app_new

session-IsSound_example : IsSound (
    session (some app_new) (
      Session.drawn pane listed_rows
      ∷ Session.handled state_new Input.down
      ∷ Session.handled state_new (Input.press 5 4 none)
      ∷ []))
session-IsSound_example = session-IsSound (
    Session.drawn pane listed_rows
    ∷ Session.handled state_new Input.down
    ∷ Session.handled state_new (Input.press 5 4 none)
    ∷ [])

model_observe_all-views_example :
    let m = model_observe_all model_new stream in
    ((m.state ≡ apply_all state_new stream)
      × (m.stats ≡ process_all_stats stats_default stream)
      × (m.stats.total_denials ≡ min (denials_in stream) u64_max)
      × ((kind : DenialKind) → counter kind m.stats.denials ≡ min (denials_of kind stream) u64_max)
      × (by_recency m.denials.entries ≡ log_all default_capacity [] stream))
    × (IsUpTo m.latest_seen stream × ((n : ℕ) → IsUpTo n stream → m.latest_seen ≤ n))
model_observe_all-views_example = model_observe_all-views stream

abbrev receives_of_cycle : List (Result (TryReceiveError ℕ) Event)
receives_of_cycle =
    ok (denial 10 80)
    ∷ err (TryReceiveError.collector queue_full_error)
    ∷ ok (denial 12 81)
    ∷ err TryReceiveError.empty
    ∷ []

abbrev shown_text : CollectorReceiveError ℕ → String
shown_text error = "collector error"

drain_ready_events-takes_example :
    let d = drain_ready_events shown_text app_new model_new 0 receives_of_cycle in
    let seen = take max_ready_events_per_cycle (ready receives_of_cycle) in
    (d.model ≡ model_observe_all model_new seen)
    × ((n : ℕ) → d.result ≡ ok n → n ≡ length seen)
    × ((e : CollectorReceiveError ℕ) → d.result ≡ err e → is_warning e.kind ≡ false)
drain_ready_events-takes_example =
    drain_ready_events-takes shown_text app_new model_new receives_of_cycle
