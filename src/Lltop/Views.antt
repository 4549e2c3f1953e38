-- ===== src/Lltop/Views.antt =====
-- The views of lltop's interactive mode (lltop/src/tui/model.rs, and `drain_ready_events` of mod.rs)
-- after a stream of events.
use landlock_observability.Prelude.{
  ℕ, zero, suc, ◌+◌, ◌≤◌, ◌<◌, ◌≡◌, refl, sym, ap, ◌∙◌, true, false, some, List, [], ◌∷◌, String,
  length, take, arith, Result, err, ok, if◌then◌else◌, inl, inr, Bool-cases, All, min,
}
use landlock_observability.Event.Kinds.{Event, timestamp}
use landlock_observability.State.Apply.{apply_all}
use landlock_observability.Aggregate.Aggregator.{observe_all, u64_max, default_capacity}
use landlock_observability.Aggregate.Recency.{by_recency, log_all}
use landlock_observability.Aggregate.Stream.{observe_all-log}
use landlock_observability.Collector.Errors.{CollectorReceiveErrorKind, CollectorReceiveError}
use landlock_observability.Collector.Receive.{TryReceiveError}
use landlock_observability.Lltop.Stats.{
  count_one, Stats, from_event, process_stats, process_all_stats, DenialKind, counter, denials_in,
  denials_of, process_all_stats-counts, stats_observe,
}
use landlock_observability.Lltop.App.{App, set_collector_warning}
use landlock_observability.Lltop.Main.{is_warning}
use landlock_observability.Lltop.Model.{
  ObservationModel, model_new, model_observe, model_observe_all, count_denial, Drained,
  recoverable_collector_error, drain_ready_events, max_ready_events_per_cycle,
}

-- Both modes count an event alike.
count_denial-process :
    (event : Event) (s : Stats) → count_denial event s ≡ process_stats s (from_event event)
unfolding count_denial process_stats stats_observe from_event count_one
count_denial-process event s = ground arith

recoverable-is_warning :
    (kind : CollectorReceiveErrorKind) → recoverable_collector_error (some kind) ≡ is_warning kind
unfolding recoverable_collector_error is_warning
recoverable-is_warning kind = ground arith

-- Every timestamp is at most `n`.
abbrev pub IsUpTo : ℕ → List Event → Type 0
IsUpTo n events = All (λ event. timestamp event ≤ n) events

latest_seen-le :
    (m : ObservationModel) (events : List Event)
    → m.latest_seen ≤ (model_observe_all m events).latest_seen
unfolding model_observe_all model_observe
latest_seen-le m [] = omega arith
latest_seen-le m (event ∷ events) = omega (arith, latest_seen-le (model_observe m event) events)

latest_seen-IsUpTo :
    (m : ObservationModel) (events : List Event)
    → IsUpTo (model_observe_all m events).latest_seen events
unfolding model_observe_all model_observe
latest_seen-IsUpTo m [] = tt
latest_seen-IsUpTo m (event ∷ events) = (
  omega (arith, latest_seen-le (model_observe m event) events),
  latest_seen-IsUpTo (model_observe m event) events,
)

latest_seen-least :
    (m : ObservationModel) (events : List Event) (n : ℕ)
    → m.latest_seen ≤ n
    → IsUpTo n events
    → (model_observe_all m events).latest_seen ≤ n
unfolding model_observe_all model_observe
latest_seen-least m [] n h up = h
latest_seen-least m (event ∷ events) n h up =
    latest_seen-least (model_observe m event) events n (omega (arith, h, up.0)) up.1

views-lem :
    (m : ObservationModel) (events : List Event)
    → ((model_observe_all m events).state ≡ apply_all m.state events)
      × ((model_observe_all m events).denials ≡ observe_all m.denials events)
      × ((model_observe_all m events).stats ≡ process_all_stats m.stats events)
unfolding model_observe_all model_observe apply_all observe_all process_all_stats
views-lem m [] = (refl, refl, refl)
views-lem m (event ∷ events) =
    let rest = views-lem (model_observe m event) events in
    (
      rest.0,
      rest.1,
      rest.2 ∙ ap (λ s. process_all_stats s events) (count_denial-process event m.stats),
    )

-- After every stream of events the interactive mode has the state that the events give, the same
-- counters as the batch mode, which are the numbers of denials up to the greatest `u64`, the log of the
-- denials at the default capacity, from the least to the most recently observed, and the greatest
-- timestamp among the events as the latest.
pub model_observe_all-views :
    (events : List Event)
    → let m = model_observe_all model_new events in
      ((m.state ≡ apply_all model_new.state events)
        × (m.stats ≡ process_all_stats model_new.stats events)
        × (m.stats.total_denials ≡ min (denials_in events) u64_max)
        × ((kind : DenialKind)
            → counter kind m.stats.denials ≡ min (denials_of kind events) u64_max)
        × (by_recency m.denials.entries ≡ log_all default_capacity [] events))
      × (IsUpTo m.latest_seen events × ((n : ℕ) → IsUpTo n events → m.latest_seen ≤ n))
model_observe_all-views events =
    let views = views-lem model_new events in
    let counts = process_all_stats-counts events in
    (
      (
        views.0,
        views.2,
        ap (λ s. s.total_denials) views.2 ∙ counts.0,
        λ kind. ap (λ s. counter kind s.denials) views.2 ∙ counts.1 kind,
        ap (λ d. by_recency d.entries) views.1
            ∙ observe_all-log default_capacity (omega arith) (omega arith) events,
      ),
      (
        latest_seen-IsUpTo model_new events,
        λ n up. latest_seen-least model_new events n (omega arith) up,
      ),
    )

-- The events that are ready: those before the first result that is empty or a fatal error.
abbrev pub ready : {E : Type 0} → List (Result (TryReceiveError E) Event) → List Event
ready [] = []
ready (ok event ∷ results) = event ∷ ready results
ready (err TryReceiveError.empty ∷ results) = []
ready (err (TryReceiveError.collector error) ∷ results) =
    if is_warning error.kind then ready results else []

module _ {E : Type 0} (to_string : CollectorReceiveError E → String) where
  abbrev Drains : ObservationModel → ℕ → List Event → Drained E → Type 0
  Drains m count seen d =
      (d.model ≡ model_observe_all m seen)
      × ((n : ℕ) → d.result ≡ ok n → n ≡ count + length seen)
      × ((e : CollectorReceiveError E) → d.result ≡ err e → is_warning e.kind ≡ false)

  Drains-stop :
      (app : App) (m : ObservationModel) (count : ℕ)
      → Drains m count [] (record { app = app; model = m; result = ok count })
  unfolding model_observe_all
  Drains-stop app m count = (refl, λ n h. ground arith, λ e h. absurd (ground arith))

  Drains-end :
      (app : App) (m : ObservationModel) (count : ℕ)
      → Drains m count [] (drain_ready_events to_string app m count [])
  unfolding drain_ready_events
  Drains-end app m count = Drains-stop app m count

  Drains-empty :
      (app : App) (m : ObservationModel) (count : ℕ)
      (results : List (Result (TryReceiveError E) Event))
      → Drains m count []
          (drain_ready_events to_string app m count (err TryReceiveError.empty ∷ results))
  unfolding drain_ready_events
  Drains-empty app m count results = Drains-stop app m count

  Drains-fatal :
      (app : App) (m : ObservationModel) (count : ℕ) (error : CollectorReceiveError E)
      → is_warning error.kind ≡ false
      → Drains m count [] (record { app = app; model = m; result = err error })
  unfolding model_observe_all
  Drains-fatal app m count error fatal = (
    refl,
    λ n h. absurd (ground arith),
    λ e h. let same : error ≡ e = ground arith in ap (λ x. is_warning x.kind) (sym same) ∙ fatal,
  )

  drain-full :
      (app : App) (m : ObservationModel) (count : ℕ)
      (results : List (Result (TryReceiveError E) Event))
      → count ≡ 1024
      → drain_ready_events to_string app m count results
        ≡ record { app = app; model = m; result = ok count }
  unfolding drain_ready_events
  drain-full app m count [] h = refl
  drain-full app m count (ok event ∷ results) h = ground (arith, h)
  drain-full app m count (err TryReceiveError.empty ∷ results) h = refl
  drain-full app m count (err (TryReceiveError.collector error) ∷ results) h = ground (arith, h)

  drain-event :
      (app : App) (m : ObservationModel) (count : ℕ) (event : Event)
      (results : List (Result (TryReceiveError E) Event))
      → count < 1024
      → drain_ready_events to_string app m count (ok event ∷ results)
        ≡ drain_ready_events to_string app (model_observe m event) (suc count) results
  unfolding drain_ready_events
  drain-event app m count event results h = ground (arith, h)

  drain-warning :
      (app : App) (m : ObservationModel) (count : ℕ) (error : CollectorReceiveError E)
      (results : List (Result (TryReceiveError E) Event))
      → count < 1024
      → is_warning error.kind ≡ true
      → drain_ready_events to_string app m count (err (TryReceiveError.collector error) ∷ results)
        ≡ drain_ready_events to_string (set_collector_warning (to_string error) app) m count results
  unfolding drain_ready_events
  drain-warning app m count error results h e =
      ground (arith, h, e, recoverable-is_warning error.kind)

  drain-fatal :
      (app : App) (m : ObservationModel) (count : ℕ) (error : CollectorReceiveError E)
      (results : List (Result (TryReceiveError E) Event))
      → count < 1024
      → is_warning error.kind ≡ false
      → drain_ready_events to_string app m count (err (TryReceiveError.collector error) ∷ results)
        ≡ record { app = app; model = m; result = err error }
  unfolding drain_ready_events
  drain-fatal app m count error results h e =
      ground (arith, h, e, recoverable-is_warning error.kind)

  drain-lem :
      (left count : ℕ) (app : App) (m : ObservationModel)
      (results : List (Result (TryReceiveError E) Event))
      → left + count ≡ 1024
      → Drains m count
          (take left (ready results))
          (drain_ready_events to_string app m count results)
  unfolding model_observe_all
  drain-lem zero count app m results all =
      rw (drain-full app m count results (omega (arith, all))) (Drains-stop app m count)
  drain-lem (suc left) count app m [] all = Drains-end app m count
  drain-lem (suc left) count app m (ok event ∷ results) all =
      let rest =
        drain-lem left (suc count) app (model_observe m event) results (omega (arith, all)) in
      rw (drain-event app m count event results (omega (arith, all)))
        (rest.0, λ n h. omega (arith, rest.1 n h), rest.2)
  drain-lem (suc left) count app m (err TryReceiveError.empty ∷ results) all =
      Drains-empty app m count results
  drain-lem (suc left) count app m (err (TryReceiveError.collector error) ∷ results) all =
      elim (Bool-cases (is_warning error.kind)) [
        | inl e ↦
            rw (drain-warning app m count error results (omega (arith, all)) e, e)
              (drain-lem (suc left) count (set_collector_warning (to_string error) app) m results
                all)
        | inr e ↦
            rw (drain-fatal app m count error results (omega (arith, all)) e, e)
              (Drains-fatal app m count error e)
      ]

-- A cycle takes at most 1024 events: those that are ready, in order, as far as that limit goes. It
-- counts them, and an error that it returns is a fatal one.
pub drain_ready_events-takes :
    {E : Type 0} (to_string : CollectorReceiveError E → String) (app : App) (m : ObservationModel)
    (results : List (Result (TryReceiveError E) Event))
    → let d = drain_ready_events to_string app m 0 results in
      let seen = take max_ready_events_per_cycle (ready results) in
      (d.model ≡ model_observe_all m seen)
      × ((n : ℕ) → d.result ≡ ok n → n ≡ length seen)
      × ((e : CollectorReceiveError E) → d.result ≡ err e → is_warning e.kind ≡ false)
drain_ready_events-takes to_string app m results =
    let p = drain-lem to_string 1024 0 app m results refl in
    (p.0, λ n h. omega (arith, p.1 n h), p.2)
