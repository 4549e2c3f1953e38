-- ===== src/Collector/Tests.antt =====
-- Tests and concrete instances for the collector (src/collector.rs).
use landlock_observability.Prelude.{
  ℕ, ◌+◌, ◌≤◌, ◌≡◌, ◌↔◌, refl, true, some, none, List, [], ◌∷◌, ◌++◌, err, ok, length, map, map_err,
  replicate, Result,
}
use landlock_observability.Wire.Reader.{ByteOrder}
use landlock_observability.Collector.Config.{
  CollectorConfig, CollectorConfigError, config_builder, config_build, event_capacity,
  config_build-bounds,
}
use landlock_observability.Collector.Errors.{worker_stop_error, poll_error, PanicPayload}
use landlock_observability.Collector.Pipe.{
  Pipe, WorkerPhase, prepare, send, deliver, send_terminal, report_panic, report_poll_failure,
  after_poll, end_worker,
}
use landlock_observability.Collector.Receive.{
  TryReceiveError, try_recv, recv_timeout, as_try, unpair, terminal_nonblocking,
}
use landlock_observability.Event.Kinds.{Event}
use landlock_observability.Collector.Run.{
  Action, WorkerAction, outputs, run, step, worker_step, worker_steps,
}
use landlock_observability.Collector.Stream.{yields, start, waiting}
use landlock_observability.Collector.Refine.{stream_of, most_terminal}
use landlock_observability.Collector.Runs.{
  turns_of, receives, outputs-stream, run-bounds, run-drains,
}
use landlock_observability.Collector.Timeouts.{idle, recv_timeout-try_recv}

abbrev arrival : Action ℕ
arrival = Action.of_worker (WorkerAction.sample_arrives [])

-- One delivery is accepted and two find the queue full; the poll fails and the worker ends.
abbrev overflowing : List (Action ℕ)
overflowing =
    arrival
    ∷ arrival
    ∷ arrival
    ∷ Action.receive []
    ∷ arrival
    ∷ Action.receive []
    ∷ Action.of_worker (WorkerAction.poll_returns (some 5))
    ∷ Action.of_worker (WorkerAction.worker_panics PanicPayload.opaque)
    ∷ []

abbrev little : ByteOrder
little = ByteOrder.little_endian

abbrev after_overflow : Pipe ℕ
after_overflow = run little (prepare 1) overflowing

config_build-bounds_example :
    ((c : CollectorConfig)
      → (config_build (event_capacity 2048 config_builder) ≡ ok c)
        ↔ ((1 ≤ 2048) × (2048 ≤ 65536) × (c.event_capacity ≡ 2048)))
    × ((e : CollectorConfigError)
        → config_build (event_capacity 2048 config_builder) ≡ err e
        → e.configured ≡ 2048)
config_build-bounds_example = config_build-bounds 2048 config_builder

run-bounds_example :
    (length after_overflow.deliveries ≤ 1)
    × (length after_overflow.terminal ≤ most_terminal after_overflow.worker)
run-bounds_example = run-bounds little 1 overflowing

after_overflow-alive :
    (after_overflow.collector_alive ≡ true) × (after_overflow.worker ≡ WorkerPhase.gone)
unfolding run step worker_step deliver send after_poll report_panic report_poll_failure
    send_terminal end_worker try_recv unpair terminal_nonblocking
after_overflow-alive = (refl, refl)

run-drains_example :
    let deliveries = waiting (stream_of after_overflow) in
    outputs little after_overflow (receives little (length deliveries + 2))
    ≡ map (map_err TryReceiveError.collector) deliveries
      ++ replicate 2 (err (TryReceiveError.collector worker_stop_error))
run-drains_example = run-drains little 1 overflowing 2 after_overflow-alive.0 after_overflow-alive.1

recv_timeout-try_recv_example :
    (((recv_timeout idle idle idle after_overflow).0 ≡ (try_recv idle after_overflow).0)
      × (as_try (recv_timeout idle idle idle after_overflow).1 ≡ (try_recv idle after_overflow).1))
    × (after_overflow.pending_delivery ≡ none
        → after_overflow.pending_delivery ≡ none
        → after_overflow.worker ≡ WorkerPhase.polling
        → ((recv_timeout idle idle idle after_overflow).0 ≡ (try_recv idle after_overflow).0)
          × (as_try (recv_timeout idle idle idle after_overflow).1
              ≡ (try_recv idle after_overflow).1))
recv_timeout-try_recv_example = recv_timeout-try_recv idle idle idle after_overflow

-- What is left: the delivery after the notice, a second notice is not owed, the poll failure, the
-- worker's panic.
left_over : length (waiting (stream_of after_overflow)) ≡ 3
unfolding run step worker_step deliver send after_poll report_panic report_poll_failure
    send_terminal end_worker try_recv unpair terminal_nonblocking
left_over = refl

-- Between the two looks of a receive, the worker delivers a sample, and then its poll fails.
abbrev overtaking : List (WorkerAction ℕ)
overtaking = WorkerAction.sample_arrives [] ∷ WorkerAction.poll_returns (some 5) ∷ []

abbrev after_overtaking : Pipe ℕ × Result (TryReceiveError ℕ) Event
after_overtaking = try_recv (worker_steps little overtaking) (prepare 8)

-- The failure is received while the delivery, which was accepted before it, still waits.
overtaken :
    (after_overtaking.1 ≡ err (TryReceiveError.collector (poll_error 5)))
    × (length after_overtaking.0.deliveries ≡ 1)
unfolding worker_step worker_steps deliver send after_poll report_panic report_poll_failure
    send_terminal try_recv terminal_nonblocking
overtaken = (refl, refl)

abbrev interleaved : List (Action ℕ)
interleaved = arrival ∷ Action.receive [] ∷ Action.receive overtaking ∷ Action.receive [] ∷ []

outputs-stream_example :
    outputs little (prepare 1) interleaved
    ≡ yields little (turns_of little (prepare 1) interleaved) start
outputs-stream_example = outputs-stream little 1 interleaved
