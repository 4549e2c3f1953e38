-- ===== src/Collector/Invariant.antt =====
-- The invariant of the state that the worker and the collector share, over the worker's steps
-- (src/collector.rs).
use landlock_observability.Prelude.{
  ℕ, ◌≤◌, ◌≡◌, false, none, [], ◌∷◌, length, arith, length-append, ◌+◌,
}
use landlock_observability.Wire.Reader.{ByteOrder}
use landlock_observability.Collector.Errors.{
  CollectorReceiveError, PanicPayload, worker_receive_panic, queue_full_error, poll_error,
}
use landlock_observability.Collector.Pipe.{
  Pipe, entry_of, send, deliver, send_terminal, report_panic, report_poll_failure, after_poll,
  end_worker,
}
use landlock_observability.Collector.Run.{WorkerAction, worker_step}
use landlock_observability.Collector.Refine.{IsWellFormed}

module _ {E : Type 0} where
  -- What sending a terminal error leaves as it was.
  abbrev pub Differs : ℕ → Pipe E → Pipe E → Type 0
  Differs n p q =
      (q.running ≡ p.running)
      × (q.collector_alive ≡ p.collector_alive)
      × (q.deliveries ≡ p.deliveries)
      × (q.event_capacity ≡ p.event_capacity)
      × (length q.terminal ≤ n + length p.terminal)

  pub send_terminal-Differs :
      (error : CollectorReceiveError E) (p : Pipe E) → Differs 1 p (send_terminal error p)
  unfolding send_terminal
  send_terminal-Differs error p = ground (arith, length-append p.terminal (error ∷ []))

  report_panic-Differs :
      (payload : PanicPayload) (p : Pipe E) → Differs 2 p (report_panic payload p)
  unfolding report_panic
  report_panic-Differs payload p =
      let taken : Pipe E = record p { callback_panic = none } in
      let cleared : Pipe E = record taken { output_full_pending = false } in
      let noticed : Pipe E = send_terminal queue_full_error cleared in
      ground (
        arith,
        send_terminal-Differs queue_full_error cleared,
        send_terminal-Differs (worker_receive_panic payload) taken,
        send_terminal-Differs (worker_receive_panic payload) noticed,
      )

  report_poll_failure-Differs : (error : E) (p : Pipe E) → Differs 2 p (report_poll_failure error p)
  unfolding report_poll_failure
  report_poll_failure-Differs error p =
      let noticed : Pipe E = send_terminal queue_full_error p in
      ground (
        arith,
        send_terminal-Differs queue_full_error p,
        send_terminal-Differs (poll_error error) p,
        send_terminal-Differs (poll_error error) noticed,
      )

  pub worker_step-IsWellFormed :
      (order : ByteOrder) (p : Pipe E) (action : WorkerAction E)
      → IsWellFormed p
      → IsWellFormed (worker_step order p action)
  unfolding worker_step deliver send after_poll end_worker
  worker_step-IsWellFormed order p (WorkerAction.sample_arrives sample) wf =
      ground (arith, length-append p.deliveries (entry_of order p sample ∷ []))
  worker_step-IsWellFormed order p (WorkerAction.callback_panics payload) wf = ground arith
  worker_step-IsWellFormed order p (WorkerAction.poll_returns result) wf =
      grind (arith, report_panic-Differs, report_poll_failure-Differs)
  worker_step-IsWellFormed order p WorkerAction.worker_ends wf = ground arith
  worker_step-IsWellFormed order p (WorkerAction.worker_panics payload) wf =
      ground (arith, send_terminal-Differs (worker_receive_panic payload) p)

  pub worker_step-event_capacity :
      (order : ByteOrder) (p : Pipe E) (action : WorkerAction E)
      → (worker_step order p action).event_capacity ≡ p.event_capacity
  unfolding worker_step deliver send after_poll end_worker
  worker_step-event_capacity order p (WorkerAction.sample_arrives sample) = ground arith
  worker_step-event_capacity order p (WorkerAction.callback_panics payload) = ground arith
  worker_step-event_capacity order p (WorkerAction.poll_returns result) =
      grind (arith, report_panic-Differs, report_poll_failure-Differs)
  worker_step-event_capacity order p WorkerAction.worker_ends = ground arith
  worker_step-event_capacity order p (WorkerAction.worker_panics payload) =
      ground (arith, send_terminal-Differs (worker_receive_panic payload) p)
