-- ===== src/Collector/Simulation.antt =====
-- Each step of the worker, read as a turn of its stream (src/collector.rs).
use landlock_observability.Prelude.{
  ◌≤◌, ◌≡◌, sym, ap, ◌∙◌, false, Option, none, some, List, [], ◌∷◌, ◌++◌, err, length, arith,
  Option-cases, inl, inr, ◌<◌,
}
use mathlib.Core.List.{append-nil, append_assoc, map-append}
use landlock_observability.Wire.Reader.{ByteOrder}
use landlock_observability.Collector.Errors.{
  CollectorReceiveError, PanicPayload, worker_receive_panic, queue_full_error, poll_error,
}
use landlock_observability.Collector.Pipe.{
  Delivery, DeliveryEntry, Pipe, entry_of, send, deliver, send_terminal, report_panic,
  report_poll_failure, leave, after_poll, end_worker,
}
use landlock_observability.Collector.Run.{WorkerAction, worker_step}
use landlock_observability.Collector.Stream.{Stream, notice_then, worker_turn, poll_end, fail}
use landlock_observability.Collector.Refine.{
  unrolled, failures, first_of, stream_of, IsWellFormed, has_room,
}
use landlock_observability.Collector.Invariant.{send_terminal-Differs}

module _ {E : Type 0} where
  unrolled-snoc :
      (entries : List (DeliveryEntry E)) (entry : DeliveryEntry E)
      → unrolled (entries ++ entry ∷ [])
        ≡ unrolled entries ++ notice_then entry.output_full_before entry.delivery
  unrolled-snoc [] entry = append-nil _
  unrolled-snoc (e ∷ entries) entry =
      ap (λ rest. notice_then e.output_full_before e.delivery ++ rest) (unrolled-snoc entries entry)
      ∙ sym (append_assoc (notice_then e.output_full_before e.delivery) (unrolled entries) _)

  first_of-entry :
      (o : Option (Delivery E)) (entries : List (DeliveryEntry E)) (entry : DeliveryEntry E)
      → first_of o (unrolled (entries ++ entry ∷ []))
        ≡ first_of o (unrolled entries) ++ notice_then entry.output_full_before entry.delivery
  first_of-entry none entries entry = unrolled-snoc entries entry
  first_of-entry (some delivery) entries entry =
      ap (λ rest. delivery ∷ rest) (unrolled-snoc entries entry)

  failures-snoc :
      (errors : List (CollectorReceiveError E)) (error : CollectorReceiveError E)
      → failures (errors ++ error ∷ []) ≡ failures errors ++ err error ∷ []
  failures-snoc errors error = simp map-append

  -- What the sending of a terminal error does to the stream.
  send_terminal-fail :
      (error : CollectorReceiveError E) (p : Pipe E)
      → length p.terminal < 3
      → stream_of (send_terminal error p) ≡ fail (err error ∷ []) (stream_of p)
  unfolding send_terminal
  send_terminal-fail error p room = ground (arith, failures-snoc p.terminal error)

  fail-fail : (us vs : List (Delivery E)) (s : Stream E) → fail vs (fail us s) ≡ fail (us ++ vs) s
  fail-fail us vs s = ground (arith, append_assoc s.failed us vs)

  send_two-fail :
      (error : CollectorReceiveError E) (p : Pipe E)
      → length p.terminal ≤ 0
      → stream_of (send_terminal error (send_terminal queue_full_error p))
        ≡ fail (err queue_full_error ∷ err error ∷ []) (stream_of p)
  send_two-fail error p h =
      let noticed : Pipe E = send_terminal queue_full_error p in
      send_terminal-fail error noticed
        (omega (arith, (send_terminal-Differs queue_full_error p).4, h))
      ∙ ap (fail (err error ∷ [])) (send_terminal-fail queue_full_error p (omega (arith, h)))
      ∙ fail-fail (err queue_full_error ∷ []) (err error ∷ []) (stream_of p)

  report_panic-turn :
      (payload : PanicPayload) (result : Option E) (p : Pipe E)
      → length p.terminal ≤ 0
      → stream_of (leave (report_panic payload p)) ≡ poll_end (some payload) result (stream_of p)
  unfolding report_panic
  report_panic-turn payload result p h =
      let taken : Pipe E = record p { callback_panic = none } in
      let cleared : Pipe E = record taken { output_full_pending = false } in
      ground (
        arith,
        send_two-fail (worker_receive_panic payload) cleared h,
        send_terminal-fail (worker_receive_panic payload) taken,
      )

  report_poll_failure-turn :
      (error : E) (p : Pipe E)
      → length p.terminal ≤ 0
      → p.running ≡ p.collector_alive
      → stream_of (leave (report_poll_failure error p)) ≡ poll_end none (some error) (stream_of p)
  unfolding report_poll_failure
  report_poll_failure-turn error p h same =
      ground (arith, send_two-fail (poll_error error) p h, send_terminal-fail (poll_error error) p)

  poll_end-turn :
      (result : Option E) (p : Pipe E)
      → length p.terminal ≤ 0
      → p.running ≡ p.collector_alive
      → stream_of (after_poll result p) ≡ poll_end p.callback_panic result (stream_of p)
  unfolding after_poll
  poll_end-turn none p h same = elim (Option-cases p.callback_panic) [
    | inl e ↦ ground (arith, e)
    | inr (payload, e) ↦ ground (arith, e, report_panic-turn payload none p h)
  ]
  poll_end-turn (some error) p h same = elim (Option-cases p.callback_panic) [
    | inl e ↦ ground (arith, e, report_poll_failure-turn error p h same)
    | inr (payload, e) ↦ ground (arith, e, report_panic-turn payload (some error) p h)
  ]

  pub worker_step-turn :
      (order : ByteOrder) (p : Pipe E) (action : WorkerAction E)
      → IsWellFormed p
      → stream_of (worker_step order p action)
        ≡ worker_turn order (has_room p) p.worker action (stream_of p)
  unfolding worker_step deliver send after_poll end_worker
  worker_step-turn order p (WorkerAction.sample_arrives sample) wf =
      ground (arith, first_of-entry p.pending_delivery p.deliveries (entry_of order p sample))
  worker_step-turn order p (WorkerAction.callback_panics payload) wf = ground arith
  worker_step-turn order p (WorkerAction.poll_returns result) wf =
      ground (arith, poll_end-turn result p)
  worker_step-turn order p WorkerAction.worker_ends wf = ground arith
  worker_step-turn order p (WorkerAction.worker_panics payload) wf =
      ground (arith, send_terminal-fail (worker_receive_panic payload) p)
