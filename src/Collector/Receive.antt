-- ===== src/Collector/Receive.antt =====
-- The consumer's side (src/collector.rs): `Collector::try_recv`, `recv_timeout`, and what they call.
use landlock_observability.Prelude.{
  Option, none, some, List, [], ◌∷◌, Result, ok, err, map_err, if◌then◌else◌,
}
use landlock_observability.Event.Kinds.{Event}
use landlock_observability.Collector.Errors.{
  CollectorReceiveError, worker_stop_error, queue_full_error,
}
use landlock_observability.Collector.Pipe.{Delivery, DeliveryEntry, WorkerPhase, Pipe}

pub data TryReceiveError (E : Type 0) : Type 0 where
  empty : TryReceiveError E
  collector : CollectorReceiveError E → TryReceiveError E

pub data ReceiveTimeoutError (E : Type 0) : Type 0 where
  timeout : ReceiveTimeoutError E
  collector : CollectorReceiveError E → ReceiveTimeoutError E

module _ {E : Type 0} where
  -- `Collector::unpair`
  unfoldable pub unpair : DeliveryEntry E → Pipe E → Pipe E × Delivery E
  unpair entry p =
      if entry.output_full_before
      then (record p { pending_delivery = some entry.delivery }, err queue_full_error)
      else (p, entry.delivery)

  -- `terminal.try_recv()`, by what the channel holds: an error, or nothing, when the worker is gone
  -- or may still send. This is `terminal_now_nonblocking`, `terminal_or_stop_nonblocking` and
  -- `worker_termination_nonblocking`.
  abbrev pub terminal_from :
      List (CollectorReceiveError E)
      → WorkerPhase
      → Pipe E
      → Pipe E × Option (CollectorReceiveError E)
  terminal_from (error ∷ rest) phase p = (record p { terminal = rest }, some error)
  terminal_from [] WorkerPhase.gone p = (p, some worker_stop_error)
  terminal_from [] WorkerPhase.leaving p = (p, none)
  terminal_from [] WorkerPhase.polling p = (p, none)

  unfoldable pub terminal_nonblocking : Pipe E → Pipe E × Option (CollectorReceiveError E)
  terminal_nonblocking p = terminal_from p.terminal p.worker p

  abbrev pub or_empty : Option (CollectorReceiveError E) → Result (TryReceiveError E) Event
  or_empty none = err TryReceiveError.empty
  or_empty (some error) = err (TryReceiveError.collector error)

  -- What follows the look at the channel of deliveries. The worker may act before the look at the
  -- channel of terminal errors: `between` is what it does there. Empty and disconnected channels of
  -- deliveries are handled alike.
  abbrev pub try_recv_from :
      (Pipe E → Pipe E)
      → Option (Delivery E)
      → List (DeliveryEntry E)
      → Pipe E
      → Pipe E × Result (TryReceiveError E) Event
  try_recv_from between (some delivery) entries p =
      (record p { pending_delivery = none }, map_err TryReceiveError.collector delivery)
  try_recv_from between none (entry ∷ entries) p =
      let r = unpair entry (record p { deliveries = entries }) in
      (r.0, map_err TryReceiveError.collector r.1)
  try_recv_from between none [] p = let r = terminal_nonblocking (between p) in (r.0, or_empty r.1)

  -- `Collector::try_recv`
  unfoldable pub try_recv : (Pipe E → Pipe E) → Pipe E → Pipe E × Result (TryReceiveError E) Event
  unfolding unpair terminal_nonblocking
  try_recv between p = try_recv_from between p.pending_delivery p.deliveries p

  abbrev pub or_timeout :
      Pipe E × Option (CollectorReceiveError E) → Pipe E × Result (ReceiveTimeoutError E) Event
  or_timeout (p, none) = (p, err ReceiveTimeoutError.timeout)
  or_timeout (p, some error) = (p, err (ReceiveTimeoutError.collector error))

  -- `Collector::terminal_until`: the channel as it is when the wait ends. The wait ends by itself at
  -- an error or when the worker is gone; otherwise the time is up, and the channel is tried once
  -- more, after what the worker does in `between`.
  abbrev pub terminal_until_from :
      (Pipe E → Pipe E)
      → List (CollectorReceiveError E)
      → WorkerPhase
      → Pipe E
      → Pipe E × Option (CollectorReceiveError E)
  terminal_until_from between (error ∷ rest) phase p = (record p { terminal = rest }, some error)
  terminal_until_from between [] WorkerPhase.gone p = (p, some worker_stop_error)
  terminal_until_from between [] WorkerPhase.leaving p = terminal_nonblocking (between p)
  terminal_until_from between [] WorkerPhase.polling p = terminal_nonblocking (between p)

  unfoldable pub terminal_until :
      (Pipe E → Pipe E) → Pipe E → Pipe E × Option (CollectorReceiveError E)
  unfolding terminal_nonblocking
  terminal_until between p = terminal_until_from between p.terminal p.worker p

  -- What follows the wait for a delivery, which ended at an entry, at the time's end (the worker may
  -- still send) or because the senders are gone.
  abbrev pub recv_after :
      (second third : Pipe E → Pipe E)
      → List (DeliveryEntry E)
      → WorkerPhase
      → Pipe E
      → Pipe E × Result (ReceiveTimeoutError E) Event
  recv_after second third (entry ∷ entries) phase p =
      let r = unpair entry (record p { deliveries = entries }) in
      (r.0, map_err ReceiveTimeoutError.collector r.1)
  recv_after second third [] WorkerPhase.polling p = or_timeout (terminal_nonblocking (second p))
  recv_after second third [] WorkerPhase.leaving p = or_timeout (terminal_until third (second p))
  recv_after second third [] WorkerPhase.gone p = or_timeout (terminal_until third (second p))

  abbrev pub recv_timeout_from :
      (first second third : Pipe E → Pipe E)
      → Option (Delivery E)
      → Pipe E
      → Pipe E × Result (ReceiveTimeoutError E) Event
  recv_timeout_from first second third (some delivery) p =
      (record p { pending_delivery = none }, map_err ReceiveTimeoutError.collector delivery)
  recv_timeout_from first second third none p =
      let waited : Pipe E = first p in
      recv_after second third waited.deliveries waited.worker waited

  -- `Collector::recv_timeout`: the worker does `first` during the wait for a delivery, `second` during
  -- the wait for a terminal error (or before the look at it), and `third` before the last look.
  unfoldable pub recv_timeout :
      (first second third : Pipe E → Pipe E)
      → Pipe E
      → Pipe E × Result (ReceiveTimeoutError E) Event
  unfolding unpair terminal_nonblocking terminal_until
  recv_timeout first second third p = recv_timeout_from first second third p.pending_delivery p

  -- A receive with a timeout reports `Timeout` where one that does not wait reports `Empty`.
  abbrev pub as_try : Result (ReceiveTimeoutError E) Event → Result (TryReceiveError E) Event
  as_try (ok event) = ok event
  as_try (err ReceiveTimeoutError.timeout) = err TryReceiveError.empty
  as_try (err (ReceiveTimeoutError.collector error)) = err (TryReceiveError.collector error)
