-- ===== src/Collector/Pipe.antt =====
-- The state that the worker and the collector share, and the worker's operations on it
-- (src/collector.rs): `DeliveryQueue::deliver`, the callback's panic guard, `run_worker` and
-- `Worker::run_with`. A bounded channel is the list of what it holds, the oldest first.
use landlock_observability.Prelude.{
  ℕ, Bool, true, false, not, Option, none, some, List, [], ◌∷◌, ◌++◌, Result, map_err, ltb,
  if◌then◌else◌, length,
}
use landlock_observability.Event.Kinds.{Event}
use landlock_observability.Wire.Reader.{ByteOrder}
use landlock_observability.Wire.Decode.{decode}
use landlock_observability.Collector.Errors.{
  CollectorReceiveError, PanicPayload, worker_receive_panic, malformed_error, queue_full_error,
  poll_error,
}

abbrev pub Delivery : Type 0 → Type 0
Delivery E = Result (CollectorReceiveError E) Event

pub record DeliveryEntry (E : Type 0) : Type 0 where
  pub delivery : Delivery E
  pub output_full_before : Bool

-- The worker polls; has left its loop, with its delivery senders dropped; or is gone, with its
-- terminal senders dropped too.
pub data WorkerPhase : Type 0 where
  polling leaving gone : WorkerPhase

-- The fields of `Collector` (`deliveries`, `pending_delivery`, `terminal`, `running`) and of
-- `PreparedResources` (`output_full_pending`, `callback_panic`), with the capacity of the delivery
-- channel, whether the collector is still there, and the phase of the worker.
pub record Pipe (E : Type 0) : Type 0 where
  pub event_capacity : ℕ
  pub deliveries : List (DeliveryEntry E)
  pub pending_delivery : Option (Delivery E)
  pub terminal : List (CollectorReceiveError E)
  pub running : Bool
  pub output_full_pending : Bool
  pub callback_panic : Option PanicPayload
  pub collector_alive : Bool
  pub worker : WorkerPhase

-- `sync_channel(3)`
abbrev pub terminal_capacity : ℕ
terminal_capacity = 3

-- `backend::prepare`
abbrev pub prepare : {E : Type 0} → ℕ → Pipe E
prepare event_capacity = record {
  event_capacity = event_capacity;
  deliveries = [];
  pending_delivery = none;
  terminal = [];
  running = true;
  output_full_pending = false;
  callback_panic = none;
  collector_alive = true;
  worker = WorkerPhase.polling;
}

-- What a callback tells libbpf: 0 or -1.
pub data CallbackResult : Type 0 where
  proceed halt : CallbackResult

module _ {E : Type 0} where
  abbrev pub entry_of : ByteOrder → Pipe E → List ℕ → DeliveryEntry E
  entry_of order p sample = record {
    delivery = map_err malformed_error (decode order sample);
    output_full_before = p.output_full_pending;
  }

  -- `sender.try_send(entry)` and what follows it: the collector is gone, there is room, or not.
  unfoldable pub send : DeliveryEntry E → Pipe E → Pipe E × CallbackResult
  send entry p =
      if not p.collector_alive
      then (record p { running = false }, CallbackResult.halt)
      else if ltb (length p.deliveries) p.event_capacity
      then (
        record p { deliveries = p.deliveries ++ entry ∷ []; output_full_pending = false },
        CallbackResult.proceed,
      )
      else (record p { output_full_pending = true }, CallbackResult.proceed)

  -- `DeliveryQueue::deliver`
  unfoldable pub deliver : ByteOrder → Pipe E → List ℕ → Pipe E × CallbackResult
  unfolding send
  deliver order p sample =
      if not p.running then (p, CallbackResult.halt) else send (entry_of order p sample) p

  -- `catch_callback_panic`, for a callback that panics: the payload replaces an earlier one.
  abbrev pub catch_callback_panic : PanicPayload → Pipe E → Pipe E × CallbackResult
  catch_callback_panic payload p = (record p { callback_panic = some payload }, CallbackResult.halt)

  -- `let _ = terminal.try_send(error)`, which drops the error if the channel is full or closed.
  unfoldable pub send_terminal : CollectorReceiveError E → Pipe E → Pipe E
  send_terminal error p =
      if p.collector_alive
      then if ltb (length p.terminal) terminal_capacity
        then record p { terminal = p.terminal ++ error ∷ [] }
        else p
      else p

  -- The end of `run_worker`: its senders of deliveries are dropped.
  abbrev pub leave : Pipe E → Pipe E
  leave p = record p { worker = WorkerPhase.leaving }

  -- `report_callback_panic`, when there is a payload.
  unfoldable pub report_panic : PanicPayload → Pipe E → Pipe E
  unfolding send_terminal worker_receive_panic
  report_panic payload p =
      let taken : Pipe E = record p { callback_panic = none } in
      let noticed : Pipe E =
        if taken.output_full_pending
        then send_terminal queue_full_error (record taken { output_full_pending = false })
        else taken in
      send_terminal (worker_receive_panic payload) noticed

  -- The poll failed.
  unfoldable pub report_poll_failure : E → Pipe E → Pipe E
  unfolding send_terminal
  report_poll_failure error p =
      if p.running
      then send_terminal (poll_error error)
          (if p.output_full_pending then send_terminal queue_full_error p else p)
      else p

  -- The rest of the loop's body, after the poll has returned, and the loop's test.
  unfoldable pub after_poll : Option E → Pipe E → Pipe E
  unfolding report_panic report_poll_failure
  after_poll result p = elim p.callback_panic [
    | some payload ↦ leave (report_panic payload p)
    | none ↦ elim result [
      | some error ↦ leave (report_poll_failure error p)
      | none ↦ if p.running then p else leave p
    ]
  ]

  -- The end of `Worker::run_with`: a panic of the worker is sent, and all senders are dropped.
  unfoldable pub end_worker : Option PanicPayload → Pipe E → Pipe E
  unfolding send_terminal worker_receive_panic
  end_worker none p = record p { worker = WorkerPhase.gone }
  end_worker (some payload) p =
      let sent = send_terminal (worker_receive_panic payload) p in
      record sent { worker = WorkerPhase.gone }

  -- `<Collector as Drop>::drop`, after which the channels' receivers are gone.
  abbrev pub drop_collector : Pipe E → Pipe E
  drop_collector p = record p { running = false; collector_alive = false }
