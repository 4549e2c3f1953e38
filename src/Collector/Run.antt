-- ===== src/Collector/Run.antt =====
-- The interleavings of the worker and the consumer (src/collector.rs): `run_worker` and
-- `Worker::run_with` as a state machine whose steps are what libbpf makes of a poll, and the
-- collector's owner, who receives or drops it.
use landlock_observability.Prelude.{Option, none, some, List, [], ◌∷◌, Result, ℕ, if◌then◌else◌}
use landlock_observability.Event.Kinds.{Event}
use landlock_observability.Wire.Reader.{ByteOrder}
use landlock_observability.Collector.Errors.{PanicPayload}
use landlock_observability.Collector.Pipe.{
  Pipe, WorkerPhase, deliver, catch_callback_panic, after_poll, end_worker, drop_collector,
}
use landlock_observability.Collector.Receive.{TryReceiveError, try_recv}

-- What happens to the worker: the callback gets a sample or panics, the poll returns, the worker
-- has dropped its resources and ends, or it panics itself.
pub data WorkerAction (E : Type 0) : Type 0 where
  sample_arrives : List ℕ → WorkerAction E
  callback_panics : PanicPayload → WorkerAction E
  poll_returns : Option E → WorkerAction E
  worker_ends : WorkerAction E
  worker_panics : PanicPayload → WorkerAction E

-- A receive comes with what the worker does between its two looks, if there is a second one.
pub data Action (E : Type 0) : Type 0 where
  of_worker : WorkerAction E → Action E
  receive : (between : List (WorkerAction E)) → Action E
  dropped : Action E

module _ {E : Type 0} where
  abbrev pub while_polling : WorkerPhase → Pipe E → Pipe E → Pipe E
  while_polling WorkerPhase.polling p acted = acted
  while_polling WorkerPhase.leaving p acted = p
  while_polling WorkerPhase.gone p acted = p

  abbrev pub at_end : WorkerPhase → Pipe E → Pipe E → Pipe E
  at_end WorkerPhase.leaving p acted = acted
  at_end WorkerPhase.polling p acted = p
  at_end WorkerPhase.gone p acted = p

  abbrev pub unless_gone : WorkerPhase → Pipe E → Pipe E → Pipe E
  unless_gone WorkerPhase.gone p acted = p
  unless_gone WorkerPhase.leaving p acted = acted
  unless_gone WorkerPhase.polling p acted = acted

  unfoldable pub worker_step : ByteOrder → Pipe E → WorkerAction E → Pipe E
  unfolding deliver after_poll end_worker
  worker_step order p (WorkerAction.sample_arrives sample) =
      while_polling p.worker p (deliver order p sample).0
  worker_step order p (WorkerAction.callback_panics payload) =
      while_polling p.worker p (catch_callback_panic payload p).0
  worker_step order p (WorkerAction.poll_returns result) =
      while_polling p.worker p (after_poll result p)
  worker_step order p WorkerAction.worker_ends = at_end p.worker p (end_worker none p)
  worker_step order p (WorkerAction.worker_panics payload) =
      unless_gone p.worker p (end_worker (some payload) p)

  unfoldable pub worker_steps : ByteOrder → List (WorkerAction E) → Pipe E → Pipe E
  worker_steps order [] p = p
  worker_steps order (action ∷ actions) p = worker_steps order actions (worker_step order p action)

  abbrev pub received :
      Pipe E × Result (TryReceiveError E) Event → Pipe E × Option (Result (TryReceiveError E) Event)
  received r = (r.0, some r.1)

  -- One action, and what the consumer receives by it.
  unfoldable pub step :
      ByteOrder → Pipe E → Action E → Pipe E × Option (Result (TryReceiveError E) Event)
  unfolding worker_step try_recv
  step order p (Action.of_worker action) = (worker_step order p action, none)
  step order p (Action.receive between) =
      if p.collector_alive then received (try_recv (worker_steps order between) p) else (p, none)
  step order p Action.dropped = (drop_collector p, none)

  abbrev pub noted :
      Option (Result (TryReceiveError E) Event)
      → List (Result (TryReceiveError E) Event)
      → List (Result (TryReceiveError E) Event)
  noted none results = results
  noted (some result) results = result ∷ results

  -- What the consumer receives in a run, and the state after it.
  unfoldable pub outputs :
      ByteOrder → Pipe E → List (Action E) → List (Result (TryReceiveError E) Event)
  unfolding step
  outputs order p [] = []
  outputs order p (action ∷ actions) =
      let r = step order p action in noted r.1 (outputs order r.0 actions)

  unfoldable pub run : ByteOrder → Pipe E → List (Action E) → Pipe E
  unfolding step
  run order p [] = p
  run order p (action ∷ actions) = run order (step order p action).0 actions
