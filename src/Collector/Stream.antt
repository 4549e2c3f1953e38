-- ===== src/Collector/Stream.antt =====
-- What a collector promises (the comments of `Collector` in src/collector.rs): the accepted
-- deliveries in order of arrival, in which a single notice stands for the deliveries that were omitted
-- before the next one that was not, and apart from them the failures, in order. It has no bounded
-- queues, no slots and no pending delivery.
use landlock_observability.Prelude.{
  Bool, true, false, Option, none, some, List, [], ◌∷◌, ◌++◌, Result, err, map_err, if◌then◌else◌,
}
use landlock_observability.Event.Kinds.{Event}
use landlock_observability.Wire.Reader.{ByteOrder}
use landlock_observability.Wire.Decode.{decode}
use landlock_observability.Collector.Errors.{
  PanicPayload, worker_stop_error, queue_full_error, malformed_error, poll_error,
  worker_receive_panic,
}
use landlock_observability.Collector.Pipe.{Delivery, WorkerPhase}
use landlock_observability.Collector.Receive.{TryReceiveError}
use landlock_observability.Collector.Run.{WorkerAction, noted}

-- `accepted` and `failed` are what the consumer has not received yet, `omitted` that a notice is owed,
-- `caught` a panic of the callback that the worker has not seen yet.
pub record Stream (E : Type 0) : Type 0 where
  pub accepted : List (Delivery E)
  pub failed : List (Delivery E)
  pub omitted : Bool
  pub caught : Option PanicPayload
  pub attended : Bool
  pub phase : WorkerPhase

-- An action, its receive's worker actions and its own with whether there is room.
pub data Turn (E : Type 0) : Type 0 where
  of_worker : WorkerAction E → Bool → Turn E
  receive : List (WorkerAction E × Bool) → Turn E
  dropped : Turn E

abbrev pub start : {E : Type 0} → Stream E
start = record {
  accepted = [];
  failed = [];
  omitted = false;
  caught = none;
  attended = true;
  phase = WorkerPhase.polling;
}

module _ {E : Type 0} where
  -- The notice, if one is owed, and then `delivery`.
  abbrev pub notice_then : Bool → Delivery E → List (Delivery E)
  notice_then true delivery = err queue_full_error ∷ delivery ∷ []
  notice_then false delivery = delivery ∷ []

  -- What a consumer receives who comes after the worker's end.
  abbrev pub waiting : Stream E → List (Delivery E)
  waiting s = s.accepted ++ s.failed

  abbrev pub accept : List (Delivery E) → Stream E → Stream E
  accept deliveries s = if s.attended then record s { accepted = s.accepted ++ deliveries } else s

  abbrev pub fail : List (Delivery E) → Stream E → Stream E
  fail failures s = if s.attended then record s { failed = s.failed ++ failures } else s

  abbrev pub close_loop : Stream E → Stream E
  close_loop s = record s { phase = WorkerPhase.leaving }

  -- A sample is accepted if the consumer is there and there is room for it.
  abbrev pub arrive : Bool → Delivery E → Stream E → Stream E
  arrive room delivery s =
      if s.attended
      then if room
        then record (accept (notice_then s.omitted delivery) s) { omitted = false }
        else record s { omitted = true }
      else s

  abbrev pub poll_end : Option PanicPayload → Option E → Stream E → Stream E
  poll_end (some payload) result s =
      close_loop (record (fail (notice_then s.omitted (err (worker_receive_panic payload))) s) {
        caught = none;
        omitted = false;
      })
  poll_end none (some error) s =
      close_loop (fail (notice_then s.omitted (err (poll_error error))) s)
  poll_end none none s = if s.attended then s else close_loop s

  abbrev pub stop : Stream E → Stream E
  stop s = record s { phase = WorkerPhase.gone }

  abbrev pub worker_turn : ByteOrder → Bool → WorkerPhase → WorkerAction E → Stream E → Stream E
  worker_turn order room WorkerPhase.polling (WorkerAction.sample_arrives sample) s =
      arrive room (map_err malformed_error (decode order sample)) s
  worker_turn order room WorkerPhase.polling (WorkerAction.callback_panics payload) s = record s {
    caught = some payload;
  }
  worker_turn order room WorkerPhase.polling (WorkerAction.poll_returns result) s =
      poll_end s.caught result s
  worker_turn order room WorkerPhase.polling WorkerAction.worker_ends s = s
  worker_turn order room WorkerPhase.polling (WorkerAction.worker_panics payload) s =
      stop (fail (err (worker_receive_panic payload) ∷ []) s)
  worker_turn order room WorkerPhase.leaving (WorkerAction.sample_arrives sample) s = s
  worker_turn order room WorkerPhase.leaving (WorkerAction.callback_panics payload) s = s
  worker_turn order room WorkerPhase.leaving (WorkerAction.poll_returns result) s = s
  worker_turn order room WorkerPhase.leaving WorkerAction.worker_ends s = stop s
  worker_turn order room WorkerPhase.leaving (WorkerAction.worker_panics payload) s =
      stop (fail (err (worker_receive_panic payload) ∷ []) s)
  worker_turn order room WorkerPhase.gone action s = s

  -- The worker's actions between two looks, each with whether there is room at it.
  abbrev pub worker_turns : ByteOrder → List (WorkerAction E × Bool) → Stream E → Stream E
  worker_turns order [] s = s
  worker_turns order (a ∷ actions) s =
      worker_turns order actions (worker_turn order a.1 s.phase a.0 s)

  -- With no accepted delivery in sight, the oldest failure, or what there is to say without one.
  abbrev pub failure_of :
      List (Delivery E) → WorkerPhase → Stream E → Stream E × Result (TryReceiveError E) Event
  failure_of (failure ∷ rest) phase s =
      (record s { failed = rest }, map_err TryReceiveError.collector failure)
  failure_of [] WorkerPhase.gone s = (s, err (TryReceiveError.collector worker_stop_error))
  failure_of [] WorkerPhase.leaving s = (s, err TryReceiveError.empty)
  failure_of [] WorkerPhase.polling s = (s, err TryReceiveError.empty)

  abbrev pub next_of :
      ByteOrder
      → List (WorkerAction E × Bool)
      → List (Delivery E)
      → Stream E
      → Stream E × Result (TryReceiveError E) Event
  next_of order between (delivery ∷ rest) s =
      (record s { accepted = rest }, map_err TryReceiveError.collector delivery)
  next_of order between [] s =
      let later = worker_turns order between s in failure_of later.failed later.phase later

  -- What is accepted at the first look comes first; a failure comes only where nothing was accepted
  -- then, and before what the worker delivers between the looks.
  abbrev pub next :
      ByteOrder
      → List (WorkerAction E × Bool)
      → Stream E
      → Stream E × Result (TryReceiveError E) Event
  next order between s = next_of order between s.accepted s

  abbrev pub turn :
      ByteOrder → Turn E → Stream E → Stream E × Option (Result (TryReceiveError E) Event)
  turn order (Turn.of_worker action room) s = (worker_turn order room s.phase action s, none)
  turn order (Turn.receive between) s =
      if s.attended then ((next order between s).0, some (next order between s).1) else (s, none)
  turn order Turn.dropped s = (record s { attended = false }, none)

  -- The results that a list of turns gives.
  abbrev pub yields : ByteOrder → List (Turn E) → Stream E → List (Result (TryReceiveError E) Event)
  yields order [] s = []
  yields order (a ∷ rest) s = let r = turn order a s in noted r.1 (yields order rest r.0)
