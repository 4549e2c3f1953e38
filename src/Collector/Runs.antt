-- ===== src/Collector/Runs.antt =====
-- Whole runs of the worker and the consumer (src/collector.rs), against the stream.
use landlock_observability.Prelude.{
  ℕ, zero, suc, ◌+◌, ◌≤◌, ◌≡◌, refl, ap, ◌∙◌, true, some, List, [], ◌∷◌, ◌++◌, err, map_err, length,
  map, arith, replicate,
}
use landlock_observability.Wire.Reader.{ByteOrder}
use landlock_observability.Collector.Errors.{worker_stop_error}
use landlock_observability.Collector.Pipe.{Pipe, WorkerPhase, Delivery, prepare}
use landlock_observability.Collector.Receive.{TryReceiveError}
use landlock_observability.Collector.Run.{Action, step, outputs, run, noted}
use landlock_observability.Collector.Stream.{Stream, Turn, start, turn, yields, waiting}
use landlock_observability.Collector.Refine.{stream_of, IsWellFormed, most_terminal}
use landlock_observability.Collector.Steps.{
  with_rooms, turn_of, step-turn, step-IsWellFormed, step-event_capacity,
}

module _ {E : Type 0} (order : ByteOrder) where
  run-IsWellFormed :
      (p : Pipe E) (actions : List (Action E)) → IsWellFormed p → IsWellFormed (run order p actions)
  unfolding run
  run-IsWellFormed p [] wf = wf
  run-IsWellFormed p (action ∷ actions) wf =
      run-IsWellFormed (step order p action).0 actions (step-IsWellFormed order p action wf)

  -- The actions of a run as turns of its stream.
  unfoldable pub turns_of : Pipe E → List (Action E) → List (Turn E)
  turns_of p [] = []
  turns_of p (action ∷ actions) = turn_of order p action ∷ turns_of (step order p action).0 actions

  outputs-yields :
      (p : Pipe E) (actions : List (Action E))
      → IsWellFormed p
      → outputs order p actions ≡ yields order (turns_of p actions) (stream_of p)
  unfolding outputs turns_of
  outputs-yields p [] wf = refl
  outputs-yields p (action ∷ actions) wf =
      let after = step order p action in
      ap (noted after.1) (outputs-yields after.0 actions (step-IsWellFormed order p action wf))
      ∙ ap (λ r. noted r.1 (yields order (turns_of after.0 actions) r.0))
          (step-turn order p action wf)

  -- A receive with nothing between its looks.
  abbrev pub now : Action E
  now = Action.receive []

  abbrev pub receives : ℕ → List (Action E)
  receives n = replicate n now

  step-now :
      (p : Pipe E)
      → IsWellFormed p
      → (stream_of (step order p now).0, (step order p now).1)
        ≡ turn order (Turn.receive []) (stream_of p)
  unfolding with_rooms
  step-now p wf = step-turn order p now wf

  turn-receive :
      (s : Stream E) (delivery : Delivery E) (rest : List (Delivery E))
      → s.attended ≡ true
      → waiting s ≡ delivery ∷ rest
      → let t = turn order (Turn.receive []) s in
        (t.1 ≡ some (map_err TryReceiveError.collector delivery))
        × (waiting t.0 ≡ rest)
        × (t.0.attended ≡ true)
        × (t.0.phase ≡ s.phase)
  turn-receive s delivery rest alive h = ground (arith, alive, h)

  turn-stopped :
      (s : Stream E)
      → s.attended ≡ true
      → s.phase ≡ WorkerPhase.gone
      → waiting s ≡ []
      → turn order (Turn.receive []) s
        ≡ (s, some (err (TryReceiveError.collector worker_stop_error)))
  turn-stopped s alive gone h = ground (arith, alive, gone, h)

  -- Receiving from a worker that is gone.
  receive-lem :
      (p : Pipe E) (delivery : Delivery E) (rest : List (Delivery E))
      → IsWellFormed p
      → p.collector_alive ≡ true
      → waiting (stream_of p) ≡ delivery ∷ rest
      → ((step order p now).1 ≡ some (map_err TryReceiveError.collector delivery))
        × (waiting (stream_of (step order p now).0) ≡ rest)
        × ((step order p now).0.collector_alive ≡ true)
        × ((step order p now).0.worker ≡ p.worker)
  receive-lem p delivery rest wf alive h =
      let e = step-now p wf in
      let facts = turn-receive (stream_of p) delivery rest alive h in
      (
        ap (λ t. t.1) e ∙ facts.0,
        ap (λ t. waiting t.0) e ∙ facts.1,
        ap (λ t. t.0.attended) e ∙ facts.2,
        ap (λ t. t.0.phase) e ∙ facts.3,
      )

  stopped-lem :
      (k : ℕ) (p : Pipe E)
      → IsWellFormed p
      → p.collector_alive ≡ true
      → p.worker ≡ WorkerPhase.gone
      → waiting (stream_of p) ≡ []
      → outputs order p (receives k)
        ≡ replicate k (err (TryReceiveError.collector worker_stop_error))
  unfolding outputs
  stopped-lem zero p wf alive gone h = refl
  stopped-lem (suc k) p wf alive gone h =
      let after = step order p now in
      let same = step-now p wf ∙ turn-stopped (stream_of p) alive gone h in
      let rest =
        stopped-lem k after.0 (step-IsWellFormed order p now wf)
          (ap (λ t. t.0.attended) same ∙ alive) (ap (λ t. t.0.phase) same ∙ gone)
          (ap (λ t. waiting t.0) same ∙ h) in
      ap (λ t. noted t.1 (outputs order after.0 (receives k))) same
      ∙ ap (λ rs. err (TryReceiveError.collector worker_stop_error) ∷ rs) rest

  drain-lem :
      (deliveries : List (Delivery E)) (k : ℕ) (p : Pipe E)
      → IsWellFormed p
      → p.collector_alive ≡ true
      → p.worker ≡ WorkerPhase.gone
      → waiting (stream_of p) ≡ deliveries
      → outputs order p (receives (length deliveries + k))
        ≡ map (map_err TryReceiveError.collector) deliveries
          ++ replicate k (err (TryReceiveError.collector worker_stop_error))
  unfolding outputs
  drain-lem [] k p wf alive gone h =
      ap (λ n. outputs order p (receives n)) (omega arith) ∙ stopped-lem k p wf alive gone h
  drain-lem (delivery ∷ rest) k p wf alive gone h =
      let after = step order p now in
      let facts = receive-lem p delivery rest wf alive h in
      let tail =
        drain-lem rest k after.0 (step-IsWellFormed order p now wf) facts.2 (facts.3 ∙ gone)
          facts.1 in
      let split : length (delivery ∷ rest) + k ≡ suc (length rest + k) = omega arith in
      ap (λ n. outputs order p (receives n)) split
      ∙ ap (λ r. noted r (outputs order after.0 (receives (length rest + k)))) facts.0
      ∙ ap (λ rs. map_err TryReceiveError.collector delivery ∷ rs) tail

  run-event_capacity :
      (p : Pipe E) (actions : List (Action E))
      → (run order p actions).event_capacity ≡ p.event_capacity
  unfolding run
  run-event_capacity p [] = refl
  run-event_capacity p (action ∷ actions) =
      run-event_capacity (step order p action).0 actions ∙ step-event_capacity order p action

-- Whatever the worker does before, between and after the two looks of each receive, the consumer
-- receives what the stream gives: every accepted delivery once and in order of arrival, one notice
-- before the first accepted delivery after an omission, and apart from them the failures in their
-- order. A failure is received only where nothing accepted waited at the receive's first look; it comes
-- before what the worker delivers between the looks. A delivery is omitted exactly when the queue is
-- full as it arrives. The return of a poll, with all that it reports, is one step of the worker.
pub outputs-stream :
    {E : Type 0} (order : ByteOrder) (event_capacity : ℕ) (actions : List (Action E))
    → outputs order (prepare event_capacity) actions
      ≡ yields order (turns_of order (prepare event_capacity) actions) start
outputs-stream order event_capacity actions =
    outputs-yields order (prepare event_capacity) actions (refl, omega arith, omega arith)

-- In every state that a run reaches, the queue holds at most the configured number of deliveries,
-- and the channel of terminal errors holds at most three, none before the worker leaves its loop and
-- at most two before it is gone.
pub run-bounds :
    {E : Type 0} (order : ByteOrder) (event_capacity : ℕ) (actions : List (Action E))
    → (length (run order (prepare event_capacity) actions).deliveries ≤ event_capacity)
      × (length (run order (prepare event_capacity) actions).terminal
          ≤ most_terminal (run order (prepare event_capacity) actions).worker)
run-bounds order event_capacity actions =
    let wf =
      run-IsWellFormed order (prepare event_capacity) actions (refl, omega arith, omega arith) in
    omega (arith, wf.1, wf.2, run-event_capacity order (prepare event_capacity) actions)

-- Once a run has seen the worker's end, and the collector has not been dropped, receiving gives all
-- that still waits, in its order, and from then on the error that the worker has stopped.
pub run-drains :
    {E : Type 0} (order : ByteOrder) (event_capacity : ℕ) (actions : List (Action E)) (more : ℕ)
    → (run order (prepare event_capacity) actions).collector_alive ≡ true
    → (run order (prepare event_capacity) actions).worker ≡ WorkerPhase.gone
    → let p : Pipe E = run order (prepare event_capacity) actions in
      let deliveries = waiting (stream_of p) in
      outputs order p (receives order (length deliveries + more))
      ≡ map (map_err TryReceiveError.collector) deliveries
        ++ replicate more (err (TryReceiveError.collector worker_stop_error))
run-drains order event_capacity actions more alive gone =
    drain-lem order _ more (run order (prepare event_capacity) actions)
      (run-IsWellFormed order (prepare event_capacity) actions (refl, omega arith, omega arith))
      alive gone refl
