-- ===== src/Collector/Steps.antt =====
-- Each step of the worker and the consumer, with the two looks of a receive, as a turn of the stream
-- (src/collector.rs).
use landlock_observability.Prelude.{◌≡◌, refl, ap, ◌∙◌, Bool, List, [], ◌∷◌, arith}
use landlock_observability.Wire.Reader.{ByteOrder}
use landlock_observability.Collector.Pipe.{Pipe}
use landlock_observability.Collector.Receive.{try_recv, unpair, terminal_nonblocking, or_empty}
use landlock_observability.Collector.Run.{Action, WorkerAction, worker_step, worker_steps, step}
use landlock_observability.Collector.Stream.{Turn, turn, worker_turns, failure_of}
use landlock_observability.Collector.Refine.{stream_of, IsWellFormed, has_room}
use landlock_observability.Collector.Invariant.{
  worker_step-IsWellFormed, worker_step-event_capacity,
}
use landlock_observability.Collector.Simulation.{worker_step-turn}

module _ {E : Type 0} (order : ByteOrder) where
  -- The actions between two looks, each with whether the queue had room for a delivery before it.
  unfoldable pub with_rooms : Pipe E → List (WorkerAction E) → List (WorkerAction E × Bool)
  with_rooms p [] = []
  with_rooms p (action ∷ actions) =
      (action, has_room p) ∷ with_rooms (worker_step order p action) actions

  abbrev pub turn_of : Pipe E → Action E → Turn E
  turn_of p (Action.of_worker action) = Turn.of_worker action (has_room p)
  turn_of p (Action.receive between) = Turn.receive (with_rooms p between)
  turn_of p Action.dropped = Turn.dropped

  worker_steps-IsWellFormed :
      (p : Pipe E) (actions : List (WorkerAction E))
      → IsWellFormed p
      → IsWellFormed (worker_steps order actions p)
  unfolding worker_steps
  worker_steps-IsWellFormed p [] wf = wf
  worker_steps-IsWellFormed p (action ∷ actions) wf =
      worker_steps-IsWellFormed (worker_step order p action) actions
        (worker_step-IsWellFormed order p action wf)

  worker_steps-turns :
      (p : Pipe E) (actions : List (WorkerAction E))
      → IsWellFormed p
      → stream_of (worker_steps order actions p)
        ≡ worker_turns order (with_rooms p actions) (stream_of p)
  unfolding worker_steps with_rooms
  worker_steps-turns p [] wf = refl
  worker_steps-turns p (action ∷ actions) wf =
      let after = worker_step order p action in
      worker_steps-turns after actions (worker_step-IsWellFormed order p action wf)
      ∙ ap (worker_turns order (with_rooms after actions)) (worker_step-turn order p action wf)

  worker_steps-event_capacity :
      (p : Pipe E) (actions : List (WorkerAction E))
      → (worker_steps order actions p).event_capacity ≡ p.event_capacity
  unfolding worker_steps
  worker_steps-event_capacity p [] = refl
  worker_steps-event_capacity p (action ∷ actions) =
      worker_steps-event_capacity (worker_step order p action) actions
      ∙ worker_step-event_capacity order p action

  -- The second look.
  second_look-failure :
      (q : Pipe E)
      → (stream_of (terminal_nonblocking q).0, or_empty (terminal_nonblocking q).1)
        ≡ failure_of (stream_of q).failed q.worker (stream_of q)
  unfolding terminal_nonblocking
  second_look-failure q = ground arith

  second_look-IsWellFormed :
      (q : Pipe E)
      → IsWellFormed q
      → IsWellFormed (terminal_nonblocking q).0
        × ((terminal_nonblocking q).0.event_capacity ≡ q.event_capacity)
  unfolding terminal_nonblocking
  second_look-IsWellFormed q wf = ground arith

  second_look-turn :
      (p : Pipe E) (between : List (WorkerAction E))
      → IsWellFormed p
      → let q = worker_steps order between p in
        let later = worker_turns order (with_rooms p between) (stream_of p) in
        (stream_of (terminal_nonblocking q).0, or_empty (terminal_nonblocking q).1)
        ≡ failure_of later.failed later.phase later
  second_look-turn p between wf =
      second_look-failure (worker_steps order between p)
      ∙ ap (λ s. failure_of s.failed s.phase s) (worker_steps-turns p between wf)

  pub step-turn :
      (p : Pipe E) (action : Action E)
      → IsWellFormed p
      → (stream_of (step order p action).0, (step order p action).1)
        ≡ turn order (turn_of p action) (stream_of p)
  unfolding step try_recv unpair
  step-turn p (Action.of_worker action) wf = cc (worker_step-turn order p action wf)
  step-turn p (Action.receive between) wf = ground (arith, second_look-turn p between wf)
  step-turn p Action.dropped wf = ground arith

  pub step-IsWellFormed :
      (p : Pipe E) (action : Action E) → IsWellFormed p → IsWellFormed (step order p action).0
  unfolding step try_recv unpair
  step-IsWellFormed p (Action.of_worker action) wf = worker_step-IsWellFormed order p action wf
  step-IsWellFormed p (Action.receive between) wf = ground (
    arith,
    second_look-IsWellFormed (worker_steps order between p)
        (worker_steps-IsWellFormed p between wf),
  )
  step-IsWellFormed p Action.dropped wf = ground arith

  pub step-event_capacity :
      (p : Pipe E) (action : Action E) → (step order p action).0.event_capacity ≡ p.event_capacity
  unfolding step try_recv unpair terminal_nonblocking
  step-event_capacity p (Action.of_worker action) = worker_step-event_capacity order p action
  step-event_capacity p (Action.receive between) =
      ground (arith, worker_steps-event_capacity p between)
  step-event_capacity p Action.dropped = refl
