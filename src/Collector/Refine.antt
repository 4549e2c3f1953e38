-- ===== src/Collector/Refine.antt =====
-- The queues and slots of the collector read as its stream, and the invariant of its state
-- (src/collector.rs).
use landlock_observability.Prelude.{
  ℕ, ◌≤◌, ◌≡◌, Bool, Option, none, some, List, [], ◌∷◌, ◌++◌, err, ltb, length, map,
}
use landlock_observability.Collector.Errors.{CollectorReceiveError}
use landlock_observability.Collector.Pipe.{Delivery, DeliveryEntry, Pipe, WorkerPhase}
use landlock_observability.Collector.Stream.{Stream, notice_then}

-- The errors that a worker may have sent by the time it is in a phase.
abbrev pub most_terminal : WorkerPhase → ℕ
most_terminal WorkerPhase.polling = 0
most_terminal WorkerPhase.leaving = 2
most_terminal WorkerPhase.gone = 3

module _ {E : Type 0} where
  abbrev pub unrolled : List (DeliveryEntry E) → List (Delivery E)
  unrolled [] = []
  unrolled (entry ∷ entries) =
      notice_then entry.output_full_before entry.delivery ++ unrolled entries

  abbrev pub failures : List (CollectorReceiveError E) → List (Delivery E)
  failures errors = map err errors

  abbrev pub first_of : Option (Delivery E) → List (Delivery E) → List (Delivery E)
  first_of none rest = rest
  first_of (some delivery) rest = delivery ∷ rest

  -- The stream that a state stands for.
  abbrev pub stream_of : Pipe E → Stream E
  stream_of p = record {
    accepted = first_of p.pending_delivery (unrolled p.deliveries);
    failed = failures p.terminal;
    omitted = p.output_full_pending;
    caught = p.callback_panic;
    attended = p.collector_alive;
    phase = p.worker;
  }

  abbrev pub IsWellFormed : Pipe E → Type 0
  IsWellFormed p =
      (p.running ≡ p.collector_alive)
      × (length p.deliveries ≤ p.event_capacity)
      × (length p.terminal ≤ most_terminal p.worker)

  abbrev pub has_room : Pipe E → Bool
  has_room p = ltb (length p.deliveries) p.event_capacity
