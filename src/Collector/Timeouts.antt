-- ===== src/Collector/Timeouts.antt =====
-- `Collector::recv_timeout` beside `Collector::try_recv` (src/collector.rs).
use landlock_observability.Prelude.{◌≡◌, none, arith}
use landlock_observability.Collector.Pipe.{Pipe, WorkerPhase}
use landlock_observability.Collector.Receive.{
  try_recv, recv_timeout, as_try, unpair, terminal_nonblocking, terminal_until,
}

abbrev pub idle : {E : Type 0} → Pipe E → Pipe E
idle p = p

-- Receiving with a timeout is receiving without one where no one else acts, with `Timeout` for
-- `Empty`. If nothing was held back and the worker still polls when the wait for a delivery ends, it
-- is receiving without a timeout at that moment, whatever the worker did while the consumer waited.
pub recv_timeout-try_recv :
    {E : Type 0} (first second third : Pipe E → Pipe E) (p : Pipe E)
    → (((recv_timeout idle idle idle p).0 ≡ (try_recv idle p).0)
        × (as_try (recv_timeout idle idle idle p).1 ≡ (try_recv idle p).1))
      × (p.pending_delivery ≡ none
          → (first p).pending_delivery ≡ none
          → (first p).worker ≡ WorkerPhase.polling
          → ((recv_timeout first second third p).0 ≡ (try_recv second (first p)).0)
            × (as_try (recv_timeout first second third p).1 ≡ (try_recv second (first p)).1))
unfolding recv_timeout try_recv unpair terminal_nonblocking terminal_until
recv_timeout-try_recv first second third p =
    ((ground arith, ground arith), λ held still polling. (ground arith, ground arith))
