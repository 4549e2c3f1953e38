-- ===== src/Lltop/Main.antt =====
-- The entry point of lltop (lltop/src/main.rs): `parse_mode`, `run_batch` over what the collector's
-- receives give, and how the results of the program and of its worker are combined. Output is a
-- parameter, as functions of a state `W` that may fail.
use text.Mathlib.Text.{◌==◌ as same_text}
use landlock_observability.Prelude.{
  Bool, true, false, Option, none, some, List, [], ◌∷◌, String, Result, err, ok, if◌then◌else◌,
}
use landlock_observability.Event.Kinds.{Event}
use landlock_observability.Collector.Errors.{CollectorReceiveErrorKind, CollectorReceiveError}
use landlock_observability.Collector.Receive.{ReceiveTimeoutError}
use landlock_observability.Lltop.Batch.{Batch, Formats, process_and_write}

pub data Mode : Type 0 where
  batch interactive : Mode

-- `parse_mode`, of the arguments after the program's name; an error is the usage text.
unfoldable pub parse_mode : List String → Option Mode
parse_mode [] = some Mode.interactive
parse_mode (argument ∷ []) = if same_text argument "--batch" then some Mode.batch else none
parse_mode (argument ∷ other ∷ more) = none

-- The inner `match` of `run_batch`: does the loop go on after this error?
unfoldable pub is_warning : CollectorReceiveErrorKind → Bool
is_warning CollectorReceiveErrorKind.output_queue_full = true
is_warning CollectorReceiveErrorKind.malformed_sample = true
is_warning CollectorReceiveErrorKind.poll_failure = false
is_warning CollectorReceiveErrorKind.worker_panic = false
is_warning CollectorReceiveErrorKind.worker_stop = false

pub data RunError (E F : Type 0) : Type 0 where
  from_collector : CollectorReceiveError E → RunError E F
  from_output : F → RunError E F

-- What `run_batch` has done after some receives: it goes on, or it has returned an error.
pub data Running (E F W : Type 0) : Type 0 where
  going_on : Batch → W → Running E F W
  returned : RunError E F → Batch → W → Running E F W

-- Both outputs: `write` and `flush` of the standard output, and `write_diagnostic` for a warning.
pub record Outputs (R E F W : Type 0) : Type 0 where
  pub write : R → W → W × Result F Unit
  pub flush : W → W × Result F Unit
  pub write_warning : CollectorReceiveError E → W → W × Result F Unit

module _ {R E F W : Type 0} (f : Formats R) (o : Outputs R E F W) where
  -- `?` on the result of an output.
  abbrev pub unless_output_failed : Batch → W × Result F Unit → Running E F W
  unless_output_failed b (w, err error) = Running.returned (RunError.from_output error) b w
  unless_output_failed b (w, ok u) = Running.going_on b w

  -- One turn of the loop, for what the receive gives.
  unfoldable pub run_batch_turn : Batch → W → Result (ReceiveTimeoutError E) Event → Running E F W
  unfolding is_warning process_and_write
  run_batch_turn b w (ok event) =
      let r = process_and_write f o.write o.flush b event w in unless_output_failed r.0 r.1
  run_batch_turn b w (err ReceiveTimeoutError.timeout) = Running.going_on b w
  run_batch_turn b w (err (ReceiveTimeoutError.collector error)) =
      if is_warning error.kind
      then unless_output_failed b (o.write_warning error w)
      else Running.returned (RunError.from_collector error) b w

  unfoldable pub run_batch :
      Running E F W → List (Result (ReceiveTimeoutError E) Event) → Running E F W
  unfolding run_batch_turn
  run_batch running [] = running
  run_batch (Running.returned error b w) (result ∷ results) = Running.returned error b w
  run_batch (Running.going_on b w) (result ∷ results) =
      run_batch (run_batch_turn b w result) results

-- `combine_execution_and_worker_results`
pub data ProgramError (X : Type 0) : Type 0 where
  one : X → ProgramError X
  execution_and_worker : (primary worker : X) → ProgramError X

unfoldable pub combine_execution_and_worker_results :
    {X : Type 0} → Result X Unit → Result X Unit → Result (ProgramError X) Unit
combine_execution_and_worker_results (ok u) (ok v) = ok tt
combine_execution_and_worker_results (err primary) (ok v) = err (ProgramError.one primary)
combine_execution_and_worker_results (ok u) (err worker) = err (ProgramError.one worker)
combine_execution_and_worker_results (err primary) (err worker) =
    err (ProgramError.execution_and_worker primary worker)
