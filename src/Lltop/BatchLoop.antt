-- ===== src/Lltop/BatchLoop.antt =====
-- What the batch loop has done after some receives (lltop/src/main.rs, `run_batch`).
use landlock_observability.Prelude.{
  All, Bool-cases, ◌⊎◌, ◌≡◌, subst, refl, sym, ap, ◌∙◌, true, false, List, [], ◌∷◌, ◌++◌, Result,
  err, ok, arith, inl, inr,
}
use landlock_observability.Event.Kinds.{Event}
use landlock_observability.Collector.Errors.{CollectorReceiveErrorKind, CollectorReceiveError}
use landlock_observability.Collector.Receive.{ReceiveTimeoutError}
use landlock_observability.Lltop.Batch.{Batch, Formats, process, process_all, process_and_write}
use landlock_observability.Lltop.Main.{
  is_warning, RunError, Running, Outputs, unless_output_failed, run_batch_turn, run_batch,
}

-- The events among what the receives give.
abbrev pub received_events : {E : Type 0} → List (Result (ReceiveTimeoutError E) Event) → List Event
received_events [] = []
received_events (ok event ∷ results) = event ∷ received_events results
received_events (err error ∷ results) = received_events results

-- The two kinds of error that the loop warns of.
abbrev pub IsWarned : CollectorReceiveErrorKind → Type 0
IsWarned kind =
    (kind ≡ CollectorReceiveErrorKind.output_queue_full)
    ⊎ (kind ≡ CollectorReceiveErrorKind.malformed_sample)

is_warning-IsWarned : (kind : CollectorReceiveErrorKind) → is_warning kind ≡ true → IsWarned kind
unfolding is_warning
is_warning-IsWarned CollectorReceiveErrorKind.output_queue_full h = inl refl
is_warning-IsWarned CollectorReceiveErrorKind.malformed_sample h = inr refl
is_warning-IsWarned CollectorReceiveErrorKind.poll_failure h = absurd (ground arith)
is_warning-IsWarned CollectorReceiveErrorKind.worker_panic h = absurd (ground arith)
is_warning-IsWarned CollectorReceiveErrorKind.worker_stop h = absurd (ground arith)

IsWarned-is_warning : (kind : CollectorReceiveErrorKind) → is_warning kind ≡ false → ¬ IsWarned kind
unfolding is_warning
IsWarned-is_warning kind h = λ warned. ground (arith, h, warned)

abbrev pub IsWarningOrTimeout : {E : Type 0} → Result (ReceiveTimeoutError E) Event → Type 0
IsWarningOrTimeout (ok event) = Unit
IsWarningOrTimeout (err ReceiveTimeoutError.timeout) = Unit
IsWarningOrTimeout (err (ReceiveTimeoutError.collector error)) = IsWarned error.kind

module _ {R E F W : Type 0} (f : Formats R) (o : Outputs R E F W) where
  -- Where the loop stands after some results, from a batch.
  abbrev pub Follows : Batch → List (Result (ReceiveTimeoutError E) Event) → Running E F W → Type 0
  Follows b results running =
      ((c : Batch) (v : W)
        → running ≡ Running.going_on c v
        → (c ≡ process_all f b (received_events results)) × All IsWarningOrTimeout results)
      × ((e : CollectorReceiveError E) (c : Batch) (v : W)
          → running ≡ Running.returned (RunError.from_collector e) c v
          → (before after : List (Result (ReceiveTimeoutError E) Event)) × (results
              ≡ before ++ err (ReceiveTimeoutError.collector e) ∷ after)
            × All IsWarningOrTimeout before
            × (¬ IsWarned e.kind)
            × (c ≡ process_all f b (received_events before)))

  returned-stays :
      (error : RunError E F) (b : Batch) (w : W)
      (results : List (Result (ReceiveTimeoutError E) Event))
      → run_batch f o (Running.returned error b w) results ≡ Running.returned error b w
  unfolding run_batch
  returned-stays error b w [] = refl
  returned-stays error b w (result ∷ results) = refl

  -- What one more result in front does, if it is not fatal.
  Follows-harmless :
      (b c : Batch) (result : Result (ReceiveTimeoutError E) Event)
      (results : List (Result (ReceiveTimeoutError E) Event)) (running : Running E F W)
      → IsWarningOrTimeout result
      → ((rs : List (Result (ReceiveTimeoutError E) Event))
          → process_all f b (received_events (result ∷ rs)) ≡ process_all f c (received_events rs))
      → Follows c results running
      → Follows b (result ∷ results) running
  Follows-harmless b c result results running harmless same follows = (
    λ d v h. let p = follows.0 d v h in (p.0 ∙ sym (same results), (harmless, p.1)),
    λ e d v h.
        let (before, after, p, all, q, r) = follows.1 e d v h in
        (
          result ∷ before,
          after,
          ap (λ rs. result ∷ rs) p,
          (harmless, all),
          q,
          r ∙ sym (same before),
        ),
  )

  after_output-Follows :
      (c : Batch) (r : W × Result F Unit) (results : List (Result (ReceiveTimeoutError E) Event))
      → ((v : W) → Follows c results (run_batch f o (Running.going_on c v) results))
      → Follows c results (run_batch f o (unless_output_failed f o c r) results)
  after_output-Follows c (w, ok u) results follows = follows w
  after_output-Follows c (w, err error) results follows =
      subst (Follows c results) (sym (returned-stays (RunError.from_output error) c w results))
        (λ d v h. absurd (ground arith), λ e d v h. absurd (ground arith))

  fatal-Follows :
      (b : Batch) (w : W) (error : CollectorReceiveError E)
      (results : List (Result (ReceiveTimeoutError E) Event))
      → is_warning error.kind ≡ false
      → Follows b
          (err (ReceiveTimeoutError.collector error) ∷ results)
          (Running.returned (RunError.from_collector error) b w)
  unfolding process_all
  fatal-Follows b w error results fatal = (
    λ d v h. absurd (ground arith),
    λ e d v h.
        let same : (error ≡ e) × (b ≡ d) = ground arith in
        (
          [],
          results,
          ap (λ x. err (ReceiveTimeoutError.collector x) ∷ results) same.0,
          tt,
          subst (λ x. ¬ IsWarned x.kind) same.0 (IsWarned-is_warning error.kind fatal),
          sym same.1,
        ),
  )

  turn-warning :
      (b : Batch) (w : W) (error : CollectorReceiveError E)
      → is_warning error.kind ≡ true
      → run_batch_turn f o b w (err (ReceiveTimeoutError.collector error))
        ≡ unless_output_failed f o b (o.write_warning error w)
  unfolding run_batch_turn
  turn-warning b w error e = ground (arith, e)

  turn-fatal :
      (b : Batch) (w : W) (error : CollectorReceiveError E)
      → is_warning error.kind ≡ false
      → run_batch_turn f o b w (err (ReceiveTimeoutError.collector error))
        ≡ Running.returned (RunError.from_collector error) b w
  unfolding run_batch_turn
  turn-fatal b w error e = ground (arith, e)

  run_batch-Follows :
      (b : Batch) (w : W) (results : List (Result (ReceiveTimeoutError E) Event))
      → Follows b results (run_batch f o (Running.going_on b w) results)
  unfolding run_batch run_batch_turn process_and_write process_all
  run_batch-Follows b w [] = (λ c v h. (ground arith, tt), λ e c v h. absurd (ground arith))
  run_batch-Follows b w (ok event ∷ results) =
      Follows-harmless b (process f b event).0 (ok event) results _ tt (λ rs. refl)
        (after_output-Follows (process f b event).0
          (process_and_write f o.write o.flush b event w).1 results
          (λ v. run_batch-Follows (process f b event).0 v results))
  run_batch-Follows b w (err ReceiveTimeoutError.timeout ∷ results) =
      Follows-harmless b b _ results (run_batch f o (Running.going_on b w) results) tt (λ rs. refl)
        (run_batch-Follows b w results)
  run_batch-Follows b w (err (ReceiveTimeoutError.collector error) ∷ results) =
      let first : Result (ReceiveTimeoutError E) Event =
        err (ReceiveTimeoutError.collector error) in
      let all : List (Result (ReceiveTimeoutError E) Event) = first ∷ results in
      elim (Bool-cases (is_warning error.kind)) [
        | inl e ↦
            subst (λ running. Follows b all (run_batch f o running results))
              (sym (turn-warning b w error e))
              (Follows-harmless b b first results _ (is_warning-IsWarned error.kind e) (λ rs. refl)
                (after_output-Follows b (o.write_warning error w) results
                  (λ v. run_batch-Follows b v results)))
        | inr e ↦
            subst (λ running. Follows b all (run_batch f o running results))
              (sym (turn-fatal b w error e))
              (subst (Follows b all)
                (sym (returned-stays (RunError.from_collector error) b w results))
                (fatal-Follows b w error results e))
      ]

-- Wherever the batch loop stands after some receives: if it goes on, it has processed all their events
-- in order, and each error among them was a timeout, a full output queue or a malformed sample; if it
-- has returned an error of the collector, that error is of another kind than these, each error before it
-- was one of them, and what was processed are the events before it.
pub run_batch-Follows_all :
    {R E F W : Type 0} (f : Formats R) (o : Outputs R E F W) (b : Batch) (w : W)
    (results : List (Result (ReceiveTimeoutError E) Event))
    → Follows f o b results (run_batch f o (Running.going_on b w) results)
run_batch-Follows_all f o b w results = run_batch-Follows f o b w results
