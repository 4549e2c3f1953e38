-- ===== src/Aggregate/Building.antt =====
-- The aggregator's builder (src/aggregate.rs, `DenialAggregatorBuilder::build`), and what it builds.
use landlock_observability.Prelude.{
  ℕ, ◌<◌, ◌≡◌, ◌↔◌, ◌⊎◌, sym, Option, none, some, List, [], Option-cases, inl, inr, arith, ok, err,
  subst, ℕ_discrete,
}
use landlock_observability.Event.Kinds.{Event}
use landlock_observability.Aggregate.Aggregator.{
  build, BuildError, invalid_capacity, reservation, DenialAggregator, with_capacity, u128_max,
  observe_all,
}
use landlock_observability.Aggregate.Recency.{by_recency, log_all}
use landlock_observability.Aggregate.Refinement.{IsValid}
use landlock_observability.Aggregate.Stream.{observe_all-IsValid, observe_all-log}

build-ok :
    {E : Type 0} (try_reserve : ℕ → Option E) (c : ℕ) (s : DenialAggregator)
    → (build try_reserve c ≡ ok s) ↔ ((0 < c) × (try_reserve c ≡ none) × (s ≡ with_capacity c))
unfolding build
build-ok try_reserve c s = (
  λ h. (ground (arith, h), ground (arith, h), ground (arith, h)),
  λ (positive, reserved, same). ground (arith, positive, reserved, same),
)

build-err :
    {E : Type 0} (try_reserve : ℕ → Option E) (c : ℕ) (e : BuildError E)
    → (build try_reserve c ≡ err e) ↔ (
        ((c ≡ 0) × (e ≡ invalid_capacity 0))
        ⊎ ((0 < c) × ((source : E) × (try_reserve c ≡ some source) × (e ≡ reservation c source))))
unfolding build
build-err try_reserve c e = (
  λ h. elim (ℕ_discrete c 0) [
    | yes zeroed ↦ inl (zeroed, ground (arith, h, zeroed))
    | no other ↦ elim (Option-cases (try_reserve c)) [
      | inl reserved ↦ absurd (ground (arith, h, other, reserved))
      | inr (source, failed) ↦
          inr (omega (arith, other), (source, failed, ground (arith, h, other, failed)))
    ]
  ],
  λ cases. elim cases [
    | inl (zeroed, same) ↦ ground (arith, zeroed, same)
    | inr (positive, (source, failed, same)) ↦ ground (arith, positive, failed, same)
  ],
)

-- The builder and all that follows, whatever `HashMap::try_reserve` answers, for a capacity below the
-- greatest `u128`. It succeeds exactly where the capacity is not zero and the reservation succeeds; a
-- capacity of zero is the error `InvalidCapacity` and a failed reservation the other one, with its
-- source. After every sequence of events the aggregator that it gives is valid, and its entries are the
-- log of those events at the configured capacity.
pub build-log :
    {E : Type 0} (try_reserve : ℕ → Option E) (c : ℕ)
    → c < u128_max
    → ((s : DenialAggregator)
        → build try_reserve c ≡ ok s
        → (events : List Event)
        → IsValid (observe_all s events)
          × (by_recency (observe_all s events).entries ≡ log_all c [] events))
      × ((s : DenialAggregator)
          → (build try_reserve c ≡ ok s)
            ↔ ((0 < c) × (try_reserve c ≡ none) × (s ≡ with_capacity c)))
      × ((e : BuildError E)
          → (build try_reserve c ≡ err e) ↔ (
              ((c ≡ 0) × (e ≡ invalid_capacity 0))
              ⊎ ((0 < c)
                  × ((source : E) × (try_reserve c ≡ some source) × (e ≡ reservation c source)))))
build-log try_reserve c small = (
  λ s h events.
      let (positive, reserved, same) = (build-ok try_reserve c s).0 h in
      subst
        (λ (a : DenialAggregator).
          IsValid (observe_all a events)
          × (by_recency (observe_all a events).entries ≡ log_all c [] events))
        (sym same)
        (observe_all-IsValid c positive small events, observe_all-log c positive small events),
  build-ok try_reserve c,
  build-err try_reserve c,
)
