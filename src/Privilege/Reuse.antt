-- ===== src/Privilege/Reuse.antt =====
-- When a `Privileges` value may be used again, for any operations (src/privilege.rs,
-- `finish_policy_with` and `ensure_can_prepare`).
use landlock_observability.Prelude.{◌≡◌, ◌↔◌, ◌≢◌, Result, err, ok, refl, arith}
use landlock_observability.Privilege.Errors.{PrivilegeError}
use landlock_observability.Privilege.Policy.{
  Policy, FinalizationMode, FinalizationOps, finish_policy_with, ensure_can_prepare, removal,
  after_removal, verified,
}

module _ {S I : Type 0} (ops : FinalizationOps S I) where
  -- Explicit finishing changes nothing unless the value is minimized.
  explicit-Keeps :
      (policy : Policy) (s : S)
      → policy ≢ Policy.minimized
      → ((finish_policy_with policy FinalizationMode.explicit ops s).state ≡ s)
        × ((finish_policy_with policy FinalizationMode.explicit ops s).policy ≡ policy)
  unfolding finish_policy_with
  explicit-Keeps Policy.minimized s other = absurd (other refl)
  explicit-Keeps Policy.preserved s other = (refl, refl)
  explicit-Keeps Policy.verification_pending s other = (refl, refl)
  explicit-Keeps Policy.finished s other = (refl, refl)

  abbrev ReportsFailure : S × Result (PrivilegeError I) Unit → Type 0
  ReportsFailure r =
      let o = after_removal ops r in
      ((o.policy ≡ Policy.finished) ↔ (o.result ≡ ok tt))
      × ((ensure_can_prepare {I = I} o.policy ≡ ok tt)
          ↔ ((e : PrivilegeError I) × (r.1 ≡ err e) × (o.result ≡ err e)))

  verified-lem :
      (r v : S × Result (PrivilegeError I) Unit) (u : Unit)
      → r.1 ≡ ok u
      → (((verified v).policy ≡ Policy.finished) ↔ ((verified v).result ≡ ok tt))
        × ((ensure_can_prepare {I = I} (verified v).policy ≡ ok tt)
            ↔ ((e : PrivilegeError I) × (r.1 ≡ err e) × ((verified v).result ≡ err e)))
  unfolding ensure_can_prepare
  verified-lem r (t, err e) u h = (ground arith, ground arith)
  verified-lem r (t, ok v) u h = (ground arith, ground arith)

  after_removal-lem : (r : S × Result (PrivilegeError I) Unit) → ReportsFailure r
  unfolding ensure_can_prepare
  after_removal-lem (t, err e) =
      ((λ h. absurd (ground arith), λ h. absurd (ground arith)), (λ h. (e, refl, refl), λ h. refl))
  after_removal-lem (t, ok u) = verified-lem (t, ok u) (ops.verify t) u refl

-- Whatever the operations do, finishing a minimized value explicitly succeeds exactly if the value
-- is finished then. It may be used again exactly if a call up to the removal of the capabilities
-- failed, and the result is then that failure. Otherwise finishing it again explicitly changes
-- neither the state nor the value.
pub finish_policy_with-reuse :
    {S I : Type 0} (ops : FinalizationOps S I) (s : S)
    → let o = finish_policy_with Policy.minimized FinalizationMode.explicit ops s in
      ((o.policy ≡ Policy.finished) ↔ (o.result ≡ ok tt))
      × ((ensure_can_prepare {I = I} o.policy ≡ ok tt)
          ↔ ((e : PrivilegeError I) × ((removal ops s).1 ≡ err e) × (o.result ≡ err e)))
      × (o.policy ≢ Policy.minimized
          → (later : S)
          → ((finish_policy_with o.policy FinalizationMode.explicit ops later).state ≡ later)
            × ((finish_policy_with o.policy FinalizationMode.explicit ops later).policy ≡ o.policy))
unfolding finish_policy_with
finish_policy_with-reuse ops s =
    let a = after_removal-lem ops (removal ops s) in
    (
      a.0,
      a.1,
      λ other later. explicit-Keeps ops (after_removal ops (removal ops s)).policy later other,
    )
