-- ===== src/Privilege/Guarantee.antt =====
-- The credentials that the functions of src/privilege.rs leave.
use landlock_observability.Prelude.{
  ℕ, ◌^◌, ◌<◌, ◌≡◌, refl, sym, subst, Bool, true, false, Result, err, ok, ◌⊎◌, inl, inr,
  Result-cases, arith,
}
use landlock_observability.Privilege.Errors.{PrivilegeError}
use landlock_observability.Privilege.Kernel.{
  CapabilitySet, CapabilitySets, Kernel, empty_capabilities, check_single_threaded,
  enable_no_new_privs, ◌>>=◌,
}
use landlock_observability.Privilege.Inspect.{verify, preflight_minimization}
use landlock_observability.Privilege.Policy.{
  Policy, FinalizationMode, Process, verified, after_removal, finish_policy_with, drop_with,
  drop_privileges, finish, production_ops, removal,
}
use landlock_observability.Privilege.Minimize.{
  setup, Minimized, prologue, reduce, minimize, cleaned_up,
}
use landlock_observability.Privilege.Ensures.{Ensures, Ensures-last}
use landlock_observability.Privilege.Honest.{Credentials, IsHonest, Ensures-verify}

-- The credentials are the requested ones: no_new_privs is set, the three sets are `expected`, and
-- no capability that the kernel knows is ambient or in the bounding set.
abbrev pub IsReduced : (CapabilitySet → Bool) → CapabilitySets → Credentials → Type 0
IsReduced is_known expected c =
    (c.no_new_privs ≡ true)
    × (c.sets ≡ expected)
    × ((i : ℕ)
        → i < 64
        → is_known (2 ^ i) ≡ true
        → (c.ambient (2 ^ i) ≡ false) × (c.bounding (2 ^ i) ≡ false))

-- One of the first three calls fails, of which the last sets no_new_privs; the ones before it succeed.
abbrev pub FailedEarly : {S I : Type 0} (k : Kernel S I) → (s t : S) → PrivilegeError I → Type 0
FailedEarly k s t e =
    let first = preflight_minimization k s in
    let second = check_single_threaded k first.0 in
    let third = enable_no_new_privs k second.0 in
    (first ≡ (t, err e))
    ⊎ ((first.1 ≡ ok tt) × (second ≡ (t, err e)))
    ⊎ ((first.1 ≡ ok tt) × (second.1 ≡ ok tt) × (third ≡ (t, err e)))

prologue-FailedEarly :
    {S I : Type 0} (k : Kernel S I) (s t : S) (e : PrivilegeError I)
    → prologue k s ≡ (t, err e)
    → FailedEarly k s t e
unfolding prologue ◌>>=◌
prologue-FailedEarly k s t e h =
    let first = preflight_minimization k s in
    let second = check_single_threaded k first.0 in
    elim (Result-cases first.1) [
      | inl (d, p) ↦ inl (ground (p, arith, h))
      | inr (u, p) ↦ elim (Result-cases second.1) [
        | inl (d, q) ↦ inr (inl (p, ground (arith, p, q, h)))
        | inr (v, q) ↦ inr (inr (p, q, ground (arith, p, q, h)))
      ]
    ]

module _ {S I : Type 0} (k : Kernel S I) (view : S → Credentials) (is_known : CapabilitySet → Bool)
    (honest : IsHonest k view is_known) where
  verify-IsReduced :
      (expected : CapabilitySets) (s t : S) (u : Unit)
      → verify k expected s ≡ (t, ok u)
      → IsReduced is_known expected (view t)
  verify-IsReduced expected s t u h =
      let p = (Ensures-verify k view is_known honest expected s).holds t u h in
      subst (IsReduced is_known expected) (sym p.0)
        (p.1, p.2, λ i lt known. p.3 i (omega arith) lt known)

  reduce-IsReduced :
      (s t : S) (u : Unit) → reduce k s ≡ (t, ok u) → IsReduced is_known setup (view t)
  unfolding reduce
  reduce-IsReduced s t u h =
      let ensured : Ensures s (reduce k) (λ v w. IsReduced is_known setup (view v)) =
        Ensures-last _ (λ s1. Ensures-last _ (λ s2. Ensures-last _ (λ s3. Ensures-last _ (λ s4.
          Ensures-last _
            (λ s5. Ensures-last _ (λ s6. record { holds = verify-IsReduced setup s6 })))))) in
      ensured.holds t u h

  -- The result of a last `verify` is Ok exactly where the value is finished.
  verified-IsReduced :
      (s : S) (r : S × Result (PrivilegeError I) Unit)
      → verify k empty_capabilities s ≡ r
      → (verified r).result ≡ ok tt
      → ((verified r).policy ≡ Policy.finished)
        × IsReduced is_known empty_capabilities (view (verified r).state)
  verified-IsReduced s (t, err error) e h = ground arith
  verified-IsReduced s (t, ok u) e h = (refl, verify-IsReduced empty_capabilities s t u e)

  after_removal-IsReduced :
      (r : S × Result (PrivilegeError I) Unit)
      → (after_removal (production_ops k) r).result ≡ ok tt
      → ((after_removal (production_ops k) r).policy ≡ Policy.finished)
        × IsReduced is_known empty_capabilities (view (after_removal (production_ops k) r).state)
  after_removal-IsReduced (t, err error) h = ground arith
  after_removal-IsReduced (t, ok u) h = verified-IsReduced t (verify k empty_capabilities t) refl h

  finished-IsReduced :
      (policy : Policy) (mode : FinalizationMode) (s : S)
      → (policy ≡ Policy.minimized) ⊎ (policy ≡ Policy.verification_pending)
      → (finish_policy_with policy mode (production_ops k) s).result ≡ ok tt
      → ((finish_policy_with policy mode (production_ops k) s).policy ≡ Policy.finished)
        × IsReduced is_known empty_capabilities
            (view (finish_policy_with policy mode (production_ops k) s).state)
  unfolding finish_policy_with
  finished-IsReduced Policy.minimized mode s held h =
      after_removal-IsReduced (removal (production_ops k) s) h
  finished-IsReduced Policy.preserved mode s held h = ground arith
  finished-IsReduced Policy.verification_pending FinalizationMode.explicit s held h = ground arith
  finished-IsReduced Policy.verification_pending FinalizationMode.cleanup s held h =
      verified-IsReduced s (verify k empty_capabilities s) refl h
  finished-IsReduced Policy.finished mode s held h = ground arith

  drop-IsReduced :
      (policy : Policy) (s t : S)
      → (policy ≡ Policy.minimized) ⊎ (policy ≡ Policy.verification_pending)
      → drop_privileges k policy s ≡ Process.running t
      → IsReduced is_known empty_capabilities (view t)
  unfolding drop_privileges drop_with
  drop-IsReduced policy s t held h =
      let o = finish_policy_with policy FinalizationMode.cleanup (production_ops k) s in
      elim (Result-cases o.result) [
        | inl (e, p) ↦ absurd (ground (arith, p))
        | inr (u, p) ↦
            let state : o.state ≡ t = ground (arith, p) in
            subst (λ x. IsReduced is_known empty_capabilities (view x)) state
              (finished-IsReduced policy FinalizationMode.cleanup s held p).1
      ]

  cleaned_up-returned :
      (error : PrivilegeError I) (d : Process S) (t : S) (result : Result (PrivilegeError I) Policy)
      → cleaned_up error d ≡ Minimized.returned t result
      → (result ≡ err error) × (d ≡ Process.running t)
  cleaned_up-returned error (Process.running s) t result h = ground arith
  cleaned_up-returned error Process.aborted t result h = ground arith

  minimized-IsReduced :
      (s t : S) (result : Result (PrivilegeError I) Policy)
      → minimize k s ≡ Minimized.returned t result
      → ((result ≡ ok Policy.minimized) × IsReduced is_known setup (view t))
        ⊎ ((e : PrivilegeError I) × (result ≡ err e)
            × (FailedEarly k s t e ⊎ IsReduced is_known empty_capabilities (view t)))
  unfolding minimize
  minimized-IsReduced s t result h = elim (Result-cases (prologue k s).1) [
    | inl (e, p) ↦
        inr (e, ground (arith, p, h), inl (prologue-FailedEarly k s t e (ground (arith, p, h))))
    | inr (u, p) ↦
        let r = reduce k (prologue k s).0 in
        elim (Result-cases r.1) [
          | inl (e, q) ↦
              let c =
                cleaned_up-returned e (drop_privileges k Policy.minimized r.0) t result
                  (ground (arith, p, q, h)) in
              inr (e, c.0, inr (drop-IsReduced Policy.minimized r.0 t (inl refl) c.1))
          | inr (v, q) ↦
              inl
                (ground (arith, p, q), reduce-IsReduced (prologue k s).0 t v (ground (arith, p, q)))
        ]
  ]

-- Where `minimize` returns, it has either left no_new_privs, exactly the two setup capabilities and
-- no known ambient or bounding capability, or it returns an error. After an error the credentials
-- are verified to be empty, unless one of the first three calls failed, of which the last sets
-- no_new_privs; a failure of that cleanup aborts the process. The calls that read credentials are
-- taken to report them.
pub minimize-IsReduced :
    {S I : Type 0} (k : Kernel S I) (view : S → Credentials) (is_known : CapabilitySet → Bool)
    → IsHonest k view is_known
    → (s t : S) (result : Result (PrivilegeError I) Policy)
    → minimize k s ≡ Minimized.returned t result
    → ((result ≡ ok Policy.minimized) × IsReduced is_known setup (view t))
      ⊎ ((e : PrivilegeError I) × (result ≡ err e)
          × (FailedEarly k s t e ⊎ IsReduced is_known empty_capabilities (view t)))
minimize-IsReduced k view is_known honest s t result h =
    minimized-IsReduced k view is_known honest s t result h

-- A value that was minimized, or whose verification is pending, leaves empty credentials that are
-- verified to be so wherever the process goes on after its drop, and wherever finishing it
-- explicitly succeeds, after which it is finished. The calls that read credentials are taken to
-- report them.
pub finish-IsReduced :
    {S I : Type 0} (k : Kernel S I) (view : S → Credentials) (is_known : CapabilitySet → Bool)
    → IsHonest k view is_known
    → (policy : Policy) (s : S)
    → (policy ≡ Policy.minimized) ⊎ (policy ≡ Policy.verification_pending)
    → ((t : S)
        → drop_privileges k policy s ≡ Process.running t
        → IsReduced is_known empty_capabilities (view t))
      × ((finish k policy s).result ≡ ok tt
          → ((finish k policy s).policy ≡ Policy.finished)
            × IsReduced is_known empty_capabilities (view (finish k policy s).state))
unfolding finish
finish-IsReduced k view is_known honest policy s held = (
  λ t h. drop-IsReduced k view is_known honest policy s t held h,
  λ h. finished-IsReduced k view is_known honest policy FinalizationMode.explicit s held h,
)
