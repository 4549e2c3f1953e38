-- ===== src/Privilege/Honest.antt =====
-- What src/privilege.rs relies on of the calls that read credentials, and `verify` under it.
use landlock_observability.Prelude.{
  ℕ, zero, suc, ◌+◌, ◌^◌, ◌≤◌, ◌<◌, ◌≡◌, refl, sym, ap, subst, ◌∙◌, Bool, true, false, not, Option,
  none, some, err, ok, inl, inr, ◌⊎◌, arith, Result-cases, dec_lt,
}
use landlock_observability.Privilege.Errors.{PrivilegeError, einval, inspect_errno}
use landlock_observability.Privilege.Kernel.{
  Call, CapabilitySet, CapabilitySets, ◌>>=◌, Kernel, Steps, pure, capability, with_error,
  current_capabilities, current_no_new_privs, ambient_contains, bounding_contains,
}
use landlock_observability.Privilege.Ensures.{
  Ensures, Ensures-bind, Ensures-weaken, Ensures-pure, Ensures-require, with_error-ok,
}
use landlock_observability.Privilege.Inspect.{
  is_member, sets_equal, each_from, each_supported_capability, verify_one, verify,
}

-- The credentials of the calling thread.
pub record Credentials : Type 0 where
  pub sets : CapabilitySets
  pub no_new_privs : Bool
  pub ambient : CapabilitySet → Bool
  pub bounding : CapabilitySet → Bool

-- A call that succeeds answers what a part of the credentials is, and leaves them.
abbrev pub Reads : {S E A : Type 0} → (S → Credentials) → Call S E A → (Credentials → A) → Type 0
Reads {S} {A = A} view call part =
    (s t : S) (value : A) → call s ≡ (t, ok value) → (view t ≡ view s) × (value ≡ part (view s))

-- The manual pages: capget(2) and prctl(2) read, and PR_CAPBSET_READ fails with EINVAL exactly for
-- a capability that the kernel does not know; the capabilities that it knows are the first ones.
pub record IsHonest {S I : Type 0} (k : Kernel S I) (view : S → Credentials)
    (is_known : CapabilitySet → Bool) : Type 0 where
  pub no_new_privs_reads : Reads view k.no_new_privs (λ c. c.no_new_privs)
  pub capabilities_reads : Reads view k.capabilities (λ c. c.sets)
  pub ambient_reads :
      (c : CapabilitySet) → Reads view (k.capability_is_in_ambient_set c) (λ v. v.ambient c)
  pub bounding_reads :
      (c : CapabilitySet) → Reads view (k.capability_is_in_bounding_set c) (λ v. v.bounding c)
  pub unknown_einval :
      (c : CapabilitySet) (s t : S)
      → k.capability_is_in_bounding_set c s ≡ (t, err einval)
      → (view t ≡ view s) × (is_known c ≡ false)
  pub known_first : (i j : ℕ) → i ≤ j → is_known (2 ^ i) ≡ false → is_known (2 ^ j) ≡ false

module _ {S E : Type 0} where
  with_error-Reads :
      {F A : Type 0} (view : S → Credentials) (convert : E → F) (call : Call S E A)
      (part : Credentials → A)
      → Reads view call part
      → Reads view (with_error convert call) part
  with_error-Reads view convert call part reads s t a h =
      reads s t a (with_error-ok convert call s t a h)

module _ {S I : Type 0} (k : Kernel S I) (view : S → Credentials) (is_known : CapabilitySet → Bool)
    (honest : IsHonest k view is_known) where
  ambient_contains-ok : (c : CapabilitySet) → Reads view (ambient_contains k c) (λ v. v.ambient c)
  unfolding ambient_contains
  ambient_contains-ok c =
      with_error-Reads view (inspect_errno "read ambient capability set")
        (k.capability_is_in_ambient_set c) (λ v. v.ambient c) (honest.ambient_reads c)

  bounding_contains-ok :
      (c : CapabilitySet) (s t : S) (answer : Option Bool)
      → bounding_contains k c s ≡ (t, ok answer)
      → (view t ≡ view s)
        × ((answer ≡ some ((view s).bounding c)) ⊎ ((answer ≡ none) × (is_known c ≡ false)))
  unfolding bounding_contains with_error
  bounding_contains-ok c s t answer h =
      let r = k.capability_is_in_bounding_set c s in
      elim (Result-cases r.1) [
        | inl (e, p) ↦ ground (arith, p, honest.unknown_einval c s r.0)
        | inr (v, p) ↦ ground (arith, p, honest.bounding_reads c s r.0 v)
      ]

  -- No capability that the kernel knows, from an index on, is ambient or in the bounding set.
  abbrev pub ClearFrom : ℕ → Credentials → Type 0
  ClearFrom index c =
      (i : ℕ)
      → index ≤ i
      → i < 64
      → is_known (2 ^ i) ≡ true
      → (c.ambient (2 ^ i) ≡ false) × (c.bounding (2 ^ i) ≡ false)

  Ensures-ambient_contains :
      (c : CapabilitySet) (s : S)
      → Ensures s (ambient_contains k c) (λ t a. (view t ≡ view s) × (a ≡ (view s).ambient c))
  Ensures-ambient_contains c s = record { holds = λ t a h. ambient_contains-ok c s t a h }

  Ensures-bounding_contains :
      (c : CapabilitySet) (s : S)
      → Ensures s (bounding_contains k c) (λ t a.
        (view t ≡ view s)
        × ((a ≡ some ((view s).bounding c)) ⊎ ((a ≡ none) × (is_known c ≡ false))))
  Ensures-bounding_contains c s = record { holds = λ t a h. bounding_contains-ok c s t a h }

  Ensures-no_new_privs :
      (s : S)
      → Ensures s (current_no_new_privs k) (λ t a. (view t ≡ view s) × (a ≡ (view s).no_new_privs))
  unfolding current_no_new_privs
  Ensures-no_new_privs s = record {
    holds =
        with_error-Reads view (inspect_errno "read no_new_privs") k.no_new_privs
          (λ v. v.no_new_privs) honest.no_new_privs_reads s;
  }

  Ensures-capabilities :
      (s : S) → Ensures s (current_capabilities k) (λ t a. (view t ≡ view s) × (a ≡ (view s).sets))
  unfolding current_capabilities
  Ensures-capabilities s = record {
    holds =
        with_error-Reads view (inspect_errno "read capability sets") k.capabilities (λ v. v.sets)
          honest.capabilities_reads s;
  }

  abbrev IsClear : CapabilitySet → Credentials → Type 0
  IsClear c v = is_known c ≡ true → (v.ambient c ≡ false) × (v.bounding c ≡ false)

  Ensures-verify_one :
      (c : CapabilitySet) (u : Unit) (s : S)
      → Ensures s (verify_one k c u) (λ t a. (view t ≡ view s) × IsClear c (view s))
  Ensures-verify_one c u s = Ensures-bind (Ensures-ambient_contains c s) (λ s1 ambient p1.
      Ensures-bind (Ensures-require (not ambient) _ s1) (λ s2 u2 p2.
        Ensures-bind (Ensures-bounding_contains c s2) (λ s3 member p3.
          Ensures-weaken (Ensures-require (not (is_member member)) _ s3)
            (λ s4 u4 p4. (ground arith, λ known. ground arith)))))

  capability-lt : (i : ℕ) → i < 64 → capability i ≡ some (2 ^ i)
  unfolding capability
  capability-lt i lt = ground arith

  -- The loop, where the capability at `index` is clear and so are those after it.
  ClearFrom-suc :
      (index : ℕ) (c : Credentials)
      → IsClear (2 ^ index) c
      → ClearFrom (suc index) c
      → ClearFrom index c
  ClearFrom-suc index c here rest i le lt known = elim (dec_lt index i) [
    | yes later ↦ rest i (omega (arith, later)) lt known
    | no same ↦
        let e : index ≡ i = omega (arith, le, same) in
        subst
          (λ j.
            is_known (2 ^ j) ≡ true → (c.ambient (2 ^ j) ≡ false) × (c.bounding (2 ^ j) ≡ false))
          e here known
  ]

  ClearFrom-unknown :
      (index : ℕ) (c : Credentials) → is_known (2 ^ index) ≡ false → ClearFrom index c
  ClearFrom-unknown index c unknown i le lt known =
      absurd (ground (arith, honest.known_first index i le unknown, known))

  abbrev Verifies : ℕ → S → Steps S I Unit → Type 0
  Verifies index s steps = Ensures s steps (λ t v. (view t ≡ view s) × ClearFrom index (view s))

  Verifies-rest :
      (left index : ℕ) (u : Unit) (s : S)
      → ((v : Unit) (t : S)
          → Verifies (suc index) t (each_from k (verify_one k) left (suc index) v))
      → (t : S) (known : Option Bool)
      → (view t ≡ view s)
        × ((known ≡ some ((view s).bounding (2 ^ index)))
            ⊎ ((known ≡ none) × (is_known (2 ^ index) ≡ false)))
      → Ensures {E = PrivilegeError I} {A = Unit {0}} t
          (elim known [
            | none ↦ pure u
            | some member ↦
                verify_one k (2 ^ index) u >>= (λ b. each_from k (verify_one k) left (suc index) b)
          ])
          (λ x v. (view x ≡ view s) × ClearFrom index (view s))
  Verifies-rest left index u s later t none p =
      Ensures-pure u (p.0, ClearFrom-unknown index (view s) (ground arith))
  Verifies-rest left index u s later t (some member) p =
      Ensures-bind (Ensures-verify_one (2 ^ index) u t) (λ t1 v p1.
        Ensures-weaken (later v t1) (λ t2 w p2.
          let same : view t1 ≡ view s = p1.0 ∙ p.0 in
          (
            p2.0 ∙ same,
            ClearFrom-suc index (view s) (subst (IsClear (2 ^ index)) p.0 p1.1)
                (subst (ClearFrom (suc index)) same p2.1),
          )))

  Verifies-each_from :
      (left index : ℕ) (u : Unit) (s : S)
      → left + index ≡ 64
      → Verifies index s (each_from k (verify_one k) left index u)
  unfolding each_from
  Verifies-each_from zero index u s h =
      Ensures-pure u (refl, λ i le lt known. absurd (omega (arith, h, le, lt)))
  Verifies-each_from (suc left) index u s h =
      rw (capability-lt index (omega (arith, h)), each_from)
        (Ensures-bind (Ensures-bounding_contains (2 ^ index) s) (
          Verifies-rest left index u s
            (λ v t. Verifies-each_from left (suc index) v t (omega (arith, h)))))

  sets_equal-eq : (a b : CapabilitySets) → sets_equal a b ≡ true → a ≡ b
  sets_equal-eq a b h = ground arith

  pub Ensures-verify :
      (expected : CapabilitySets) (s : S)
      → Ensures s (verify k expected) (λ t u.
        (view t ≡ view s)
        × ((view s).no_new_privs ≡ true)
        × ((view s).sets ≡ expected)
        × ClearFrom 0 (view s))
  unfolding verify each_supported_capability
  Ensures-verify expected s = Ensures-bind (Ensures-no_new_privs s) (λ s1 set p1.
      Ensures-bind (Ensures-require set _ s1) (λ s2 u2 p2.
        Ensures-bind (Ensures-capabilities s2) (λ s3 current p3.
          Ensures-bind (Ensures-require (sets_equal current expected) _ s3) (λ s4 u4 p4.
            Ensures-weaken (Verifies-each_from 64 0 tt s4 refl) (λ s5 u5 p5.
              let before : view s2 ≡ view s = ap view p2.1 ∙ p1.0 in
              let same : view s4 ≡ view s = ap view p4.1 ∙ p3.0 ∙ before in
              (
                p5.0 ∙ same,
                sym p1.1 ∙ p2.0,
                sym (ap (λ v. v.sets) before) ∙ sym p3.1 ∙ sets_equal-eq current expected p4.0,
                subst (ClearFrom 0) same p5.1,
              ))))))
