-- ===== src/Privilege/Ensures.antt =====
-- What a chain of calls ensures where it succeeds, for the functions of src/privilege.rs.
use landlock_observability.Prelude.{
  ◌≡◌, subst, Bool, true, inl, inr, err, ok, Result-cases, arith, map_err, refl,
}
use landlock_observability.Privilege.Kernel.{Call, ◌>>=◌, ◌>>◌, pure, require, with_error}

module _ {S E : Type 0} where
  -- A chain, by the result of its first call.
  pub >>=-err :
      {A B : Type 0} (call : Call S E A) (next : A → Call S E B) (s : S) (e : E)
      → (call s).1 ≡ err e
      → (call >>= next) s ≡ ((call s).0, err e)
  unfolding ◌>>=◌
  >>=-err call next s e p = ground arith

  pub >>=-ok :
      {A B : Type 0} (call : Call S E A) (next : A → Call S E B) (s : S) (a : A)
      → (call s).1 ≡ ok a
      → (call >>= next) s ≡ next a (call s).0
  unfolding ◌>>=◌
  >>=-ok call next s a p = ground arith

  -- Where a call succeeds from a state, the state after it and its answer satisfy a predicate.
  pub record Ensures {A : Type 0} (s : S) (call : Call S E A) (P : S → A → Type 0) : Type 0 where
    pub holds : (t : S) (a : A) → call s ≡ (t, ok a) → P t a

  pub Ensures-bind :
      {A B : Type 0} {call : Call S E A} {next : A → Call S E B} {s : S} {Q : S → A → Type 0}
      {P : S → B → Type 0}
      → Ensures s call Q
      → ((u : S) (a : A) → Q u a → Ensures u (next a) P)
      → Ensures s (call >>= next) P
  unfolding ◌>>=◌
  Ensures-bind {call = call} {next = next} {s = s} {Q = Q} {P = P} first rest = record {
    holds = λ t b h. elim (Result-cases (call s).1) [
      | inl (e, p) ↦ absurd (ground arith)
      | inr (a, p) ↦
          (rest (call s).0 a (first.holds (call s).0 a (ground arith))).holds t b (ground arith)
    ];
  }

  pub Ensures-last :
      {A B : Type 0} (call : Call S E A) {next : Call S E B} {s : S} {P : S → B → Type 0}
      → ((u : S) → Ensures u next P)
      → Ensures s (call >> next) P
  Ensures-last call rest =
      Ensures-bind {Q = λ u a. Unit {0}} (record { holds = λ t a h. tt }) (λ u a q. rest u)

  pub Ensures-weaken :
      {A : Type 0} {call : Call S E A} {s : S} {Q P : S → A → Type 0}
      → Ensures s call Q
      → ((u : S) (a : A) → Q u a → P u a)
      → Ensures s call P
  Ensures-weaken first rest = record { holds = λ t a h. rest t a (first.holds t a h) }

  pub Ensures-pure :
      {A : Type 0} {s : S} {P : S → A → Type 0} (a : A) → P s a → Ensures s (pure a) P
  unfolding pure
  Ensures-pure {s = s} {P = P} a p = record {
    holds = λ t b h.
        let e : (s ≡ t) × (a ≡ b) = ground arith in
        subst (λ x. P x b) e.0 (subst (λ y. P s y) e.1 p);
  }

  pub Ensures-require :
      (condition : Bool) (error : E) (s : S)
      → Ensures s (require condition error) (λ t u. (condition ≡ true) × (t ≡ s))
  unfolding require
  Ensures-require condition error s = record { holds = λ t u h. ground arith }

  pub with_error-ok :
      {F A : Type 0} (convert : E → F) (call : Call S E A) (s t : S) (a : A)
      → with_error convert call s ≡ (t, ok a)
      → call s ≡ (t, ok a)
  unfolding with_error
  with_error-ok convert call s t a h = elim (Result-cases (call s).1) [
    | inl (e, p) ↦ absurd (ground arith)
    | inr (v, p) ↦ ground arith
  ]

  -- Converting the error changes nothing else.
  pub with_error-state :
      {F A : Type 0} (convert : E → F) (call : Call S E A) (s : S)
      → ((with_error convert call s).0 ≡ (call s).0)
        × ((with_error convert call s).1 ≡ map_err convert (call s).1)
  unfolding with_error
  with_error-state convert call s = (refl, refl)
