-- ===== src/Wire/Strings.antt =====
-- The results of `captured_c_string` (src/wire.rs), and the errors of `CapturedBytes::new` that it
-- leaves.
use landlock_observability.Prelude.{
  ℕ, zero, suc, ◌+◌, ◌≤◌, ◌≡◌, refl, ap, ◌∙◌, Bool, true, false, Option, none, some, List, [], ◌∷◌,
  err, String, leb, length, take, arith,
}
use landlock_observability.Event.Captured.{
  Origin, OmissionPolicy, CapturedBytesError, allows_nul, omission_policy, captured_bytes_new,
  position_nul, position_nul_from, interior_nul_position, omission_error,
}
use landlock_observability.Event.Validity.{CapturedBytes-IsValid, captured_bytes_new-IsValid}
use landlock_observability.Wire.Reader.{captured_c_string, captured_bytes, position_or}
use landlock_observability.Wire.Ensures.{Ensures, IsCaptureError, Ensures-map_err}

position-le : (i : ℕ) (l : List ℕ) (p : ℕ) → position_nul_from i l ≡ some p → p ≤ i + length l
unfolding position_nul_from
position-le i [] p h = cc
position-le i (b ∷ l) p h = ground (arith, position-le (suc i) l p)

position_or-le :
    (l : List ℕ) (o : Option ℕ) → position_nul l ≡ o → position_or o (length l) ≤ length l
position_or-le l none e = omega arith
position_or-le l (some p) e = omega (arith, position-le 0 l p e)

-- Whether a flag of omission agrees with the origin.
abbrev pub MayOmit : OmissionPolicy → Bool → Type 0
MayOmit OmissionPolicy.full_capacity omitted = Unit
MayOmit OmissionPolicy.not_supported false = Unit
MayOmit OmissionPolicy.not_supported true = ⊥

-- Bytes without NUL, where the origin allows none.
abbrev pub HasNoNul : Bool → List ℕ → Type 0
HasNoNul true l = Unit
HasNoNul false l = position_nul l ≡ none

-- The bytes before the first NUL have none.
take-position :
    (i j p : ℕ) (l : List ℕ)
    → position_nul_from i l ≡ some (p + i)
    → position_nul_from j (take p l) ≡ none
unfolding position_nul_from
take-position i j zero l h = refl
take-position i j (suc p) [] h = refl
take-position i j (suc p) (b ∷ l) h = ground (arith, take-position (suc i) (suc j) p l)

take-all : (l : List ℕ) → take (length l) l ≡ l
take-all [] = refl
take-all (b ∷ l) = ap (◌∷◌ b) (take-all l)

c_string-HasNoNul :
    (l : List ℕ) (o : Option ℕ)
    → position_nul l ≡ o
    → position_nul (take (position_or o (length l)) l) ≡ none
c_string-HasNoNul l none e = ap position_nul (take-all l) ∙ e
c_string-HasNoNul l (some p) e = take-position 0 0 p l (e ∙ ap some (omega arith))

pub captured_bytes_new-error :
    (o : Origin) (l : List ℕ) (omitted : Bool)
    → MayOmit (omission_policy o) omitted
    → HasNoNul (allows_nul o) l
    → (e : CapturedBytesError) → captured_bytes_new o l omitted ≡ err e
    → IsCaptureError e
unfolding captured_bytes_new interior_nul_position omission_error
captured_bytes_new-error Origin.pathname l false may no_nul e h = ground arith
captured_bytes_new-error Origin.pathname l true may no_nul e h = ground arith
captured_bytes_new-error Origin.command l false may no_nul e h = ground arith
captured_bytes_new-error Origin.command l true may no_nul e h = absurd may
captured_bytes_new-error Origin.abstract_unix_socket_name l false may no_nul e h = ground arith
captured_bytes_new-error Origin.abstract_unix_socket_name l true may no_nul e h = absurd may

HasNoNul-none : (allows : Bool) (l : List ℕ) → position_nul l ≡ none → HasNoNul allows l
HasNoNul-none true l h = tt
HasNoNul-none false l h = h

pub c_string-Ensures :
    (o : Origin) (l : List ℕ) (omitted : Bool) (field : String)
    → MayOmit (omission_policy o) omitted
    → Ensures CapturedBytes-IsValid (captured_c_string o l omitted field)
unfolding captured_c_string
c_string-Ensures o l omitted field may = rw (inside) (
    Ensures-map_err (captured_bytes field) _
      (captured_bytes_new-error o _ omitted may
        (HasNoNul-none (allows_nul o) _ (c_string-HasNoNul l (position_nul l) refl)))
      (λ c h. (captured_bytes_new-IsValid o _ omitted c h).0))
  where
    inside : leb (position_or (position_nul l) (length l)) (length l) ≡ true
    inside = ground (arith, position_or-le l (position_nul l) refl)
