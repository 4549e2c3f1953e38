-- ===== src/Event/Validity.antt =====
-- The domain of the values that `CapturedBytes::new` (src/event/string.rs) makes.
use landlock_observability.Prelude.{
  ℕ, suc, ◌≤◌, ◌<◌, ◌≡◌, ◌↔◌, refl, sym, ap, ◌∙◌, Bool, true, false, none, List, [], ◌∷◌, ok,
  length, All, arith,
}
use landlock_observability.Event.Captured.{
  Origin, OmissionPolicy, CapturedBytes, allows_nul, maximum_len, omission_policy,
  position_nul_from, captured_bytes_new, interior_nul_position, omission_error,
}

-- Bytes without NUL, for an origin that allows none.
abbrev pub NulFree : Bool → List ℕ → Type 0
NulFree true bytes = Unit
NulFree false bytes = All (λ b. 0 < b) bytes

abbrev pub OmissionFits : OmissionPolicy → Bool → ℕ → ℕ → Type 0
OmissionFits policy false len maximum = Unit
OmissionFits OmissionPolicy.not_supported true len maximum = ⊥
OmissionFits OmissionPolicy.full_capacity true len maximum = len ≡ maximum

pub record CapturedBytes-IsValid {o : Origin} (c : CapturedBytes o) : Type 0 where
  pub nul_free : NulFree (allows_nul o) c.bytes
  pub bounded : length c.bytes ≤ maximum_len o
  pub omission : OmissionFits (omission_policy o) c.bytes_omitted (length c.bytes) (maximum_len o)

pub no_nul : (i : ℕ) (bytes : List ℕ) → position_nul_from i bytes ≡ none → All (λ b. 0 < b) bytes
unfolding position_nul_from
no_nul i [] h = tt
no_nul i (b ∷ bytes) h = (ground arith, no_nul (suc i) bytes (ground arith))

pub nul_free-position :
    (i : ℕ) (bytes : List ℕ) → All (λ b. 0 < b) bytes → position_nul_from i bytes ≡ none
unfolding position_nul_from
nul_free-position i [] h = refl
nul_free-position i (b ∷ bytes) h = ground (arith, nul_free-position (suc i) bytes h.1)

pub captured_bytes_new-IsValid :
    (o : Origin) (bytes : List ℕ) (omitted : Bool) (c : CapturedBytes o)
    → captured_bytes_new o bytes omitted ≡ ok c
    → CapturedBytes-IsValid c × (c ≡ record { bytes = bytes; bytes_omitted = omitted })
unfolding captured_bytes_new interior_nul_position omission_error
captured_bytes_new-IsValid Origin.pathname bytes false c h = ground (arith, no_nul 0 bytes)
captured_bytes_new-IsValid Origin.pathname bytes true c h = ground (arith, no_nul 0 bytes)
captured_bytes_new-IsValid Origin.command bytes false c h = ground (arith, no_nul 0 bytes)
captured_bytes_new-IsValid Origin.command bytes true c h = ground (arith, no_nul 0 bytes)
captured_bytes_new-IsValid Origin.abstract_unix_socket_name bytes false c h = ground arith
captured_bytes_new-IsValid Origin.abstract_unix_socket_name bytes true c h = ground arith

pub IsValid-captured_bytes_new :
    (o : Origin) (c : CapturedBytes o)
    → CapturedBytes-IsValid c
    → captured_bytes_new o c.bytes c.bytes_omitted ≡ ok c
unfolding captured_bytes_new interior_nul_position omission_error
IsValid-captured_bytes_new Origin.pathname c v =
    ground (arith, v, nul_free-position 0 c.bytes v.nul_free)
IsValid-captured_bytes_new Origin.command c v =
    ground (arith, v, nul_free-position 0 c.bytes v.nul_free)
IsValid-captured_bytes_new Origin.abstract_unix_socket_name c v = ground (arith, v)

-- The constructor of captured bytes returns a value exactly if the bytes have no NUL where the
-- origin allows none, are at most as many as its maximum, and fill it where source bytes were
-- omitted, which only a pathname allows; and the value then has those bytes and that flag.
pub captured_bytes_new-ok :
    (o : Origin) (bytes : List ℕ) (omitted : Bool) (c : CapturedBytes o)
    → (captured_bytes_new o bytes omitted ≡ ok c)
      ↔ (CapturedBytes-IsValid c × (c ≡ record { bytes = bytes; bytes_omitted = omitted }))
captured_bytes_new-ok o bytes omitted c = (
  captured_bytes_new-IsValid o bytes omitted c,
  λ h.
      ap (λ (x : CapturedBytes o). captured_bytes_new o x.bytes x.bytes_omitted) (sym h.1)
      ∙ IsValid-captured_bytes_new o c h.0,
)
