-- ===== src/Prelude/Outcome.antt =====
-- The standard library's `Result`, `map`, `map_err`, and the chain that `?` writes.
use mathlib.Core.Path.{◌≡◌, refl}
use mathlib.Core.Logic.{◌⊎◌, inl, inr}

pub data Result {ℓ} (E V : Type ℓ) : Type ℓ where
  err : (error : E) → Result E V
  ok : (value : V) → Result E V

abbrev pub map_err {ℓ} : {E F V : Type ℓ} → (E → F) → Result E V → Result F V
map_err convert (err error) = err (convert error)
map_err convert (ok value) = ok value

abbrev pub map_ok {ℓ} : {E V W : Type ℓ} → (V → W) → Result E V → Result E W
map_ok convert (err error) = err error
map_ok convert (ok value) = ok (convert value)

infixl 5 ◌>>=◌
abbrev pub ◌>>=◌ {ℓ} : {E V W : Type ℓ} → Result E V → (V → Result E W) → Result E W
err error >>= next = err error
ok value >>= next = next value

pub Result-cases {ℓ} :
    {E V : Type ℓ} (r : Result E V) → ((e : E) × (r ≡ err e)) ⊎ ((v : V) × (r ≡ ok v))
Result-cases (err error) = inl (error, refl)
Result-cases (ok value) = inr (value, refl)
