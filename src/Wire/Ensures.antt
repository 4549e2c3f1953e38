-- ===== src/Wire/Ensures.antt =====
-- Predicates on the results of readers (src/wire.rs), and how they pass along a chain of them.
use landlock_observability.Prelude.{◌<◌, ◌≡◌, refl, Result, ok, err, map_err, map_ok, ◌>>=◌}
use landlock_observability.Event.Ids.{min_landlock_id}
use landlock_observability.Event.Captured.{CapturedBytesError}
use landlock_observability.Wire.Reader.{
  DecodeError, Decoded, wrong_length, boolean, captured_bytes, abstract_unix_socket_name_length,
  landlock_id, task_id, event_kind, missing_field,
}

-- What can be wrong with captured bytes that were cut at the first NUL: never an interior NUL, and
-- never an omission where none can be told.
abbrev pub IsCaptureError : CapturedBytesError → Type 0
IsCaptureError (CapturedBytesError.interior_nul position) = ⊥
IsCaptureError (CapturedBytesError.too_long length maximum) = maximum < length
IsCaptureError CapturedBytesError.omission_not_supported = ⊥
IsCaptureError (CapturedBytesError.omission_requires_full_capacity length capacity) =
    length < capacity

-- What can be wrong with a field that is there, and that it is.
abbrev pub IsFieldError : DecodeError → Type 0
IsFieldError (wrong_length expected actual) = ⊥
IsFieldError (boolean field value) = 1 < value
IsFieldError (captured_bytes field source) = IsCaptureError source
IsFieldError (abstract_unix_socket_name_length value maximum) = maximum < value
IsFieldError (landlock_id field value) = value < min_landlock_id
IsFieldError (task_id field) = Unit
IsFieldError (event_kind value) = ⊥
IsFieldError (missing_field field) = ⊥

abbrev pub Holds : {A : Type 0} → (A → Type 0) → Decoded A → Type 0
Holds P (err error) = IsFieldError error
Holds P (ok value) = P value

pub record Ensures {A : Type 0} (P : A → Type 0) (m : Decoded A) : Type 0 where
  pub holds : Holds P m

pub Ensures-ok : {A : Type 0} {P : A → Type 0} {a : A} → P a → Ensures P (ok a)
Ensures-ok p = record { holds = p }

pub Ensures-bind :
    {A B : Type 0} {P : A → Type 0} {Q : B → Type 0} {m : Decoded A} {f : A → Decoded B}
    → Ensures P m
    → ((a : A) → P a → Ensures Q (f a))
    → Ensures Q (m >>= f)
Ensures-bind {m = err e} h k = record { holds = h.holds }
Ensures-bind {m = ok a} h k = k a h.holds

pub Ensures-map :
    {A B : Type 0} {P : A → Type 0} {Q : B → Type 0} {m : Decoded A} (f : A → B)
    → Ensures P m
    → ((a : A) → P a → Q (f a))
    → Ensures Q (map_ok f m)
Ensures-map {m = err e} f h k = record { holds = h.holds }
Ensures-map {m = ok a} f h k = record { holds = k a h.holds }

-- A field that is renamed on error.
pub Ensures-map_err :
    {A E : Type 0} {P : A → Type 0} (g : E → DecodeError) (m : Result E A)
    → ((e : E) → m ≡ err e → IsFieldError (g e))
    → ((a : A) → m ≡ ok a → P a)
    → Ensures P (map_err g m)
Ensures-map_err g (err e) n k = record { holds = n e refl }
Ensures-map_err g (ok a) n k = record { holds = k a refl }

pub Ensures-weaken :
    {A : Type 0} {P Q : A → Type 0} {m : Decoded A}
    → Ensures P m
    → ((a : A) → P a → Q a)
    → Ensures Q m
Ensures-weaken {m = err e} h k = record { holds = h.holds }
Ensures-weaken {m = ok a} h k = record { holds = k a h.holds }
