-- ===== src/Event/Captured.antt =====
-- Bytes captured by the kernel, with their origin (src/event/string.rs): `CapturedBytes::new`, its
-- errors, and the constants of the three origins. A byte is a native number.
use landlock_observability.Prelude.{
  ℕ, suc, Bool, true, false, not, Option, none, some, List, [], ◌∷◌, Result, ok, err, ltb, ◌==◌,
  if◌then◌else◌, length, ℕ_discrete,
}

pub data OmissionPolicy : Type 0 where
  not_supported full_capacity : OmissionPolicy

-- `PathnameOrigin`, `CommandOrigin`, `AbstractUnixSocketNameOrigin`
pub data Origin : Type 0 where
  pathname command abstract_unix_socket_name : Origin

abbrev pub allows_nul : Origin → Bool
allows_nul Origin.pathname = false
allows_nul Origin.command = false
allows_nul Origin.abstract_unix_socket_name = true

abbrev pub maximum_len : Origin → ℕ
maximum_len Origin.pathname = 256
maximum_len Origin.command = 15
maximum_len Origin.abstract_unix_socket_name = 107

abbrev pub omission_policy : Origin → OmissionPolicy
omission_policy Origin.pathname = OmissionPolicy.full_capacity
omission_policy Origin.command = OmissionPolicy.not_supported
omission_policy Origin.abstract_unix_socket_name = OmissionPolicy.not_supported

pub data CapturedBytesError : Type 0 where
  interior_nul : (position : ℕ) → CapturedBytesError
  too_long : (length maximum : ℕ) → CapturedBytesError
  omission_not_supported : CapturedBytesError
  omission_requires_full_capacity : (length capacity : ℕ) → CapturedBytesError

pub record CapturedBytes (o : Origin) : Type 0 where
  pub bytes : List ℕ
  pub bytes_omitted : Bool

abbrev pub CapturedPath : Type 0
CapturedPath = CapturedBytes Origin.pathname

abbrev pub CapturedCommand : Type 0
CapturedCommand = CapturedBytes Origin.command

abbrev pub CapturedAbstractUnixSocketName : Type 0
CapturedAbstractUnixSocketName = CapturedBytes Origin.abstract_unix_socket_name

-- `bytes.iter().position(|byte| *byte == 0)`
unfoldable pub position_nul_from : ℕ → List ℕ → Option ℕ
position_nul_from i [] = none
position_nul_from i (byte ∷ bytes) = if byte == 0 then some i else position_nul_from (suc i) bytes

abbrev pub position_nul : List ℕ → Option ℕ
position_nul bytes = position_nul_from 0 bytes

-- The first test of `new`.
unfoldable pub interior_nul_position : Origin → List ℕ → Option ℕ
interior_nul_position o bytes = if allows_nul o then none else position_nul bytes

-- The last test of `new`: what is wrong with an omission, if anything.
unfoldable pub omission_error : Origin → ℕ → Bool → Option CapturedBytesError
omission_error o len false = none
omission_error o len true = elim (omission_policy o) [
  | OmissionPolicy.not_supported ↦ some CapturedBytesError.omission_not_supported
  | OmissionPolicy.full_capacity ↦
      if not (len == maximum_len o)
      then some (CapturedBytesError.omission_requires_full_capacity len (maximum_len o))
      else none
]

-- `CapturedBytes::new`
unfoldable pub captured_bytes_new :
    (o : Origin) → List ℕ → Bool → Result CapturedBytesError (CapturedBytes o)
unfolding interior_nul_position omission_error
captured_bytes_new o bytes bytes_omitted = elim (interior_nul_position o bytes) [
  | some position ↦ err (CapturedBytesError.interior_nul position)
  | none ↦
      if ltb (maximum_len o) (length bytes)
      then err (CapturedBytesError.too_long (length bytes) (maximum_len o))
      else elim (omission_error o (length bytes) bytes_omitted) [
        | some e ↦ err e
        | none ↦ ok (record { bytes = bytes; bytes_omitted = bytes_omitted })
      ]
]

unfoldable pub CapturedBytes-discrete : {o : Origin} → Discrete (CapturedBytes o)
unfolding ℕ_discrete
CapturedBytes-discrete = hlevel ℕ_discrete
