-- ===== src/Wire/Reader.antt =====
-- The readers of the fields of a record (src/wire.rs): `slice_at` to `domain_membership`, and the
-- errors. A record is a list of bytes, and the byte order of the machine is a parameter.
use landlock_observability.Prelude.{
  ℕ, ◌+◌, ◌*◌, ◌-◌, ◌^◌, Bool, true, false, Option, none, some, List, [], ◌∷◌, Result, ok, err,
  map_err, map_ok, ◌>>=◌, String, ltb, leb, ◌==◌, if◌then◌else◌, length, take, drop, get_elem?,
}
use landlock_observability.Event.Ids.{
  LandlockIdKind, LandlockId, DomainId, landlock_id_new, ProcessId, ThreadId, process_id_new,
  thread_id_new,
}
use landlock_observability.Event.Captured.{
  Origin, CapturedBytesError, CapturedBytes, captured_bytes_new, position_nul, CapturedCommand,
  CapturedAbstractUnixSocketName,
}
use landlock_observability.Event.Kinds.{DomainMembership}

abbrev pub record_size : ℕ
record_size = 352

abbrev pub comm_size : ℕ
comm_size = 16

abbrev pub path_size : ℕ
path_size = 256

abbrev pub abstract_unix_socket_name_max_len : ℕ
abstract_unix_socket_name_max_len = 107

-- The greatest `usize` of a 64-bit machine.
abbrev pub usize_max : ℕ
usize_max = 2 ^ 64 - 1

pub data DecodeError : Type 0 where
  wrong_length : (expected actual : ℕ) → DecodeError
  boolean : (field : String) (value : ℕ) → DecodeError
  captured_bytes : (field : String) (source : CapturedBytesError) → DecodeError
  abstract_unix_socket_name_length : (value maximum : ℕ) → DecodeError
  landlock_id : (field : String) (value : ℕ) → DecodeError
  task_id : (field : String) → DecodeError
  event_kind : (value : ℕ) → DecodeError
  missing_field : (field : String) → DecodeError

abbrev pub Decoded : Type 0 → Type 0
Decoded A = Result DecodeError A

-- `checked_add` refuses a sum above the greatest `usize`, and `get` a range beyond the end.
unfoldable pub slice_at : List ℕ → ℕ → ℕ → String → Decoded (List ℕ)
slice_at sample offset size field =
    if leb (offset + size) usize_max
    then if leb (offset + size) (length sample)
      then ok (take size (drop offset sample))
      else err (missing_field field)
    else err (missing_field field)

-- `bytes::<N>`: the slice as an array of `size` bytes.
unfoldable pub bytes : ℕ → List ℕ → ℕ → String → Decoded (List ℕ)
bytes size sample offset field = do
  slice ← slice_at sample offset size field
  if length slice == size then ok slice else err (missing_field field)

-- The byte order of `from_ne_bytes`.
pub data ByteOrder : Type 0 where
  little_endian big_endian : ByteOrder

abbrev pub from_le_bytes : List ℕ → ℕ
from_le_bytes [] = 0
from_le_bytes (byte ∷ bytes) = byte + 256 * from_le_bytes bytes

abbrev pub from_be_bytes : ℕ → List ℕ → ℕ
from_be_bytes high [] = high
from_be_bytes high (byte ∷ bytes) = from_be_bytes (256 * high + byte) bytes

abbrev pub from_ne_bytes : ByteOrder → List ℕ → ℕ
from_ne_bytes little_endian bytes = from_le_bytes bytes
from_ne_bytes big_endian bytes = from_be_bytes 0 bytes

module _ (order : ByteOrder) where
  unfoldable pub u32_at : List ℕ → ℕ → String → Decoded ℕ
  u32_at sample offset field = map_ok (from_ne_bytes order) (bytes 4 sample offset field)

  unfoldable pub u64_at : List ℕ → ℕ → String → Decoded ℕ
  u64_at sample offset field = map_ok (from_ne_bytes order) (bytes 8 sample offset field)

-- `position(..).unwrap_or(value.len())`
abbrev pub position_or : Option ℕ → ℕ → ℕ
position_or none default = default
position_or (some position) default = position

-- The bytes before the first NUL, which `get(..end)` always has.
unfoldable pub captured_c_string : (o : Origin) → List ℕ → Bool → String → Decoded (CapturedBytes o)
captured_c_string o value bytes_omitted field =
    let end = position_or (position_nul value) (length value) in
    if leb end (length value)
    then map_err (captured_bytes field) (captured_bytes_new o (take end value) bytes_omitted)
    else err (missing_field field)

abbrev pub boolean_of : String → ℕ → Decoded Bool
boolean_of field value =
    if value == 0 then ok false else if value == 1 then ok true else err (boolean field value)

-- `ok_or(DecodeError::Field { field })`
abbrev pub ok_or_missing : String → Option ℕ → Decoded ℕ
ok_or_missing field none = err (missing_field field)
ok_or_missing field (some value) = ok value

unfoldable pub byte_at : List ℕ → ℕ → String → Decoded ℕ
byte_at sample offset field = ok_or_missing field (get_elem? sample offset)

unfoldable pub boolean_at : List ℕ → ℕ → String → Decoded Bool
boolean_at sample offset field = do value ← byte_at sample offset field; boolean_of field value

unfoldable pub captured_at :
    (o : Origin) → List ℕ → ℕ → ℕ → ℕ → String → String → Decoded (CapturedBytes o)
captured_at o sample offset size omitted_offset field omitted_field = do
  value ← slice_at sample offset size field
  bytes_omitted ← boolean_at sample omitted_offset omitted_field
  captured_c_string o value bytes_omitted field

abbrev pub abstract_unix_socket_name_in : List ℕ → ℕ → ℕ → Decoded CapturedAbstractUnixSocketName
abstract_unix_socket_name_in sample name_offset len =
    if ltb abstract_unix_socket_name_max_len len
    then err (abstract_unix_socket_name_length len abstract_unix_socket_name_max_len)
    else do
      value ← slice_at sample name_offset len "abstract_unix_socket_name"
      map_err (captured_bytes "abstract_unix_socket_name")
          (captured_bytes_new Origin.abstract_unix_socket_name value false)

unfoldable pub abstract_unix_socket_name_at :
    ByteOrder → List ℕ → ℕ → ℕ → Decoded CapturedAbstractUnixSocketName
abstract_unix_socket_name_at order sample length_offset name_offset = do
  len ← u32_at order sample length_offset "abstract_unix_socket_name_length"
  abstract_unix_socket_name_in sample name_offset len

unfoldable pub command_at : List ℕ → ℕ → String → Decoded CapturedCommand
command_at sample offset field = do
  value ← slice_at sample offset comm_size field
  captured_c_string Origin.command value false field

unfoldable pub id_of : (k : LandlockIdKind) → ℕ → String → Decoded (LandlockId k)
id_of k value field = map_err (λ _. landlock_id field value) (landlock_id_new k value)

unfoldable pub process_id : ℕ → String → Decoded ProcessId
process_id value field = map_err (λ _. task_id field) (process_id_new value)

unfoldable pub thread_id : ℕ → String → Decoded ThreadId
thread_id value field = map_err (λ _. task_id field) (thread_id_new value)

-- `Result::ok`
abbrev pub ok? {ℓ} : {E V : Type ℓ} → Result E V → Option V
ok? (err error) = none
ok? (ok value) = some value

unfoldable pub optional_process_id : ℕ → Option ProcessId
optional_process_id value = ok? (process_id_new value)

unfoldable pub parent : ℕ → String → Decoded (Option DomainId)
parent value field =
    if value == 0 then ok none else map_ok some (id_of LandlockIdKind.domain_kind value field)

unfoldable pub domain_membership : ℕ → String → Decoded DomainMembership
domain_membership value field =
    if value == 0
    then ok DomainMembership.unsandboxed
    else map_ok DomainMembership.sandboxed (id_of LandlockIdKind.domain_kind value field)
