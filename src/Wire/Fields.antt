-- ===== src/Wire/Fields.antt =====
-- The results of the readers of single fields (src/wire.rs), in a record of the right size.
use landlock_observability.Prelude.{
  ℕ, zero, suc, ◌+◌, ◌*◌, ◌-◌, ◌^◌, ◌≤◌, ◌<◌, ◌≡◌, refl, ap, subst, Bool, true, false, some, List,
  [], ◌∷◌, ok, map_ok, String, ltb, leb, ◌==◌, length, take, drop, get_elem?, length-take,
  length-drop, All, arith, Bool-cases, inl, inr,
}
use landlock_observability.Event.Ids.{
  LandlockIdKind, LandlockId-IsValid, ProcessId-IsValid, ThreadId-IsValid, landlock_id_new,
  process_id_new, thread_id_new,
}
use landlock_observability.Event.Captured.{Origin}
use landlock_observability.Event.Validity.{CapturedBytes-IsValid, captured_bytes_new-IsValid}
use landlock_observability.Event.Ranges.{
  IsU32, IsU64, OptionalDomain-IsValid, OptionalProcess-IsValid, Membership-IsValid,
}
use landlock_observability.Wire.Reader.{
  record_size, comm_size, captured_bytes, landlock_id, task_id, slice_at, bytes, ByteOrder,
  little_endian, big_endian, from_le_bytes, from_be_bytes, from_ne_bytes, u32_at, u64_at,
  boolean_of, boolean_at, byte_at, ok_or_missing, captured_at, abstract_unix_socket_name_in,
  abstract_unix_socket_name_at, command_at, id_of, process_id, thread_id, optional_process_id,
  parent, domain_membership, abstract_unix_socket_name_max_len,
}
use landlock_observability.Wire.Strings.{c_string-Ensures, captured_bytes_new-error}
use landlock_observability.Wire.Ensures.{
  Ensures, Ensures-ok, Ensures-bind, Ensures-map, Ensures-map_err,
}

abbrev pub AreBytes : List ℕ → Type 0
AreBytes = All (λ b. b < 256)

AreBytes-take : (n : ℕ) (l : List ℕ) → AreBytes l → AreBytes (take n l)
AreBytes-take zero l h = tt
AreBytes-take (suc n) [] h = tt
AreBytes-take (suc n) (b ∷ l) h = (h.0, AreBytes-take n l h.1)

AreBytes-drop : (n : ℕ) (l : List ℕ) → AreBytes l → AreBytes (drop n l)
AreBytes-drop zero l h = h
AreBytes-drop (suc n) [] h = tt
AreBytes-drop (suc n) (b ∷ l) h = AreBytes-drop n l h.1

-- The numbers below which `n` bytes stay, after `m` for those read before them.
abbrev scaled : ℕ → ℕ → ℕ
scaled m zero = m
scaled m (suc n) = scaled (256 * m) n

abbrev weight : ℕ → ℕ
weight zero = 1
weight (suc n) = 256 * weight n

from_le_bytes-lt : (l : List ℕ) → AreBytes l → from_le_bytes l < weight (length l)
from_le_bytes-lt [] h = omega arith
from_le_bytes-lt (b ∷ l) h = omega (arith, from_le_bytes-lt l h.1, h.0)

from_be_bytes-lt :
    (high m : ℕ) (l : List ℕ) → high < m → AreBytes l → from_be_bytes high l < scaled m (length l)
from_be_bytes-lt high m [] r h = r
from_be_bytes-lt high m (b ∷ l) r h =
    from_be_bytes-lt (256 * high + b) (256 * m) l (omega (arith, r, h.0)) h.1

-- A slice that the record has.
pub record Sliced (size : ℕ) (l : List ℕ) : Type 0 where
  pub size_of : length l ≡ size
  pub are_bytes : AreBytes l

IsU32-from_ne_bytes : (order : ByteOrder) (l : List ℕ) → Sliced 4 l → IsU32 (from_ne_bytes order l)
IsU32-from_ne_bytes little_endian l s =
    subst (λ n. from_le_bytes l < weight n) s.size_of (from_le_bytes-lt l s.are_bytes)
IsU32-from_ne_bytes big_endian l s =
    subst (λ n. from_be_bytes 0 l < scaled 1 n) s.size_of
      (from_be_bytes-lt 0 1 l (omega arith) s.are_bytes)

IsU64-from_ne_bytes : (order : ByteOrder) (l : List ℕ) → Sliced 8 l → IsU64 (from_ne_bytes order l)
IsU64-from_ne_bytes little_endian l s =
    subst (λ n. from_le_bytes l < weight n) s.size_of (from_le_bytes-lt l s.are_bytes)
IsU64-from_ne_bytes big_endian l s =
    subst (λ n. from_be_bytes 0 l < scaled 1 n) s.size_of
      (from_be_bytes-lt 0 1 l (omega arith) s.are_bytes)

boolean_of-Ensures :
    (field : String) (value : ℕ) → Ensures (λ (b : Bool). Unit) (boolean_of field value)
boolean_of-Ensures field value = record { holds = ground arith }

pub id_of-Ensures :
    (k : LandlockIdKind) (value : ℕ) (field : String)
    → Ensures LandlockId-IsValid (id_of k value field)
unfolding id_of landlock_id_new
id_of-Ensures k value field =
    Ensures-map_err (λ _. landlock_id field value) (landlock_id_new k value) (λ e h. ground arith)
      (λ i h. ground arith)

pub process_id-Ensures :
    (value : ℕ) (field : String) → Ensures ProcessId-IsValid (process_id value field)
unfolding process_id process_id_new
process_id-Ensures value field =
    Ensures-map_err (λ _. task_id field) (process_id_new value) (λ e h. tt) (λ i h. ground arith)

pub thread_id-Ensures :
    (value : ℕ) (field : String) → Ensures ThreadId-IsValid (thread_id value field)
unfolding thread_id thread_id_new
thread_id-Ensures value field =
    Ensures-map_err (λ _. task_id field) (thread_id_new value) (λ e h. tt) (λ i h. ground arith)

pub optional_process_id-IsValid : (value : ℕ) → OptionalProcess-IsValid (optional_process_id value)
unfolding optional_process_id process_id_new
optional_process_id-IsValid value = ground arith

pub parent-Ensures :
    (value : ℕ) (field : String) → Ensures OptionalDomain-IsValid (parent value field)
unfolding parent
parent-Ensures value field = elim (Bool-cases (value == 0)) [
  | inl e ↦ rw (e) (Ensures-ok tt)
  | inr e ↦ rw (e) (Ensures-map _ (id_of-Ensures LandlockIdKind.domain_kind value field) (λ i v. v))
]

pub membership-Ensures :
    (value : ℕ) (field : String) → Ensures Membership-IsValid (domain_membership value field)
unfolding domain_membership
membership-Ensures value field = elim (Bool-cases (value == 0)) [
  | inl e ↦ rw (e) (Ensures-ok tt)
  | inr e ↦ rw (e) (Ensures-map _ (id_of-Ensures LandlockIdKind.domain_kind value field) (λ i v. v))
]

ok_or-Ensures :
    (field : String) (l : List ℕ) (i : ℕ)
    → i < length l
    → Ensures (λ b. get_elem? l i ≡ some b) (ok_or_missing field (get_elem? l i))
ok_or-Ensures field [] i h = absurd (omega arith)
ok_or-Ensures field (b ∷ l) zero h = Ensures-ok refl
ok_or-Ensures field (b ∷ l) (suc i) h = ok_or-Ensures field l i (omega arith)

module _ (sample : List ℕ) (sized : length sample ≡ record_size) (small : AreBytes sample) where
  slice-Sliced :
      (offset size : ℕ) → offset + size ≤ record_size → Sliced size (take size (drop offset sample))
  slice-Sliced offset size fits = record {
    size_of =
        omega (arith, length-take size (drop offset sample), length-drop offset sample, sized);
    are_bytes = AreBytes-take size (drop offset sample) (AreBytes-drop offset sample small);
  }

  slice_at-ok :
      (offset size : ℕ) (field : String)
      → offset + size ≤ record_size
      → slice_at sample offset size field ≡ ok (take size (drop offset sample))
  unfolding slice_at
  slice_at-ok offset size field fits = rw (addable, present) refl
    where
      addable : leb (offset + size) (2 ^ 64 - 1) ≡ true
      addable = ground arith

      present : leb (offset + size) (length sample) ≡ true
      present = ground arith

  slice_at-Ensures :
      (offset size : ℕ) (field : String)
      → offset + size ≤ record_size
      → Ensures (Sliced size) (slice_at sample offset size field)
  slice_at-Ensures offset size field fits =
      rw (slice_at-ok offset size field fits) (Ensures-ok (slice-Sliced offset size fits))

  bytes-ok :
      (offset size : ℕ) (field : String)
      → offset + size ≤ record_size
      → bytes size sample offset field ≡ ok (take size (drop offset sample))
  unfolding bytes
  bytes-ok offset size field fits = rw (slice_at-ok offset size field fits, whole) refl
    where
      whole : (length (take size (drop offset sample)) == size) ≡ true
      whole = ground (arith, (slice-Sliced offset size fits).size_of)

  -- A number of eight bytes is read from its place.
  pub u64_at-ok :
      (order : ByteOrder) (offset : ℕ) (field : String)
      → offset + 8 ≤ record_size
      → u64_at order sample offset field ≡ ok (from_ne_bytes order (take 8 (drop offset sample)))
  unfolding u64_at
  u64_at-ok order offset field fits =
      ap (map_ok (from_ne_bytes order)) (bytes-ok offset 8 field fits)

  pub byte_at-Ensures :
      (offset : ℕ) (field : String)
      → offset < record_size
      → Ensures (λ b. get_elem? sample offset ≡ some b) (byte_at sample offset field)
  unfolding byte_at
  byte_at-Ensures offset field fits = ok_or-Ensures field sample offset (omega (arith, sized, fits))

  pub boolean_at-Ensures :
      (offset : ℕ) (field : String)
      → offset < record_size
      → Ensures (λ (b : Bool). Unit) (boolean_at sample offset field)
  unfolding boolean_at
  boolean_at-Ensures offset field fits =
      Ensures-bind (byte_at-Ensures offset field fits) (λ b h. boolean_of-Ensures field b)

  pub u32_at-Ensures :
      (order : ByteOrder) (offset : ℕ) (field : String)
      → offset + 4 ≤ record_size
      → Ensures IsU32 (u32_at order sample offset field)
  unfolding u32_at
  u32_at-Ensures order offset field fits =
      rw (bytes-ok offset 4 field fits)
        (Ensures-ok (IsU32-from_ne_bytes order _ (slice-Sliced offset 4 fits)))

  pub u64_at-Ensures :
      (order : ByteOrder) (offset : ℕ) (field : String)
      → offset + 8 ≤ record_size
      → Ensures IsU64 (u64_at order sample offset field)
  u64_at-Ensures order offset field fits =
      rw (u64_at-ok order offset field fits)
        (Ensures-ok (IsU64-from_ne_bytes order _ (slice-Sliced offset 8 fits)))

  pub command_at-Ensures :
      (offset : ℕ) (field : String)
      → offset + comm_size ≤ record_size
      → Ensures CapturedBytes-IsValid (command_at sample offset field)
  unfolding command_at
  command_at-Ensures offset field fits =
      Ensures-bind (slice_at-Ensures offset comm_size field fits)
        (λ l s. c_string-Ensures Origin.command l false field tt)

  pub captured_at-Ensures :
      (offset size omitted_offset : ℕ) (field omitted_field : String)
      → offset + size ≤ record_size
      → omitted_offset < record_size
      → Ensures CapturedBytes-IsValid
          (captured_at Origin.pathname sample offset size omitted_offset field omitted_field)
  unfolding captured_at
  captured_at-Ensures offset size omitted_offset field omitted_field fits present =
      Ensures-bind (slice_at-Ensures offset size field fits) λ l s.
        Ensures-bind (boolean_at-Ensures omitted_offset omitted_field present)
          λ b h. c_string-Ensures Origin.pathname l b field tt

  name-Ensures :
      (offset len : ℕ)
      → offset + abstract_unix_socket_name_max_len ≤ record_size
      → Ensures CapturedBytes-IsValid (abstract_unix_socket_name_in sample offset len)
  name-Ensures offset len fits = elim (Bool-cases (ltb abstract_unix_socket_name_max_len len)) [
    | inl long ↦ rw (long) (record { holds = ground (arith, long) })
    | inr short ↦ rw (short) (
        Ensures-bind (slice_at-Ensures offset len _ (ground arith)) λ l s.
          Ensures-map_err (captured_bytes "abstract_unix_socket_name") _
            (captured_bytes_new-error Origin.abstract_unix_socket_name l false tt tt)
            (λ c h. (captured_bytes_new-IsValid Origin.abstract_unix_socket_name l false c h).0))
  ]

  pub abstract_unix_socket_name_at-Ensures :
      (order : ByteOrder) (length_offset offset : ℕ)
      → length_offset + 4 ≤ record_size
      → offset + abstract_unix_socket_name_max_len ≤ record_size
      → Ensures CapturedBytes-IsValid
          (abstract_unix_socket_name_at order sample length_offset offset)
  unfolding abstract_unix_socket_name_at
  abstract_unix_socket_name_at-Ensures order length_offset offset room fits =
      Ensures-bind (u32_at-Ensures order length_offset _ room) (λ n h. name-Ensures offset n fits)
