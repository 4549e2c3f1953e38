-- ===== src/Event/Masks.antt =====
-- The known and the unknown bits of an access mask (src/event/mod.rs, `access_type!`), and the
-- classification of a filesystem denial.
use Prim.Native.Nat.{bit_and}
use landlock_observability.Prelude.{
  ℕ, ◌+◌, ◌*◌, ◌/◌, ◌%◌, ◌^◌, ◌<◌, ◌≡◌, ◌↔◌, refl, ◌∙◌, arith, List, [], ◌∷◌, String, length, ◌==◌,
  if◌then◌else◌,
}
use landlock_observability.Event.Access.{
  AccessKind, AccessMask, FilesystemAccess, NameTable, known_mask, known_bits, unknown_bits,
  known_names, known_names_in, table,
}
use landlock_observability.Event.Kinds.{
  BlockerType, FilesystemBlockers, fs_access, fs_change_topology, classify,
}
use landlock_observability.Event.Bits.{
  low, bit_and-complement, bit_and-ones, low-lt, low-high, bit_and-double, bit_and_1,
}

-- A table whose bits are 1, 2, 4 and so on.
abbrev double : NameTable → NameTable
double [] = []
double ((bit, name) ∷ names) = (2 * bit, name) ∷ double names

abbrev powers : List String → NameTable
powers [] = []
powers (name ∷ names) = (1, name) ∷ double (powers names)

-- The sum of a table's bits.
abbrev pub sum_of : NameTable → ℕ
sum_of [] = 0
sum_of ((bit, name) ∷ names) = bit + sum_of names

abbrev chosen : ℕ → NameTable → ℕ
chosen bits [] = 0
chosen bits ((bit, name) ∷ names) = (if bit_and bits bit == 0 then 0 else bit) + chosen bits names

sum_of-known_names :
    (bits : ℕ) (names : NameTable) → sum_of (known_names_in bits names) ≡ chosen bits names
unfolding known_names_in
sum_of-known_names bits [] = refl
sum_of-known_names bits ((bit, name) ∷ names) = ground (arith, sum_of-known_names bits names)

chosen-double : (a : ℕ) (names : NameTable) → chosen a (double names) ≡ 2 * chosen (a / 2) names
chosen-double a [] = refl
chosen-double a ((bit, name) ∷ names) = ground (arith, chosen-double a names, bit_and-double a bit)

chosen-powers : (a : ℕ) (names : List String) → chosen a (powers names) ≡ low (length names) a
chosen-powers a [] = refl
chosen-powers a (name ∷ names) =
    ground (arith, bit_and_1 a, chosen-double a (powers names), chosen-powers (a / 2) names)

-- How many bits have a name: all from the lowest one on.
abbrev pub named_width : AccessKind → ℕ
named_width AccessKind.filesystem = 17
named_width AccessKind.network = 4
named_width AccessKind.scope = 2

low-mod : (k : AccessKind) (a : ℕ) → low (named_width k) a ≡ a % 2 ^ named_width k
low-mod AccessKind.filesystem a = omega (arith, low-high 17 a, low-lt 17 a)
low-mod AccessKind.network a = omega (arith, low-high 4 a, low-lt 4 a)
low-mod AccessKind.scope a = omega (arith, low-high 2 a, low-lt 2 a)

abbrev names_of : NameTable → List String
names_of [] = []
names_of ((bit, name) ∷ names) = name ∷ names_of names

sum-known_names :
    {k : AccessKind} (m : AccessMask k) → sum_of (known_names m) ≡ low (named_width k) m.bits
unfolding known_names
sum-known_names {k = AccessKind.filesystem} m =
    sum_of-known_names m.bits (table AccessKind.filesystem)
    ∙ chosen-powers m.bits (names_of (table AccessKind.filesystem))
sum-known_names {k = AccessKind.network} m =
    sum_of-known_names m.bits (table AccessKind.network)
    ∙ chosen-powers m.bits (names_of (table AccessKind.network))
sum-known_names {k = AccessKind.scope} m =
    sum_of-known_names m.bits (table AccessKind.scope)
    ∙ chosen-powers m.bits (names_of (table AccessKind.scope))

known_bits-low : {k : AccessKind} (m : AccessMask k) → known_bits m ≡ low (named_width k) m.bits
unfolding known_bits
known_bits-low {k = AccessKind.filesystem} m = bit_and-ones 17 m.bits
known_bits-low {k = AccessKind.network} m = bit_and-ones 4 m.bits
known_bits-low {k = AccessKind.scope} m = bit_and-ones 2 m.bits

known-unknown :
    {k : AccessKind} (m : AccessMask k) → m.bits < 2 ^ 64 → known_bits m + unknown_bits m ≡ m.bits
unfolding known_bits unknown_bits
known-unknown {k = AccessKind.filesystem} m h =
    bit_and-complement 64 m.bits (known_mask AccessKind.filesystem) h (omega arith)
known-unknown {k = AccessKind.network} m h =
    bit_and-complement 64 m.bits (known_mask AccessKind.network) h (omega arith)
known-unknown {k = AccessKind.scope} m h =
    bit_and-complement 64 m.bits (known_mask AccessKind.scope) h (omega arith)

-- For a mask of 64 bits of each kind: the bits of its known names are its lowest 17 bits for the
-- filesystem, 4 for the network and 2 for scopes, as are its known bits, and its unknown bits are the
-- others: the names and the unknown bits give the mask back.
pub known_names-unknown_bits :
    {k : AccessKind} (m : AccessMask k)
    → m.bits < 2 ^ 64
    → (sum_of (known_names m) ≡ m.bits % 2 ^ named_width k)
      × (known_bits m ≡ m.bits % 2 ^ named_width k)
      × (sum_of (known_names m) + unknown_bits m ≡ m.bits)
known_names-unknown_bits {k} m h =
    let names : sum_of (known_names m) ≡ low (named_width k) m.bits = sum-known_names m in
    (
      names ∙ low-mod k m.bits,
      known_bits-low m ∙ low-mod k m.bits,
      omega (arith, names, known_bits-low m, known-unknown m h),
    )

-- The pair that a classification stands for.
abbrev pub observed_pair : FilesystemBlockers → BlockerType × FilesystemAccess
observed_pair (FilesystemBlockers.access mask) = (fs_access, mask)
observed_pair FilesystemBlockers.change_topology = (fs_change_topology, record { bits = 0 })
observed_pair (FilesystemBlockers.other request_type mask) = (request_type, mask)

-- The classification of a request type and an access mask loses neither: both are read back. It is an
-- access exactly for the request type of accesses.
pub observed_pair-classify :
    (request_type : BlockerType) (mask : FilesystemAccess)
    → (observed_pair (classify request_type mask) ≡ (request_type, mask))
      × ((classify request_type mask ≡ FilesystemBlockers.access mask) ↔ (request_type ≡ fs_access))
unfolding classify
observed_pair-classify request_type mask =
    (ground arith, (λ h. ground (arith, h), λ h. ground (arith, h)))
