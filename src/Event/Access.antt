-- ===== src/Event/Access.antt =====
-- The access masks and their generated name tables (src/event/mod.rs, `access_type!`, and
-- src/event/access_names.rs). A mask keeps all of its 64 bits.
use Prim.Native.Nat.{bit_and, bit_or}
use landlock_observability.Prelude.{ℕ, ◌-◌, ◌^◌, String, List, [], ◌∷◌, not, ◌==◌, if◌then◌else◌}

-- The three newtypes, over the table that the macro is given.
pub data AccessKind : Type 0 where
  filesystem network scope : AccessKind

pub record AccessMask (k : AccessKind) : Type 0 where
  pub bits : ℕ

abbrev pub FilesystemAccess : Type 0
FilesystemAccess = AccessMask AccessKind.filesystem

abbrev pub NetworkAccess : Type 0
NetworkAccess = AccessMask AccessKind.network

abbrev pub ScopeAccess : Type 0
ScopeAccess = AccessMask AccessKind.scope

-- `from_bits`
abbrev pub from_bits : {k : AccessKind} → ℕ → AccessMask k
from_bits bits = record { bits = bits }

-- `rule.access_rights.bits() | event.access_rights().bits()`, as a mask.
abbrev pub union : {k : AccessKind} → AccessMask k → AccessMask k → AccessMask k
union a b = from_bits (bit_or a.bits b.bits)

abbrev pub NameTable : Type 0
NameTable = List (ℕ × String)

abbrev pub filesystem_access_names : NameTable
filesystem_access_names =
    (2 ^ 0, "execute")
    ∷ (2 ^ 1, "write_file")
    ∷ (2 ^ 2, "read_file")
    ∷ (2 ^ 3, "read_dir")
    ∷ (2 ^ 4, "remove_dir")
    ∷ (2 ^ 5, "remove_file")
    ∷ (2 ^ 6, "make_char")
    ∷ (2 ^ 7, "make_dir")
    ∷ (2 ^ 8, "make_reg")
    ∷ (2 ^ 9, "make_sock")
    ∷ (2 ^ 10, "make_fifo")
    ∷ (2 ^ 11, "make_block")
    ∷ (2 ^ 12, "make_sym")
    ∷ (2 ^ 13, "refer")
    ∷ (2 ^ 14, "truncate")
    ∷ (2 ^ 15, "ioctl_dev")
    ∷ (2 ^ 16, "resolve_unix")
    ∷ []

abbrev pub network_access_names : NameTable
network_access_names =
    (2 ^ 0, "bind_tcp")
    ∷ (2 ^ 1, "connect_tcp")
    ∷ (2 ^ 2, "bind_udp")
    ∷ (2 ^ 3, "connect_send_udp")
    ∷ []

abbrev pub scope_names : NameTable
scope_names = (2 ^ 0, "abstract_unix_socket") ∷ (2 ^ 1, "signal") ∷ []

-- The table that each instance of the macro is given.
abbrev pub table : AccessKind → NameTable
table AccessKind.filesystem = filesystem_access_names
table AccessKind.network = network_access_names
table AccessKind.scope = scope_names

-- `$table.iter().fold(0, |bits, (bit, _)| bits | bit)`
abbrev pub known_mask_from : ℕ → NameTable → ℕ
known_mask_from bits [] = bits
known_mask_from bits ((bit, _) ∷ names) = known_mask_from (bit_or bits bit) names

abbrev pub known_mask : AccessKind → ℕ
known_mask k = known_mask_from 0 (table k)

-- `!mask` on a `u64`.
abbrev pub not_u64 : ℕ → ℕ
not_u64 mask = 2 ^ 64 - 1 - mask

unfoldable pub known_bits : {k : AccessKind} → AccessMask k → ℕ
known_bits {k} m = bit_and m.bits (known_mask k)

unfoldable pub unknown_bits : {k : AccessKind} → AccessMask k → ℕ
unknown_bits {k} m = bit_and m.bits (not_u64 (known_mask k))

-- `known_names`: the entries of the table whose bit is set.
unfoldable pub known_names_in : ℕ → NameTable → NameTable
known_names_in bits [] = []
known_names_in bits ((bit, name) ∷ names) =
    if not (bit_and bits bit == 0)
    then (bit, name) ∷ known_names_in bits names
    else known_names_in bits names

unfoldable pub known_names : {k : AccessKind} → AccessMask k → NameTable
unfolding known_names_in
known_names {k} m = known_names_in m.bits (table k)
