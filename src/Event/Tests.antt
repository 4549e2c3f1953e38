-- ===== src/Event/Tests.antt =====
-- Concrete values of src/event, and the theorems about them.
use landlock_observability.Prelude.{◌≡◌, ◌↔◌, ◌+◌, ◌%◌, ◌^◌, false, [], ◌∷◌, ok, arith}
use landlock_observability.Event.Access.{FilesystemAccess, known_bits, unknown_bits, known_names}
use landlock_observability.Event.Captured.{Origin, CapturedCommand, captured_bytes_new}
use landlock_observability.Event.Kinds.{fs_access, fs_change_topology, FilesystemBlockers, classify}
use landlock_observability.Event.Validity.{CapturedBytes-IsValid, captured_bytes_new-ok}
use landlock_observability.Event.Masks.{
  known_names-unknown_bits, sum_of, observed_pair, observed_pair-classify,
}

abbrev shell : CapturedCommand
shell = record { bytes = b's' ∷ b'h' ∷ []; bytes_omitted = false }

captured_bytes_new-ok_example :
    (captured_bytes_new Origin.command (b's' ∷ b'h' ∷ []) false ≡ ok shell) ↔ (
      CapturedBytes-IsValid shell
      × (shell ≡ record { bytes = b's' ∷ b'h' ∷ []; bytes_omitted = false }))
captured_bytes_new-ok_example = captured_bytes_new-ok Origin.command (b's' ∷ b'h' ∷ []) false shell

-- Two known rights and a bit that no table names.
abbrev mask : FilesystemAccess
mask = record { bits = 0x80_0005 }

known_names-unknown_bits_example :
    (sum_of (known_names mask) ≡ mask.bits % 2 ^ 17)
    × (known_bits mask ≡ mask.bits % 2 ^ 17)
    × (sum_of (known_names mask) + unknown_bits mask ≡ mask.bits)
known_names-unknown_bits_example = known_names-unknown_bits mask (omega arith)

observed_pair-classify_example :
    (observed_pair (classify fs_change_topology mask) ≡ (fs_change_topology, mask))
    × ((classify fs_change_topology mask ≡ FilesystemBlockers.access mask)
        ↔ (fs_change_topology ≡ fs_access))
observed_pair-classify_example = observed_pair-classify fs_change_topology mask
