-- ===== src/Wire/Tests.antt =====
-- A record that frees a domain, what is decoded of it, and the theorems at that record.
use landlock_observability.Prelude.{
  ℕ, ℕ_discrete, zero, suc, ◌≡◌, ◌&&◌, refl, Bool, true, List, [], ◌∷◌, ◌++◌, ok, ltb, length,
  arith,
}
use landlock_observability.Event.Ids.{landlock_id_new}
use landlock_observability.Event.Kinds.{Event, free_domain}
use landlock_observability.Wire.Reader.{
  little_endian, record_size, slice_at, bytes, u64_at, byte_at, id_of,
}
use landlock_observability.Wire.Fields.{AreBytes}
use landlock_observability.Wire.Arms.{read_free_domain}
use landlock_observability.Wire.Decode.{decode, decode_sized, kind_in, decode_as, decode_kind}
use landlock_observability.Wire.Guarantee.{decode-Reads, Reads}

abbrev zeros : ℕ → List ℕ
zeros zero = []
zeros (suc n) = 0 ∷ zeros n

abbrev sample : List ℕ
sample = 5 ∷ zeros 7 ++ 10 ∷ zeros 7 ++ 1 ∷ 0 ∷ 0 ∷ 0 ∷ 1 ∷ zeros 3 ++ 3 ∷ zeros 327

abbrev event : Event
event =
    free_domain
      (record { timestamp = 5; domain_id = record { value = 0x1_0000_0001 }; denial_count = 3 })

abbrev are_bytes : List ℕ → Bool
are_bytes [] = true
are_bytes (b ∷ l) = ltb b 256 && are_bytes l

are_bytes-AreBytes : (l : List ℕ) → are_bytes l ≡ true → AreBytes l
are_bytes-AreBytes [] h = tt
are_bytes-AreBytes (b ∷ l) h = (ground arith, are_bytes-AreBytes l (ground arith))

small : AreBytes sample
small = are_bytes-AreBytes sample refl

decode-sample : decode little_endian sample ≡ ok event
unfolding decode decode_sized kind_in decode_as decode_kind read_free_domain slice_at bytes u64_at
    byte_at id_of landlock_id_new ℕ_discrete
decode-sample = refl

decode-Reads_example : (length sample ≡ record_size) × Reads little_endian sample event
decode-Reads_example = decode-Reads little_endian sample small event decode-sample

-- The same record with a kind that is not there.
abbrev unknown : List ℕ
unknown = 5 ∷ zeros 7 ++ 13 ∷ zeros 343
