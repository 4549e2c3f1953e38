-- ===== src/Lltop/Escape.antt =====
-- The text that the batch mode makes of captured bytes (lltop/src/batch.rs, `escape`). A character is
-- its code point, a text a list of them.
use landlock_observability.Prelude.{
  ℕ, ◌+◌, ◌/◌, ◌%◌, Bool, ◌&&◌, ◌||◌, List, [], ◌∷◌, ◌++◌, leb, ltb, ◌==◌, if◌then◌else◌,
}
use landlock_observability.Event.Captured.{Origin, CapturedBytes}

-- `is_ascii_alphanumeric`
abbrev pub is_ascii_alphanumeric : ℕ → Bool
is_ascii_alphanumeric b =
    (leb 0x30 b && leb b 0x39) || (leb 0x41 b && leb b 0x5a) || (leb 0x61 b && leb b 0x7a)

-- The bytes that stand for themselves: also `_`, `-`, `.` and `/`.
unfoldable pub is_plain : ℕ → Bool
is_plain b = is_ascii_alphanumeric b || b == 0x5f || b == 0x2d || b == 0x2e || b == 0x2f

unfoldable pub hex_digit : ℕ → ℕ
hex_digit d = if ltb d 10 then 0x30 + d else 0x57 + d

-- `\x{byte:02x}`
abbrev pub escape_byte : ℕ → List ℕ
escape_byte b =
    if is_plain b then b ∷ [] else 0x5c ∷ 0x78 ∷ hex_digit (b / 16) ∷ hex_digit (b % 16) ∷ []

abbrev pub escape_bytes : List ℕ → List ℕ
escape_bytes [] = []
escape_bytes (b ∷ bytes) = escape_byte b ++ escape_bytes bytes

abbrev pub omission_mark : ℕ
omission_mark = 0x2026

unfoldable pub escape : (o : Origin) → CapturedBytes o → List ℕ
escape o value =
    escape_bytes value.bytes ++ (if value.bytes_omitted then omission_mark ∷ [] else [])
