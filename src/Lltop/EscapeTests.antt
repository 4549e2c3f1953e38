-- ===== src/Lltop/EscapeTests.antt =====
-- Tests and concrete instances for the text of captured bytes (lltop/src/batch.rs).
use landlock_observability.Prelude.{◌≡◌, refl, true, false, [], ◌∷◌, arith}
use landlock_observability.Event.Captured.{Origin, CapturedPath}
use landlock_observability.Lltop.Escape.{is_plain, hex_digit, escape}
use landlock_observability.Lltop.Unescape.{Reading, unescape, is_marked, are_safe, escape-reads}

-- From the test of `escape` in lltop/src/batch.rs: `A=%`, an end of a line, and the byte 0xff.
abbrev odd : CapturedPath
odd = record { bytes = b'A' ∷ b'=' ∷ b'%' ∷ 0x0a ∷ 0xff ∷ []; bytes_omitted = false }

escape-odd :
    escape Origin.pathname odd
    ≡ b'A' ∷ b'\\' ∷ b'x' ∷ b'3' ∷ b'd' ∷ b'\\' ∷ b'x' ∷ b'2' ∷ b'5' ∷ b'\\' ∷ b'x' ∷ b'0' ∷ b'a'
      ∷ b'\\' ∷ b'x' ∷ b'f' ∷ b'f' ∷ []
unfolding escape is_plain hex_digit
escape-odd = refl

escape-reads_example :
    (unescape Reading.plain (escape Origin.pathname odd) ≡ odd.bytes)
    × (is_marked (escape Origin.pathname odd) ≡ false)
    × (are_safe (escape Origin.pathname odd) ≡ true)
escape-reads_example =
    escape-reads Origin.pathname odd
      (omega arith, (omega arith, (omega arith, (omega arith, (omega arith, tt)))))
