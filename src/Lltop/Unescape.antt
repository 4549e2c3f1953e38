-- ===== src/Lltop/Unescape.antt =====
-- What a reader gets back from the text of captured bytes (lltop/src/batch.rs).
use landlock_observability.Prelude.{
  ℕ, ◌+◌, ◌-◌, ◌*◌, ◌/◌, ◌%◌, ◌<◌, ◌≡◌, refl, ap, ◌∙◌, Bool, true, false, ◌||◌, ◌&&◌, List, [], ◌∷◌,
  ◌++◌, ltb, ◌==◌, All, if◌then◌else◌, arith, inl, inr, Bool-cases,
}
use mathlib.Core.List.{append-nil, append_assoc}
use landlock_observability.Event.Captured.{Origin, CapturedBytes}
use landlock_observability.Lltop.Escape.{
  is_plain, hex_digit, escape_byte, escape_bytes, omission_mark, escape,
}

-- A reader of the text: how much of an escape it has seen.
pub data Reading : Type 0 where
  plain backslash hex : Reading
  high : ℕ → Reading

unfoldable pub digit_value : ℕ → ℕ
digit_value c = if ltb c 0x3a then c - 0x30 else c - 0x57

abbrev pub next : Reading → ℕ → Reading
next Reading.plain c = if c == 0x5c then Reading.backslash else Reading.plain
next Reading.backslash c = Reading.hex
next Reading.hex c = Reading.high (digit_value c)
next (Reading.high d) c = Reading.plain

abbrev pub read_char : Reading → ℕ → List ℕ
read_char Reading.plain c = if c == 0x5c || c == omission_mark then [] else (c ∷ [])
read_char Reading.backslash c = []
read_char Reading.hex c = []
read_char (Reading.high d) c = (16 * d + digit_value c) ∷ []

abbrev pub unescape : Reading → List ℕ → List ℕ
unescape r [] = []
unescape r (c ∷ text) = read_char r c ++ unescape (next r c) text

abbrev pub is_marked : List ℕ → Bool
is_marked [] = false
is_marked (c ∷ text) = c == omission_mark || is_marked text

-- The characters of a field: `-`, `.`, `/` and digits, which stand together, letters, `_`, the
-- backslash and the mark of an omission. No space, no control character, no separator.
unfoldable pub is_safe : ℕ → Bool
is_safe c =
    (ltb 0x2c c && ltb c 0x3a)
    || (ltb 0x40 c && ltb c 0x5b)
    || (ltb 0x60 c && ltb c 0x7b)
    || c == 0x5f
    || c == 0x5c
    || c == 0x2026

abbrev pub IsByte : ℕ → Type 0
IsByte b = b < 256

digit_value-hex_digit : (d : ℕ) → d < 16 → digit_value (hex_digit d) ≡ d
unfolding digit_value hex_digit
digit_value-hex_digit d h = ground arith

digits :
    (b : ℕ) → b < 256 → 16 * digit_value (hex_digit (b / 16)) + digit_value (hex_digit (b % 16)) ≡ b
digits b h = omega (
  arith,
  digit_value-hex_digit (b / 16) (omega (arith, h)),
  digit_value-hex_digit (b % 16) (omega arith),
)

plain-other : (b : ℕ) → is_plain b ≡ true → (b == 0x5c) ≡ false
unfolding is_plain
plain-other b h = ground (arith, h)

byte-other : (b : ℕ) → b < 256 → (b == omission_mark) ≡ false
byte-other b h = ground (arith, h)

unescape-escape_byte :
    (b : ℕ) (text : List ℕ)
    → b < 256
    → unescape Reading.plain (escape_byte b ++ text) ≡ b ∷ unescape Reading.plain text
unescape-escape_byte b text h = elim (Bool-cases (is_plain b)) [
  | inl p ↦ ground (arith, p, plain-other b p, byte-other b h)
  | inr q ↦ ground (arith, q, digits b h)
]

is_safe-plain : (b : ℕ) → is_plain b ≡ true → is_safe b ≡ true
unfolding is_plain is_safe
is_safe-plain b h = ground (arith, h)

is_safe-hex_digit : (d : ℕ) → d < 16 → is_safe (hex_digit d) ≡ true
unfolding is_safe hex_digit
is_safe-hex_digit d h = ground (arith, h)

hex_digit-other : (d : ℕ) → d < 16 → (hex_digit d == omission_mark) ≡ false
unfolding hex_digit
hex_digit-other d h = ground (arith, h)

is_marked-escape_byte :
    (b : ℕ) (text : List ℕ) → b < 256 → is_marked (escape_byte b ++ text) ≡ is_marked text
is_marked-escape_byte b text h = elim (Bool-cases (is_plain b)) [
  | inl p ↦ ground (arith, p, byte-other b h)
  | inr q ↦ ground (
    arith,
    q,
    hex_digit-other (b / 16) (omega (arith, h)),
    hex_digit-other (b % 16) (omega arith),
  )
]

x_is_safe : is_safe 0x78 ≡ true
unfolding is_safe
x_is_safe = refl

backslash_is_safe : is_safe 0x5c ≡ true
unfolding is_safe
backslash_is_safe = refl

abbrev pub are_safe : List ℕ → Bool
are_safe [] = true
are_safe (c ∷ text) = is_safe c && are_safe text

are_safe-escape_byte :
    (b : ℕ) (text : List ℕ)
    → b < 256
    → are_safe text ≡ true
    → are_safe (escape_byte b ++ text) ≡ true
are_safe-escape_byte b text h safe = elim (Bool-cases (is_plain b)) [
  | inl p ↦ ground (arith, p, safe, is_safe-plain b p)
  | inr q ↦ ground (
    arith,
    q,
    safe,
    x_is_safe,
    backslash_is_safe,
    is_safe-hex_digit (b / 16) (omega (arith, h)),
    is_safe-hex_digit (b % 16) (omega arith),
  )
]

-- What all of a text's reading gives, before the text that follows.
escape_bytes-reads :
    (bytes text : List ℕ)
    → All IsByte bytes
    → are_safe text ≡ true
    → (unescape Reading.plain (escape_bytes bytes ++ text) ≡ bytes ++ unescape Reading.plain text)
      × (is_marked (escape_bytes bytes ++ text) ≡ is_marked text)
      × (are_safe (escape_bytes bytes ++ text) ≡ true)
escape_bytes-reads [] text h safe = (refl, refl, safe)
escape_bytes-reads (b ∷ bytes) text h safe =
    let rest = escape_bytes-reads bytes text h.1 safe in
    let after = escape_bytes bytes ++ text in
    let joined : (escape_byte b ++ escape_bytes bytes) ++ text ≡ escape_byte b ++ after =
      append_assoc (escape_byte b) (escape_bytes bytes) text in
    (
      ap (unescape Reading.plain) joined
          ∙ unescape-escape_byte b after h.0
          ∙ ap (λ l. b ∷ l) rest.0,
      ap is_marked joined ∙ is_marked-escape_byte b after h.0 ∙ rest.1,
      ap are_safe joined ∙ are_safe-escape_byte b after h.0 rest.2,
    )

abbrev marked_if : Bool → List ℕ
marked_if omitted = if omitted then omission_mark ∷ [] else []

marked_if-reads :
    (omitted : Bool)
    → (unescape Reading.plain (marked_if omitted) ≡ [])
      × (is_marked (marked_if omitted) ≡ omitted)
      × (are_safe (marked_if omitted) ≡ true)
unfolding is_safe
marked_if-reads true = (refl, refl, refl)
marked_if-reads false = (refl, refl, refl)

-- Round trip, for captured bytes below 256: from the text of `escape` a reader gets back the bytes, and
-- whether some were omitted. The text has letters, digits, `_`, `-`, `.`, `/`, `\` and the mark of an
-- omission only: no space, no end of a line and no `=`.
pub escape-reads :
    (o : Origin) (value : CapturedBytes o)
    → All IsByte value.bytes
    → (unescape Reading.plain (escape o value) ≡ value.bytes)
      × (is_marked (escape o value) ≡ value.bytes_omitted)
      × (are_safe (escape o value) ≡ true)
unfolding escape
escape-reads o value h =
    let m = marked_if-reads value.bytes_omitted in
    let r = escape_bytes-reads value.bytes (marked_if value.bytes_omitted) h m.2 in
    (r.0 ∙ ap (λ l. value.bytes ++ l) m.0 ∙ append-nil value.bytes, r.1 ∙ m.1, r.2)
