-- ===== src/Event/Bits.antt =====
-- Conjunctions of bits: a mask and its complement, and the lowest bits of a number (the operators `&`
-- and `!` of src/event/mod.rs).
use Prim.Native.Nat.{bit_and, digits, bit_and-bitwise}
use native.Mathlib.Nat.{mul_assoc}
use landlock_observability.Prelude.{
  ℕ, zero, suc, ◌+◌, ◌*◌, ◌-◌, ◌/◌, ◌%◌, ◌≤◌, ◌<◌, ◌≡◌, refl, sym, ap, ◌∙◌, min, arith, ℕ_discrete,
}

-- The digits of a conjunction, with a bound on their number.
abbrev conjunction : ℕ → ℕ → ℕ → ℕ
conjunction bound a b = digits (λ _. 0) min bound a b

conjunction-suc : (n a b : ℕ) → a ≤ n → conjunction (suc n) a b ≡ conjunction n a b
conjunction-suc zero zero b h = refl
conjunction-suc zero (suc a) b h = absurd (omega arith)
conjunction-suc (suc n) zero b h = refl
conjunction-suc (suc n) (suc a) b h =
    omega (arith, conjunction-suc n (suc a / 2) (b / 2) (omega arith))

-- A bound that is great enough does not matter.
conjunction_bound : (m n a b : ℕ) → a ≤ n → n ≤ m → conjunction m a b ≡ conjunction n a b
conjunction_bound zero n a b h k =
    let none_left : 0 ≡ n = omega arith in ap (λ i. conjunction i a b) none_left
conjunction_bound (suc m) n a b h k = elim (ℕ_discrete n (suc m)) [
  | yes e ↦ ap (λ i. conjunction i a b) (sym e)
  | no e ↦ conjunction-suc m a b (omega (arith, e)) ∙ conjunction_bound m n a b h (omega (arith, e))
]

zero-bit_and : (b : ℕ) → bit_and 0 b ≡ 0
zero-bit_and b = bit_and-bitwise 0 b

bit_and-halves : (a b : ℕ) → bit_and a b ≡ 2 * bit_and (a / 2) (b / 2) + min (a % 2) (b % 2)
bit_and-halves zero b = omega (arith, bit_and-bitwise 0 b, bit_and-bitwise 0 (b / 2))
bit_and-halves (suc a) b = omega (
  arith,
  bit_and-bitwise (suc a) b,
  bit_and-bitwise (suc a / 2) (b / 2),
  conjunction_bound a (suc a / 2) (suc a / 2) (b / 2) (omega arith) (omega arith),
)

abbrev pub two_to : ℕ → ℕ
two_to zero = 1
two_to (suc n) = 2 * two_to n

-- A mask and its complement split a number.
pub bit_and-complement :
    (n a m : ℕ) → a < two_to n → m < two_to n → bit_and a m + bit_and a (two_to n - 1 - m) ≡ a
bit_and-complement zero a m h k =
    ap (λ i. bit_and i m + bit_and i (1 - 1 - m)) none_left
    ∙ omega (arith, zero-bit_and m, zero-bit_and (1 - 1 - m), none_left)
  where
    none_left : a ≡ 0
    none_left = omega arith
bit_and-complement (suc n) a m h k = omega (
  arith,
  bit_and-halves a m,
  bit_and-halves a (2 * two_to n - 1 - m),
  bit_and-complement n (a / 2) (m / 2) (omega arith) (omega arith),
  ap (bit_and (a / 2)) half,
)
  where
    half : (2 * two_to n - 1 - m) / 2 ≡ two_to n - 1 - m / 2
    half = omega arith

-- The lowest bits of a number.
abbrev pub low : ℕ → ℕ → ℕ
low zero a = 0
low (suc n) a = 2 * low n (a / 2) + a % 2

pub two_to-pos : (n : ℕ) → 0 < two_to n
two_to-pos zero = omega arith
two_to-pos (suc n) = omega (arith, two_to-pos n)

bit_and_0 : (n a : ℕ) → a ≤ n → bit_and a 0 ≡ 0
bit_and_0 zero a h =
    let none_left : a ≡ 0 = omega (arith, h) in ap (λ i. bit_and i 0) none_left ∙ zero-bit_and 0
bit_and_0 (suc n) a h = omega (arith, bit_and-halves a 0, bit_and_0 n (a / 2) (omega (arith, h)))

pub bit_and-ones : (n a : ℕ) → bit_and a (two_to n - 1) ≡ low n a
bit_and-ones zero a = bit_and_0 a a (omega arith)
bit_and-ones (suc n) a =
    let half : (2 * two_to n - 1) / 2 ≡ two_to n - 1 = omega (arith, two_to-pos n) in
    omega (
      arith,
      bit_and-halves a (2 * two_to n - 1),
      ap (bit_and (a / 2)) half,
      bit_and-ones n (a / 2),
      two_to-pos n,
    )

pub low-lt : (n a : ℕ) → low n a < two_to n
low-lt zero a = omega arith
low-lt (suc n) a = omega (arith, low-lt n (a / 2))

abbrev pub high : ℕ → ℕ → ℕ
high zero a = a
high (suc n) a = high n (a / 2)

pub low-high : (n a : ℕ) → low n a + two_to n * high n a ≡ a
low-high zero a = omega arith
low-high (suc n) a = omega (arith, mul_assoc 2 (two_to n) (high n (a / 2)), low-high n (a / 2))

pub bit_and-double : (a b : ℕ) → bit_and a (2 * b) ≡ 2 * bit_and (a / 2) b
bit_and-double a b = omega (arith, bit_and-halves a (2 * b), ap (bit_and (a / 2)) half)
  where
    half : 2 * b / 2 ≡ b
    half = omega arith

pub bit_and_1 : (a : ℕ) → bit_and a 1 ≡ a % 2
bit_and_1 a = omega (arith, bit_and-halves a 1, bit_and_0 (a / 2) (a / 2) (omega arith))
