-- ===== src/Base/Bits.antt =====
-- Bit laws at every width, by the digit recursion of the native operations.
use Prim.Native.Nat.{
  ℕ, zero, suc, ◌+◌, ◌-◌, ◌*◌, ◌/◌, ◌%◌, ◌^◌, ◌≤◌, ◌<◌, min, max, bit_and, bit_or, digits, bitwise,
  bit_and-bitwise, bit_or-bitwise,
}
use mathlib.Core.Path.{◌≡◌, refl, ap, ◌∙◌}
use native.Mathlib.Omega.{arith}
use msm8909pkg.Base.Tests.{◌==◌, if◌then◌else◌}

-- The bit of `v` at position `j`.
pub test_bit : ℕ → ℕ → ℕ
test_bit v zero = v % 2
test_bit v (suc j) = test_bit (v / 2) j

-- The native operations count down from their first number while they halve it. Here that count is
-- put away: what is left is what an operation does at the lowest digit.
module _ (run_out : ℕ → ℕ) (digit : ℕ → ℕ → ℕ) where
  one_digit_more :
      (n a b : ℕ) → a ≤ n → digits run_out digit (suc n) a b ≡ digits run_out digit n a b
  one_digit_more zero zero b h = refl
  one_digit_more (suc n) zero b h = refl
  one_digit_more zero (suc a) b h = absurd (omega arith)
  one_digit_more (suc n) (suc a) b h =
      ap (λ (d : ℕ). d * 2 + digit (suc a % 2) (b % 2))
        (one_digit_more n (suc a / 2) (b / 2) (omega arith))

  more_digits : (k n a b : ℕ) → n ≡ k + a → digits run_out digit n a b ≡ digits run_out digit a a b
  more_digits zero n a b e = ap (λ (m : ℕ). digits run_out digit m a b) (omega arith)
  more_digits (suc k) n a b e =
      let count : n ≡ suc (k + a) = omega arith in
      ap (λ (m : ℕ). digits run_out digit m a b) count
      ∙ one_digit_more (k + a) a b (omega arith)
      ∙ more_digits k (k + a) a b refl

  lowest_digit :
      (a b : ℕ)
      → 0 < a
      → bitwise run_out digit a b
        ≡ bitwise run_out digit (a / 2) (b / 2) * 2 + digit (a % 2) (b % 2)
  lowest_digit zero b h = absurd (omega arith)
  lowest_digit (suc a) b h =
      ap (λ (d : ℕ). d * 2 + digit (suc a % 2) (b % 2))
        (more_digits (a - suc a / 2) a (suc a / 2) (b / 2) (omega arith))

pub zero-bit_and : (b : ℕ) → bit_and 0 b ≡ 0
zero-bit_and b = bit_and-bitwise 0 b

zero-bit_or : (b : ℕ) → bit_or 0 b ≡ b
zero-bit_or b = bit_or-bitwise 0 b

pub bit_and_step : (a b : ℕ) → bit_and a b ≡ bit_and (a / 2) (b / 2) * 2 + min (a % 2) (b % 2)
bit_and_step zero b = ground (arith, zero-bit_and b, zero-bit_and (b / 2))
bit_and_step (suc a) b =
    let low = lowest_digit (λ y. 0) min (suc a) b (omega arith) in
    omega (low, bit_and-bitwise (suc a) b, bit_and-bitwise (suc a / 2) (b / 2), arith)

pub bit_or_step : (a b : ℕ) → bit_or a b ≡ bit_or (a / 2) (b / 2) * 2 + max (a % 2) (b % 2)
bit_or_step zero b = ground (arith, zero-bit_or b, zero-bit_or (b / 2))
bit_or_step (suc a) b =
    let low = lowest_digit (λ y. y) max (suc a) b (omega arith) in
    omega (low, bit_or-bitwise (suc a) b, bit_or-bitwise (suc a / 2) (b / 2), arith)

pub test_bit-and : (j a b : ℕ) → test_bit (bit_and a b) j ≡ min (test_bit a j) (test_bit b j)
unfolding test_bit
test_bit-and zero a b = omega (arith, bit_and_step a b)
test_bit-and (suc j) a b =
    let halves : bit_and a b / 2 ≡ bit_and (a / 2) (b / 2) = omega (arith, bit_and_step a b) in
    rw halves (test_bit-and j (a / 2) (b / 2))

pub test_bit-or : (j a b : ℕ) → test_bit (bit_or a b) j ≡ max (test_bit a j) (test_bit b j)
unfolding test_bit
test_bit-or zero a b = omega (arith, bit_or_step a b)
test_bit-or (suc j) a b =
    let halves : bit_or a b / 2 ≡ bit_or (a / 2) (b / 2) = omega (arith, bit_or_step a b) in
    rw halves (test_bit-or j (a / 2) (b / 2))

pub test_bit-le-one : (v j : ℕ) → test_bit v j ≤ 1
unfolding test_bit
test_bit-le-one v zero = omega arith
test_bit-le-one v (suc j) = test_bit-le-one (v / 2) j

pub test_bit_zero : (j : ℕ) → test_bit 0 j ≡ 0
unfolding test_bit
test_bit_zero zero = refl
test_bit_zero (suc j) = test_bit_zero j

pow_suc_half : (k : ℕ) → 2 ^ suc k / 2 ≡ 2 ^ k
pow_suc_half k = omega arith

pub test_bit-pow : (k j : ℕ) → test_bit (2 ^ k) j ≡ (if k == j then 1 else 0)
unfolding test_bit
test_bit-pow zero zero = refl
test_bit-pow zero (suc j) = ground (arith, test_bit_zero j)
test_bit-pow (suc k) zero = ground arith
test_bit-pow (suc k) (suc j) = rw (pow_suc_half k) (test_bit-pow k j ∙ ground arith)

-- `~b` on a word of `w` bits.
abbrev pub bit_not : ℕ → ℕ → ℕ
bit_not w b = 2 ^ w - 1 - b

pub test_bit-not : (w j b : ℕ) → b < 2 ^ w → j < w → test_bit (bit_not w b) j ≡ 1 - test_bit b j
unfolding test_bit
test_bit-not zero j b h l = absurd (omega arith)
test_bit-not (suc w) zero b h l = omega arith
test_bit-not (suc w) (suc j) b h l =
    let halves : bit_not (suc w) b / 2 ≡ bit_not w (b / 2) = omega arith in
    rw halves (test_bit-not w j (b / 2) (omega arith) (omega arith))

pub bit_or_lt_pow : (w a b : ℕ) → a < 2 ^ w → b < 2 ^ w → bit_or a b < 2 ^ w
bit_or_lt_pow zero a b h k =
    let p : a ≡ 0 = omega arith in let q : b ≡ 0 = omega arith in rw (p, q) (omega arith)
bit_or_lt_pow (suc w) a b h k =
    omega (arith, bit_or_step a b, bit_or_lt_pow w (a / 2) (b / 2) (omega arith) (omega arith))

pub bit_and_le : (n a b : ℕ) → a ≤ n → bit_and a b ≤ a
bit_and_le n zero b h = omega (arith, zero-bit_and b)
bit_and_le zero (suc a) b h = absurd (omega arith)
bit_and_le (suc n) (suc a) b h =
    omega (arith, bit_and_step (suc a) b, bit_and_le n (suc a / 2) (b / 2) (omega arith))

pub pow_lt_pow : (k w : ℕ) → k < w → 2 ^ k < 2 ^ w
pow_lt_pow k zero h = absurd (omega arith)
pow_lt_pow zero (suc zero) h = omega arith
pow_lt_pow zero (suc (suc w)) h = omega (arith, pow_lt_pow zero (suc w) (omega arith))
pow_lt_pow (suc k) (suc w) h = omega (arith, pow_lt_pow k w (omega arith))

pub bit_and_nothing : (n a : ℕ) → a < n → bit_and a 0 ≡ 0
bit_and_nothing zero a h = absurd (omega arith)
bit_and_nothing (suc n) zero h = zero-bit_and 0
bit_and_nothing (suc n) (suc a) h =
    let half = bit_and_nothing n (suc a / 2) (omega arith) in
    omega (half, bit_and_step (suc a) 0, arith)

-- A mask of one bit picks that bit.
pub bit_and-pow : (k v : ℕ) → bit_and v (2 ^ k) ≡ test_bit v k * 2 ^ k
unfolding test_bit
bit_and-pow zero v =
    omega (arith, bit_and_step v 1, bit_and_nothing (suc (v / 2)) (v / 2) (omega arith))
bit_and-pow (suc k) v =
    let halved : bit_and (v / 2) (2 ^ suc k / 2) ≡ test_bit (v / 2) k * 2 ^ k =
      rw (pow_suc_half k) (bit_and-pow k (v / 2)) in
    let twice : 2 ^ suc k ≡ 2 * 2 ^ k = omega arith in
    omega (
      arith,
      bit_and_step v (2 ^ suc k),
      halved,
      twice,
      ap (λ (z : ℕ). test_bit (v / 2) k * z) twice,
    )

pub pow_pos : (k : ℕ) → 0 < 2 ^ k
pow_pos zero = omega arith
pow_pos (suc k) = omega (arith, pow_pos k)

-- `v & b ? 1 : 0` for the bit `b = 1 << k`.
pub bit_and_test : (k v : ℕ) → (if bit_and v (2 ^ k) == 0 then 0 else 1) ≡ test_bit v k
bit_and_test k v =
    bit_of_product (test_bit v k) (2 ^ k) (test_bit-le-one v k) (pow_pos k) (bit_and v (2 ^ k))
      (bit_and-pow k v)
  where
    bit_of_product : (t p : ℕ) → t ≤ 1 → 0 < p → (x : ℕ) → x ≡ t * p → (if x == 0 then 0 else 1) ≡ t
    bit_of_product zero p h g x e = ground arith
    bit_of_product (suc zero) p h g x e = ground arith
    bit_of_product (suc (suc t)) p h g x e = absurd (omega arith)

bit_or_nothing : (n a : ℕ) → a < n → bit_or a 0 ≡ a
bit_or_nothing zero a h = absurd (omega arith)
bit_or_nothing (suc n) zero h = zero-bit_or 0
bit_or_nothing (suc n) (suc a) h =
    let half = bit_or_nothing n (suc a / 2) (omega arith) in
    omega (half, bit_or_step (suc a) 0, arith)

abbrev pub doubled : ℕ → ℕ → ℕ
doubled zero a = a
doubled (suc k) a = 2 * doubled k a

-- A number below a power of two goes into the bits that a shift has left free.
pub bit_or-doubled : (k a b : ℕ) → b < 2 ^ k → bit_or (doubled k a) b ≡ doubled k a + b
bit_or-doubled zero a b h =
    let none_left : b ≡ 0 = omega arith in rw none_left (omega (arith, bit_or_nothing (suc a) a))
bit_or-doubled (suc k) a b h =
    let d = doubled k a in
    let half : (2 * d) / 2 ≡ d = omega arith in
    let step : bit_or (2 * d) b ≡ bit_or d (b / 2) * 2 + max ((2 * d) % 2) (b % 2) =
      bit_or_step (2 * d) b ∙ ap (λ x. bit_or x (b / 2) * 2 + max ((2 * d) % 2) (b % 2)) half in
    omega (arith, step, bit_or-doubled k a (b / 2) (omega arith))

-- The two bytes of a word, the high one first.
pub bit_or-bytes : (a b : ℕ) → b < 256 → bit_or (a * 256) b ≡ a * 256 + b
bit_or-bytes a b h =
    let shifted : a * 256 ≡ doubled 8 a = omega arith in rw shifted (bit_or-doubled 8 a b h)

-- The bits above a shift are joined by themselves.
pub bit_or-high :
    (k a o r : ℕ) → r < 2 ^ k → bit_or (doubled k a) (doubled k o + r) ≡ doubled k (bit_or a o) + r
bit_or-high zero a o r h =
    let none_left : r ≡ 0 = omega arith in
    let same : o + 0 ≡ o = omega arith in rw (none_left, same) (omega arith)
bit_or-high (suc k) a o r h =
    let d = doubled k a in
    let e = 2 * doubled k o + r in
    let half : (2 * d) / 2 ≡ d = omega arith in
    let half' : e / 2 ≡ doubled k o + r / 2 = omega arith in
    let step : bit_or (2 * d) e ≡ bit_or d (doubled k o + r / 2) * 2 + max ((2 * d) % 2) (e % 2) =
      bit_or_step (2 * d) e
      ∙ ap (λ x. bit_or x (e / 2) * 2 + max ((2 * d) % 2) (e % 2)) half
      ∙ ap (λ x. bit_or d x * 2 + max ((2 * d) % 2) (e % 2)) half' in
    omega (arith, step, bit_or-high k a o (r / 2) (omega arith))

-- A word of ones absorbs what has no more bits.
pub bit_or-ones : (w a : ℕ) → a < 2 ^ w → bit_or a (2 ^ w - 1) ≡ 2 ^ w - 1
bit_or-ones zero a h = let zero_a : a ≡ 0 = omega arith in rw zero_a (zero-bit_or 0)
bit_or-ones (suc w) a h =
    let half : (2 ^ suc w - 1) / 2 ≡ 2 ^ w - 1 = omega (arith, pow_pos w) in
    let step : bit_or a (2 ^ suc w - 1)
        ≡ bit_or (a / 2) (2 ^ w - 1) * 2 + max (a % 2) ((2 ^ suc w - 1) % 2) =
      bit_or_step a (2 ^ suc w - 1)
      ∙ ap (λ x. bit_or (a / 2) x * 2 + max (a % 2) ((2 ^ suc w - 1) % 2)) half in
    omega (arith, step, pow_pos w, bit_or-ones w (a / 2) (omega arith))
