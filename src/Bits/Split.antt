-- ===== src/Bits/Split.antt =====
-- A word cut at digit `k` into `hi * 2 ^ k + lo`: the operations act on the two parts.
use Prim.Native.Nat.{differ, bit_and-bitwise, bit_or-bitwise}
use native.Mathlib.Nat.{pow-suc, one-le-pow}
use mips32_cpu_emulator.Bits.Step.{bit_and_step, bit_or_step, bit_xor_step}
use mips32_cpu_emulator.Prelude.{
  ℕ, zero, suc, ◌+◌, ◌*◌, ◌/◌, ◌%◌, ◌^◌, ◌<◌, ◌-◌, bit_and, bit_or, bit_xor, ◌≡◌, refl, arith, ap,
}

pub scaled_twice : (factor k : ℕ) → factor * 2 ^ suc k ≡ 2 * (factor * 2 ^ k)
scaled_twice factor k = omega (arith, ap (λ (t : ℕ). factor * t) (pow-suc 2 k))

fits_itself : (x : ℕ) → x < 2 ^ x
fits_itself zero = omega arith
fits_itself (suc x) = omega (arith, fits_itself x, pow-suc 2 x)

-- Two functions that start alike and add the same last digit to twice their value at the half
-- are the same.
module _ (f g digit : ℕ → ℕ) where
  same_digits :
      f 0 ≡ g 0
      → ((x : ℕ) → f x ≡ f (x / 2) * 2 + digit (x % 2))
      → ((x : ℕ) → g x ≡ g (x / 2) * 2 + digit (x % 2))
      → (k x : ℕ) → x < 2 ^ k
      → f x ≡ g x
  same_digits start of_f of_g zero x fits = let none : x ≡ 0 = omega arith in rw none start
  same_digits start of_f of_g (suc k) x fits =
      ground (arith, of_f x, of_g x, pow-suc 2 k, same_digits start of_f of_g k (x / 2))

pub bit_and-zero : (a : ℕ) → bit_and a 0 ≡ 0
bit_and-zero a =
    same_digits (λ x. bit_and x 0) (λ x. 0) (λ d. 0) refl (λ x. omega (arith, bit_and_step x 0))
      (λ x. refl) a a (fits_itself a)

pub zero-bit_and : (b : ℕ) → bit_and 0 b ≡ 0
zero-bit_and b = bit_and-bitwise 0 b

pub bit_or-zero : (a : ℕ) → bit_or a 0 ≡ a
bit_or-zero a =
    same_digits (λ x. bit_or x 0) (λ x. x) (λ d. d) refl (λ x. omega (arith, bit_or_step x 0))
      (λ x. omega arith) a a (fits_itself a)

pub zero-bit_or : (b : ℕ) → bit_or 0 b ≡ b
zero-bit_or b = bit_or-bitwise 0 b

pub bit_and-split :
    (k a b r s : ℕ)
    → r < 2 ^ k
    → s < 2 ^ k
    → bit_and (a * 2 ^ k + r) (b * 2 ^ k + s) ≡ bit_and a b * 2 ^ k + bit_and r s
bit_and-split zero a b r s p q =
    let er : r ≡ 0 = omega arith in
    let es : s ≡ 0 = omega arith in
    let ea : a * 2 ^ 0 + r ≡ a = omega arith in
    let eb : b * 2 ^ 0 + s ≡ b = omega arith in rw (ea, eb, er, es) (omega (arith, bit_and-zero 0))
bit_and-split (suc k) a b r s p q = ground (
  arith,
  bit_and_step (a * 2 ^ suc k + r) (b * 2 ^ suc k + s),
  bit_and_step r s,
  scaled_twice a k,
  scaled_twice b k,
  scaled_twice (bit_and a b) k,
  pow-suc 2 k,
  bit_and-split k a b (r / 2) (s / 2),
)

pub bit_or-split :
    (k a b r s : ℕ)
    → r < 2 ^ k
    → s < 2 ^ k
    → bit_or (a * 2 ^ k + r) (b * 2 ^ k + s) ≡ bit_or a b * 2 ^ k + bit_or r s
bit_or-split zero a b r s p q =
    let er : r ≡ 0 = omega arith in
    let es : s ≡ 0 = omega arith in
    let ea : a * 2 ^ 0 + r ≡ a = omega arith in
    let eb : b * 2 ^ 0 + s ≡ b = omega arith in rw (ea, eb, er, es) (omega (arith, bit_or-zero 0))
bit_or-split (suc k) a b r s p q = ground (
  arith,
  bit_or_step (a * 2 ^ suc k + r) (b * 2 ^ suc k + s),
  bit_or_step r s,
  scaled_twice a k,
  scaled_twice b k,
  scaled_twice (bit_or a b) k,
  pow-suc 2 k,
  bit_or-split k a b (r / 2) (s / 2),
)

-- All ones below digit `k` keep a number that fits.
pub bit_and_ones : (k a : ℕ) → a < 2 ^ k → bit_and a (2 ^ k - 1) ≡ a
bit_and_ones zero a h = let e : a ≡ 0 = omega arith in rw e (bit_and-zero 0)
bit_and_ones (suc k) a h =
    ground
      (arith, bit_and_step a (2 ^ suc k - 1), pow-suc 2 k, one-le-pow k 2, bit_and_ones k (a / 2))

-- Fields that do not overlap add up.
pub bit_or_fields :
    (width high low : ℕ) → low < 2 ^ width → bit_or (high * 2 ^ width) low ≡ high * 2 ^ width + low
bit_or_fields k q r h = ground (
  arith,
  one-le-pow k 2,
  bit_or-split k q 0 0 r (omega (arith, one-le-pow k 2)) h,
  bit_or-zero q,
  zero-bit_or r,
)

-- Masking off all but the low digits.
pub bit_and_mask : (k a : ℕ) → bit_and a (2 ^ k - 1) ≡ a % 2 ^ k
bit_and_mask k a = ground (
  arith,
  one-le-pow k 2,
  bit_and-split k (a / 2 ^ k) 0 (a % 2 ^ k) (2 ^ k - 1),
  bit_and-zero (a / 2 ^ k),
  bit_and_ones k (a % 2 ^ k),
)

pub bit_and-lt : (k a b : ℕ) → a < 2 ^ k → b < 2 ^ k → bit_and a b < 2 ^ k
bit_and-lt zero a b p q = let ea : a ≡ 0 = omega arith in rw ea (omega (arith, zero-bit_and b))
bit_and-lt (suc k) a b p q =
    ground (arith, bit_and_step a b, pow-suc 2 k, bit_and-lt k (a / 2) (b / 2))

pub bit_or-lt : (k a b : ℕ) → a < 2 ^ k → b < 2 ^ k → bit_or a b < 2 ^ k
bit_or-lt zero a b p q = let ea : a ≡ 0 = omega arith in rw ea (omega (arith, zero-bit_or b))
bit_or-lt (suc k) a b p q =
    ground (arith, bit_or_step a b, pow-suc 2 k, bit_or-lt k (a / 2) (b / 2))

differ-le : (x y : ℕ) → x < 2 → y < 2 → differ x y < 2
differ-le zero y p q = q
differ-le (suc zero) zero p q = omega arith
differ-le (suc zero) (suc y) p q = omega arith
differ-le (suc (suc x)) y p q = absurd (omega arith)

pub bit_xor-lt : (k a b : ℕ) → a < 2 ^ k → b < 2 ^ k → bit_xor a b < 2 ^ k
bit_xor-lt zero a b p q =
    let ea : a ≡ 0 = omega arith in let eb : b ≡ 0 = omega arith in rw (ea, eb) (omega arith)
bit_xor-lt (suc k) a b p q =
    ground (
      arith,
      bit_xor_step a b,
      differ-le (a % 2) (b % 2),
      pow-suc 2 k,
      bit_xor-lt k (a / 2) (b / 2),
    )

-- A mask of one digit.
pub bit_and_digit : (k a : ℕ) → bit_and a (2 ^ k) ≡ a / 2 ^ k % 2 * 2 ^ k
bit_and_digit k a = ground (
  arith,
  one-le-pow k 2,
  bit_and-split k (a / 2 ^ k) 1 (a % 2 ^ k) 0,
  bit_and_mask 1 (a / 2 ^ k),
  bit_and-zero (a % 2 ^ k),
)

bit_or-one : (a : ℕ) → bit_or a 1 ≡ a + (1 - a % 2)
bit_or-one a = ground (arith, bit_or_step a 1, bit_or-zero (a / 2))

-- Setting one digit.
pub bit_or_digit : (k a : ℕ) → bit_or a (2 ^ k) ≡ a + (1 - a / 2 ^ k % 2) * 2 ^ k
bit_or_digit k a = ground (
  arith,
  one-le-pow k 2,
  bit_or-split k (a / 2 ^ k) 1 (a % 2 ^ k) 0,
  ap (λ (t : ℕ). t * 2 ^ k) (bit_or-one (a / 2 ^ k)),
  bit_or-zero (a % 2 ^ k),
)

pub bit_or_above : (k q r : ℕ) → r < 2 ^ k → bit_or r (q * 2 ^ k) ≡ q * 2 ^ k + r
bit_or_above k q r h = ground (
  arith,
  one-le-pow k 2,
  bit_or-split k 0 q r 0 h (omega (arith, one-le-pow k 2)),
  bit_or-zero r,
  zero-bit_or q,
)
