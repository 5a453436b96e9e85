-- ===== src/Bits/Digits.antt =====
-- Single binary digits: what the operations and a power of two do to the digit at a position.
use Prim.Native.Nat.{differ}
use native.Mathlib.Nat.{pow-suc, one-le-pow}
use mips32_cpu_emulator.Bits.Step.{bit_and_step, bit_or_step, bit_xor_step}
use mips32_cpu_emulator.Bits.Split.{bit_and-zero, scaled_twice}
use mips32_cpu_emulator.Prelude.{
  ℕ, zero, suc, ◌*◌, ◌/◌, ◌%◌, ◌^◌, ◌<◌, ◌-◌, max, bit_and, bit_or, bit_xor, ◌≡◌, ◌≢◌, refl, arith,
}

unfoldable pub digit : ℕ → ℕ → ℕ
digit zero a = a % 2
digit (suc k) a = digit k (a / 2)

pub digit-lt : (k a : ℕ) → digit k a < 2
unfolding digit
digit-lt zero a = omega arith
digit-lt (suc k) a = digit-lt k (a / 2)

pub digit-zero : (k : ℕ) → digit k 0 ≡ 0
unfolding digit
digit-zero zero = refl
digit-zero (suc k) = digit-zero k

differ-lt : (x y : ℕ) → x < 2 → y < 2 → differ x y < 2
differ-lt zero y p q = q
differ-lt (suc zero) zero p q = omega arith
differ-lt (suc zero) (suc y) p q = omega arith
differ-lt (suc (suc x)) y p q = absurd (omega arith)

pub digit-bit_or : (k a b : ℕ) → digit k (bit_or a b) ≡ max (digit k a) (digit k b)
unfolding digit
digit-bit_or zero a b = omega (arith, bit_or_step a b)
digit-bit_or (suc k) a b =
    let halved : bit_or a b / 2 ≡ bit_or (a / 2) (b / 2) = omega (arith, bit_or_step a b) in
    rw halved (digit-bit_or k (a / 2) (b / 2))

pub digit-bit_xor : (k a b : ℕ) → digit k (bit_xor a b) ≡ differ (digit k a) (digit k b)
unfolding digit
digit-bit_xor zero a b = ground (arith, bit_xor_step a b, differ-lt (a % 2) (b % 2))
digit-bit_xor (suc k) a b =
    let halved : bit_xor a b / 2 ≡ bit_xor (a / 2) (b / 2) =
      ground (arith, bit_xor_step a b, differ-lt (a % 2) (b % 2)) in
    rw halved (digit-bit_xor k (a / 2) (b / 2))

pub digit-power : (k : ℕ) → digit k (2 ^ k) ≡ 1
unfolding digit
digit-power zero = refl
digit-power (suc k) =
    let halved : 2 ^ suc k / 2 ≡ 2 ^ k = omega (arith, pow-suc 2 k) in rw halved (digit-power k)

pub digit-other_power : (j k : ℕ) → j ≢ k → digit j (2 ^ k) ≡ 0
unfolding digit
digit-other_power zero zero apart = absurd (apart refl)
digit-other_power zero (suc k) apart = omega (arith, pow-suc 2 k)
digit-other_power (suc j) zero apart = digit-zero j
digit-other_power (suc j) (suc k) apart =
    let halved : 2 ^ suc k / 2 ≡ 2 ^ k = omega (arith, pow-suc 2 k) in
    rw halved (digit-other_power j k (λ same. apart (omega arith)))

pub digit-ones : (j k : ℕ) → j < k → digit j (2 ^ k - 1) ≡ 1
unfolding digit
digit-ones j zero below = absurd (omega arith)
digit-ones zero (suc k) below = omega (arith, pow-suc 2 k, one-le-pow k 2)
digit-ones (suc j) (suc k) below =
    let halved : (2 ^ suc k - 1) / 2 ≡ 2 ^ k - 1 = omega (arith, pow-suc 2 k, one-le-pow k 2) in
    rw halved (digit-ones j k (omega arith))

-- A mask of one digit gives that digit in its place.
pub bit_and_power : (k a : ℕ) → bit_and a (2 ^ k) ≡ digit k a * 2 ^ k
unfolding digit
bit_and_power zero a = omega (arith, bit_and_step a 1, bit_and-zero (a / 2))
bit_and_power (suc k) a =
    let halved : 2 ^ suc k / 2 ≡ 2 ^ k = omega (arith, pow-suc 2 k) in
    let masked : bit_and a (2 ^ suc k) ≡ bit_and (a / 2) (2 ^ k) * 2 =
      ground (arith, bit_and_step a (2 ^ suc k), pow-suc 2 k) in
    rw (masked, bit_and_power k (a / 2)) (omega (arith, scaled_twice (digit k (a / 2)) k))

-- A number without a digit is zero.
pub no_digits : (k a : ℕ) → a < 2 ^ k → ((j : ℕ) → j < k → digit j a ≡ 0) → a ≡ 0
unfolding digit
no_digits zero a fits none = omega arith
no_digits (suc k) a fits none =
    let half : a / 2 ≡ 0 =
      no_digits k (a / 2) (omega (arith, pow-suc 2 k)) (λ j below. none (suc j) (omega arith)) in
    let even : a % 2 ≡ 0 = none 0 (omega arith) in omega arith
