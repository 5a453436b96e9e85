-- ===== src/Bits/Step.antt =====
-- How `&`, `|` and `^` treat the lowest binary digit of their operands.
-- The native operations stand for `bitwise`, which recurses on halves for as many turns as its
-- first operand says. Turns beyond those that are needed change nothing, so the law holds without
-- them.
use Prim.Native.Nat.{digits, bitwise, differ, bit_and-bitwise, bit_or-bitwise, bit_xor-bitwise}
use mips32_cpu_emulator.Prelude.{
  ℕ, zero, suc, ◌+◌, ◌*◌, ◌/◌, ◌%◌, ◌≤◌, min, max, bit_and, bit_or, bit_xor, ◌≡◌, refl, arith,
}

-- `alone` gives the result where the first operand has run out, `pair` combines two digits.
module _ (alone : ℕ → ℕ) (pair : ℕ → ℕ → ℕ) where
  run_out : (turns y : ℕ) → digits alone pair turns 0 y ≡ alone y
  run_out zero y = refl
  run_out (suc turns) y = refl

  spare_turns :
      (x y turns total : ℕ)
      → x ≤ turns
      → turns ≤ total
      → digits alone pair total x y ≡ digits alone pair turns x y
  spare_turns zero y turns total enough more = rw (run_out total y, run_out turns y) refl
  spare_turns (suc x) y (suc turns) (suc total) enough more =
      ground (arith, spare_turns (suc x / 2) (y / 2) turns total)
  spare_turns (suc x) y (suc turns) zero enough more = absurd (omega arith)
  spare_turns (suc x) y zero total enough more = absurd (omega arith)

  lowest_digit :
      (x y : ℕ)
      → bitwise alone pair (suc x) y
        ≡ bitwise alone pair (suc x / 2) (y / 2) * 2 + pair (suc x % 2) (y % 2)
  lowest_digit x y = ground (arith, spare_turns (suc x / 2) (y / 2) (suc x / 2) x)

pub bit_xor_step : (x y : ℕ) → bit_xor x y ≡ differ (x % 2) (y % 2) + 2 * bit_xor (x / 2) (y / 2)
bit_xor_step (suc p) y = simp bit_xor-bitwise (omega (arith, lowest_digit (λ d. d) differ p y))
bit_xor_step zero y = simp bit_xor-bitwise (omega arith)

pub bit_and_step : (x y : ℕ) → bit_and x y ≡ min (x % 2) (y % 2) + 2 * bit_and (x / 2) (y / 2)
bit_and_step (suc p) y = simp bit_and-bitwise (omega (arith, lowest_digit (λ _. 0) min p y))
bit_and_step zero y = simp bit_and-bitwise (omega arith)

pub bit_or_step : (x y : ℕ) → bit_or x y ≡ max (x % 2) (y % 2) + 2 * bit_or (x / 2) (y / 2)
bit_or_step (suc p) y = simp bit_or-bitwise (omega (arith, lowest_digit (λ d. d) max p y))
bit_or_step zero y = simp bit_or-bitwise (omega arith)
