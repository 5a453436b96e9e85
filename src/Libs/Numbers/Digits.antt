-- ===== src/Libs/Numbers/Digits.antt =====
-- The digits that `printnum` of ucore_OS/libs/printfmt.c prints.
use mips32_cpu_emulator.Prelude.{
  ℕ, zero, suc, ◌+◌, ◌-◌, ◌*◌, ◌/◌, ◌%◌, ◌^◌, ◌<◌, ◌≤◌, Option, some, List, [], ◌∷◌, ◌++◌, leb, ◌≡◌,
  ◌⊎◌, inl, inr, subst, arith, Bool-cases, tests,
}
use mips32_cpu_emulator.Libs.Numbers.{digit_char, printed, printnum}
use mips32_cpu_emulator.Libs.Numbers.Divide.{do_div_lem}

-- The text of a number in a base, from its highest digit on.
pub data Spells (base : ℕ) : ℕ → List ℕ → Type 0 where
  one_digit : {d : ℕ} → d < base → Spells base d (digit_char d ∷ [])
  more_digits :
      {n d : ℕ} {text : List ℕ}
      → d < base
      → Spells base n text
      → Spells base (n * base + d) (text ++ (digit_char d ∷ []))

-- What is printed in the end.
pub data Prints (base num : ℕ) : Option (List ℕ) → Type 0 where
  prints : {text : List ℕ} → Spells base num text → Prints base num (some text)

abbrev pub IsBase : ℕ → Type 0
IsBase base = (base ≡ 8) ⊎ ((base ≡ 10) ⊎ (base ≡ 16))

divide-smaller : (n base : ℕ) → IsBase base → base ≤ n → n / base < n
divide-smaller n base (inl e) enough = rw e (omega (arith, e, enough))
divide-smaller n base (inr (inl e)) enough = rw e (omega (arith, e, enough))
divide-smaller n base (inr (inr e)) enough = rw e (omega (arith, e, enough))

divide-again : (n base : ℕ) → IsBase base → n / base * base + n % base ≡ n
divide-again n base (inl e) = rw e (omega arith)
divide-again n base (inr (inl e)) = rw e (omega arith)
divide-again n base (inr (inr e)) = rw e (omega arith)

remainder-smaller : (n base : ℕ) → IsBase base → n % base < base
remainder-smaller n base (inl e) = rw e (omega arith)
remainder-smaller n base (inr (inl e)) = rw e (omega arith)
remainder-smaller n base (inr (inr e)) = rw e (omega arith)

remainder-same : (n base : ℕ) → IsBase base → n < base → n % base ≡ n
remainder-same n base (inl e) small = rw e (omega (arith, e, small))
remainder-same n base (inr (inl e)) small = rw e (omega (arith, e, small))
remainder-same n base (inr (inr e)) small = rw e (omega (arith, e, small))

print_last :
    (n base : ℕ) (higher : Option (List ℕ))
    → IsBase base
    → Prints base (n / base) higher
    → Prints base n (printed (digit_char (n % base)) higher)
print_last n base _ is_base (prints {text} spells) = prints (
    subst (λ (m : ℕ). Spells base m (text ++ (digit_char (n % base) ∷ [])))
      (divide-again n base is_base) (more_digits (remainder-smaller n base is_base) spells))

-- For the bases 8, 10 and 16 and a number of 32 bits, with no padding: `printnum` prints the digits of the
-- number, from the highest on.
pub printnum-Prints :
    (fuel num base width padc : ℕ)
    → IsBase base
    → num < fuel
    → num < 2 ^ 32
    → width ≤ 1
    → Prints base num (printnum fuel num base width padc)
unfolding printnum
printnum-Prints zero num base width padc is_base enough fits narrow = absurd (omega (arith, enough))
printnum-Prints (suc fuel) num base width padc is_base enough fits narrow =
    let divided = do_div_lem num base fits is_base in
    let no_padding : width - 1 ≡ 0 = omega arith in
    elim (Bool-cases (leb base num)) [
      | inl more ↦
          let smaller = divide-smaller num base is_base (grind tests) in
          rw (divided, more)
            (print_last num base _ is_base (
              printnum-Prints fuel (num / base) base (width - 1) padc is_base
                (omega (arith, smaller, enough)) (omega (arith, smaller, fits)) (omega arith)))
      | inr last ↦
          let small : num < base = grind tests in
          let same = remainder-same num base is_base small in
          rw (divided, last, no_padding, same) (prints (one_digit small))
    ]
