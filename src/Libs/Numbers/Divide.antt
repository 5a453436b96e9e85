-- ===== src/Libs/Numbers/Divide.antt =====
-- The division by shifts of `do_div` in ucore_OS/libs/mips32s.h.
use mips32_cpu_emulator.Prelude.{
  ℕ, ◌+◌, ◌-◌, ◌*◌, ◌/◌, ◌%◌, ◌^◌, ◌<◌, ◌≤◌, ◌≡◌, ◌⊎◌, inl, inr, refl, ap, ◌∙◌, arith,
}
use mips32_cpu_emulator.Libs.Numbers.{ten_times, minus_tens, tenth, corrected, do_div}

-- The estimate is a tenth, or one less.
tenth_lem : (n : ℕ) → n < 2 ^ 32 → (tenth n * 10 ≤ n) × (n ≤ tenth n * 10 + 15)
unfolding tenth
tenth_lem n fits = (omega arith, omega arith)

ten_times_lem : (q : ℕ) → q * 10 < 2 ^ 32 → ten_times q ≡ q * 10
ten_times_lem q fits = omega arith

minus_tens_lem : (n q : ℕ) → n < 2 ^ 32 → q * 10 ≤ n → minus_tens n q ≡ n - q * 10
minus_tens_lem n q fits below = omega arith

corrected_lem :
    (n q : ℕ) → n < 2 ^ 32 → q * 10 ≤ n → n ≤ q * 10 + 15 → corrected n q ≡ (n / 10, n % 10)
unfolding corrected
corrected_lem n q fits below near =
    let first : minus_tens n q ≡ n - q * 10 = minus_tens_lem n q fits below in
    let better : (q + (minus_tens n q + 6) % 2 ^ 32 / 16) % 2 ^ 32 ≡ n / 10 =
      rw first (omega arith) in
    let second : minus_tens n (n / 10) ≡ n % 10 =
      minus_tens_lem n (n / 10) fits (omega arith) ∙ omega arith in
    ap (λ q'. (q', minus_tens n q')) better ∙ ap (λ m. (n / 10, m)) second

-- For the bases 8, 10 and 16 `do_div` divides: its shifts for base 10 give the quotient and the remainder of
-- every number of 32 bits.
pub do_div_lem :
    (n base : ℕ)
    → n < 2 ^ 32
    → (base ≡ 8) ⊎ ((base ≡ 10) ⊎ (base ≡ 16))
    → do_div n base ≡ (n / base, n % base)
unfolding do_div
do_div_lem n base fits (inl eight) = rw eight refl
do_div_lem n base fits (inr (inl ten)) =
    rw ten (corrected_lem n (tenth n) fits (tenth_lem n fits).0 (tenth_lem n fits).1)
do_div_lem n base fits (inr (inr sixteen)) = rw sixteen refl
