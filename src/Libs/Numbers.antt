-- ===== src/Libs/Numbers.antt =====
-- Numbers as text: `strtol` of ucore_OS/libs/string.c and `printnum` of ucore_OS/libs/printfmt.c. The
-- text that is printed is the list of its characters. A `long` has 32 bits, and its overflow is undefined.
pub mod Divide
pub mod Digits
pub mod Parse
use mips32_cpu_emulator.Prelude.{
  ℕ, zero, suc, ◌+◌, ◌-◌, ◌*◌, ◌/◌, ◌%◌, ◌^◌, Bool, true, false, ◌&&◌, ◌||◌, Option, none, some,
  List, [], ◌∷◌, ◌++◌, ltb, leb, ◌==◌, if◌then◌else◌,
}
use mips32_cpu_emulator.Prelude.Int.{ℤ, pos, negsuc}
use mips32_cpu_emulator.Libs.Memory.{Memory}

abbrev pub repeated : ℕ → ℕ → List ℕ
repeated zero c = []
repeated (suc n) c = c ∷ repeated n c

-- `((q << 2) + q) << 1` of an unsigned number.
abbrev pub ten_times : ℕ → ℕ
ten_times q = (((q * 4) % 2 ^ 32 + q) % 2 ^ 32 * 2) % 2 ^ 32

-- What `n - ten_times q` leaves in an unsigned number, for an `n` of 64 bits.
abbrev pub minus_tens : ℕ → ℕ → ℕ
minus_tens n q = ((n + (2 ^ 64 - ten_times q)) % 2 ^ 64) % 2 ^ 32

-- `q += q >> k`
abbrev pub add_shifted : ℕ → ℕ → ℕ
add_shifted q power = (q + q / power) % 2 ^ 32

-- An estimate of a tenth of `n`, by shifts.
unfoldable pub tenth : ℕ → ℕ
tenth n =
    let q0 = (n / 2 + n / 4) % 2 ^ 32 in
    let q1 = add_shifted q0 16 in
    let q2 = add_shifted q1 256 in let q3 = add_shifted q2 65536 in q3 / 8

-- The correction of the estimate, and the remainder.
unfoldable pub corrected : ℕ → ℕ → ℕ × ℕ
corrected n q =
    let better = (q + (minus_tens n q + 6) % 2 ^ 32 / 16) % 2 ^ 32 in (better, minus_tens n better)

-- The new value of `n`, and the value of the macro. `n & 0xf` and the like are written as remainders.
unfoldable pub do_div : ℕ → ℕ → ℕ × ℕ
do_div n base =
    if base == 10
    then corrected n (tenth n)
    else if base == 16
    then (n / 16, n % 16)
    else if base == 8
    then (n / 8, n % 8)
    else if base == 2147483648
    then (n / 2 ^ 31, n % 2 ^ 31)
    else (1, 3)

-- "0123456789abcdef"[digit]
abbrev pub digit_char : ℕ → ℕ
digit_char digit = if ltb digit 10 then 48 + digit else 87 + digit

-- The digit behind those before it, once they are printed.
abbrev pub printed : ℕ → Option (List ℕ) → Option (List ℕ)
printed c none = none
printed c (some text) = some (text ++ (c ∷ []))

-- At most `fuel` digits; `none` when there are more. A `width` that is used up prints no padding.
unfoldable pub printnum : ℕ → ℕ → ℕ → ℕ → ℕ → Option (List ℕ)
printnum zero num base width padc = none
printnum (suc fuel) num base width padc =
    let divided = do_div num base in
    let higher = printnum fuel divided.0 base (width - 1) padc in
    printed (digit_char divided.1)
      (if leb base num then higher else some (repeated (width - 1) padc))

-- The digit that a character is.
abbrev pub digit_of : ℕ → Option ℕ
digit_of c =
    if leb 48 c && leb c 57
    then some (c - 48)
    else if leb 97 c && leb c 122
    then some (c - 97 + 10)
    else if leb 65 c && leb c 90
    then some (c - 65 + 10)
    else none

-- A digit that belongs to the base.
abbrev pub in_base : ℕ → Option ℕ → Option ℕ
in_base base none = none
in_base base (some dig) = if leb base dig then none else some dig

-- The step of the loop over the digits. `none` stands for an overflow of the signed `val`, too.
abbrev pub after_digit : (ℕ → Option (ℕ × ℕ)) → ℕ → ℕ → ℕ → Option ℕ → Option (ℕ × ℕ)
after_digit further s base val none = some (s, val)
after_digit further s base val (some dig) =
    if ltb (val * base + dig) (2 ^ 31) then further (val * base + dig) else none

-- The loop over the digits: the address after them, and the value, which is below 2 ^ 31.
unfoldable pub take_digits : ℕ → Memory → ℕ → ℕ → ℕ → Option (ℕ × ℕ)
take_digits zero mem s base val = none
take_digits (suc bound) mem s base val =
    after_digit (take_digits bound mem (suc s) base) s base val (in_base base (digit_of (mem s)))

-- The loop over blanks and tabs.
unfoldable pub skip_blanks : ℕ → Memory → ℕ → Option ℕ
skip_blanks zero mem s = none
skip_blanks (suc bound) mem s =
    let rest = skip_blanks bound mem (suc s) in
    if (mem s == 32) || (mem s == 9) then rest else some s

-- The address behind the sign, and whether it is a minus.
abbrev pub sign : Memory → ℕ → ℕ × Bool
sign mem s =
    if mem s == 43 then (suc s, false) else if mem s == 45 then (suc s, true) else (s, false)

-- The address behind the prefix, and the base.
abbrev pub prefix : Memory → ℕ → ℕ → ℕ × ℕ
prefix mem s base =
    if ((base == 0) || (base == 16)) && ((mem s == 48) && (mem (s + 1) == 120))
    then (s + 2, 16)
    else if (base == 0) && (mem s == 48)
    then (suc s, 8)
    else if base == 0
    then (s, 10)
    else (s, base)

-- `-val`
abbrev pub negated : ℕ → ℤ
negated val = if val == 0 then pos 0 else negsuc (val - 1)

abbrev pub signed_value : Bool → Option (ℕ × ℕ) → Option (ℤ × ℕ)
signed_value neg none = none
signed_value neg (some (s, val)) = some (if neg then negated val else pos val, s)

abbrev pub after_blanks : ℕ → Memory → ℕ → Option ℕ → Option (ℤ × ℕ)
after_blanks bound mem base none = none
after_blanks bound mem base (some s) =
    let (s1, neg) = sign mem s in
    let (s2, base') = prefix mem s1 base in signed_value neg (take_digits bound mem s2 base' 0)

-- The value, and what is stored to `endptr`.
unfoldable pub strtol : ℕ → Memory → ℕ → ℕ → Option (ℤ × ℕ)
strtol bound mem s base = after_blanks bound mem base (skip_blanks bound mem s)
