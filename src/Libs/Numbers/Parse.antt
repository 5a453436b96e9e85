-- ===== src/Libs/Numbers/Parse.antt =====
-- `strtol` of ucore_OS/libs/string.c reads back what `printnum` of ucore_OS/libs/printfmt.c prints.
use mips32_cpu_emulator.Prelude.{
  ℕ, zero, suc, ◌+◌, ◌*◌, ◌^◌, ◌<◌, ◌≤◌, Bool, true, false, ◌&&◌, ◌||◌, Option, some, List, [], ◌∷◌,
  ◌++◌, length, length-append, ltb, ◌==◌, if◌then◌else◌, ◌≡◌, ◌≢◌, ◌⊎◌, inl, inr, refl, ap, ap₂,
  ◌∙◌, subst, arith, Bool-cases, tests, lt→ltb,
}
use mips32_cpu_emulator.Prelude.Int.{pos}
use mips32_cpu_emulator.Libs.Memory.{Memory}
use mips32_cpu_emulator.Libs.Numbers.{
  digit_char, digit_of, in_base, take_digits, skip_blanks, sign, prefix, strtol, printnum,
}
use mips32_cpu_emulator.Libs.Numbers.Digits.{
  Spells, one_digit, more_digits, Prints, prints, IsBase, printnum-Prints,
}

-- The memory has the text at `s`.
abbrev pub HasText : Memory → ℕ → List ℕ → Type 0
HasText mem s [] = Unit {0}
HasText mem s (c ∷ text) = (mem s ≡ c) × HasText mem (suc s) text

has_all :
    (mem : Memory) (s : ℕ) (text more : List ℕ) → HasText mem s (text ++ more) → HasText mem s text
has_all mem s [] more has = tt
has_all mem s (c ∷ text) more (first, rest) = (first, has_all mem (suc s) text more rest)

has_last :
    (mem : Memory) (s c : ℕ) (text : List ℕ)
    → HasText mem s (text ++ (c ∷ []))
    → mem (s + length text) ≡ c
has_last mem s c [] (first, rest) = let here : s + 0 ≡ s = omega arith in ap mem here ∙ first
has_last mem s c (d ∷ text) (first, rest) =
    let here : s + suc (length text) ≡ suc s + length text = omega arith in
    ap mem here ∙ has_last mem (suc s) c text rest

base_small : (base : ℕ) → IsBase base → base ≤ 16
base_small base is_base = omega arith

digit_read : (base d : ℕ) → base ≤ 16 → d < base → in_base base (digit_of (digit_char d)) ≡ some d
digit_read base d small below = ground arith

-- One step of the loop, at the character of a digit.
take_one :
    (bound base d s val : ℕ) (mem : Memory)
    → base ≤ 16
    → d < base
    → mem s ≡ digit_char d
    → val * base + d < 2 ^ 31
    → take_digits (suc bound) mem s base val ≡ take_digits bound mem (suc s) base (val * base + d)
unfolding take_digits
take_one bound base d s val mem small below here fits =
    let read : in_base base (digit_of (mem s)) ≡ some d =
      ap (λ c. in_base base (digit_of c)) here ∙ digit_read base d small below in
    let whole : ltb (val * base + d) (2 ^ 31) ≡ true = lt→ltb _ _ fits in rw (read, whole) refl

higher_fits : (base n d : ℕ) → IsBase base → n * base + d < 2 ^ 31 → n < 2 ^ 31
higher_fits base n d (inl e) fits =
    let fits' : n * 8 + d < 2 ^ 31 = rw e at fits in omega (arith, fits')
higher_fits base n d (inr (inl e)) fits =
    let fits' : n * 10 + d < 2 ^ 31 = rw e at fits in omega (arith, fits')
higher_fits base n d (inr (inr e)) fits =
    let fits' : n * 16 + d < 2 ^ 31 = rw e at fits in omega (arith, fits')

take_spelled :
    (base n bound s : ℕ) (mem : Memory) (text : List ℕ)
    → IsBase base
    → Spells base n text
    → n < 2 ^ 31
    → HasText mem s text
    → take_digits (length text + bound) mem s base 0
      ≡ take_digits bound mem (s + length text) base n
take_spelled base n bound s mem _ is_base (one_digit below) fits (first, _) =
    let one : 1 + bound ≡ suc bound = omega arith in
    let next : suc s ≡ s + 1 = omega arith in
    let value : 0 * base + n ≡ n = omega arith in
    ap (λ b. take_digits b mem s base 0) one
    ∙ take_one bound base n s 0 mem (base_small base is_base) below first (omega (arith, fits))
    ∙ ap₂ (λ t v. take_digits bound mem t base v) next value
take_spelled base _ bound s mem _ is_base (more_digits {n} {d} {text} below spells) fits has =
    let last = digit_char d in
    let size = length-append text (last ∷ []) in
    let more : length (text ++ (last ∷ [])) + bound ≡ length text + suc bound =
      omega (arith, size) in
    let next : suc (s + length text) ≡ s + length (text ++ (last ∷ [])) = omega (arith, size) in
    ap (λ b. take_digits b mem s base 0) more
    ∙ take_spelled base n (suc bound) s mem text is_base spells (higher_fits base n d is_base fits)
        (has_all mem s text (last ∷ []) has)
    ∙ take_one bound base d (s + length text) n mem (base_small base is_base) below
        (has_last mem s last text has) fits
    ∙ ap (λ t. take_digits bound mem t base (n * base + d)) next

-- A character that `printnum` prints.
abbrev IsDigitChar : ℕ → Type 0
IsDigitChar c = ((48 ≤ c) × (c ≤ 57)) ⊎ ((97 ≤ c) × (c ≤ 102))

Spells-length : (base n : ℕ) (text : List ℕ) → Spells base n text → 0 < length text
Spells-length base n _ (one_digit below) = omega arith
Spells-length base _ _ (more_digits {n} {d} {text} below spells) =
    omega (arith, length-append text (digit_char d ∷ []))

Spells-IsDigitChar :
    (base n s i : ℕ) (mem : Memory) (text : List ℕ)
    → base ≤ 16
    → Spells base n text
    → HasText mem s text
    → i < length text
    → IsDigitChar (mem (s + i))
Spells-IsDigitChar base n s i mem _ small (one_digit below) (first, _) inside =
    let here : s ≡ s + i = omega (arith, inside) in
    subst (λ (t : ℕ). IsDigitChar (mem t)) here (rw first (ground arith))
Spells-IsDigitChar base _ s i mem _ small (more_digits {n} {d} {text} below spells) has inside =
    let last = digit_char d in
    elim (Bool-cases (ltb i (length text))) [
      | inl before ↦
          Spells-IsDigitChar base n s i mem text small spells (has_all mem s text (last ∷ []) has)
            (grind tests)
      | inr after ↦
          let here : s + length text ≡ s + i = ground (arith, length-append text (last ∷ [])) in
          subst (λ (t : ℕ). IsDigitChar (mem t)) here
            (rw (has_last mem s last text has) (ground arith))
    ]

skip_none :
    (bound s : ℕ) (mem : Memory)
    → 0 < bound
    → IsDigitChar (mem s)
    → skip_blanks bound mem s ≡ some s
unfolding skip_blanks
skip_none zero s mem more digit = absurd (omega (arith, more))
skip_none (suc bound) s mem more digit =
    let no_blank : ((mem s == 32) || (mem s == 9)) ≡ false = ground arith in rw no_blank refl

sign_none : (s : ℕ) (mem : Memory) → IsDigitChar (mem s) → sign mem s ≡ (s, false)
sign_none s mem digit =
    let no_plus : (mem s == 43) ≡ false = ground arith in
    let no_minus : (mem s == 45) ≡ false = ground arith in rw (no_plus, no_minus) refl

no_prefix : (a b : Bool) → (a && (b && false)) ≡ false
no_prefix true true = refl
no_prefix true false = refl
no_prefix false b = refl

prefix_none :
    (s base : ℕ) (mem : Memory) → IsBase base → mem (s + 1) ≢ 120 → prefix mem s base ≡ (s, base)
prefix_none s base mem is_base no_x =
    let some_base : (base == 0) ≡ false = ground arith in
    let not_x : (mem (s + 1) == 120) ≡ false = ground arith in
    rw (some_base, not_x)
      (ap (λ t. if t then (s + 2, 16) else (s, base)) (no_prefix (base == 16) (mem s == 48)))

-- At the end of the text the loop stops.
take_end :
    (bound base s val : ℕ) (mem : Memory)
    → mem s ≡ 0
    → take_digits (suc bound) mem s base val ≡ some (s, val)
unfolding take_digits
take_end bound base s val mem nul = rw nul refl

strtol-spelled :
    (more num base s : ℕ) (mem : Memory) (text : List ℕ)
    → IsBase base
    → num < 2 ^ 31
    → Spells base num text
    → HasText mem s text
    → mem (s + length text) ≡ 0
    → strtol (length text + suc more) mem s base ≡ some (pos num, s + length text)
unfolding strtol
strtol-spelled more num base s mem text is_base fits spells has nul =
    let some_text = Spells-length base num text spells in
    let at = λ (i : ℕ) (inside : i < length text).
      Spells-IsDigitChar base num s i mem text (base_small base is_base) spells has inside in
    let start : s + 0 ≡ s = omega arith in
    let first : IsDigitChar (mem s) =
      subst (λ (t : ℕ). IsDigitChar (mem t)) start (at 0 some_text) in
    let no_x : mem (s + 1) ≢ 120 = elim (Bool-cases (ltb 1 (length text))) [
      | inl longer ↦ let second = at 1 (grind tests) in λ e. absurd (omega (arith, e, second))
      | inr single ↦
          let end : s + length text ≡ s + 1 = ground arith in
          λ e. absurd (omega (arith, e, ap mem end, nul))
    ] in
    let skipped = skip_none (length text + suc more) s mem (omega arith) first in
    let taken =
      take_spelled base num (suc more) s mem text is_base spells fits has
      ∙ take_end more base (s + length text) num mem nul in
    rw (skipped, sign_none s mem first, prefix_none s base mem is_base no_x, taken) refl

printed_text :
    (base num : ℕ) (text : List ℕ) (result : Option (List ℕ))
    → Prints base num result
    → result ≡ some text
    → Spells base num text
printed_text base num text _ (prints {text = text'} spells) same =
    let equal : text' ≡ text = cc in subst (Spells base num) equal spells

-- For the bases 8, 10 and 16 and a number below 2 ^ 31, the first that a `long` cannot hold, with fuel for
-- more digits than it has: where the memory holds the text that `printnum` prints without padding, with a
-- NUL behind it, `strtol` in the same base reads the number back, stores the address of the NUL to `endptr`, and reads no further.
pub strtol-printnum :
    (fuel more num base padc s : ℕ) (mem : Memory) (text : List ℕ)
    → IsBase base
    → num < fuel
    → num < 2 ^ 31
    → printnum fuel num base 0 padc ≡ some text
    → HasText mem s text
    → mem (s + length text) ≡ 0
    → strtol (length text + suc more) mem s base ≡ some (pos num, s + length text)
strtol-printnum fuel more num base padc s mem text is_base enough fits same has nul =
    let spells =
      printed_text base num text (printnum fuel num base 0 padc)
        (printnum-Prints fuel num base 0 padc is_base enough (omega (arith, fits)) (omega arith))
        same in
    strtol-spelled more num base s mem text is_base fits spells has nul
