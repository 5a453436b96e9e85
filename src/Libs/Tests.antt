-- ===== src/Libs/Tests.antt =====
-- The theorems on the C library at concrete inputs.
use mips32_cpu_emulator.Prelude.{
  [], ◌∷◌, ℕ, ◌+◌, ◌%◌, none, some, ◌==◌, if◌then◌else◌, ◌≡◌, ◌⊎◌, ◌↔◌, inl, inr, refl, arith,
}
use mips32_cpu_emulator.Prelude.Int.{pos, sub_ℕ}
use mips32_cpu_emulator.Libs.Memory.{Memory, memmove, memcpy_flash}
use mips32_cpu_emulator.Libs.Memory.Copy.{Copied, memmove-Copied, FlashCopied, memcpy_flash_lem}
use mips32_cpu_emulator.Libs.Numbers.{printnum, do_div, tenth, corrected, strtol}
use mips32_cpu_emulator.Libs.Numbers.Divide.{do_div_lem}
use mips32_cpu_emulator.Libs.Numbers.Parse.{strtol-printnum}
use mips32_cpu_emulator.Libs.Strings.{strcmp}
use mips32_cpu_emulator.Libs.Strings.Length.{IsString}
use mips32_cpu_emulator.Libs.Strings.Compare.{Differ, SameString, strcmp_lem}

-- Every byte is the low byte of its address.
abbrev ramp : Memory
ramp a = a % 256

-- "ab" at 10 and "b" at 20.
abbrev words : Memory
words a = if a == 10 then 97 else if a == 11 then 98 else if a == 20 then 98 else 0

ab : IsString words 10 2
ab = record { characters = λ i below. ground arith; ends = refl }

b : IsString words 20 1
b = record { characters = λ i below. ground arith; ends = refl }

memmove-Copied_example : Copied ramp (memmove ramp 12 10 5) 12 10 5
memmove-Copied_example = memmove-Copied ramp 12 10 5

memcpy_flash_lem_example :
    ((4 % 2 ≡ 0)
      × ((mem' : Memory) × (memcpy_flash 5 ramp 100 10 4 ≡ some mem')
          × FlashCopied ramp mem' 100 10 4))
    ⊎ ((4 % 2 ≡ 1) × (memcpy_flash 5 ramp 100 10 4 ≡ none))
memcpy_flash_lem_example =
    memcpy_flash_lem 5 ramp 100 10 4 (omega arith) (omega arith) (inr (omega arith))

strcmp_lem_example :
    (k : ℕ) × Differ words 10 20 k
    × (strcmp 3 words 10 20 ≡ some (sub_ℕ (words (10 + k)) (words (20 + k))))
    × ((strcmp 3 words 10 20 ≡ some (pos 0)) ↔ SameString words 10 2 20 1)
strcmp_lem_example = strcmp_lem 3 words 10 20 2 1 ab b (omega arith)

-- "255" at 30.
abbrev decimal : Memory
decimal a = if a == 30 then 50 else if a == 31 then 53 else if a == 32 then 53 else 0

printed_255 : printnum 256 255 10 0 32 ≡ some (50 ∷ 53 ∷ 53 ∷ [])
unfolding printnum do_div tenth corrected
printed_255 = refl

strtol-printnum_example : strtol 4 decimal 30 10 ≡ some (pos 255, 33)
strtol-printnum_example =
    strtol-printnum 256 0 255 10 32 30 decimal (50 ∷ 53 ∷ 53 ∷ []) (inr (inl refl)) (omega arith)
      (omega arith) printed_255 (refl, (refl, (refl, tt))) refl

do_div_lem_example : do_div 4294967295 10 ≡ (429496729, 5)
do_div_lem_example = do_div_lem 4294967295 10 (omega arith) (inr (inl refl))
