-- ===== src/Emulator/Word.antt =====
-- The machine integers of src/cpu.h, src/mmu.h and src/cp0.h. A `uint32_t` is a native number below
-- 2 ^ 32 and wraps by `%`; the signed types are read as integers. Narrowing to a signed type and
-- `>>` of a negative number are those of every two's complement compiler.
use mips32_cpu_emulator.Prelude.{
  ℕ, ◌+◌, ◌-◌, ◌*◌, ◌/◌, ◌%◌, ◌^◌, ◌==◌, Bool, not, ltb, if◌then◌else◌,
}
use mips32_cpu_emulator.Prelude.Int.{ℤ, pos, negsuc}

abbrev pub u32 : ℕ → ℕ
u32 n = n % 2 ^ 32

abbrev pub add32 : ℕ → ℕ → ℕ
add32 a b = (a + b) % 2 ^ 32

-- `-` on ℕ stops at 0, so the modulus is added first.
abbrev pub sub32 : ℕ → ℕ → ℕ
sub32 a b = (a + 2 ^ 32 - b) % 2 ^ 32

-- `x << k` and `x >> k` on `uint32_t`, at `k < 32`.
abbrev pub shl32 : ℕ → ℕ → ℕ
shl32 x k = x * 2 ^ k % 2 ^ 32

abbrev pub shr : ℕ → ℕ → ℕ
shr x k = x / 2 ^ k

-- `~x` on `uint32_t`.
abbrev pub not32 : ℕ → ℕ
not32 x = 2 ^ 32 - 1 - x

-- A number as a condition.
abbrev pub test : ℕ → Bool
test x = not (x == 0)

-- The casts to `int8_t`, `int16_t` and `int32_t`, of a value that fits the unsigned type.
abbrev pub int8 : ℕ → ℤ
int8 x = if ltb x (2 ^ 7) then pos x else negsuc (2 ^ 8 - 1 - x)

abbrev pub int16 : ℕ → ℤ
int16 x = if ltb x (2 ^ 15) then pos x else negsuc (2 ^ 16 - 1 - x)

abbrev pub int32 : ℕ → ℤ
int32 x = if ltb x (2 ^ 31) then pos x else negsuc (2 ^ 32 - 1 - x)

-- The cast of a signed value to `uint32_t`: its remainder by 2 ^ 32.
abbrev pub of_int : ℤ → ℕ
of_int (pos n) = n % 2 ^ 32
of_int (negsuc n) = 2 ^ 32 - 1 - n % 2 ^ 32

-- `>>` on a signed value: division by 2 ^ k, rounded down.
abbrev pub shr_int : ℤ → ℕ → ℤ
shr_int (pos n) k = pos (n / 2 ^ k)
shr_int (negsuc n) k = negsuc (n / 2 ^ k)
