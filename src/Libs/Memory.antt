-- ===== src/Libs/Memory.antt =====
-- The memory functions of ucore_OS/libs/string.c. A memory is a function from addresses to bytes; an
-- area that a call uses does not run past the last address, so that pointers do not wrap.
pub mod Copy
use mips32_cpu_emulator.Prelude.{
  ℕ, zero, suc, ◌+◌, ◌-◌, ◌%◌, ◌^◌, Bool, ◌&&◌, Option, none, some, ltb, ◌==◌, if◌then◌else◌,
}
use mips32_cpu_emulator.Prelude.Int.{ℤ, pos, sub_ℕ}

abbrev pub Memory : Type 0
Memory = ℕ → ℕ

abbrev pub store : Memory → ℕ → ℕ → Memory
store mem p byte a = if p == a then byte else mem a

unfoldable pub memset : Memory → ℕ → ℕ → ℕ → Memory
memset mem p c zero = mem
memset mem p c (suc n) = memset (store mem p c) (suc p) c n

-- The loop from the first byte up.
unfoldable pub copy_up : Memory → ℕ → ℕ → ℕ → Memory
copy_up mem d s zero = mem
copy_up mem d s (suc n) = copy_up (store mem d (mem s)) (suc d) (suc s) n

-- The loop from the last byte down, with `n` bytes to go.
unfoldable pub copy_down : Memory → ℕ → ℕ → ℕ → Memory
copy_down mem d s zero = mem
copy_down mem d s (suc n) = copy_down (store mem (d + n) (mem (s + n))) d s n

unfoldable pub memmove : Memory → ℕ → ℕ → ℕ → Memory
memmove mem dst src n =
    if ltb src dst && ltb dst (src + n) then copy_down mem dst src n else copy_up mem dst src n

unfoldable pub memcpy : Memory → ℕ → ℕ → ℕ → Memory
memcpy mem dst src n = copy_up mem dst src n

-- The loop of `memcpy_flash` for at most `fuel` rounds; `none` when they are used up.
unfoldable pub memcpy_flash : ℕ → Memory → ℕ → ℕ → ℕ → Option Memory
memcpy_flash zero mem d s n = none
memcpy_flash (suc fuel) mem d s n =
    let first = store mem d (mem s) in
    let second = store first (d + 1) (first (s + 1)) in
    let rest = memcpy_flash fuel second (d + 2) (s + 1 + 1 + 2) ((n + (2 ^ 32 - 2)) % 2 ^ 32) in
    if ltb 0 n then rest else some mem

unfoldable pub memcmp : Memory → ℕ → ℕ → ℕ → ℤ
memcmp mem s1 s2 zero = pos 0
memcmp mem s1 s2 (suc n) =
    let rest = memcmp mem (suc s1) (suc s2) n in
    if mem s1 == mem s2 then rest else sub_ℕ (mem s1) (mem s2)
