-- ===== src/Libs/Strings.antt =====
-- The string functions of ucore_OS/libs/string.c. A loop that looks for the end of a string has a
-- `bound`, the number of bytes that may be read; `none` means that the loop reads past them, which C
-- leaves undefined.
pub mod Length
pub mod Compare
pub mod Write
use mips32_cpu_emulator.Prelude.{
  ℕ, zero, suc, ◌+◌, Bool, not, ◌&&◌, Option, none, some, ◌==◌, if◌then◌else◌,
}
use mips32_cpu_emulator.Prelude.Int.{ℤ, pos, sub_ℕ}
use mips32_cpu_emulator.Libs.Memory.{Memory, store, memcpy}

unfoldable pub strlen_from : ℕ → Memory → ℕ → ℕ → Option ℕ
strlen_from zero mem s cnt = none
strlen_from (suc bound) mem s cnt =
    let rest = strlen_from bound mem (suc s) (suc cnt) in if mem s == 0 then some cnt else rest

unfoldable pub strlen : ℕ → Memory → ℕ → Option ℕ
strlen bound mem s = strlen_from bound mem s 0

-- The loop of `strnlen` with `left` more characters to look at.
unfoldable pub strnlen_from : ℕ → Memory → ℕ → ℕ → ℕ
strnlen_from zero mem s cnt = cnt
strnlen_from (suc left) mem s cnt =
    let rest = strnlen_from left mem (suc s) (suc cnt) in if mem s == 0 then cnt else rest

unfoldable pub strnlen : Memory → ℕ → ℕ → ℕ
strnlen mem s len = strnlen_from len mem s 0

unfoldable pub strcpy : ℕ → Memory → ℕ → ℕ → Option Memory
strcpy zero mem p src = none
strcpy (suc bound) mem p src =
    let written = store mem p (mem src) in
    let rest = strcpy bound written (suc p) (suc src) in if mem src == 0 then some written else rest

abbrev pub append_at : ℕ → Memory → ℕ → ℕ → Option ℕ → Option Memory
append_at bound mem dst src none = none
append_at bound mem dst src (some n) = strcpy bound mem (dst + n) src

-- `dst_bound` and `bound` are the bytes of the two strings.
unfoldable pub strcat : ℕ → ℕ → Memory → ℕ → ℕ → Option Memory
strcat dst_bound bound mem dst src = append_at bound mem dst src (strlen dst_bound mem dst)

unfoldable pub strncpy : Memory → ℕ → ℕ → ℕ → Memory
strncpy mem p src zero = mem
strncpy mem p src (suc len) =
    strncpy (store mem p (mem src)) (suc p) (if mem src == 0 then src else suc src) len

unfoldable pub strcmp : ℕ → Memory → ℕ → ℕ → Option ℤ
strcmp zero mem s1 s2 = none
strcmp (suc bound) mem s1 s2 =
    let rest = strcmp bound mem (suc s1) (suc s2) in
    if not (mem s1 == 0) && (mem s1 == mem s2) then rest else some (sub_ℕ (mem s1) (mem s2))

unfoldable pub strncmp : Memory → ℕ → ℕ → ℕ → ℤ
strncmp mem s1 s2 zero = pos 0
strncmp mem s1 s2 (suc n) =
    let rest = strncmp mem (suc s1) (suc s2) n in
    if not (mem s1 == 0) && (mem s1 == mem s2) then rest else sub_ℕ (mem s1) (mem s2)

-- The inner option is the pointer that is returned, `none` for NULL.
unfoldable pub strchr : ℕ → Memory → ℕ → ℕ → Option (Option ℕ)
strchr zero mem s c = none
strchr (suc bound) mem s c =
    let rest = strchr bound mem (suc s) c in
    if mem s == 0 then some none else if mem s == c then some (some s) else rest

unfoldable pub strfind : ℕ → Memory → ℕ → ℕ → Option ℕ
strfind zero mem s c = none
strfind (suc bound) mem s c =
    let rest = strfind bound mem (suc s) c in
    if mem s == 0 then some s else if mem s == c then some s else rest

-- `strdup` of ucore_OS/kern/libs/string.c: `got` is what `kmalloc` returns, and the inner option is
-- the string, `none` for NULL.
abbrev pub duplicate : Memory → ℕ → Option ℕ → Option ℕ → Option (Memory × Option ℕ)
duplicate mem src none got = none
duplicate mem src (some len) none = some (mem, none)
duplicate mem src (some len) (some dst) =
    some (store (memcpy mem dst src len) (dst + len) 0, some dst)

unfoldable pub strdup : ℕ → Memory → ℕ → Option ℕ → Option (Memory × Option ℕ)
strdup bound mem src got = duplicate mem src (strlen bound mem src) got

-- `stradd` of the same file.
abbrev pub joined : Memory → ℕ → ℕ → Option ℕ → Option ℕ → Option ℕ → Option (Memory × Option ℕ)
joined mem src1 src2 none len2 got = none
joined mem src1 src2 (some len1) none got = none
joined mem src1 src2 (some len1) (some len2) none = some (mem, none)
joined mem src1 src2 (some len1) (some len2) (some dst) = some (
  store (memcpy (memcpy mem dst src1 len1) (dst + len1) src2 len2) (dst + len1 + len2) 0,
  some dst,
)

unfoldable pub stradd : ℕ → ℕ → Memory → ℕ → ℕ → Option ℕ → Option (Memory × Option ℕ)
stradd bound1 bound2 mem src1 src2 got =
    joined mem src1 src2 (strlen bound1 mem src1) (strlen bound2 mem src2) got
