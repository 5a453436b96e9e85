-- ===== src/Libs/Strings/Write.antt =====
-- `strcpy`, `strcat`, `strncpy` and `strdup` of ucore_OS/libs and ucore_OS/kern/libs: what they write.
use mips32_cpu_emulator.Prelude.{
  ℕ, zero, suc, ◌+◌, ◌-◌, ◌≤◌, ◌<◌, some, ◌&&◌, ltb, leb, ◌==◌, ==_iff, if◌then◌else◌, ◌≡◌, ◌⊎◌,
  refl, subst, sym, ◌∙◌, arith, false,
}
use native.Mathlib.Decide.{dec_lt}
use mips32_cpu_emulator.Libs.Memory.{Memory, store, copy_up, memcpy}
use mips32_cpu_emulator.Libs.Memory.Copy.{Copied, memcpy-Copied}
use mips32_cpu_emulator.Libs.Strings.{strcpy, strcat, strncpy}
use mips32_cpu_emulator.Libs.Strings.Length.{
  IsString, IsString-tail, IsString-nul, IsString-more, strlen_lem,
}

-- A store outside a string keeps it.
IsString-store :
    (mem : Memory) (s len p byte : ℕ)
    → IsString mem s len
    → (p < s) ⊎ (s + len < p)
    → IsString (store mem p byte) s len
IsString-store mem s len p byte str away = record {
  characters = λ i below.
      let other : (p == s + i) ≡ false = ground arith in rw other (str.characters i below);
  ends = let other : (p == s + len) ≡ false = ground arith in rw other str.ends;
}

strcpy-copy_up :
    (bound : ℕ) (mem : Memory) (p src len : ℕ)
    → IsString mem src len
    → len < bound
    → (p < src) ⊎ (src + len < p)
    → strcpy bound mem p src ≡ some (copy_up mem p src (suc len))
unfolding strcpy copy_up
strcpy-copy_up zero mem p src len str enough apart = absurd (omega arith)
strcpy-copy_up (suc bound) mem p src zero str enough apart = rw (IsString-nul mem src str) refl
strcpy-copy_up (suc bound) mem p src (suc len) str enough apart =
    rw (IsString-more mem src len str) (
      strcpy-copy_up bound (store mem p (mem src)) (suc p) (suc src) len
        (IsString-store mem (suc src) len p (mem src) (IsString-tail mem src len str)
          (ground arith))
        (omega arith) (ground arith))

-- `strcpy` of a string to a place from which the copy does not run into it ends, and copies the
-- characters with their NUL.
pub strcpy_lem :
    (bound : ℕ) (mem : Memory) (dst src len : ℕ)
    → IsString mem src len
    → len < bound
    → (dst + len < src) ⊎ (src + len < dst)
    → (mem' : Memory) × (strcpy bound mem dst src ≡ some mem') × Copied mem mem' dst src (suc len)
unfolding memcpy
strcpy_lem bound mem dst src len str enough apart = (
  memcpy mem dst src (suc len),
  strcpy-copy_up bound mem dst src len str enough (ground arith),
  memcpy-Copied mem dst src (suc len) (ground arith),
)

Copied-IsString :
    (mem mem' : Memory) (dst m src n : ℕ)
    → IsString mem dst m
    → IsString mem src n
    → Copied mem mem' (dst + m) src (suc n)
    → IsString mem' dst (m + n)
Copied-IsString mem mem' dst m src n str str' copied = record {
  characters = λ i below. elim (dec_lt i m) [
    | yes h ↦
        let old : mem' (dst + i) ≡ mem (dst + i) = ground (arith, copied (dst + i)) in
        λ nul. str.characters i h (sym old ∙ nul)
    | no h ↦
        let new : mem' (dst + i) ≡ mem (src + (dst + i - (dst + m))) =
          ground (arith, copied (dst + i)) in
        let place : dst + i - (dst + m) ≡ i - m = omega arith in
        λ nul.
          str'.characters (i - m) (omega arith)
            (subst (λ (t : ℕ). mem (src + t) ≡ 0) place (sym new ∙ nul))
  ];
  ends =
      let place : dst + (m + n) - (dst + m) ≡ n = omega arith in
      let new : mem' (dst + (m + n)) ≡ mem (src + (dst + (m + n) - (dst + m))) =
        ground (arith, copied (dst + (m + n))) in
      new ∙ subst (λ (t : ℕ). mem (src + t) ≡ 0) (sym place) str'.ends;
}

-- `strcat` of a string to another one that the result does not run into ends; the copy stands from
-- the old NUL on, nothing else changes, and the result is a string of both lengths together.
pub strcat_lem :
    (dst_bound bound : ℕ) (mem : Memory) (dst m src n : ℕ)
    → IsString mem dst m
    → IsString mem src n
    → m < dst_bound
    → n < bound
    → (dst + m + n < src) ⊎ (src + n < dst + m)
    → (mem' : Memory) × (strcat dst_bound bound mem dst src ≡ some mem')
      × Copied mem mem' (dst + m) src (suc n)
      × IsString mem' dst (m + n)
unfolding strcat
strcat_lem dst_bound bound mem dst m src n str str' enough enough' apart =
    let (mem', returned, copied) =
      strcpy_lem bound mem (dst + m) src n str' enough' (ground arith) in
    (
      mem',
      rw (strlen_lem dst_bound mem dst m str enough) returned,
      copied,
      Copied-IsString mem mem' dst m src n str str' copied,
    )

-- `strncpy` of a string writes exactly `len` bytes: characters of the string as long as there are
-- some, then NULs.
pub strncpy_lem :
    (mem : Memory) (dst src n len : ℕ)
    → IsString mem src n
    → (dst + len ≤ src) ⊎ (src + n < dst)
    → (a : ℕ)
    → strncpy mem dst src len a ≡ (
        if leb dst a && ltb a (dst + len)
        then (if ltb (a - dst) n then mem (src + (a - dst)) else 0)
        else mem a)
unfolding strncpy
strncpy_lem mem dst src n zero str apart a = ground arith
strncpy_lem mem dst src zero (suc len) str apart a =
    let nul : mem src ≡ 0 = (==_iff _ _).0 (IsString-nul mem src str) in
    rw (IsString-nul mem src str) (
      ground (
        arith,
        strncpy_lem (store mem dst (mem src)) (suc dst) src 0 len
            (IsString-store mem src 0 dst (mem src) str (ground arith)) (ground arith) a,
      ))
strncpy_lem mem dst src (suc n) (suc len) str apart a = rw (IsString-more mem src n str) (
    ground (
      arith,
      strncpy_lem (store mem dst (mem src)) (suc dst) (suc src) n len
          (IsString-store mem (suc src) n dst (mem src) (IsString-tail mem src n str)
            (ground arith))
          (ground arith) a,
    ))
