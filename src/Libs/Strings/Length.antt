-- ===== src/Libs/Strings/Length.antt =====
-- `strlen`, `strnlen`, `strchr` and `strfind` of ucore_OS/libs/string.c end within the string.
use mips32_cpu_emulator.Prelude.{
  ℕ, zero, suc, ◌+◌, ◌<◌, some, ◌==◌, ◌≡◌, ◌≢◌, refl, subst, arith, true, false, min,
}
use mips32_cpu_emulator.Libs.Memory.{Memory}
use mips32_cpu_emulator.Libs.Strings.{strlen_from, strlen, strnlen_from, strnlen}

-- A string of `len` characters at `s`: none of them is NUL, and NUL follows.
pub record IsString (mem : Memory) (s len : ℕ) : Type 0 where
  pub characters : (i : ℕ) → i < len → mem (s + i) ≢ 0
  pub ends : mem (s + len) ≡ 0

pub IsString-tail : (mem : Memory) (s len : ℕ) → IsString mem s (suc len) → IsString mem (suc s) len
IsString-tail mem s len str = record {
  characters =
      λ i below. subst (λ (t : ℕ). mem t ≢ 0) (omega arith) (str.characters (suc i) (omega arith));
  ends = subst (λ (t : ℕ). mem t ≡ 0) (omega arith) str.ends;
}

pub IsString-nul : (mem : Memory) (s : ℕ) → IsString mem s 0 → (mem s == 0) ≡ true
IsString-nul mem s str =
    let nul : mem s ≡ 0 = subst (λ (t : ℕ). mem t ≡ 0) (omega arith) str.ends in rw nul refl

pub IsString-more : (mem : Memory) (s len : ℕ) → IsString mem s (suc len) → (mem s == 0) ≡ false
IsString-more mem s len str =
    let some_character : mem s ≢ 0 =
      subst (λ (t : ℕ). mem t ≢ 0) (omega arith) (str.characters 0 (omega arith)) in
    ground arith

strlen_from_lem :
    (bound : ℕ) (mem : Memory) (s cnt len : ℕ)
    → IsString mem s len
    → len < bound
    → strlen_from bound mem s cnt ≡ some (cnt + len)
unfolding strlen_from
strlen_from_lem zero mem s cnt len str enough = absurd (omega arith)
strlen_from_lem (suc bound) mem s cnt zero str enough =
    let same : cnt + 0 ≡ cnt = omega arith in rw (IsString-nul mem s str, same) refl
strlen_from_lem (suc bound) mem s cnt (suc len) str enough =
    let same : cnt + suc len ≡ suc cnt + len = omega arith in
    rw (IsString-more mem s len str, same)
      (strlen_from_lem bound mem (suc s) (suc cnt) len (IsString-tail mem s len str) (omega arith))

-- `strlen` of a string of `len` characters returns `len` after it read `len + 1` bytes.
pub strlen_lem :
    (bound : ℕ) (mem : Memory) (s len : ℕ)
    → IsString mem s len
    → len < bound
    → strlen bound mem s ≡ some len
unfolding strlen
strlen_lem bound mem s len str enough =
    let same : 0 + len ≡ len = omega arith in
    subst (λ (t : ℕ). strlen_from bound mem s 0 ≡ some t) same
      (strlen_from_lem bound mem s 0 len str enough)

strnlen_from_lem :
    (left : ℕ) (mem : Memory) (s cnt len : ℕ)
    → IsString mem s len
    → strnlen_from left mem s cnt ≡ cnt + min len left
unfolding strnlen_from
strnlen_from_lem zero mem s cnt len str = omega arith
strnlen_from_lem (suc left) mem s cnt zero str = rw (IsString-nul mem s str) (omega arith)
strnlen_from_lem (suc left) mem s cnt (suc len) str =
    rw (IsString-more mem s len str)
      (omega (arith, strnlen_from_lem left mem (suc s) (suc cnt) len (IsString-tail mem s len str)))

-- `strnlen` is the smaller one of the string's length and the limit.
pub strnlen_lem :
    (mem : Memory) (s len limit : ℕ) → IsString mem s len → strnlen mem s limit ≡ min len limit
unfolding strnlen
strnlen_lem mem s len limit str = omega (arith, strnlen_from_lem limit mem s 0 len str)
