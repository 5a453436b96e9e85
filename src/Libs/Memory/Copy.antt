-- ===== src/Libs/Memory/Copy.antt =====
-- What the memory functions of ucore_OS/libs/string.c leave at each address.
use mips32_cpu_emulator.Prelude.{
  ℕ, zero, suc, ◌+◌, ◌-◌, ◌*◌, ◌%◌, ◌^◌, ◌≤◌, ◌<◌, none, some, ◌&&◌, ltb, leb, ◌==◌, if◌then◌else◌,
  ◌≡◌, ◌⊎◌, inl, inr, refl, arith, Bool-cases, true, lt→ltb, ◌/◌, subst,
}
use mips32_cpu_emulator.Libs.Memory.{
  Memory, store, memset, copy_up, copy_down, memmove, memcpy, memcpy_flash,
}

-- The bytes from `dst` to `dst + n` are those that stood from `src` on, and no other byte changes.
abbrev pub Copied : Memory → Memory → ℕ → ℕ → ℕ → Type 0
Copied mem mem' dst src n =
    (a : ℕ) → mem' a ≡ (if leb dst a && ltb a (dst + n) then mem (src + (a - dst)) else mem a)

pub memset_lem :
    (mem : Memory) (p c n a : ℕ)
    → memset mem p c n a ≡ (if leb p a && ltb a (p + n) then c else mem a)
unfolding memset
memset_lem mem p c zero a = ground arith
memset_lem mem p c (suc n) a = ground (arith, memset_lem (store mem p c) (suc p) c n a)

copy_up-Copied :
    (mem : Memory) (d s n : ℕ) → (d ≤ s) ⊎ (s + n ≤ d) → Copied mem (copy_up mem d s n) d s n
unfolding copy_up
copy_up-Copied mem d s zero apart a = ground arith
copy_up-Copied mem d s (suc n) apart a =
    ground (arith, copy_up-Copied (store mem d (mem s)) (suc d) (suc s) n (ground arith) a)

copy_down-Copied : (mem : Memory) (d s n : ℕ) → s < d → Copied mem (copy_down mem d s n) d s n
unfolding copy_down
copy_down-Copied mem d s zero below a = ground arith
copy_down-Copied mem d s (suc n) below a =
    ground (arith, copy_down-Copied (store mem (d + n) (mem (s + n))) d s n below a)

-- `memmove` copies as if it read all bytes before it writes one, however the two areas overlap:
-- afterwards the bytes from `dst` on are those that stood from `src` on, and no other byte changes.
pub memmove-Copied : (mem : Memory) (dst src n : ℕ) → Copied mem (memmove mem dst src n) dst src n
unfolding memmove
memmove-Copied mem dst src n a = ground (
  arith,
  λ (p : src < dst). copy_down-Copied mem dst src n p a,
  λ (p : (dst ≤ src) ⊎ (src + n ≤ dst)). copy_up-Copied mem dst src n p a,
)

-- `memcpy` does the same for areas that do not overlap.
pub memcpy-Copied :
    (mem : Memory) (dst src n : ℕ)
    → (dst + n ≤ src) ⊎ (src + n ≤ dst)
    → Copied mem (memcpy mem dst src n) dst src n
unfolding memcpy
memcpy-Copied mem dst src n apart = copy_up-Copied mem dst src n (ground arith)

-- Two bytes of every four: the copied half of the flash.
abbrev pub FlashCopied : Memory → Memory → ℕ → ℕ → ℕ → Type 0
FlashCopied mem mem' dst src n =
    (a : ℕ)
    → mem' a ≡ (
        if leb dst a && ltb a (dst + n)
        then mem (src + (a - dst) / 2 * 4 + (a - dst) % 2)
        else mem a)

flash_pairs :
    (fuel m : ℕ) (mem : Memory) (d s : ℕ)
    → m < fuel
    → 2 * m < 2 ^ 32
    → (d + 2 * m ≤ s) ⊎ (s + 4 * m ≤ d)
    → (mem' : Memory) × (memcpy_flash fuel mem d s (2 * m) ≡ some mem')
      × FlashCopied mem mem' d s (2 * m)
unfolding memcpy_flash
flash_pairs zero m mem d s enough fits apart = absurd (omega arith)
flash_pairs (suc fuel) zero mem d s enough fits apart = (mem, refl, λ a. ground arith)
flash_pairs (suc fuel) (suc m) mem d s enough fits apart =
    let first = store mem d (mem s) in
    let second = store first (d + 1) (first (s + 1)) in
    let (mem', returned, copied) =
      flash_pairs fuel m second (d + 2) (s + 1 + 1 + 2) (omega arith) (omega arith)
        (ground arith) in
    let less : (2 * suc m + (2 ^ 32 - 2)) % 2 ^ 32 ≡ 2 * m = omega arith in
    let positive : ltb 0 (2 * suc m) ≡ true = lt→ltb _ _ (omega arith) in
    (mem', rw (positive, less) returned, λ a. ground (arith, copied a))

flash_odd :
    (fuel : ℕ) (mem : Memory) (d s n : ℕ)
    → n % 2 ≡ 1
    → n < 2 ^ 32
    → memcpy_flash fuel mem d s n ≡ none
unfolding memcpy_flash
flash_odd zero mem d s n odd fits = refl
flash_odd (suc fuel) mem d s n odd fits =
    let positive : ltb 0 n ≡ true = lt→ltb _ _ (omega arith) in
    rw positive (
      flash_odd fuel _ (d + 2) (s + 1 + 1 + 2) ((n + (2 ^ 32 - 2)) % 2 ^ 32) (omega arith)
        (omega arith))

-- For more rounds than bytes, and areas that do not overlap: `memcpy_flash` returns exactly for an
-- even number of bytes, and then it has copied two bytes of every four. For an odd number it goes on
-- past both areas, because `n - 2` wraps around.
pub memcpy_flash_lem :
    (fuel : ℕ) (mem : Memory) (dst src n : ℕ)
    → n < fuel
    → n < 2 ^ 32
    → (dst + n ≤ src) ⊎ (src + 2 * n ≤ dst)
    → ((n % 2 ≡ 0)
        × ((mem' : Memory) × (memcpy_flash fuel mem dst src n ≡ some mem')
            × FlashCopied mem mem' dst src n))
      ⊎ ((n % 2 ≡ 1) × (memcpy_flash fuel mem dst src n ≡ none))
memcpy_flash_lem fuel mem dst src n enough fits apart = elim (Bool-cases (n % 2 == 0)) [
  | inl h ↦
      let even : n % 2 ≡ 0 = ground arith in
      let twice : 2 * (n / 2) ≡ n = omega arith in
      inl (
        even,
        subst
            (λ (t : ℕ).
              (mem' : Memory) × (memcpy_flash fuel mem dst src t ≡ some mem')
              × FlashCopied mem mem' dst src t)
            twice (flash_pairs fuel (n / 2) mem dst src (omega arith) (omega arith) (ground arith)),
      )
  | inr h ↦ let odd : n % 2 ≡ 1 = ground arith in inr (odd, flash_odd fuel mem dst src n odd fits)
]
