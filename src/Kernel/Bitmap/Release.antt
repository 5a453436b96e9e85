-- ===== src/Kernel/Bitmap/Release.antt =====
-- `bitmap_test` and `bitmap_free` of ucore_OS/kern/fs/sfs/bitmap.c, and what they make of an index
-- that `bitmap_alloc` gave out.
use mips32_cpu_emulator.Prelude.{
  ℕ, ◌*◌, ◌/◌, ◌%◌, ◌^◌, ◌<◌, ◌≤◌, bit_and, false, not, ◌≡◌, ◌⊎◌, inl, inr, refl, ◌==◌, ltb, ==_iff,
  Bool-cases, arith, ap, ◌∙◌, tests, ltb→lt, lt→ltb, subst, sym, if◌then◌else◌,
}
use mips32_cpu_emulator.Bits.Split.{bit_or-lt}
use mips32_cpu_emulator.Bits.Digits.{digit-lt, bit_and_power}
use native.Mathlib.Nat.{one-le-pow}
use mips32_cpu_emulator.Kernel.Result.{Result, returned, failed, panic}
use mips32_cpu_emulator.Kernel.Bitmap.{
  Bitmap, bitmap_translate, bitmap_test, bitmap_free, bitmap_alloc,
}
use mips32_cpu_emulator.Kernel.Bitmap.Free.{
  free_bit, IsBitmap, SetsBit, SetsBit-or, SetsBit-IsBitmap, with_word-fits,
}
use mips32_cpu_emulator.Kernel.Bitmap.Alloc.{
  power_fits, bitmap_alloc-Allocates, Allocates, found, full,
}

-- What `bitmap_free` gives on each branch.
pub data Frees (b : Bitmap) (i : ℕ) : Result Bitmap → Type 0 where
  freed :
      {b' : Bitmap}
      → i < b.nbits
      → free_bit b i ≡ 0
      → SetsBit b b' i 1
      → IsBitmap b'
      → Frees b i (returned b')
  refused : (b.nbits ≤ i) ⊎ (free_bit b i ≡ 1) → Frees b i panic

masked_word :
    (b : Bitmap) (i : ℕ) → bit_and (b.map (i / 32)) (2 ^ (i % 32)) ≡ free_bit b i * 2 ^ (i % 32)
unfolding free_bit
masked_word b i = bit_and_power (i % 32) (b.map (i / 32))

free_bit-lt : (b : Bitmap) (i : ℕ) → free_bit b i < 2
unfolding free_bit
free_bit-lt b i = digit-lt (i % 32) (b.map (i / 32))

mask_test :
    (b : Bitmap) (i : ℕ) → (bit_and (b.map (i / 32)) (2 ^ (i % 32)) == 0) ≡ (free_bit b i == 0)
mask_test b i = ground (arith, masked_word b i, free_bit-lt b i, one-le-pow (i % 32) 2)

-- `bitmap_test` tells whether an index below `nbits` is free, and panics for any other index.
pub bitmap_test_lem :
    (b : Bitmap) (i : ℕ)
    → bitmap_test b i ≡ (if ltb i b.nbits then returned (not (free_bit b i == 0)) else panic)
unfolding bitmap_test bitmap_translate
bitmap_test_lem b i = elim (Bool-cases (ltb i b.nbits)) [
  | inl inside ↦ rw (inside, mask_test b i) refl
  | inr outside ↦ rw outside refl
]

-- `bitmap_free` on every branch, on a well-formed bitmap: it panics exactly for an index that is out
-- of range or free already, and otherwise frees exactly that index and keeps the bitmap well formed.
pub bitmap_free-Frees : (b : Bitmap) (i : ℕ) → IsBitmap b → Frees b i (bitmap_free b i)
unfolding bitmap_free bitmap_translate
bitmap_free-Frees b i well = elim (Bool-cases (ltb i b.nbits)) [
  | inl inside ↦ elim (Bool-cases (free_bit b i == 0)) [
    | inl h ↦
        let word_fits =
          bit_or-lt 32 (b.map (i / 32)) (2 ^ (i % 32)) (well.words_fit _)
            (power_fits (i % 32) (omega arith)) in
        rw (inside, mask_test b i, h)
          (freed (ltb→lt _ _ inside) ((==_iff _ _).0 h) (SetsBit-or b i) (
            SetsBit-IsBitmap well (ltb→lt _ _ inside) (SetsBit-or b i)
              (with_word-fits b (i / 32) _ well.words_fit word_fits)))
    | inr h ↦ rw (inside, mask_test b i, h) (refused (inr (ground (arith, free_bit-lt b i))))
  ]
  | inr outside ↦ rw outside (refused (inl (grind tests)))
]

Frees-taken :
    (b b' : Bitmap) (i : ℕ) (r : Result Bitmap)
    → i < b'.nbits
    → SetsBit b b' i 0
    → free_bit b i ≡ 1
    → Frees b' i r
    → (b'' : Bitmap) × (r ≡ returned b'') × ((j : ℕ) → free_bit b'' j ≡ free_bit b j)
Frees-taken b b' i _ below taken one (freed {b' = b''} _ _ back _) = (
  b'',
  refl,
  λ j. elim (Bool-cases (i == j)) [
    | inl h ↦
        let same : i ≡ j = (==_iff i j).0 h in
        subst (λ t. free_bit b'' t ≡ free_bit b t) same (back.bit_set ∙ sym one)
    | inr h ↦
        back.others_kept j (λ e. absurd (ground arith))
        ∙ taken.others_kept j (λ e. absurd (ground arith))
  ],
)
Frees-taken b b' i _ below taken one (refused (inl over)) = absurd (omega arith)
Frees-taken b b' i _ below taken one (refused (inr free)) = absurd (omega (arith, taken.bit_set))

-- `i`, marked as used in `b'`, can be given back so that every index is as in `b`.
abbrev pub Reusable : (b b' : Bitmap) (i : ℕ) → Type 0
Reusable b b' i =
    (bitmap_test b' i ≡ returned false)
    × ((b'' : Bitmap) × (bitmap_free b' i ≡ returned b'')
        × ((j : ℕ) → free_bit b'' j ≡ free_bit b j))

found-Reusable :
    (b b' : Bitmap) (i : ℕ)
    → i < b.nbits
    → free_bit b i ≡ 1
    → SetsBit b b' i 0
    → IsBitmap b'
    → Reusable b b' i
found-Reusable b b' i below one taken well' =
    let below' : i < b'.nbits = omega (arith, taken.nbits_kept) in
    (
      bitmap_test_lem b' i ∙ rw (lt→ltb _ _ below', taken.bit_set) refl,
      Frees-taken b b' i (bitmap_free b' i) below' taken one (bitmap_free-Frees b' i well'),
    )

abbrev pair_of : Bitmap × ℕ → Result (Bitmap × ℕ) → Bitmap × ℕ
pair_of p (returned q) = q
pair_of p (failed code) = p
pair_of p panic = p

alloc_result :
    (b : Bitmap) (r : Result (Bitmap × ℕ)) (b' : Bitmap) (i : ℕ)
    → Allocates b r
    → r ≡ returned (b', i)
    → Reusable b b' i
alloc_result b _ b' i (found {b' = c} {i = k} below one _ taken well') e =
    subst (λ (p : Bitmap × ℕ). Reusable b p.0 p.1) (ap (pair_of (b', i)) e)
      (found-Reusable b c k below one taken well')
alloc_result b _ b' i (full _) e = cc

-- An index that `bitmap_alloc` gives out on a well-formed bitmap is then reported as in use by
-- `bitmap_test`, and `bitmap_free` takes it back without a panic: every index is as it was.
pub bitmap_free-bitmap_alloc :
    (b b' : Bitmap) (i : ℕ) → IsBitmap b → bitmap_alloc b ≡ returned (b', i) → Reusable b b' i
bitmap_free-bitmap_alloc b b' i well given =
    alloc_result b (bitmap_alloc b) b' i (bitmap_alloc-Allocates b well) given
