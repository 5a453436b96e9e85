-- ===== src/Kernel/Bitmap/Alloc.antt =====
-- `bitmap_alloc` of ucore_OS/kern/fs/sfs/bitmap.c: the search for a free index.
use mips32_cpu_emulator.Prelude.{
  ℕ, zero, suc, ◌+◌, ◌*◌, ◌/◌, ◌%◌, ◌^◌, ◌<◌, ◌≤◌, bit_and, bit_xor, Option, some, none, true,
  false, ◌≡◌, ◌≢◌, inl, inr, refl, ◌==◌, ==_iff, Bool-cases, arith, ap, ◌∙◌, subst, sym, ◌-◌,
}
use mips32_cpu_emulator.Bits.Split.{bit_xor-lt}
use mips32_cpu_emulator.Bits.Digits.{digit, digit-lt, digit-zero, bit_and_power, no_digits}
use native.Mathlib.Nat.{one-le-pow, pow-le-pow_right}
use native.Mathlib.Decide.{dec_lt}
use mips32_cpu_emulator.Kernel.Result.{Result, returned, failed, e_no_mem}
use mips32_cpu_emulator.Kernel.Bitmap.{
  Bitmap, with_word, word_mask, find_offset, find_word, take_offset, bitmap_alloc,
}
use mips32_cpu_emulator.Kernel.Bitmap.Free.{
  free_bit, IsBitmap, SetsBit, SetsBit-xor, SetsBit-IsBitmap, with_word-fits,
}

-- The lowest free index, or the report that there is none. There is no case for a panic.
pub data Allocates (b : Bitmap) : Result (Bitmap × ℕ) → Type 0 where
  found :
      {b' : Bitmap} {i : ℕ}
      → i < b.nbits
      → free_bit b i ≡ 1
      → ((j : ℕ) → j < i → free_bit b j ≡ 0)
      → SetsBit b b' i 0
      → IsBitmap b'
      → Allocates b (returned (b', i))
  full : ((j : ℕ) → j < b.nbits → free_bit b j ≡ 0) → Allocates b (failed e_no_mem)

data Lowest (word offset left : ℕ) : Option ℕ → Type 0 where
  at :
      {o : ℕ}
      → offset ≤ o
      → o < offset + left
      → digit o word ≡ 1
      → ((k : ℕ) → offset ≤ k → k < o → digit k word ≡ 0)
      → Lowest word offset left (some o)
  nowhere :
      ((k : ℕ) → offset ≤ k → k < offset + left → digit k word ≡ 0) → Lowest word offset left none

digit_masked : (word k : ℕ) → (bit_and word (word_mask k) == 0) ≡ true → digit k word ≡ 0
digit_masked word k h = ground (arith, bit_and_power k word, one-le-pow k 2, digit-lt k word)

digit_unmasked : (word k : ℕ) → (bit_and word (word_mask k) == 0) ≡ false → digit k word ≡ 1
digit_unmasked word k h = ground (arith, bit_and_power k word, one-le-pow k 2, digit-lt k word)

Lowest-skip :
    {word offset left : ℕ} {o : Option ℕ}
    → digit offset word ≡ 0
    → Lowest word (suc offset) left o
    → Lowest word offset (suc left) o
Lowest-skip {word} {offset} none_here (at from below one lower) =
    at (omega arith) (omega arith) one λ k le lt. elim (Bool-cases (offset == k)) [
      | inl h ↦ subst (λ t. digit t word ≡ 0) ((==_iff offset k).0 h) none_here
      | inr h ↦ lower k (ground arith) lt
    ]
Lowest-skip {word} {offset} none_here (nowhere lower) = nowhere λ k le lt.
    elim (Bool-cases (offset == k)) [
      | inl h ↦ subst (λ t. digit t word ≡ 0) ((==_iff offset k).0 h) none_here
      | inr h ↦ lower k (ground arith) (ground arith)
    ]

find_offset-Lowest : (left offset word : ℕ) → Lowest word offset left (find_offset left offset word)
unfolding find_offset
find_offset-Lowest zero offset word = nowhere (λ k le lt. absurd (omega arith))
find_offset-Lowest (suc left) offset word =
    elim (Bool-cases (bit_and word (word_mask offset) == 0)) [
      | inl h ↦
          rw h
            (Lowest-skip (digit_masked word offset h) (find_offset-Lowest left (suc offset) word))
      | inr h ↦ rw h (
          at (omega arith) (omega arith) (digit_unmasked word offset h)
            (λ k le lt. absurd (omega arith)))
    ]

pub power_fits : (k : ℕ) → k < 32 → 2 ^ k < 2 ^ 32
power_fits k small =
    let le : 2 ^ k ≤ 2 ^ 31 = pow-le-pow_right (omega arith) {j = 31} (omega arith) in omega arith

-- The index of digit `k` of word `ix`.
pub free_bit-word : (b : Bitmap) (ix k : ℕ) → k < 32 → free_bit b (ix * 32 + k) ≡ digit k (b.map ix)
unfolding free_bit
free_bit-word b ix k small =
    let word : (ix * 32 + k) / 32 ≡ ix = omega arith in
    let place : (ix * 32 + k) % 32 ≡ k = omega arith in rw (word, place) refl

module _ (b : Bitmap) (well : IsBitmap b) (ix : ℕ) (inside : ix < b.nwords)
    (earlier : (j : ℕ) → j < ix * 32 → free_bit b j ≡ 0) where
  lower_used :
      (o : ℕ)
      → o ≤ 32
      → ((k : ℕ) → 0 ≤ k → k < o → digit k (b.map ix) ≡ 0)
      → (j : ℕ) → j < ix * 32 + o
      → free_bit b j ≡ 0
  lower_used o small lower j below = elim (dec_lt j (ix * 32)) [
    | yes h ↦ earlier j h
    | no h ↦
        let place : j ≡ ix * 32 + (j - ix * 32) = omega arith in
        subst (λ t. free_bit b t ≡ 0) (sym place)
          (free_bit-word b ix (j - ix * 32) (omega arith)
            ∙ lower (j - ix * 32) (omega arith) (omega arith))
  ]

  claimed :
      (o i : ℕ)
      → o < 32
      → i ≡ ix * 32 + o
      → digit o (b.map ix) ≡ 1
      → ((k : ℕ) → 0 ≤ k → k < o → digit k (b.map ix) ≡ 0)
      → Allocates b
          (returned (with_word b (i / 32) (bit_xor (b.map (i / 32)) (word_mask (i % 32))), i))
  claimed o i small place one lower =
      let free : free_bit b i ≡ 1 = ap (free_bit b) place ∙ free_bit-word b ix o small ∙ one in
      let below : i < b.nbits = elim (dec_lt i b.nbits) [
        | yes h ↦ h
        | no h ↦
            let used : free_bit b i ≡ 0 = well.leftover_used i (omega arith) (omega arith) in
            absurd (omega arith)
      ] in
      let sets = SetsBit-xor b i free in
      let word_fits =
        bit_xor-lt 32 (b.map (i / 32)) (2 ^ (i % 32)) (well.words_fit _)
          (power_fits (i % 32) (omega arith)) in
      found below free (λ j lt. lower_used o (omega arith) lower j (omega arith)) sets
        (SetsBit-IsBitmap well below sets (with_word-fits b (i / 32) _ well.words_fit word_fits))

  take_offset-Allocates :
      {o : Option ℕ} → b.map ix ≢ 0 → Lowest (b.map ix) 0 32 o → Allocates b (take_offset b ix o)
  take_offset-Allocates some_digit (nowhere lower) = absurd (
      some_digit
        (no_digits 32 (b.map ix) (well.words_fit ix) (λ k lt. lower k (omega arith) (omega arith))))
  take_offset-Allocates some_digit (at {o} _ small one lower) =
      let i = ix * 32 + o in
      let word : i / 32 ≡ ix = omega arith in
      let place : i % 32 ≡ o = omega arith in
      let narrow : i % 2 ^ 32 ≡ i = omega (arith, well.nbits_fits, well.nwords_exact) in
      rw narrow (
        subst (λ t. Allocates b (returned (with_word b t (bit_xor (b.map t) (word_mask o)), i)))
          word
          (subst
            (λ t.
              Allocates b
                (returned (with_word b (i / 32) (bit_xor (b.map (i / 32)) (word_mask t)), i)))
            place (claimed o i small refl one lower)))

find_word-Allocates :
    (b : Bitmap)
    → IsBitmap b
    → (left ix : ℕ) → left + ix ≡ b.nwords
    → ((j : ℕ) → j < ix * 32 → free_bit b j ≡ 0)
    → Allocates b (find_word left ix b)
unfolding find_word
find_word-Allocates b well zero ix total earlier =
    full (λ j below. earlier j (omega (arith, well.nwords_exact)))
find_word-Allocates b well (suc left) ix total earlier = elim (Bool-cases (b.map ix == 0)) [
  | inl h ↦
      let none_here : b.map ix ≡ 0 = (==_iff _ _).0 h in
      rw h (
        find_word-Allocates b well left (suc ix) (omega arith) (λ j lt.
          lower_used b well ix (omega arith) earlier 32 (omega arith)
            (λ k _ _. ap (digit k) none_here ∙ digit-zero k) j (omega arith)))
  | inr h ↦ rw h (
      take_offset-Allocates b well ix (omega arith) earlier (λ e. absurd (ground arith))
        (find_offset-Lowest 32 0 (b.map ix)))
]

-- On a well-formed bitmap `bitmap_alloc` never panics. It returns the lowest free index, which is
-- below `nbits`, marks exactly that index as used and keeps the bitmap well formed; it returns
-- -E_NO_MEM exactly where no index is free.
pub bitmap_alloc-Allocates : (b : Bitmap) → IsBitmap b → Allocates b (bitmap_alloc b)
unfolding bitmap_alloc
bitmap_alloc-Allocates b well =
    find_word-Allocates b well b.nwords 0 (omega arith) (λ j lt. absurd (omega arith))
