-- ===== src/Kernel/Bitmap/Create.antt =====
-- `bitmap_create` of ucore_OS/kern/fs/sfs/bitmap.c: every index is free at first, and the bits of the
-- last word that no index has are in use.
use mips32_cpu_emulator.Prelude.{
  ℕ, zero, suc, ◌+◌, ◌*◌, ◌-◌, ◌/◌, ◌%◌, ◌^◌, ◌<◌, ◌≤◌, bit_xor, Bool, true, false, ◌&&◌, Option,
  some, none, ◌≡◌, ◌⊎◌, inl, inr, refl, ◌==◌, ltb, ==_iff, Bool-cases, arith, ap, ◌∙◌, tests,
  lt→ltb, ltb→lt,
}
use mips32_cpu_emulator.Bits.Split.{bit_xor-lt}
use mips32_cpu_emulator.Bits.Digits.{
  digit, digit-bit_xor, digit-power, digit-other_power, digit-ones,
}
use mips32_cpu_emulator.Kernel.Result.{Result, returned, panic}
use mips32_cpu_emulator.Kernel.Bitmap.{
  Bitmap, with_word, word_mask, mark_leftover, all_free, mark_end, bitmap_create,
}
use mips32_cpu_emulator.Kernel.Bitmap.Free.{
  free_bit, IsBitmap, same_word, other_word, with_word-fits, differ_zero,
}
use mips32_cpu_emulator.Kernel.Bitmap.Alloc.{power_fits}

mark_leftover-below :
    (left overbits word k : ℕ)
    → k < overbits
    → digit k (mark_leftover left overbits word) ≡ digit k word
unfolding mark_leftover
mark_leftover-below zero overbits word k below = refl
mark_leftover-below (suc left) overbits word k below =
    mark_leftover-below left (suc overbits) (bit_xor word (word_mask overbits)) k (omega arith)
    ∙ digit-bit_xor k word (word_mask overbits)
    ∙ rw (digit-other_power k overbits (λ e. absurd (omega arith))) (differ_zero _)

mark_leftover-above :
    (left overbits word k : ℕ)
    → overbits ≤ k
    → k < overbits + left
    → digit k word ≡ 1
    → digit k (mark_leftover left overbits word) ≡ 0
unfolding mark_leftover
mark_leftover-above zero overbits word k from below one = absurd (omega arith)
mark_leftover-above (suc left) overbits word k from below one = elim (Bool-cases (overbits == k)) [
  | inl h ↦
      let here : overbits ≡ k = (==_iff _ _).0 h in
      mark_leftover-below left (suc overbits) (bit_xor word (word_mask overbits)) k (omega arith)
      ∙ digit-bit_xor k word (word_mask overbits)
      ∙ rw (one, here, digit-power k) refl
  | inr h ↦
      mark_leftover-above left (suc overbits) (bit_xor word (word_mask overbits)) k (ground arith)
        (omega arith)
        (digit-bit_xor k word (word_mask overbits)
          ∙ rw (one, digit-other_power k overbits (λ e. absurd (ground arith))) refl)
]

mark_leftover-lt :
    (left overbits word : ℕ)
    → overbits + left ≤ 32
    → word < 2 ^ 32
    → mark_leftover left overbits word < 2 ^ 32
unfolding mark_leftover
mark_leftover-lt zero overbits word small fits = fits
mark_leftover-lt (suc left) overbits word small fits =
    mark_leftover-lt left (suc overbits) (bit_xor word (word_mask overbits)) (omega arith)
      (bit_xor-lt 32 word (word_mask overbits) fits (power_fits overbits (omega arith)))

-- What a call gives on each branch; `memory` tells whether both calls of `kmalloc` succeed.
pub data Creates (memory : Bool) (nbits : ℕ) : Result (Option Bitmap) → Type 0 where
  created :
      {b : Bitmap}
      → 0 < nbits
      → nbits + 32 < 2 ^ 32
      → memory ≡ true
      → b.nbits ≡ nbits
      → IsBitmap b
      → ((i : ℕ) → i < nbits → free_bit b i ≡ 1)
      → Creates memory nbits (returned (some b))
  no_memory :
      0 < nbits → nbits + 32 < 2 ^ 32 → memory ≡ false → Creates memory nbits (returned none)
  refused : (nbits ≡ 0) ⊎ (2 ^ 32 ≤ nbits + 32) → Creates memory nbits panic

module _ (nbits : ℕ) (some_bits : 0 < nbits) (fits : nbits + 32 < 2 ^ 32) where
  abbrev words : ℕ
  words = (nbits + 31) / 32

  abbrev marked : Bitmap
  marked =
      with_word (all_free nbits words) (words - 1)
        (mark_leftover (32 - (nbits - (words - 1) * 32)) (nbits - (words - 1) * 32) 0xffffffff)

  exact : nbits ≡ words * 32 → Creates true nbits (returned (some (all_free nbits words)))
  unfolding free_bit
  exact whole =
      created some_bits fits refl refl
        (record {
          nbits_fits = omega arith;
          nwords_exact = refl;
          words_fit = λ _. omega arith;
          leftover_used = λ i over inside. absurd (omega arith);
        })
        (λ i lt. digit-ones (i % 32) 32 (omega arith))

  marked-digits :
      (i : ℕ)
      → i < words * 32
      → words - 1 ≡ i / 32
      → free_bit marked i
        ≡ digit
            (i % 32)
            (mark_leftover (32 - (nbits - (words - 1) * 32)) (nbits - (words - 1) * 32) 0xffffffff)
  unfolding free_bit
  marked-digits i inside last =
      ap (digit (i % 32)) (same_word (all_free nbits words) (words - 1) _ (i / 32) last)

  ragged : ((nbits == words * 32) ≡ false) → Creates true nbits (returned (some marked))
  unfolding free_bit
  ragged part =
      created some_bits fits refl refl
        (record {
          nbits_fits = omega arith;
          nwords_exact = refl;
          words_fit =
              with_word-fits (all_free nbits words) (words - 1) _ (λ _. omega arith)
                (mark_leftover-lt _ _ _ (ground arith) (omega arith));
          leftover_used = λ i over inside.
              marked-digits i inside (omega arith)
              ∙ mark_leftover-above _ _ _ (i % 32) (omega arith) (omega arith)
                  (digit-ones (i % 32) 32 (omega arith));
        })
        (λ i lt. elim (Bool-cases (words - 1 == i / 32)) [
          | inl h ↦
              let last : words - 1 ≡ i / 32 = (==_iff _ _).0 h in
              marked-digits i (omega arith) last
              ∙ mark_leftover-below _ _ _ (i % 32) (omega arith)
              ∙ digit-ones (i % 32) 32 (omega arith)
          | inr h ↦
              ap (digit (i % 32)) (
                other_word (all_free nbits words) (words - 1) _ (i / 32)
                  (λ e. absurd (ground arith)))
              ∙ digit-ones (i % 32) 32 (omega arith)
        ])

  mark_end-Creates : Creates true nbits (mark_end (all_free nbits words))
  unfolding mark_end
  mark_end-Creates = elim (Bool-cases (nbits == words * 32)) [
    | inl h ↦ rw h (exact ((==_iff _ _).0 h))
    | inr h ↦
        let last : (nbits / 32 == words - 1) ≡ true = (==_iff _ _).1 (ground arith) in
        let over : ltb 0 (nbits - (words - 1) * 32) ≡ true = lt→ltb _ _ (ground arith) in
        let under : ltb (nbits - (words - 1) * 32) 32 ≡ true = lt→ltb _ _ (ground arith) in
        rw (h, last, over, under) (ragged h)
  ]

-- `bitmap_create` on every branch, for any 32-bit `nbits`. It panics exactly where `nbits` is 0 or
-- within 32 of the end of the word range, gives NULL exactly where memory runs out, and otherwise
-- gives a well-formed bitmap of `nbits` indices, all of them free; no assert about the last word fails.
pub bitmap_create-Creates :
    (got_bitmap got_map : Bool) (nbits : ℕ)
    → nbits < 2 ^ 32
    → Creates (got_bitmap && got_map) nbits (bitmap_create got_bitmap got_map nbits)
unfolding bitmap_create
bitmap_create-Creates got_bitmap got_map nbits word = elim (Bool-cases (nbits == 0)) [
  | inl h ↦ rw h (refused (inl ((==_iff _ _).0 h)))
  | inr h ↦ elim (Bool-cases (ltb nbits ((nbits + 32) % 2 ^ 32))) [
    | inl less ↦
        let in_range : nbits < (nbits + 32) % 2 ^ 32 = ltb→lt _ _ less in
        let rounded : (nbits + 32 - 1) % 2 ^ 32 ≡ nbits + 31 = ground arith in
        elim (Bool-cases (got_bitmap && got_map)) [
          | inl memory ↦
              rw (h, less, memory, rounded) (mark_end-Creates nbits (ground arith) (omega arith))
          | inr none_left ↦ rw (h, less, none_left) (no_memory (ground arith) (omega arith) refl)
        ]
    | inr over ↦ rw (h, over) (refused (inr (grind tests)))
  ]
]
