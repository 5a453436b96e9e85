-- ===== src/Kernel/Bitmap/Free.antt =====
-- The bitmap of ucore_OS/kern/fs/sfs/bitmap.c as a set of free indices.
use Prim.Native.Nat.{differ}
use mips32_cpu_emulator.Prelude.{
  ℕ, zero, suc, ◌+◌, ◌*◌, ◌/◌, ◌%◌, ◌^◌, ◌<◌, ◌≤◌, bit_or, bit_xor, ◌≡◌, ◌≢◌, inl, inr, refl, ◌==◌,
  ==_iff, Bool-cases, if◌then◌else◌, arith, ap, ◌∙◌,
}
use mips32_cpu_emulator.Bits.Digits.{
  digit, digit-lt, digit-bit_xor, digit-bit_or, digit-power, digit-other_power,
}
use mips32_cpu_emulator.Kernel.Bitmap.{Bitmap, with_word, word_mask}

-- 1 where the index is free, 0 where it is in use.
unfoldable pub free_bit : Bitmap → ℕ → ℕ
free_bit b i = digit (i % 32) (b.map (i / 32))

-- What `bitmap_create` establishes and the other operations keep.
pub record IsBitmap (b : Bitmap) : Type 0 where
  pub nbits_fits : b.nbits + 32 ≤ 2 ^ 32
  pub nwords_exact : b.nwords ≡ (b.nbits + 31) / 32
  pub words_fit : (ix : ℕ) → b.map ix < 2 ^ 32
  pub leftover_used : (i : ℕ) → b.nbits ≤ i → i < b.nwords * 32 → free_bit b i ≡ 0

-- `b'` is `b` with the bit of one index set to `bit`.
pub record SetsBit (b b' : Bitmap) (i bit : ℕ) : Type 0 where
  pub bit_set : free_bit b' i ≡ bit
  pub others_kept : (j : ℕ) → j ≢ i → free_bit b' j ≡ free_bit b j
  pub nbits_kept : b'.nbits ≡ b.nbits
  pub nwords_kept : b'.nwords ≡ b.nwords

pub same_word : (b : Bitmap) (ix word j : ℕ) → ix ≡ j → (with_word b ix word).map j ≡ word
same_word b ix word j same = ap (λ t. if t then word else b.map j) ((==_iff ix j).1 same)

pub other_word : (b : Bitmap) (ix word j : ℕ) → ix ≢ j → (with_word b ix word).map j ≡ b.map j
other_word b ix word j apart = elim (Bool-cases (ix == j)) [
  | inl h ↦ absurd (apart ((==_iff ix j).0 h))
  | inr h ↦ ap (λ t. if t then word else b.map j) h
]

pub with_word-fits :
    (b : Bitmap) (ix word : ℕ)
    → ((j : ℕ) → b.map j < 2 ^ 32)
    → word < 2 ^ 32
    → (j : ℕ) → (with_word b ix word).map j < 2 ^ 32
with_word-fits b ix word fits word_fits j = elim (Bool-cases (ix == j)) [
  | inl h ↦ rw (ap (λ t. if t then word else b.map j) h) word_fits
  | inr h ↦ rw (ap (λ t. if t then word else b.map j) h) (fits j)
]

-- A word that differs from the old one in one digit makes a bitmap that differs in one index.
pub with_word-SetsBit :
    (b : Bitmap) (i word bit : ℕ)
    → digit (i % 32) word ≡ bit
    → ((k : ℕ) → k ≢ i % 32 → digit k word ≡ digit k (b.map (i / 32)))
    → SetsBit b (with_word b (i / 32) word) i bit
unfolding free_bit
with_word-SetsBit b i word bit there elsewhere = record {
  bit_set = ap (digit (i % 32)) (same_word b (i / 32) word (i / 32) refl) ∙ there;
  others_kept = λ j apart. elim (Bool-cases (i / 32 == j / 32)) [
    | inl h ↦
        let same : i / 32 ≡ j / 32 = (==_iff (i / 32) (j / 32)).0 h in
        ap (digit (j % 32)) (same_word b (i / 32) word (j / 32) same)
        ∙ elsewhere (j % 32) (λ e. apart (omega arith))
        ∙ ap (λ ix. digit (j % 32) (b.map ix)) same
    | inr h ↦ ap (digit (j % 32)) (other_word b (i / 32) word (j / 32) (λ e. absurd (ground arith)))
  ];
  nbits_kept = refl;
  nwords_kept = refl;
}

pub differ_zero : (x : ℕ) → differ x 0 ≡ x
differ_zero zero = refl
differ_zero (suc x) = refl

-- `^` with the mask of a digit that is 1, as in `bitmap_alloc`.
pub SetsBit-xor :
    (b : Bitmap) (i : ℕ)
    → free_bit b i ≡ 1
    → SetsBit b (with_word b (i / 32) (bit_xor (b.map (i / 32)) (word_mask (i % 32)))) i 0
unfolding free_bit
SetsBit-xor b i free =
    with_word-SetsBit b i (bit_xor (b.map (i / 32)) (2 ^ (i % 32))) 0
      (digit-bit_xor (i % 32) (b.map (i / 32)) (2 ^ (i % 32))
        ∙ rw (free, digit-power (i % 32)) refl)
      (λ k apart.
        digit-bit_xor k (b.map (i / 32)) (2 ^ (i % 32))
        ∙ rw (digit-other_power k (i % 32) apart) (differ_zero _))

-- `|` with the mask of a digit, as in `bitmap_free`.
pub SetsBit-or :
    (b : Bitmap) (i : ℕ)
    → SetsBit b (with_word b (i / 32) (bit_or (b.map (i / 32)) (word_mask (i % 32)))) i 1
SetsBit-or b i =
    with_word-SetsBit b i (bit_or (b.map (i / 32)) (2 ^ (i % 32))) 1
      (omega (
        arith,
        digit-bit_or (i % 32) (b.map (i / 32)) (2 ^ (i % 32)),
        digit-power (i % 32),
        digit-lt (i % 32) (b.map (i / 32)),
      ))
      (λ k apart.
        omega (
          arith,
          digit-bit_or k (b.map (i / 32)) (2 ^ (i % 32)),
          digit-other_power k (i % 32) apart,
        ))

-- An index below `nbits` may change either way.
pub SetsBit-IsBitmap :
    {b b' : Bitmap} {i bit : ℕ}
    → IsBitmap b
    → i < b.nbits
    → SetsBit b b' i bit
    → ((ix : ℕ) → b'.map ix < 2 ^ 32)
    → IsBitmap b'
SetsBit-IsBitmap {b} {b'} {i} well below sets fits = record {
  nbits_fits = rw sets.nbits_kept well.nbits_fits;
  nwords_exact = rw (sets.nbits_kept, sets.nwords_kept) well.nwords_exact;
  words_fit = fits;
  leftover_used = λ j over inside.
      let over' : b.nbits ≤ j = omega (arith, sets.nbits_kept) in
      let inside' : j < b.nwords * 32 = omega (arith, sets.nwords_kept) in
      sets.others_kept j (λ same. absurd (omega arith)) ∙ well.leftover_used j over' inside';
}
