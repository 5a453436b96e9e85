-- ===== src/Kernel/Bitmap.antt =====
-- The free-block bitmap of the simple file system: ucore_OS/kern/fs/sfs/bitmap.c. A set bit is a
-- free block. `map` is a function from word indices; the code stays below `nwords`.
pub mod Free
pub mod Create
pub mod Alloc
pub mod Release
use mips32_cpu_emulator.Prelude.{
  ℕ, zero, suc, ◌+◌, ◌*◌, ◌-◌, ◌/◌, ◌%◌, ◌^◌, bit_and, bit_or, bit_xor, Bool, true, false, not,
  ◌&&◌, Option, none, some, ltb, ◌==◌, if◌then◌else◌,
}
use mips32_cpu_emulator.Kernel.Result.{Result, returned, failed, panic, e_no_mem}

pub record Bitmap : Type 0 where
  pub nbits : ℕ
  pub nwords : ℕ
  pub map : ℕ → ℕ

abbrev pub word_bits : ℕ
word_bits = 32

-- `1 << offset` for an offset below 32.
abbrev pub word_mask : ℕ → ℕ
word_mask offset = 2 ^ offset

abbrev pub with_word : Bitmap → ℕ → ℕ → Bitmap
with_word b ix word = record b { map = λ j. if ix == j then word else b.map j }

-- The loop that marks the bits from `overbits` on as used, with `left` of them to go.
unfoldable pub mark_leftover : ℕ → ℕ → ℕ → ℕ
mark_leftover zero overbits word = word
mark_leftover (suc left) overbits word =
    mark_leftover left (suc overbits) (bit_xor word (word_mask overbits))

-- The bitmap after `memset`, before its leftover bits are marked.
abbrev pub all_free : ℕ → ℕ → Bitmap
all_free nbits nwords = record { nbits = nbits; nwords = nwords; map = λ _. 0xffffffff }

-- The part that deals with the bits beyond `nbits` in the last word.
unfoldable pub mark_end : Bitmap → Result (Option Bitmap)
mark_end b =
    let ix = b.nwords - 1 in
    let overbits = b.nbits - ix * word_bits in
    if b.nbits == b.nwords * word_bits
    then returned (some b)
    else if (b.nbits / word_bits == ix) && (ltb 0 overbits && ltb overbits word_bits)
    then returned (some (with_word b ix (mark_leftover (word_bits - overbits) overbits (b.map ix))))
    else panic

-- `got_bitmap` and `got_map` tell whether the two calls of `kmalloc` return memory; without it
-- the caller gets NULL, which is `none`.
unfoldable pub bitmap_create : Bool → Bool → ℕ → Result (Option Bitmap)
bitmap_create got_bitmap got_map nbits =
    if not (nbits == 0) && ltb nbits ((nbits + word_bits) % 2 ^ 32)
    then (if got_bitmap && got_map
        then mark_end (all_free nbits ((nbits + word_bits - 1) % 2 ^ 32 / word_bits))
        else returned none)
    else panic

-- The inner loop of `bitmap_alloc`, with `left` offsets to try.
unfoldable pub find_offset : ℕ → ℕ → ℕ → Option ℕ
find_offset zero offset word = none
find_offset (suc left) offset word =
    let rest = find_offset left (suc offset) word in
    if bit_and word (word_mask offset) == 0 then rest else some offset

-- What the outer loop does with a word that is not zero: the index and the bitmap without it.
abbrev pub take_offset : Bitmap → ℕ → Option ℕ → Result (Bitmap × ℕ)
take_offset b ix none = panic
take_offset b ix (some offset) =
    returned
      (with_word b ix (bit_xor (b.map ix) (word_mask offset)), (ix * word_bits + offset) % 2 ^ 32)

-- The outer loop, with `left` words to try.
unfoldable pub find_word : ℕ → ℕ → Bitmap → Result (Bitmap × ℕ)
find_word zero ix b = failed e_no_mem
find_word (suc left) ix b =
    let rest = find_word left (suc ix) b in
    if b.map ix == 0 then rest else take_offset b ix (find_offset word_bits 0 (b.map ix))

unfoldable pub bitmap_alloc : Bitmap → Result (Bitmap × ℕ)
bitmap_alloc b = find_word b.nwords 0 b

-- The word of an index and the mask in it.
unfoldable pub bitmap_translate : Bitmap → ℕ → Result (ℕ × ℕ)
bitmap_translate b index =
    if ltb index b.nbits then returned (index / word_bits, word_mask (index % word_bits)) else panic

abbrev pub test_word : Bitmap → Result (ℕ × ℕ) → Result Bool
test_word b (returned (ix, mask)) = returned (not (bit_and (b.map ix) mask == 0))
test_word b (failed code) = failed code
test_word b panic = panic

unfoldable pub bitmap_test : Bitmap → ℕ → Result Bool
bitmap_test b index = test_word b (bitmap_translate b index)

abbrev pub free_word : Bitmap → Result (ℕ × ℕ) → Result Bitmap
free_word b (returned (ix, mask)) =
    if bit_and (b.map ix) mask == 0
    then returned (with_word b ix (bit_or (b.map ix) mask))
    else panic
free_word b (failed code) = failed code
free_word b panic = panic

unfoldable pub bitmap_free : Bitmap → ℕ → Result Bitmap
bitmap_free b index = free_word b (bitmap_translate b index)

-- The length in bytes of the words, and the words.
unfoldable pub bitmap_getdata : Bitmap → ℕ × (ℕ → ℕ)
bitmap_getdata b = (4 * b.nwords % 2 ^ 32, b.map)
