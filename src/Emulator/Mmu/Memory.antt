-- ===== src/Emulator/Mmu/Memory.antt =====
-- Loads after stores: `read_word` and `write_word` of src/mmu.h on the RAM, bytes in little-endian
-- order.
use mips32_cpu_emulator.Prelude.{
  ℕ, zero, suc, ◌+◌, ◌-◌, ◌*◌, ◌/◌, ◌%◌, ◌^◌, ◌<◌, ◌≤◌, ◌≡◌, ◌⊎◌, refl, true, false, arith, ap, ◌∙◌,
  bit_and, bit_or, ◌==◌,
}
use mips32_cpu_emulator.Bits.Split.{bit_and_mask, bit_or_above}
use mips32_cpu_emulator.Emulator.Word.{shr, shl32, add32}
use mips32_cpu_emulator.Emulator.Outcome.{done}
use mips32_cpu_emulator.Emulator.Cp0.{update}
use mips32_cpu_emulator.Emulator.Mmu.{
  Mmu, tlb_exception, tlb_hit, tlb_search, addr_translate, read_physical, write_physical, read_word,
  write_word, ram_size,
}

-- The RAM with one byte, and with the four bytes of a word, replaced.
abbrev pub store_byte : ℕ → ℕ → Mmu → Mmu
store_byte a byte m = record m { ram = update m.ram a byte }

abbrev pub store_word : ℕ → ℕ → Mmu → Mmu
store_word a word m = store_byte (a + 3) (word / 2 ^ 24 % 2 ^ 8) (
    store_byte (a + 2) (word / 2 ^ 16 % 2 ^ 8)
      (store_byte (a + 1) (word / 2 ^ 8 % 2 ^ 8) (store_byte a (word % 2 ^ 8) m)))

-- The little-endian word at an address.
abbrev pub word_at : (ℕ → ℕ) → ℕ → ℕ
word_at ram a = ram a + ram (a + 1) * 2 ^ 8 + ram (a + 2) * 2 ^ 16 + ram (a + 3) * 2 ^ 24

pub read_physical_ram : (a : ℕ) (m : Mmu) → a < ram_size → read_physical a m ≡ done (m.ram a) m
unfolding read_physical
read_physical_ram a m h = let e : a - 0 ≡ a = omega arith in ground arith

pub write_physical_ram :
    (a byte : ℕ) (m : Mmu) → a < ram_size → write_physical a byte m ≡ done tt (store_byte a byte m)
unfolding write_physical
write_physical_ram a byte m h = let e : a - 0 ≡ a = omega arith in ground arith

join_bytes :
    (b0 b1 b2 b3 : ℕ)
    → b0 < 256
    → b1 < 256
    → b2 < 256
    → b3 < 256
    → bit_or (bit_or (bit_or b0 (shl32 b1 8)) (shl32 b2 16)) (shl32 b3 24)
      ≡ b0 + b1 * 2 ^ 8 + b2 * 2 ^ 16 + b3 * 2 ^ 24
join_bytes b0 b1 b2 b3 h0 h1 h2 h3 = ground (
  arith,
  bit_or_above 8 b1 b0,
  bit_or_above 16 b2 (b0 + b1 * 2 ^ 8),
  bit_or_above 24 b3 (b0 + b1 * 2 ^ 8 + b2 * 2 ^ 16),
)

-- A translation reads the TLB alone, and what may be stored to may be loaded from.
module _ (m m' : Mmu) (keys : m'.tlb_key ≡ m.tlb_key) (entries : m'.tlb_data ≡ m.tlb_data)
    (v pa : ℕ) where
  hit_load :
      (entry_lo : ℕ)
      → tlb_hit entry_lo v true m ≡ done pa m
      → tlb_hit entry_lo v false m' ≡ done pa m'
  unfolding tlb_hit tlb_exception
  hit_load entry_lo h = ground arith

  search_load :
      (left i : ℕ)
      → tlb_search left i v true m ≡ done pa m
      → tlb_search left i v false m' ≡ done pa m'
  unfolding tlb_search tlb_exception
  search_load zero i h = absurd (ground arith)
  search_load (suc left) i h = ground (
    arith,
    ap (λ (f : ℕ → ℕ). f i) keys,
    ap (λ (f : ℕ → ℕ → ℕ). f (bit_and (shr v 12) 0x01) i) entries,
    hit_load (m.tlb_data (bit_and (shr v 12) 0x01) i),
    search_load left (i + 1),
  )

  pub addr_translate_load :
      addr_translate v true m ≡ done pa m → addr_translate v false m' ≡ done pa m'
  unfolding addr_translate
  addr_translate_load h = ground (arith, search_load 16 0)

aligned : (v : ℕ) → v % 4 ≡ 0 → (bit_and v 0x03 == 0) ≡ true
aligned v h = ground (arith, bit_and_mask 2 v)

-- `physical_addr + k` does not wrap inside the RAM.
no_wrap : (pa k : ℕ) → pa + k < ram_size → add32 pa k ≡ pa + k
no_wrap pa k h = omega arith

write_word_ram :
    (v word pa : ℕ) (m : Mmu)
    → v % 4 ≡ 0
    → addr_translate v true m ≡ done pa m
    → pa + 3 < ram_size
    → write_word v word m ≡ done tt (store_word pa word m)
unfolding write_word
write_word_ram v word pa m even there fits =
    let m1 = store_byte pa (word % 2 ^ 8) m in
    let m2 = store_byte (pa + 1) (word / 2 ^ 8 % 2 ^ 8) m1 in
    let m3 = store_byte (pa + 2) (word / 2 ^ 16 % 2 ^ 8) m2 in
    let e0 : add32 pa 0 ≡ pa = omega arith in
    rw (aligned v even, there, e0, write_physical_ram pa (word % 2 ^ 8) m (omega arith))
      (rw
        (
          no_wrap pa 1 (omega arith),
          no_wrap pa 2 (omega arith),
          no_wrap pa 3 fits,
          write_physical_ram (pa + 1) (word / 2 ^ 8 % 2 ^ 8) m1 (omega arith),
        )
        (rw (write_physical_ram (pa + 2) (word / 2 ^ 16 % 2 ^ 8) m2 (omega arith))
          (write_physical_ram (pa + 3) (word / 2 ^ 24 % 2 ^ 8) m3 fits)))

abbrev pub IsBytes : (ℕ → ℕ) → Type 0
IsBytes ram = (a : ℕ) → ram a < 256

read_word_ram :
    (v pa : ℕ) (m : Mmu)
    → v % 4 ≡ 0
    → addr_translate v false m ≡ done pa m
    → pa + 3 < ram_size
    → IsBytes m.ram
    → read_word v m ≡ done (word_at m.ram pa) m
unfolding read_word
read_word_ram v pa m even there fits bytes =
    let e0 : add32 pa 0 ≡ pa = omega arith in
    rw (aligned v even, there, e0, read_physical_ram pa m (omega arith))
      (rw
        (
          no_wrap pa 1 (omega arith),
          no_wrap pa 2 (omega arith),
          no_wrap pa 3 fits,
          read_physical_ram (pa + 1) m (omega arith),
        )
        (rw (read_physical_ram (pa + 2) m (omega arith)) (
          rw (read_physical_ram (pa + 3) m fits) (
            ap (λ (t : ℕ). done t m)
              (join_bytes (m.ram pa) (m.ram (pa + 1)) (m.ram (pa + 2)) (m.ram (pa + 3)) (bytes pa)
                (bytes (pa + 1)) (bytes (pa + 2)) (bytes (pa + 3)))))))

update-IsBytes : (ram : ℕ → ℕ) (a byte : ℕ) → IsBytes ram → byte < 256 → IsBytes (update ram a byte)
update-IsBytes ram a byte h k i = ground (arith, h i)

store_word-IsBytes : (a word : ℕ) (m : Mmu) → IsBytes m.ram → IsBytes (store_word a word m).ram
store_word-IsBytes a word m h =
    update-IsBytes _ (a + 3) (word / 2 ^ 24 % 2 ^ 8)
      (update-IsBytes _ (a + 2) (word / 2 ^ 16 % 2 ^ 8)
        (update-IsBytes _ (a + 1) (word / 2 ^ 8 % 2 ^ 8)
          (update-IsBytes m.ram a (word % 2 ^ 8) h (omega arith)) (omega arith))
        (omega arith))
      (omega arith)

word_at-store_word :
    (a word : ℕ) (m : Mmu) → word < 2 ^ 32 → word_at (store_word a word m).ram a ≡ word
word_at-store_word a word m h = ground arith

-- A word stored at an aligned address that the TLB or the kernel segments lead to the RAM is the
-- word that a load from that address then returns; the bytes before and behind it, the
-- coprocessor, the TLB, the console and the images of the ROM and the flash are as before.
pub read_word-write_word :
    (v word pa : ℕ) (m : Mmu)
    → v % 4 ≡ 0
    → addr_translate v true m ≡ done pa m
    → pa + 3 < ram_size
    → word < 2 ^ 32
    → IsBytes m.ram
    → (m' : Mmu) × (write_word v word m ≡ done tt m')
      × (read_word v m' ≡ done word m')
      × ((a : ℕ) → (a < pa) ⊎ (pa + 4 ≤ a) → m'.ram a ≡ m.ram a)
      × (m'.cp0 ≡ m.cp0)
      × (m'.tlb_key ≡ m.tlb_key)
      × (m'.tlb_data ≡ m.tlb_data)
      × (m'.console ≡ m.console)
      × (m'.rom ≡ m.rom)
      × (m'.flash ≡ m.flash)
read_word-write_word v word pa m even there fits narrow bytes = (
  store_word pa word m,
  write_word_ram v word pa m even there fits,
  read_word_ram v pa (store_word pa word m) even
        (addr_translate_load m (store_word pa word m) refl refl v pa there) fits
        (store_word-IsBytes pa word m bytes)
      ∙ ap (λ (t : ℕ). done t (store_word pa word m)) (word_at-store_word pa word m narrow),
  λ a h. ground arith,
  refl,
  refl,
  refl,
  refl,
  refl,
  refl,
)
