-- ===== src/Emulator/Mmu/Tlb.antt =====
-- `MMU::addr_translate` of src/mmu.h against what a translation means: the first matching entry.
use mips32_cpu_emulator.Prelude.{
  ℕ, zero, suc, ◌+◌, ◌*◌, ◌/◌, ◌%◌, ◌^◌, ◌<◌, ◌≤◌, ◌≡◌, ◌≢◌, ◌⊎◌, refl, Bool, arith, ◌∙◌, bit_and,
  bit_or, ◌==◌, if◌then◌else◌,
}
use mips32_cpu_emulator.Bits.Split.{
  bit_and_mask, bit_or_fields, bit_and-split, bit_and_ones, bit_and-zero,
}
use mips32_cpu_emulator.Emulator.Word.{shr, shl32}
use mips32_cpu_emulator.Emulator.Outcome.{Outcome, done}
use mips32_cpu_emulator.Emulator.Cp0
use mips32_cpu_emulator.Emulator.Mmu.{Mmu, tlb_exception, tlb_hit, tlb_search, addr_translate}

-- The virtual page pair of an address, and the fields of an entry.
abbrev pub vpn2 : ℕ → ℕ
vpn2 word = word / 2 ^ 13

abbrev pub odd_page : ℕ → ℕ
odd_page virtual_addr = virtual_addr / 2 ^ 12 % 2

abbrev pub valid_bit : ℕ → ℕ
valid_bit entry_lo = entry_lo / 2 % 2

abbrev pub dirty_bit : ℕ → ℕ
dirty_bit entry_lo = entry_lo / 4 % 2

abbrev pub pfn : ℕ → ℕ
pfn entry_lo = entry_lo / 2 ^ 6 % 2 ^ 20

-- Entry `i` is the first that is for the page pair of `virtual_addr`.
pub record IsFirst (m : Mmu) (virtual_addr i : ℕ) : Type 0 where
  pub inside : i < 16
  pub matches : vpn2 (m.tlb_key i) ≡ vpn2 virtual_addr
  pub earlier : (j : ℕ) → j < i → vpn2 (m.tlb_key j) ≢ vpn2 virtual_addr

abbrev pub IsUnmapped : ℕ → Type 0
IsUnmapped virtual_addr = (0x80000000 ≤ virtual_addr) × (virtual_addr < 0xc0000000)

abbrev pub IsMapped : ℕ → Type 0
IsMapped virtual_addr = (virtual_addr < 0x80000000) ⊎ (0xc0000000 ≤ virtual_addr)

abbrev pub load_or_store : Bool → ℕ
load_or_store write = if write then Cp0.exc_tlbs else Cp0.exc_tlbl

-- What the entry says of an access to `virtual_addr`.
abbrev pub through_entry : ℕ → ℕ → Bool → Mmu → Outcome Mmu ℕ
through_entry entry_lo virtual_addr write m =
    if valid_bit entry_lo == 0
    then tlb_exception (load_or_store write) virtual_addr m
    else if write
    then (if dirty_bit entry_lo == 0
        then tlb_exception Cp0.exc_mod virtual_addr m
        else done (pfn entry_lo * 2 ^ 12 + virtual_addr % 2 ^ 12) m)
    else done (pfn entry_lo * 2 ^ 12 + virtual_addr % 2 ^ 12) m

physical_addr_lem :
    (entry_lo virtual_addr : ℕ)
    → bit_or (bit_and (shl32 entry_lo 6) 0xfffff000) (bit_and virtual_addr 0x00000fff)
      ≡ pfn entry_lo * 2 ^ 12 + virtual_addr % 2 ^ 12
physical_addr_lem e v = ground (
  arith,
  bit_and-split 12 (e / 2 ^ 6 % 2 ^ 20) 0xfffff (e * 2 ^ 6 % 2 ^ 12) 0,
  bit_and_ones 20 (e / 2 ^ 6 % 2 ^ 20),
  bit_and-zero (e * 2 ^ 6 % 2 ^ 12),
  bit_and_mask 12 v,
  bit_or_fields 12 (pfn e) (v % 2 ^ 12),
)

tlb_hit_lem :
    (entry_lo virtual_addr : ℕ) (write : Bool) (m : Mmu)
    → tlb_hit entry_lo virtual_addr write m ≡ through_entry entry_lo virtual_addr write m
unfolding tlb_hit
tlb_hit_lem e v w m =
    ground (arith, bit_and_mask 1 (e / 2), bit_and_mask 1 (e / 4), physical_addr_lem e v)

module _ (m : Mmu) (v : ℕ) (w : Bool) where
  search-hit :
      (left i n : ℕ)
      → i ≤ n
      → n < i + left
      → vpn2 (m.tlb_key n) ≡ vpn2 v
      → ((j : ℕ) → j < n → vpn2 (m.tlb_key j) ≢ vpn2 v)
      → tlb_search left i v w m ≡ tlb_hit (m.tlb_data (bit_and (shr v 12) 0x01) n) v w m
  unfolding tlb_search
  search-hit zero i n p q e first = absurd (omega arith)
  search-hit (suc left) i n p q e first =
      ground (
        arith,
        first i,
        λ (later : i + 1 ≤ n). search-hit left (i + 1) n later (omega arith) e first,
      )

  search_miss :
      (left i : ℕ)
      → ((j : ℕ) → j < i + left → vpn2 (m.tlb_key j) ≢ vpn2 v)
      → tlb_search left i v w m ≡ tlb_exception (load_or_store w) v m
  unfolding tlb_search
  search_miss zero i none_fits = refl
  search_miss (suc left) i none_fits =
      ground (arith, none_fits i, search_miss left (i + 1) (λ j h. none_fits j (omega arith)))

unmapped_lem :
    (m : Mmu) (v : ℕ) (w : Bool) → IsUnmapped v → addr_translate v w m ≡ done (v % 2 ^ 29) m
unfolding addr_translate
unmapped_lem m v w h = ground (arith, bit_and_mask 29 v)

mapped_lem :
    (m : Mmu) (v : ℕ) (w : Bool) → IsMapped v → addr_translate v w m ≡ tlb_search 16 0 v w m
unfolding addr_translate
mapped_lem m v w h = ground arith

-- Every case of a translation. An unmapped address is cut to 29 bits, for loads and stores alike. A
-- mapped one goes through the first entry of its page pair, if there is one, and else is reported
-- as a refill exception, of a load or of a store.
pub addr_translate_lem :
    (m : Mmu) (v : ℕ) (w : Bool)
    → (IsUnmapped v → addr_translate v w m ≡ done (v % 2 ^ 29) m)
      × (IsMapped v
          → (i : ℕ) → IsFirst m v i
          → addr_translate v w m ≡ through_entry (m.tlb_data (odd_page v) i) v w m)
      × (IsMapped v
          → ((j : ℕ) → j < 16 → vpn2 (m.tlb_key j) ≢ vpn2 v)
          → addr_translate v w m ≡ tlb_exception (load_or_store w) v m)
addr_translate_lem m v w = (
  unmapped_lem m v w,
  λ mapped i f.
      mapped_lem m v w mapped
      ∙ search-hit m v w 16 0 i (omega arith) (omega (arith, f.inside)) f.matches f.earlier
      ∙ rw (bit_and_mask 1 (v / 2 ^ 12)) (tlb_hit_lem (m.tlb_data (odd_page v) i) v w m),
  λ mapped none_fits.
      mapped_lem m v w mapped ∙ search_miss m v w 16 0 (λ j h. none_fits j (omega (arith, h))),
)
