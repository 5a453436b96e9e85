-- ===== src/Emulator/Mmu/Entries.antt =====
-- Writing a TLB entry, as `exe_tlbwi` of src/cpu_instructions.cc does, and translating through it.
use mips32_cpu_emulator.Prelude.{ℕ, ◌<◌, ◌≡◌, ◌≢◌, ◌==◌, ◌∙◌, ap, Bool, arith, if◌then◌else◌}
use mips32_cpu_emulator.Emulator.Cp0
use mips32_cpu_emulator.Emulator.Mmu.{Mmu, addr_translate, write_entry}
use mips32_cpu_emulator.Emulator.Mmu.Tlb.{
  IsFirst, IsMapped, vpn2, odd_page, through_entry, addr_translate_lem,
}

-- Once EntryHi, EntryLo0 and EntryLo1 are written to entry Index, which is below 16, an address of
-- a mapped segment in EntryHi's page pair is translated through EntryLo0 on its even page and
-- EntryLo1 on its odd page, if no earlier entry of the TLB is for that pair.
pub addr_translate-write_entry :
    (m : Mmu) (v : ℕ) (w : Bool)
    → let i = m.cp0.registers Cp0.index in
      i < 16
      → IsMapped v
      → vpn2 (m.cp0.registers Cp0.entry_hi) ≡ vpn2 v
      → ((j : ℕ) → j < i → vpn2 (m.tlb_key j) ≢ vpn2 v)
      → addr_translate v w (write_entry m)
        ≡ through_entry
            (m.cp0.registers (if odd_page v == 0 then Cp0.entry_lo0 else Cp0.entry_lo1))
            v
            w
            (write_entry m)
addr_translate-write_entry m v w inside mapped pair earlier =
    (addr_translate_lem (write_entry m) v w).1 mapped i first
    ∙ ap (λ (e : ℕ). through_entry e v w (write_entry m)) entry
  where
    i : ℕ
    i = m.cp0.registers Cp0.index

    entry :
        (write_entry m).tlb_data (odd_page v) i
        ≡ m.cp0.registers (if odd_page v == 0 then Cp0.entry_lo0 else Cp0.entry_lo1)
    entry = unfold write_entry in ground arith

    first : IsFirst (write_entry m) v i
    first = record {
      inside = inside;
      matches = unfold write_entry in ground arith;
      earlier = λ j h. unfold write_entry in ground (arith, earlier j h);
    }
