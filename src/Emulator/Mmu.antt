-- ===== src/Emulator/Mmu.antt =====
-- The memory management unit: class MMU of src/mmu.h, with the physical devices behind it.
pub mod Frame
pub mod Entries
pub mod Memory
pub mod Report
pub mod Tlb
use mips32_cpu_emulator.Prelude.{
  ℕ, zero, suc, ◌+◌, ◌-◌, ◌*◌, ◌%◌, ◌^◌, ◌==◌, Bool, true, false, ◌&&◌, List, [], ◌∷◌, ◌++◌, ltb,
  leb, bit_and, bit_or, if◌then◌else◌,
}
use mips32_cpu_emulator.Emulator.Word.{add32, shl32, shr, test}
use mips32_cpu_emulator.Emulator.Outcome.{done, raised, undefined, Exec, ◌>>=◌, ◌>>◌}
use mips32_cpu_emulator.Emulator.Cp0
use mips32_cpu_emulator.Emulator.Cp0.{Cp0, update, write}

abbrev pub kseg0_base : ℕ
kseg0_base = 0x80000000

abbrev pub kseg0_size : ℕ
kseg0_size = 0x20000000

abbrev pub kseg1_base : ℕ
kseg1_base = 0xa0000000

abbrev pub kseg1_size : ℕ
kseg1_size = 0x20000000

abbrev pub ram_base : ℕ
ram_base = 0

abbrev pub ram_size : ℕ
ram_size = 1024 * 1024 * 8

abbrev pub rom_base : ℕ
rom_base = 0x1fc00000

abbrev pub rom_size : ℕ
rom_size = 1024 * 4

abbrev pub flash_base : ℕ
flash_base = 0x1e000000

abbrev pub flash_size : ℕ
flash_size = 1024 * 1024 * 8

abbrev pub serial_port : ℕ
serial_port = 0x1fd003f8

abbrev pub serial_status : ℕ
serial_status = 0x1fd003fc

abbrev pub tlb_entries : ℕ
tlb_entries = 16

-- A `std::istream` over a buffer: its bytes, and how many there are.
pub record Stream : Type 0 where
  pub size : ℕ
  pub byte : ℕ → ℕ

-- `cp0` is the coprocessor that the reference `cp0_` names; `console` is what went to `std::cout`,
-- oldest byte first. `tlb_data 0` and `tlb_data 1` are the two rows of `tlb_data_`.
pub record Mmu : Type 0 where
  pub cp0 : Cp0
  pub ram : ℕ → ℕ
  pub rom : Stream
  pub flash : Stream
  pub tlb_key : ℕ → ℕ
  pub tlb_data : ℕ → ℕ → ℕ
  pub console : List ℕ

-- `seekg` and `read` of one byte. Past the end the byte stays uninitialised.
unfoldable pub read_stream : Stream → ℕ → Exec Mmu ℕ
read_stream s offset m = if ltb offset s.size then done (s.byte offset) m else undefined

abbrev pub in_range : ℕ → ℕ → ℕ → Bool
in_range base size addr = leb base addr && ltb addr (base + size)

-- The serial port reads as other space: its branch is empty.
unfoldable pub read_physical : ℕ → Exec Mmu ℕ
unfolding read_stream
read_physical addr m =
    if in_range ram_base ram_size addr
    then done (m.ram (addr - ram_base)) m
    else if in_range rom_base rom_size addr
    then read_stream m.rom (addr - rom_base) m
    else if in_range flash_base flash_size addr
    then read_stream m.flash (addr - flash_base) m
    else if addr == serial_status
    then done 0x01 m
    else done 0x00 m

unfoldable pub write_ram : ℕ → ℕ → Mmu → Mmu
write_ram addr byte m =
    if in_range ram_base ram_size addr
    then record m { ram = update m.ram (addr - ram_base) byte }
    else m

unfoldable pub write_serial : ℕ → ℕ → Mmu → Mmu
write_serial addr byte m =
    if addr == serial_port then record m { console = m.console ++ byte ∷ [] } else m

-- The two tests stand in sequence, with no return between them.
unfoldable pub write_physical : ℕ → ℕ → Exec Mmu (Unit {0})
unfolding write_ram write_serial
write_physical addr byte m = done tt (write_serial addr byte (write_ram addr byte m))

-- The report of a failed translation: the code, and the address in three registers.
unfoldable pub report : ℕ → ℕ → Cp0 → Cp0
report exc_code virtual_addr c =
    let c1 = Cp0.set_exception_code exc_code c in
    let c2 = write c1 Cp0.bad_vaddr virtual_addr in
    let c3 = write c2 Cp0.context (bit_and (c2.registers Cp0.context) 0xff80000f) in
    let c4 =
      write c3 Cp0.context (bit_or (c3.registers Cp0.context) (shl32 (shr virtual_addr 13) 4)) in
    let c5 = write c4 Cp0.entry_hi (bit_and (c4.registers Cp0.entry_hi) 0x00001fff) in
    write c5 Cp0.entry_hi (bit_or (c5.registers Cp0.entry_hi) (bit_and virtual_addr 0xffffe000))

unfoldable pub tlb_exception : {A : Type 0} → ℕ → ℕ → Exec Mmu A
tlb_exception exc_code virtual_addr m =
    raised (record m { cp0 = report exc_code virtual_addr m.cp0 })

-- The branch of the loop whose entry matches: the V bit, the D bit, the address.
unfoldable pub tlb_hit : ℕ → ℕ → Bool → Exec Mmu ℕ
tlb_hit entry_lo virtual_addr write m =
    if bit_and (shr entry_lo 1) 0x01 == 0
    then tlb_exception (if write then Cp0.exc_tlbs else Cp0.exc_tlbl) virtual_addr m
    else if (bit_and (shr entry_lo 2) 0x01 == 0) && write
    then tlb_exception Cp0.exc_mod virtual_addr m
    else done (bit_or (bit_and (shl32 entry_lo 6) 0xfffff000) (bit_and virtual_addr 0x00000fff)) m

-- The loop from entry `i` on, with `left` entries to try; past the last one, the refill exception.
unfoldable pub tlb_search : ℕ → ℕ → ℕ → Bool → Exec Mmu ℕ
tlb_search zero i virtual_addr write m =
    tlb_exception (if write then Cp0.exc_tlbs else Cp0.exc_tlbl) virtual_addr m
tlb_search (suc left) i virtual_addr write m =
    let rest = tlb_search left (i + 1) virtual_addr write m in
    if shr (m.tlb_key i) 13 == shr virtual_addr 13
    then tlb_hit (m.tlb_data (bit_and (shr virtual_addr 12) 0x01) i) virtual_addr write m
    else rest

unfoldable pub addr_translate : ℕ → Bool → Exec Mmu ℕ
addr_translate virtual_addr write m =
    if in_range kseg0_base kseg0_size virtual_addr
    then done (bit_and virtual_addr 0x1fffffff) m
    else if in_range kseg1_base kseg1_size virtual_addr
    then done (bit_and virtual_addr 0x1fffffff) m
    else tlb_search tlb_entries 0 virtual_addr write m

-- The report of an address that is not aligned.
unfoldable pub alignment_exception : {A : Type 0} → ℕ → ℕ → Exec Mmu A
alignment_exception exc_code virtual_addr m =
    raised
      (record m { cp0 = write (Cp0.set_exception_code exc_code m.cp0) Cp0.bad_vaddr virtual_addr })

unfoldable pub read_byte : ℕ → Exec Mmu ℕ
read_byte virtual_addr = do
  physical_addr ← addr_translate virtual_addr false
  read_physical physical_addr

unfoldable pub read_half_word : ℕ → Exec Mmu ℕ
read_half_word virtual_addr m =
    if test (bit_and virtual_addr 0x01)
    then alignment_exception Cp0.exc_adel virtual_addr m
    else (do
      physical_addr ← addr_translate virtual_addr false
      b0 ← read_physical (add32 physical_addr 0)
      b1 ← read_physical (add32 physical_addr 1)
      done (bit_or b0 (shl32 b1 8)))
        m

-- The order in which C++ makes the four reads is open; they change nothing.
unfoldable pub read_word : ℕ → Exec Mmu ℕ
read_word virtual_addr m =
    if test (bit_and virtual_addr 0x03)
    then alignment_exception Cp0.exc_adel virtual_addr m
    else (do
      physical_addr ← addr_translate virtual_addr false
      b0 ← read_physical (add32 physical_addr 0)
      b1 ← read_physical (add32 physical_addr 1)
      b2 ← read_physical (add32 physical_addr 2)
      b3 ← read_physical (add32 physical_addr 3)
      done (bit_or (bit_or (bit_or b0 (shl32 b1 8)) (shl32 b2 16)) (shl32 b3 24)))
        m

-- The cast to `uint8_t`.
abbrev pub u8 : ℕ → ℕ
u8 x = x % 2 ^ 8

unfoldable pub write_byte : ℕ → ℕ → Exec Mmu (Unit {0})
write_byte virtual_addr byte = do
  physical_addr ← addr_translate virtual_addr true
  write_physical physical_addr byte

unfoldable pub write_half_word : ℕ → ℕ → Exec Mmu (Unit {0})
write_half_word virtual_addr half m =
    if test (bit_and virtual_addr 0x01)
    then alignment_exception Cp0.exc_ades virtual_addr m
    else (do
      physical_addr ← addr_translate virtual_addr true
      write_physical (add32 physical_addr 0) (u8 half)
      write_physical (add32 physical_addr 1) (u8 (shr half 8)))
        m

unfoldable pub write_word : ℕ → ℕ → Exec Mmu (Unit {0})
write_word virtual_addr word m =
    if test (bit_and virtual_addr 0x03)
    then alignment_exception Cp0.exc_ades virtual_addr m
    else (do
      physical_addr ← addr_translate virtual_addr true
      write_physical (add32 physical_addr 0) (u8 word)
      write_physical (add32 physical_addr 1) (u8 (shr word 8))
      write_physical (add32 physical_addr 2) (u8 (shr word 16))
      write_physical (add32 physical_addr 3) (u8 (shr word 24)))
        m

-- The three stores of `tlbwi`, at an index inside the arrays.
unfoldable pub write_entry : Mmu → Mmu
write_entry m =
    let i = m.cp0.registers Cp0.index in
    let row0 = update (m.tlb_data 0) i (m.cp0.registers Cp0.entry_lo0) in
    let row1 = update (m.tlb_data 1) i (m.cp0.registers Cp0.entry_lo1) in
    record m {
      tlb_key = update m.tlb_key i (m.cp0.registers Cp0.entry_hi);
      tlb_data = λ row. if row == 0 then row0 else if row == 1 then row1 else m.tlb_data row;
    }

-- The constructor: the RAM is zero, and the TLB holds what it may.
unfoldable pub initial : (ℕ → ℕ) → (ℕ → ℕ → ℕ) → Stream → Stream → Mmu
initial tlb_key tlb_data rom flash = record {
  cp0 = Cp0.initial;
  ram = λ i. 0;
  rom = rom;
  flash = flash;
  tlb_key = tlb_key;
  tlb_data = tlb_data;
  console = [];
}
