-- ===== src/Emulator/Tests.antt =====
-- Runs of the emulator on small inputs, and the theorems applied to them.
use mathlib.Core.Option
use mips32_cpu_emulator.Prelude.{
  ℕ, ◌*◌, ◌+◌, ◌^◌, ◌<◌, ◌≡◌, refl, true, some, List, [], ◌∷◌, get_or, arith, ◌⊎◌, ◌≤◌, ◌==◌,
  if◌then◌else◌,
}
use mips32_cpu_emulator.Emulator.Outcome.{done, raised}
use mips32_cpu_emulator.Emulator.Cp0
use mips32_cpu_emulator.Emulator.Cp0.{Cp0}
use mips32_cpu_emulator.Emulator.Mmu
use mips32_cpu_emulator.Emulator.Mmu.{Mmu, Stream}
use mips32_cpu_emulator.Emulator.Cpu
use mips32_cpu_emulator.Emulator.Cpu.{Cpu}
use mips32_cpu_emulator.Emulator.Cpu.Run.{
  round, run, next, fetch, begin_cycle, clock, enter_exception,
}
use mips32_cpu_emulator.Emulator.Cpu.Instructions
use mips32_cpu_emulator.Emulator.Cpu.Decode.{instruction_decode}
use mips32_cpu_emulator.Emulator.Cpu.Precise.{Precise, instruction_decode-Precise}
use mips32_cpu_emulator.Emulator.Cpu.Run.Faults.{in_instruction, RoundFaults, round-RoundFaults}
use mips32_cpu_emulator.Emulator.Cpu.Run.Exceptions.{
  Entered, Interrupted, clock_lem, enter_exception-Entered, eret-enter_exception,
}
use mips32_cpu_emulator.Emulator.Cpu.Semantics.{exe_mult_lem}
use mips32_cpu_emulator.Emulator.Mmu.Tlb.{IsFirst, addr_translate_lem}
use mips32_cpu_emulator.Emulator.Mmu.Memory.{read_word-write_word}
use mips32_cpu_emulator.Emulator.Mmu.Report.{Reports, report-Reports}
use mips32_cpu_emulator.Emulator.Mmu.Entries.{addr_translate-write_entry}
use mips32_cpu_emulator.Emulator.Isa
use mips32_cpu_emulator.Emulator.Isa.Decode.{instruction_decode-encode}

-- lui $t0, 0x1234; ori $t0, $t0, 0x5678; lw $t1, 1($zero)
abbrev program : List ℕ
program = 0x34 ∷ 0x12 ∷ 0x08 ∷ 0x3c ∷ 0x78 ∷ 0x56 ∷ 0x08 ∷ 0x35 ∷ 0x01 ∷ 0x00 ∷ 0x09 ∷ 0x8c ∷ []

abbrev image : Stream
image = record { size = 12; byte = λ i. get_or program i 0 }

abbrev boot : Cpu
boot = record {
  mmu = record {
    cp0 = record { registers = λ i. 0 };
    ram = λ i. 0;
    rom = image;
    flash = image;
    tlb_key = λ i. 0;
    tlb_data = λ row i. 0;
    console = [];
  };
  registers = λ i. 0;
  pc = 0xbfc00000;
  instruction = 0;
  hi = 0;
  lo = 0;
}

abbrev observed : Cpu → ℕ × ℕ
observed c = (c.registers 8, c.pc)

two_rounds : Option.map observed (run 2 boot) ≡ some (0x12345678, 0xbfc00008)
unfolding run round next fetch begin_cycle clock Mmu.read_word Mmu.addr_translate Mmu.read_physical
    Mmu.read_stream instruction_decode Instructions.exe_lui Instructions.exe_ori Cpu.main_opcode
    Cpu.rs Cpu.rt Cpu.unsigned_immediate Cp0.interrupt_enabled Cp0.line_enabled
two_rounds = refl

-- lw $t1, 1($zero): the address is not aligned.
abbrev misaligned : Cpu
misaligned = record boot { instruction = 0x8c090001 }

instruction_decode-Precise_example : Precise misaligned (instruction_decode misaligned)
instruction_decode-Precise_example = instruction_decode-Precise misaligned

initial-Below : (i : ℕ) → Cp0.initial.registers i < 2 ^ 32
initial-Below i = unfold Cp0.initial in ground arith

-- lw $t1, 1($zero) is the next instruction.
abbrev before_load : Cpu
before_load = record boot { pc = 0xbfc00008 }

round-RoundFaults_example : (c' : Cpu) × (round before_load ≡ some c') × RoundFaults before_load c'
unfolding fetch begin_cycle Mmu.read_word Mmu.addr_translate Mmu.read_physical Mmu.read_stream
    instruction_decode Instructions.exe_lw Mmu.alignment_exception Cpu.main_opcode Cpu.rs Cpu.rt
    Cpu.signed_immediate Cp0.set_exception_code
round-RoundFaults_example = round-RoundFaults before_load _ (in_instruction refl refl)

-- One valid, writable entry: pages 0x400 and 0x401 go to frames 5 and 6.
abbrev paged : Mmu
paged =
    let m = boot.mmu in
    record m {
      cp0 = record {
        registers = λ i. if i == 10 then 0x00400000 else if i == 2 then 0x146 else 0x186;
      };
      tlb_key = λ i. if i == 0 then 0x00400000 else 0xffffe000;
      tlb_data = λ row i. if row == 0 then 0x146 else 0x186;
    }

-- The same machine before `tlbwi`, with Index 3.
abbrev fresh_entry : Mmu
fresh_entry = record paged {
  cp0 = record {
    registers =
        λ i. if i == 0 then 3 else if i == 10 then 0x00400000 else if i == 2 then 0x146 else 0x186;
  };
  tlb_key = λ i. 0xffffe000;
}

paged-IsFirst : IsFirst paged 0x00401abc 0
paged-IsFirst = record {
  inside = omega arith;
  matches = refl;
  earlier = λ j h. absurd (omega arith);
}

addr_translate_lem_example : Mmu.addr_translate 0x00401abc true paged ≡ done 0x6abc paged
addr_translate_lem_example =
    (addr_translate_lem paged 0x00401abc true).1 (omega arith) 0 paged-IsFirst

read_word-write_word_example :
    (m' : Mmu) × (Mmu.write_word 0x80000100 0x12345678 paged ≡ done tt m')
    × (Mmu.read_word 0x80000100 m' ≡ done 0x12345678 m')
    × ((a : ℕ) → (a < 0x100) ⊎ (0x100 + 4 ≤ a) → m'.ram a ≡ 0)
    × (m'.cp0 ≡ paged.cp0)
    × (m'.tlb_key ≡ paged.tlb_key)
    × (m'.tlb_data ≡ paged.tlb_data)
    × (m'.console ≡ [])
    × (m'.rom ≡ paged.rom)
    × (m'.flash ≡ paged.flash)
unfolding Mmu.addr_translate
read_word-write_word_example =
    read_word-write_word 0x80000100 0x12345678 0x100 paged refl refl (omega arith) (omega arith)
      (λ a. omega arith)

report-Reports_example :
    Reports Cp0.exc_tlbl 0x00403000 Cp0.initial (Mmu.report Cp0.exc_tlbl 0x00403000 Cp0.initial)
report-Reports_example =
    report-Reports Cp0.exc_tlbl 0x00403000 Cp0.initial (omega arith) (omega arith) initial-Below

addr_translate-write_entry_example :
    Mmu.addr_translate 0x00401abc true (Mmu.write_entry fresh_entry)
    ≡ done 0x6abc (Mmu.write_entry fresh_entry)
addr_translate-write_entry_example =
    addr_translate-write_entry fresh_entry 0x00401abc true (omega arith) (omega arith) refl
      (λ j h. omega arith)

-- addu $t2, $t0, $t1
instruction_decode-encode_example :
    let held = record boot { instruction = 0x01095021 } in
    (instruction_decode held ≡ Instructions.exe_addu held)
    × ((Cpu.rs held ≡ 8) × (Cpu.rt held ≡ 9) × (Cpu.rd held ≡ 10) × (Cpu.shift held ≡ 0))
unfolding Isa.encode Isa.method
instruction_decode-encode_example =
    instruction_decode-encode (Isa.special Isa.addu 8 9 10 0) boot (omega arith)

-- Compare is 5, and the clock's line is enabled.
abbrev ticking : ℕ → Cpu
ticking count =
    Cpu.set_cp0 boot
      (record { registers = λ i. if i == 9 then count else if i == 11 then 5 else 0x8001 })

clock_lem_example : (d : Cpu) × (clock (ticking 5) ≡ raised d) × Interrupted (ticking 5) d
clock_lem_example = (clock_lem (ticking 5) (omega arith)).1 (omega arith) (omega arith)

-- At the normal level, with interrupts enabled.
abbrev normal : Cpu
normal = record (ticking 3) { pc = 0x80001234 }

enter_exception-Entered_example : Entered normal (enter_exception normal)
enter_exception-Entered_example = enter_exception-Entered normal

eret-enter_exception_example :
    (d : Cpu) × (Instructions.exe_eret (enter_exception normal) ≡ done tt d)
    × (d.pc ≡ 0x80001234)
    × (d.mmu.cp0.registers Cp0.sr ≡ 0x8001)
    × (d.registers ≡ normal.registers)
    × (d.mmu.ram ≡ normal.mmu.ram)
eret-enter_exception_example = eret-enter_exception normal (omega arith) refl

-- Registers 8 and 9 hold the factors, or -12 and 2.
abbrev operands : ℕ → ℕ → ℕ → Cpu
operands x y word = record boot { registers = λ i. if i == 8 then x else y; instruction = word }

-- mult $t0, $t1
exe_mult_lem_example :
    (d : Cpu) × (Instructions.exe_mult (operands 100000 100000 0x01090018) ≡ done tt d)
    × (d.hi * 2 ^ 32 + d.lo ≡ 10000000000)
    × (d.registers ≡ (operands 100000 100000 0x01090018).registers)
unfolding Cpu.rs Cpu.rt
exe_mult_lem_example = (exe_mult_lem (operands 100000 100000 0x01090018)).0 (omega arith)
