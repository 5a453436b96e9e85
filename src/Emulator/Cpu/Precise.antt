-- ===== src/Emulator/Cpu/Precise.antt =====
-- A faulting instruction of src/cpu_instructions.cc has no effect but its report: precise exceptions.
use mips32_cpu_emulator.Prelude.{ℕ, ◌≡◌, refl, ap, Bool, true, false}
use mips32_cpu_emulator.Emulator.Outcome.{
  Outcome, done, bind, Ensures, on_done, on_raised, on_undefined, Ensures-if,
}
use mips32_cpu_emulator.Emulator.Word.{int8, of_int}
use mips32_cpu_emulator.Emulator.Cp0
use mips32_cpu_emulator.Emulator.Cp0.Fields.{registers-set_exception_code}
use mips32_cpu_emulator.Emulator.Mmu.{Mmu, write_entry}
use mips32_cpu_emulator.Emulator.Mmu.Frame.{
  IsReport, OnlyReport, Reads, Writes, read_byte-Reads, read_half_word-Reads, read_word-Reads,
  write_byte-Writes, write_word-Writes,
}
use mips32_cpu_emulator.Emulator.Cpu.{Cpu, keep_mmu, cp0, set_cp0, rt}
use mips32_cpu_emulator.Emulator.Cpu.Instructions
use mips32_cpu_emulator.Emulator.Cpu.Instructions.{Instruction, result, advance, branch, address}
use mips32_cpu_emulator.Emulator.Cpu.Decode.{reserved, special_cases, instruction_decode}
use mips32_cpu_emulator.Emulator.Cpu.Decode.Rule.{
  All, ◌&◌, Holds, regimm, privileged, primary, instruction_decode-Holds,
}

-- `c'` is `c` but for the registers of the coprocessor in which a fault is reported.
pub record Faulted (c c' : Cpu) : Type 0 where
  pub registers : c'.registers ≡ c.registers
  pub pc : c'.pc ≡ c.pc
  pub instruction : c'.instruction ≡ c.instruction
  pub hi : c'.hi ≡ c.hi
  pub lo : c'.lo ≡ c.lo
  pub mmu : OnlyReport c.mmu c'.mmu

-- The images behind the ROM and the flash are as they were.
pub record SameImages (c c' : Cpu) : Type 0 where
  pub rom : c'.mmu.rom ≡ c.mmu.rom
  pub flash : c'.mmu.flash ≡ c.mmu.flash

abbrev pub Precise : Cpu → Outcome Cpu (Unit {0}) → Type 0
Precise c = Ensures (λ _ c'. SameImages c c') (Faulted c)

kept : {c c' : Cpu} → c'.mmu.rom ≡ c.mmu.rom → c'.mmu.flash ≡ c.mmu.flash → Precise c (done tt c')
kept p q = on_done (record { rom = p; flash = q })

report-Faulted : (code : ℕ) (c : Cpu) → Faulted c (set_cp0 c (Cp0.set_exception_code code (cp0 c)))
report-Faulted code c = record {
  registers = refl;
  pc = refl;
  instruction = refl;
  hi = refl;
  lo = refl;
  mmu = record {
    ram = refl;
    rom = refl;
    flash = refl;
    tlb_key = refl;
    tlb_data = refl;
    console = refl;
    cp0 = λ i other. registers-set_exception_code code i (cp0 c) (λ e. other (IsReport.in_cause e));
  };
}

-- An access to memory that faults, or goes on.
access-Precise :
    {A : Type 0} {P : A → Mmu → Type 0} {o : Outcome Mmu A} (c : Cpu) (f : A → Instruction)
    → Ensures P (OnlyReport c.mmu) o
    → ((a : A) (m : Mmu) → P a m → Precise c (f a (record c { mmu = m })))
    → Precise c (bind (keep_mmu c o) f)
access-Precise c f (on_done {a} {s = m} h) k = k a m h
access-Precise c f (on_raised h) k =
    on_raised
      (record { registers = refl; pc = refl; instruction = refl; hi = refl; lo = refl; mmu = h })
access-Precise c f on_undefined k = on_undefined

load-Precise :
    {o : Outcome Mmu ℕ} (c : Cpu) (i : Cpu → ℕ) (g : ℕ → ℕ)
    → Reads c.mmu o
    → Precise c (bind (keep_mmu c o) (λ val d. result (i d) (g val) d))
load-Precise c i g h =
    access-Precise c (λ val d. result (i d) (g val) d) h
      λ val m e. kept (ap (λ (t : Mmu). t.rom) e) (ap (λ (t : Mmu). t.flash) e)

store-Precise :
    {o : Outcome Mmu (Unit {0})} (c : Cpu)
    → Writes c.mmu o
    → Precise c (bind (keep_mmu c o) (λ _ d. advance d))
store-Precise c h = access-Precise c (λ _ d. advance d) h λ _ m e. kept e.rom e.flash

branch-Precise : (taken : Bool) (c : Cpu) → Precise c (branch taken c)
unfolding branch
branch-Precise true c = kept refl refl
branch-Precise false c = kept refl refl

special-Precise : All (λ k. Holds Precise k.1) special_cases
unfolding Instructions.exe_sll Instructions.exe_srl Instructions.exe_sra Instructions.exe_sllv
    Instructions.exe_srlv Instructions.exe_srav Instructions.exe_jr Instructions.exe_jalr
    Instructions.exe_syscall Instructions.exe_mfhi Instructions.exe_mthi Instructions.exe_mflo
    Instructions.exe_mtlo Instructions.exe_mult Instructions.exe_addu Instructions.exe_subu
    Instructions.exe_and Instructions.exe_or Instructions.exe_xor Instructions.exe_nor
    Instructions.exe_slt Instructions.exe_sltu
special-Precise =
    (λ c. kept refl refl)
    & (λ c. kept refl refl)
    & (λ c. kept refl refl)
    & (λ c. search (Ensures-if, kept, on_undefined))
    & (λ c. search (Ensures-if, kept, on_undefined))
    & (λ c. search (Ensures-if, kept, on_undefined))
    & (λ c. kept refl refl)
    & (λ c. kept refl refl)
    & (λ c. on_raised (report-Faulted Cp0.exc_syscall c))
    & (λ c. kept refl refl)
    & (λ c. kept refl refl)
    & (λ c. kept refl refl)
    & (λ c. kept refl refl)
    & (λ c. search (Ensures-if, kept, on_undefined))
    & (λ c. kept refl refl)
    & (λ c. kept refl refl)
    & (λ c. kept refl refl)
    & (λ c. kept refl refl)
    & (λ c. kept refl refl)
    & (λ c. kept refl refl)
    & (λ c. kept refl refl)
    & (λ c. kept refl refl)
    & tt

regimm-Precise : All (Holds Precise) regimm
unfolding Instructions.exe_bltz Instructions.exe_bgez
regimm-Precise = (λ c. branch-Precise _ c) & (λ c. branch-Precise _ c) & tt

privileged-Precise : All (Holds Precise) privileged
unfolding Instructions.exe_mfc0 Instructions.exe_mtc0 Instructions.exe_tlbwi Instructions.exe_eret
    write_entry
privileged-Precise =
    (λ c. kept refl refl)
    & (λ c. kept refl refl)
    & (λ c. search (Ensures-if, kept, on_undefined))
    & (λ c. kept refl refl)
    & tt

primary-Precise : All (Holds Precise) primary
unfolding Instructions.exe_j Instructions.exe_jal Instructions.exe_beq Instructions.exe_bne
    Instructions.exe_blez Instructions.exe_bgtz Instructions.exe_addiu Instructions.exe_slti
    Instructions.exe_sltiu Instructions.exe_andi Instructions.exe_ori Instructions.exe_xori
    Instructions.exe_lui Instructions.exe_lb Instructions.exe_lw Instructions.exe_lbu
    Instructions.exe_lhu Instructions.exe_sb Instructions.exe_sw Instructions.exe_cache
primary-Precise =
    (λ c. kept refl refl)
    & (λ c. kept refl refl)
    & (λ c. branch-Precise _ c)
    & (λ c. branch-Precise _ c)
    & (λ c. branch-Precise _ c)
    & (λ c. branch-Precise _ c)
    & (λ c. kept refl refl)
    & (λ c. kept refl refl)
    & (λ c. kept refl refl)
    & (λ c. kept refl refl)
    & (λ c. kept refl refl)
    & (λ c. kept refl refl)
    & (λ c. kept refl refl)
    & (λ c. load-Precise c rt (λ val. of_int (int8 val)) (read_byte-Reads (address c) c.mmu))
    & (λ c. load-Precise c rt (λ val. val) (read_word-Reads (address c) c.mmu))
    & (λ c. load-Precise c rt (λ val. val) (read_byte-Reads (address c) c.mmu))
    & (λ c. load-Precise c rt (λ val. val) (read_half_word-Reads (address c) c.mmu))
    & (λ c. store-Precise c (write_byte-Writes (address c) _ c.mmu))
    & (λ c. store-Precise c (write_word-Writes (address c) _ c.mmu))
    & (λ c. kept refl refl)
    & tt

reserved-Precise : Holds Precise reserved
unfolding reserved
reserved-Precise c = on_raised (report-Faulted Cp0.exc_ri c)

-- An instruction that raises an exception changes only Cause, BadVAddr, Context and EntryHi: the
-- general registers, HI, LO, the program counter, the instruction word, the RAM, the TLB, the
-- console and every other coprocessor register are as before it. One that does not raise leaves the
-- ROM and flash images as they are.
pub instruction_decode-Precise : (c : Cpu) → Precise c (instruction_decode c)
instruction_decode-Precise =
    instruction_decode-Holds Precise reserved-Precise special-Precise regimm-Precise
      privileged-Precise primary-Precise
