-- ===== src/Emulator/Cpu.antt =====
-- The processor: class CPU of src/cpu.h. Here are its state and the fields of an instruction; the
-- instructions are in `Instructions`, their dispatch in `Decode` and the main loop in `Run`.
pub mod Instructions
pub mod Decode
pub mod Run
pub mod Precise
pub mod Semantics
use mips32_cpu_emulator.Prelude.{ℕ, ◌+◌, ◌-◌, ◌*◌, Bool, true, false, bit_and, if◌then◌else◌}
use mips32_cpu_emulator.Prelude.Int.{ℤ}
use mips32_cpu_emulator.Emulator.Word.{add32, shr, int16, of_int}
use mips32_cpu_emulator.Emulator.Outcome.{Outcome, done, raised, undefined, Exec, bind}
use mips32_cpu_emulator.Emulator.Cp0.{Cp0, update}
use mips32_cpu_emulator.Emulator.Mmu
use mips32_cpu_emulator.Emulator.Mmu.{Mmu, Stream}

-- `cp0_` is the coprocessor inside `mmu`, which holds a reference to it.
pub record Cpu : Type 0 where
  pub mmu : Mmu
  pub registers : ℕ → ℕ
  pub pc : ℕ
  pub instruction : ℕ
  pub hi : ℕ
  pub lo : ℕ

abbrev pub pc_initial : ℕ
pc_initial = 0xbfc00000

abbrev pub reg_zero : ℕ
reg_zero = 0

abbrev pub reg_ra : ℕ
reg_ra = 31

-- The constructor. What it leaves uninitialised is an argument.
unfoldable pub initial : (ℕ → ℕ) → ℕ → ℕ → ℕ → (ℕ → ℕ) → (ℕ → ℕ → ℕ) → Stream → Stream → Cpu
initial registers instruction hi lo tlb_key tlb_data rom flash = record {
  mmu = Mmu.initial tlb_key tlb_data rom flash;
  registers = registers;
  pc = pc_initial;
  instruction = instruction;
  hi = hi;
  lo = lo;
}

abbrev pub cp0 : Cpu → Cp0
cp0 c = c.mmu.cp0

abbrev pub set_cp0 : Cpu → Cp0 → Cpu
set_cp0 c p = let m = c.mmu in record c { mmu = record m { cp0 = p } }

-- A call of the memory management unit.
abbrev pub keep_mmu : {A : Type 0} → Cpu → Outcome Mmu A → Outcome Cpu A
keep_mmu c (done a m) = done a (record c { mmu = m })
keep_mmu c (raised m) = raised (record c { mmu = m })
keep_mmu c undefined = undefined

abbrev pub on_mmu : {A : Type 0} → Exec Mmu A → Exec Cpu A
on_mmu e c = keep_mmu c (e c.mmu)

-- `registers_[i] = v`
abbrev pub set_register : Cpu → ℕ → ℕ → Cpu
set_register c i v = record c { registers = update c.registers i v }

-- The fields of `instruction_`.
unfoldable pub main_opcode : Cpu → ℕ
main_opcode c = shr c.instruction 26

unfoldable pub sub_opcode : Cpu → ℕ
sub_opcode c = bit_and c.instruction 0x3f

unfoldable pub rs : Cpu → ℕ
rs c = bit_and (shr c.instruction 21) 0x1f

unfoldable pub rt : Cpu → ℕ
rt c = bit_and (shr c.instruction 16) 0x1f

unfoldable pub rd : Cpu → ℕ
rd c = bit_and (shr c.instruction 11) 0x1f

unfoldable pub shift : Cpu → ℕ
shift c = bit_and (shr c.instruction 6) 0x1f

unfoldable pub branch_offset : Cpu → ℤ
branch_offset c = int16 (bit_and c.instruction 0xffff)

unfoldable pub jump_target : Cpu → ℕ
jump_target c = bit_and c.instruction 0x3ffffff

unfoldable pub signed_immediate : Cpu → ℤ
signed_immediate c = int16 (bit_and c.instruction 0xffff)

unfoldable pub unsigned_immediate : Cpu → ℕ
unsigned_immediate c = bit_and c.instruction 0xffff
