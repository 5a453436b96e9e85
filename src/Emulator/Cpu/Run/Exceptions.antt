-- ===== src/Emulator/Cpu/Run/Exceptions.antt =====
-- Entry to an exception in `CPU::run` of src/cpu.h, its return by `eret`, and the clock interrupt.
use mips32_cpu_emulator.Prelude.{
  ℕ, ◌+◌, ◌-◌, ◌*◌, ◌/◌, ◌%◌, ◌^◌, ◌<◌, ◌≤◌, ◌≡◌, ◌≢◌, ◌↔◌, ◌==◌, refl, Bool, true, ◌&&◌, arith,
  Bool-cases, inl, inr, if◌then◌else◌,
}
use mips32_cpu_emulator.Emulator.Outcome.{done, raised}
use mips32_cpu_emulator.Emulator.Cp0
use mips32_cpu_emulator.Emulator.Cp0.{Cp0, write}
use mips32_cpu_emulator.Emulator.Cp0.Fields.{
  exl, im7, exc_code, status_exl_iff, sr-set_status_exl, sr-unset_status_exl, interrupt_enabled_iff,
  line_enabled_iff, cause-set_exception_code, registers-set_exception_code,
  cause-set_interrupt_code, registers-set_status_exl, registers-set_interrupt_code,
}
use mips32_cpu_emulator.Emulator.Cpu.{Cpu, cp0, set_cp0}
use mips32_cpu_emulator.Emulator.Cpu.Instructions.{exe_eret}
use mips32_cpu_emulator.Emulator.Cpu.Run.{clock, enter_exception}

-- What the entry leaves behind.
pub record Entered (c c' : Cpu) : Type 0 where
  pub pc : c'.pc ≡ c.mmu.cp0.registers Cp0.ebase
  pub status :
      c'.mmu.cp0.registers Cp0.sr
      ≡ c.mmu.cp0.registers Cp0.sr / 4 * 4 + 2 + c.mmu.cp0.registers Cp0.sr % 2
  pub return_pc :
      c'.mmu.cp0.registers Cp0.epc
      ≡ (if exl (c.mmu.cp0.registers Cp0.sr) == 0 then c.pc else c.mmu.cp0.registers Cp0.epc)
  pub other_cp0 :
      (i : ℕ) → i ≢ Cp0.sr → i ≢ Cp0.epc → c'.mmu.cp0.registers i ≡ c.mmu.cp0.registers i
  pub registers : c'.registers ≡ c.registers
  pub hi : c'.hi ≡ c.hi
  pub lo : c'.lo ≡ c.lo
  pub instruction : c'.instruction ≡ c.instruction
  pub ram : c'.mmu.ram ≡ c.mmu.ram
  pub rom : c'.mmu.rom ≡ c.mmu.rom
  pub flash : c'.mmu.flash ≡ c.mmu.flash
  pub tlb_key : c'.mmu.tlb_key ≡ c.mmu.tlb_key
  pub tlb_data : c'.mmu.tlb_data ≡ c.mmu.tlb_data
  pub console : c'.mmu.console ≡ c.mmu.console

-- Entering an exception sets EXL, keeps the other bits of Status and jumps to EBase; the return address is saved only from the
-- normal level, so that a fault inside a handler keeps the first one. The general registers, HI,
-- LO, the fetched instruction, the RAM, the images of the ROM and the flash, the TLB, the console
-- and every coprocessor register but Status and EPC are as before.
pub enter_exception-Entered : (c : Cpu) → Entered c (enter_exception c)
unfolding enter_exception
enter_exception-Entered c = record {
  pc = ground (arith, registers-set_status_exl Cp0.ebase (cp0 c));
  status =
      ground (arith, sr-set_status_exl (cp0 c), sr-set_status_exl (write (cp0 c) Cp0.epc c.pc));
  return_pc = ground (
    arith,
    status_exl_iff (cp0 c),
    registers-set_status_exl Cp0.epc (cp0 c),
    registers-set_status_exl Cp0.epc (write (cp0 c) Cp0.epc c.pc),
  );
  other_cp0 = λ i p q. ground (
    arith,
    registers-set_status_exl i (cp0 c),
    registers-set_status_exl i (write (cp0 c) Cp0.epc c.pc),
  );
  registers = ground arith;
  hi = ground arith;
  lo = ground arith;
  instruction = ground arith;
  ram = ground arith;
  rom = ground arith;
  flash = ground arith;
  tlb_key = ground arith;
  tlb_data = ground arith;
  console = ground arith;
}

-- An exception taken at the normal level and left by `eret` at once resumes at the interrupted
-- instruction, with the Status register, the general registers and the RAM that it had.
pub eret-enter_exception :
    (c : Cpu)
    → c.mmu.cp0.registers Cp0.sr < 2 ^ 32
    → exl (c.mmu.cp0.registers Cp0.sr) ≡ 0
    → (d : Cpu) × (exe_eret (enter_exception c) ≡ done tt d)
      × (d.pc ≡ c.pc)
      × (d.mmu.cp0.registers Cp0.sr ≡ c.mmu.cp0.registers Cp0.sr)
      × (d.registers ≡ c.registers)
      × (d.mmu.ram ≡ c.mmu.ram)
unfolding exe_eret
eret-enter_exception c narrow normal =
    let e = enter_exception-Entered c in
    (
      _,
      refl,
      ground (arith, e.return_pc),
      omega (arith, e.status, sr-unset_status_exl (cp0 (enter_exception c))),
      e.registers,
      e.ram,
    )

-- Whether the clock's interrupt is let through: IE set, EXL and ERL clear, IM7 set.
abbrev pub AcceptsClock : Cpu → Type 0
AcceptsClock c = (c.mmu.cp0.registers Cp0.sr % 8 ≡ 1) × (im7 (c.mmu.cp0.registers Cp0.sr) ≡ 1)

-- The interrupt, as the coprocessor shows it.
pub record Interrupted (c c' : Cpu) : Type 0 where
  pub count : c'.mmu.cp0.registers Cp0.count ≡ 0
  pub code : exc_code (c'.mmu.cp0.registers Cp0.cause) ≡ Cp0.exc_int
  pub line : c'.mmu.cp0.registers Cp0.cause / 2 ^ 15 % 2 ≡ 1
  pub pc : c'.pc ≡ c.pc
  pub registers : c'.registers ≡ c.registers

-- The coprocessor with Count cleared, and the state in which the interrupt is raised.
abbrev reset : Cpu → Cp0
reset c = write (cp0 c) Cp0.count 0

abbrev interrupted : Cpu → Cpu
interrupted c =
    set_cp0 c (Cp0.set_exception_code Cp0.exc_int (Cp0.set_interrupt_code Cp0.ip_7 (reset c)))

accepts_iff :
    (c : Cpu)
    → ((Cp0.interrupt_enabled (reset c) && Cp0.line_enabled (reset c) Cp0.ip_7) ≡ true)
      ↔ AcceptsClock c
accepts_iff c = ground (arith, interrupt_enabled_iff (reset c), line_enabled_iff (reset c))

interrupted-Interrupted :
    (c : Cpu) → c.mmu.cp0.registers Cp0.cause < 2 ^ 32 → Interrupted c (interrupted c)
interrupted-Interrupted c narrow = record {
  count = ground (
    arith,
    registers-set_exception_code Cp0.exc_int Cp0.count p,
    registers-set_interrupt_code Cp0.ip_7 Cp0.count (reset c),
  );
  code = omega (arith, line_set, code_set);
  line = omega (arith, line_set, code_set);
  pc = refl;
  registers = refl;
}
  where
    p : Cp0
    p = Cp0.set_interrupt_code Cp0.ip_7 (reset c)

    line_set :
        p.registers Cp0.cause
        ≡ c.mmu.cp0.registers Cp0.cause + (1 - c.mmu.cp0.registers Cp0.cause / 2 ^ 15 % 2) * 2 ^ 15
    line_set = cause-set_interrupt_code (reset c) narrow

    code_set :
        (Cp0.set_exception_code Cp0.exc_int p).registers Cp0.cause
        ≡ p.registers Cp0.cause / 128 * 128 + Cp0.exc_int * 4 + p.registers Cp0.cause % 4
    code_set = cause-set_exception_code Cp0.exc_int p (omega arith) (omega (arith, line_set))

-- The clock after an instruction, where Cause fits 32 bits. While Count is below Compare nothing
-- happens. Where Count is equal to Compare or above it, Count is cleared, and the interrupt is
-- raised, with ExcCode Int and IP7, exactly if IE is set, EXL and ERL are clear and IM7 is set.
pub clock_lem :
    (c : Cpu)
    → c.mmu.cp0.registers Cp0.cause < 2 ^ 32
    → let due = c.mmu.cp0.registers Cp0.compare ≤ c.mmu.cp0.registers Cp0.count in
      (¬ due → clock c ≡ done tt c)
      × (due → AcceptsClock c → (d : Cpu) × (clock c ≡ raised d) × Interrupted c d)
      × (due → ¬ AcceptsClock c → clock c ≡ done tt (set_cp0 c (write (cp0 c) Cp0.count 0)))
unfolding clock
clock_lem c narrow = (
  λ early. ground arith,
  λ due accepts.
      (interrupted c, ground (arith, (accepts_iff c).1 accepts), interrupted-Interrupted c narrow),
  λ due refuses. elim (Bool-cases enabled) [
    | inl e ↦ absurd (refuses ((accepts_iff c).0 e))
    | inr e ↦ ground arith
  ],
)
  where
    enabled : Bool
    enabled = Cp0.interrupt_enabled (reset c) && Cp0.line_enabled (reset c) Cp0.ip_7
