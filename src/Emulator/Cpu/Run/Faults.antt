-- ===== src/Emulator/Cpu/Run/Faults.antt =====
-- A round of the main loop in src/cpu.h whose fetch or instruction raises an exception.
use mips32_cpu_emulator.Prelude.{
  ℕ, ◌+◌, ◌*◌, ◌/◌, ◌%◌, ◌^◌, ◌≡◌, ◌≢◌, ◌==◌, refl, ap, subst, ◌∙◌, false, some, arith,
  if◌then◌else◌,
}
use mips32_cpu_emulator.Emulator.Outcome.{
  Outcome, done, raised, Ensures, on_done, on_raised, on_undefined, Ensures-done, Ensures-raised,
}
use mips32_cpu_emulator.Emulator.Cp0
use mips32_cpu_emulator.Emulator.Cp0.Fields.{exl}
use mips32_cpu_emulator.Emulator.Mmu.{Mmu}
use mips32_cpu_emulator.Emulator.Mmu.Frame.{
  IsReport, in_cause, in_bad_vaddr, in_context, in_entry_hi, OnlyReport, Reads, read_word-Reads,
}
use mips32_cpu_emulator.Emulator.Cpu.{Cpu, keep_mmu}
use mips32_cpu_emulator.Emulator.Cpu.Decode.{instruction_decode}
use mips32_cpu_emulator.Emulator.Cpu.Precise.{Faulted, instruction_decode-Precise}
use mips32_cpu_emulator.Emulator.Cpu.Run.{begin_cycle, fetch, fetched, next, enter_exception, round}
use mips32_cpu_emulator.Emulator.Cpu.Run.Exceptions.{Entered, enter_exception-Entered}

-- The fetch of the round, or the instruction that it fetched, raises an exception in the state `d`.
pub data Raises (c d : Cpu) : Type 0 where
  in_fetch : fetch (begin_cycle c) ≡ raised d → Raises c d
  in_instruction :
      {fetched_at : Cpu}
      → fetch (begin_cycle c) ≡ done tt fetched_at
      → instruction_decode fetched_at ≡ raised d
      → Raises c d

-- What such a round leaves.
pub record RoundFaults (c c' : Cpu) : Type 0 where
  pub pc : c'.pc ≡ c.mmu.cp0.registers Cp0.ebase
  pub return_pc :
      c'.mmu.cp0.registers Cp0.epc
      ≡ (if exl (c.mmu.cp0.registers Cp0.sr) == 0 then c.pc else c.mmu.cp0.registers Cp0.epc)
  pub status :
      c'.mmu.cp0.registers Cp0.sr
      ≡ c.mmu.cp0.registers Cp0.sr / 4 * 4 + 2 + c.mmu.cp0.registers Cp0.sr % 2
  pub count : c'.mmu.cp0.registers Cp0.count ≡ (c.mmu.cp0.registers Cp0.count + 1) % 2 ^ 32
  pub other_cp0 :
      (i : ℕ)
      → ¬ IsReport i
      → i ≢ Cp0.sr
      → i ≢ Cp0.epc
      → i ≢ Cp0.count
      → c'.mmu.cp0.registers i ≡ c.mmu.cp0.registers i
  pub zero : c'.registers 0 ≡ 0
  pub registers : (i : ℕ) → i ≢ 0 → c'.registers i ≡ c.registers i
  pub hi : c'.hi ≡ c.hi
  pub lo : c'.lo ≡ c.lo
  pub ram : c'.mmu.ram ≡ c.mmu.ram
  pub rom : c'.mmu.rom ≡ c.mmu.rom
  pub flash : c'.mmu.flash ≡ c.mmu.flash
  pub tlb_key : c'.mmu.tlb_key ≡ c.mmu.tlb_key
  pub tlb_data : c'.mmu.tlb_data ≡ c.mmu.tlb_data
  pub console : c'.mmu.console ≡ c.mmu.console

-- Nothing differs but the report and the instruction that is held.
record Unchanged (b d : Cpu) : Type 0 where
  pub registers : d.registers ≡ b.registers
  pub pc : d.pc ≡ b.pc
  pub hi : d.hi ≡ b.hi
  pub lo : d.lo ≡ b.lo
  pub mmu : OnlyReport b.mmu d.mmu

OnlyReport-refl : (m m' : Mmu) → m' ≡ m → OnlyReport m m'
OnlyReport-refl m m' e = record {
  ram = ap (λ (t : Mmu). t.ram) e;
  rom = ap (λ (t : Mmu). t.rom) e;
  flash = ap (λ (t : Mmu). t.flash) e;
  tlb_key = ap (λ (t : Mmu). t.tlb_key) e;
  tlb_data = ap (λ (t : Mmu). t.tlb_data) e;
  console = ap (λ (t : Mmu). t.console) e;
  cp0 = λ i other. ap (λ (t : Mmu). t.cp0.registers i) e;
}

fetched-Unchanged :
    (b : Cpu) {o : Outcome Mmu ℕ}
    → Reads b.mmu o
    → Ensures (λ _ d. Unchanged b d) (Unchanged b) (fetched (keep_mmu b o))
fetched-Unchanged b (on_done {s} e) =
    on_done (record {
      registers = refl;
      pc = refl;
      hi = refl;
      lo = refl;
      mmu = OnlyReport-refl b.mmu s e;
    })
fetched-Unchanged b (on_raised h) =
    on_raised (record { registers = refl; pc = refl; hi = refl; lo = refl; mmu = h })
fetched-Unchanged b on_undefined = on_undefined

fetch-Unchanged : (b : Cpu) → Ensures (λ _ d. Unchanged b d) (Unchanged b) (fetch b)
unfolding fetch
fetch-Unchanged b = fetched-Unchanged b (read_word-Reads b.pc b.mmu)

Unchanged-Faulted : (a b d : Cpu) → Unchanged a b → Faulted b d → Unchanged a d
Unchanged-Faulted a b d u f = record {
  registers = f.registers ∙ u.registers;
  pc = f.pc ∙ u.pc;
  hi = f.hi ∙ u.hi;
  lo = f.lo ∙ u.lo;
  mmu = record {
    ram = f.mmu.ram ∙ u.mmu.ram;
    rom = f.mmu.rom ∙ u.mmu.rom;
    flash = f.mmu.flash ∙ u.mmu.flash;
    tlb_key = f.mmu.tlb_key ∙ u.mmu.tlb_key;
    tlb_data = f.mmu.tlb_data ∙ u.mmu.tlb_data;
    console = f.mmu.console ∙ u.mmu.console;
    cp0 = λ i other. f.mmu.cp0 i other ∙ u.mmu.cp0 i other;
  };
}

Raises-Unchanged : (c d : Cpu) → Raises c d → Unchanged (begin_cycle c) d
Raises-Unchanged c d (in_fetch e) = Ensures-raised (
    subst (Ensures (λ _ d. Unchanged (begin_cycle c) d) (Unchanged (begin_cycle c))) e
      (fetch-Unchanged (begin_cycle c)))
Raises-Unchanged c d (in_instruction {fetched_at} e e') =
    Unchanged-Faulted (begin_cycle c) fetched_at d
      (Ensures-done (
        subst (Ensures (λ _ d. Unchanged (begin_cycle c) d) (Unchanged (begin_cycle c))) e
          (fetch-Unchanged (begin_cycle c))))
      (Ensures-raised
        (subst (Ensures _ (Faulted fetched_at)) e' (instruction_decode-Precise fetched_at)))

Raises-round : (c d : Cpu) → Raises c d → round c ≡ some (enter_exception d)
unfolding round next
Raises-round c d (in_fetch e) = rw e refl
Raises-round c d (in_instruction e e') = rw (e, e') refl

apart :
    (i : ℕ) → i ≢ Cp0.cause → i ≢ Cp0.bad_vaddr → i ≢ Cp0.context → i ≢ Cp0.entry_hi → ¬ IsReport i
apart i p q r s (in_cause e) = p e
apart i p q r s (in_bad_vaddr e) = q e
apart i p q r s (in_context e) = r e
apart i p q r s (in_entry_hi e) = s e

-- A coprocessor register that is neither in the report nor Count is that of the start of the round.
same_cp0 :
    (c d : Cpu) (i : ℕ)
    → Unchanged (begin_cycle c) d
    → ¬ IsReport i
    → i ≢ Cp0.count
    → d.mmu.cp0.registers i ≡ c.mmu.cp0.registers i
unfolding begin_cycle
same_cp0 c d i u other no_count =
    let differs : (Cp0.count == i) ≡ false = ground arith in u.mmu.cp0 i other ∙ rw differs refl

Unchanged-RoundFaults :
    (c d : Cpu)
    → Unchanged (begin_cycle c) d
    → Entered d (enter_exception d)
    → RoundFaults c (enter_exception d)
unfolding begin_cycle
Unchanged-RoundFaults c d u e =
    let same : (i : ℕ)
        → i ≢ Cp0.cause
        → i ≢ Cp0.bad_vaddr
        → i ≢ Cp0.context
        → i ≢ Cp0.entry_hi
        → i ≢ Cp0.count
        → d.mmu.cp0.registers i ≡ c.mmu.cp0.registers i =
      λ i p q r s no_count. same_cp0 c d i u (apart i p q r s) no_count in
    let sr = same Cp0.sr (omega arith) (omega arith) (omega arith) (omega arith) (omega arith) in
    let epc = same Cp0.epc (omega arith) (omega arith) (omega arith) (omega arith) (omega arith) in
    let count_up =
      u.mmu.cp0 Cp0.count
        (apart Cp0.count (omega arith) (omega arith) (omega arith) (omega arith)) in
    record {
      pc =
          e.pc
          ∙ same Cp0.ebase (omega arith) (omega arith) (omega arith) (omega arith) (omega arith);
      return_pc = e.return_pc ∙ rw (sr, u.pc, epc) refl;
      status = e.status ∙ ap (λ n. n / 4 * 4 + 2 + n % 2) sr;
      count = e.other_cp0 Cp0.count (omega arith) (omega arith) ∙ count_up;
      other_cp0 = λ i other no_sr no_epc no_count.
          e.other_cp0 i no_sr no_epc ∙ same_cp0 c d i u other no_count;
      zero = ap (λ f. f 0) (e.registers ∙ u.registers);
      registers = λ i some_register.
          let differs : (0 == i) ≡ false = ground arith in
          ap (λ f. f i) (e.registers ∙ u.registers) ∙ rw differs refl;
      hi = e.hi ∙ u.hi;
      lo = e.lo ∙ u.lo;
      ram = e.ram ∙ u.mmu.ram;
      rom = e.rom ∙ u.mmu.rom;
      flash = e.flash ∙ u.mmu.flash;
      tlb_key = e.tlb_key ∙ u.mmu.tlb_key;
      tlb_data = e.tlb_data ∙ u.mmu.tlb_data;
      console = e.console ∙ u.mmu.console;
    }

-- A round whose fetch raises an exception, or whose instruction does after it was fetched: the loop goes
-- on at EBase with EXL set, EPC is the address of that instruction if the round began at the normal level,
-- and else kept; Count is one higher modulo 2 ^ 32 and register 0 is 0. The other general registers, HI,
-- LO, the RAM, the images of the ROM and the flash, the TLB and the console are as before the round, and
-- so are the other coprocessor registers except Cause, BadVAddr, Context and EntryHi.
pub round-RoundFaults :
    (c d : Cpu) → Raises c d → (c' : Cpu) × (round c ≡ some c') × RoundFaults c c'
round-RoundFaults c d raises = (
  enter_exception d,
  Raises-round c d raises,
  Unchanged-RoundFaults c d (Raises-Unchanged c d raises) (enter_exception-Entered d),
)
