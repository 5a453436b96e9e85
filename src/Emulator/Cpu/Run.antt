-- ===== src/Emulator/Cpu/Run.antt =====
-- The main loop: `CPU::run` and `CPU::next` of src/cpu.h.
pub mod Exceptions
pub mod Faults
use mips32_cpu_emulator.Prelude.{ℕ, zero, suc, ◌&&◌, not, Option, some, none, leb, if◌then◌else◌}
use mips32_cpu_emulator.Emulator.Word.{add32}
use mips32_cpu_emulator.Emulator.Outcome.{Outcome, done, raised, undefined, bind}
use mips32_cpu_emulator.Emulator.Cp0
use mips32_cpu_emulator.Emulator.Cp0.{write}
use mips32_cpu_emulator.Emulator.Mmu
use mips32_cpu_emulator.Emulator.Cpu.{Cpu, cp0, set_cp0, set_register, on_mmu, reg_zero}
use mips32_cpu_emulator.Emulator.Cpu.Instructions.{Instruction}
use mips32_cpu_emulator.Emulator.Cpu.Decode.{instruction_decode}

-- The zero register is reset and `Count` goes up.
unfoldable pub begin_cycle : Cpu → Cpu
begin_cycle c =
    let c' = set_register c reg_zero 0x00 in
    set_cp0 c' (write (cp0 c') Cp0.count (add32 ((cp0 c').registers Cp0.count) 1))

-- `instruction_` is assigned on a failed fetch too: `read_word` then returns 0.
abbrev pub fetched : Outcome Cpu ℕ → Outcome Cpu (Unit {0})
fetched (done word c) = done tt (record c { instruction = word })
fetched (raised c) = raised (record c { instruction = 0x00 })
fetched undefined = undefined

unfoldable pub fetch : Instruction
fetch c = fetched (on_mmu (Mmu.read_word c.pc) c)

-- The clock: after the instruction, `Count` is compared with `Compare`.
unfoldable pub clock : Instruction
clock c =
    if leb ((cp0 c).registers Cp0.compare) ((cp0 c).registers Cp0.count)
    then (let c' = set_cp0 c (write (cp0 c) Cp0.count 0x00) in
        if Cp0.interrupt_enabled (cp0 c') && Cp0.line_enabled (cp0 c') Cp0.ip_7
        then raised (
            set_cp0 c'
              (Cp0.set_exception_code Cp0.exc_int (Cp0.set_interrupt_code Cp0.ip_7 (cp0 c'))))
        else done tt c')
    else done tt c

unfoldable pub next : Instruction
next c = bind (fetch (begin_cycle c)) λ _ c1. bind (instruction_decode c1) λ _ c2. clock c2

-- What the loop does when `exception` is set.
unfoldable pub enter_exception : Cpu → Cpu
enter_exception c =
    let c1 = if not (Cp0.status_exl (cp0 c)) then set_cp0 c (write (cp0 c) Cp0.epc c.pc) else c in
    let c2 = record c1 { pc = (cp0 c1).registers Cp0.ebase } in
    set_cp0 c2 (Cp0.set_status_exl (cp0 c2))

abbrev pub handled : Outcome Cpu (Unit {0}) → Option Cpu
handled (done _ c) = some c
handled (raised c) = some (enter_exception c)
handled undefined = none

-- One round of the loop. `none`: the round has undefined behaviour.
unfoldable pub round : Cpu → Option Cpu
round c = handled (next c)

-- The first `n` rounds of the endless loop.
unfoldable pub run : ℕ → Cpu → Option Cpu
run zero c = some c
run (suc n) c = elim (round c) [ none ↦ none | some c' ↦ run n c' ]
