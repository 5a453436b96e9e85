-- ===== src/Emulator/Cpu/Instructions.antt =====
-- The instructions: src/cpu_instructions.cc, one definition for each `exe_` method.
use mips32_cpu_emulator.Prelude.{
  ℕ, ◌*◌, ◌/◌, ◌%◌, ◌^◌, ◌==◌, Bool, not, ltb, bit_and, bit_or, bit_xor, if◌then◌else◌,
}
use mips32_cpu_emulator.Prelude.Int.{pos, ◌*ℤ◌, ltb_ℤ}
use mips32_cpu_emulator.Emulator.Word.{
  add32, sub32, shl32, shr, not32, int8, int32, of_int, shr_int,
}
use mips32_cpu_emulator.Emulator.Outcome.{done, raised, undefined, Exec, bind}
use mips32_cpu_emulator.Emulator.Cp0
use mips32_cpu_emulator.Emulator.Cp0.{write}
use mips32_cpu_emulator.Emulator.Mmu
use mips32_cpu_emulator.Emulator.Cpu.{
  Cpu, cp0, set_cp0, on_mmu, set_register, rs, rt, rd, shift, branch_offset, jump_target,
  signed_immediate, unsigned_immediate, reg_ra,
}

-- A method of the processor.
abbrev pub Instruction : Type 0
Instruction = Exec Cpu (Unit {0})

-- `pc_ += 4`, and return.
abbrev pub advance : Instruction
advance c = done tt (record c { pc = add32 c.pc 4 })

-- `registers_[i] = v`, then `pc_ += 4`, and return.
abbrev pub result : ℕ → ℕ → Instruction
result i v c = advance (set_register c i v)

-- `if (taken) pc_ += branch_offset() * 4`, then `pc_ += 4`, and return.
unfoldable pub branch : Bool → Instruction
branch taken c =
    advance (if taken then record c { pc = add32 c.pc (of_int (branch_offset c *ℤ pos 4)) } else c)

-- The operand that a register field selects.
abbrev pub reg : Cpu → ℕ → ℕ
reg c i = c.registers i

unfoldable pub exe_sll : Instruction
exe_sll c = result (rd c) (shl32 (reg c (rt c)) (shift c)) c

unfoldable pub exe_srl : Instruction
exe_srl c = result (rd c) (shr (reg c (rt c)) (shift c)) c

unfoldable pub exe_sra : Instruction
exe_sra c = result (rd c) (of_int (shr_int (int32 (reg c (rt c))) (shift c))) c

-- A shift by 32 or more is undefined.
unfoldable pub exe_sllv : Instruction
exe_sllv c =
    if ltb (reg c (rs c)) 32
    then result (rd c) (shl32 (reg c (rt c)) (reg c (rs c))) c
    else undefined

unfoldable pub exe_srlv : Instruction
exe_srlv c =
    if ltb (reg c (rs c)) 32 then result (rd c) (shr (reg c (rt c)) (reg c (rs c))) c else undefined

unfoldable pub exe_srav : Instruction
exe_srav c =
    if ltb (reg c (rs c)) 32
    then result (rd c) (of_int (shr_int (int32 (reg c (rt c))) (reg c (rs c)))) c
    else undefined

unfoldable pub exe_jr : Instruction
exe_jr c = done tt (record c { pc = reg c (rs c) })

unfoldable pub exe_jalr : Instruction
exe_jalr c =
    let npc = reg c (rs c) in
    let c' = set_register c (rd c) (add32 c.pc 4) in done tt (record c' { pc = npc })

unfoldable pub exe_syscall : Instruction
exe_syscall c = raised (set_cp0 c (Cp0.set_exception_code Cp0.exc_syscall (cp0 c)))

unfoldable pub exe_mfhi : Instruction
exe_mfhi c = result (rd c) c.hi c

unfoldable pub exe_mthi : Instruction
exe_mthi c = advance (record c { hi = reg c (rs c) })

unfoldable pub exe_mflo : Instruction
exe_mflo c = result (rd c) c.lo c

unfoldable pub exe_mtlo : Instruction
exe_mtlo c = advance (record c { lo = reg c (rs c) })

-- The factors are unsigned when they enter `int64_t`; a product of 2 ^ 63 or more overflows it,
-- which is undefined.
unfoldable pub exe_mult : Instruction
exe_mult c =
    let a = reg c (rs c) * reg c (rt c) in
    if ltb a (2 ^ 63)
    then advance (record c { hi = a / 2 ^ 32 % 2 ^ 32; lo = a % 2 ^ 32 })
    else undefined

unfoldable pub exe_addu : Instruction
exe_addu c = result (rd c) (add32 (reg c (rs c)) (reg c (rt c))) c

unfoldable pub exe_subu : Instruction
exe_subu c = result (rd c) (sub32 (reg c (rs c)) (reg c (rt c))) c

unfoldable pub exe_and : Instruction
exe_and c = result (rd c) (bit_and (reg c (rs c)) (reg c (rt c))) c

unfoldable pub exe_or : Instruction
exe_or c = result (rd c) (bit_or (reg c (rs c)) (reg c (rt c))) c

unfoldable pub exe_xor : Instruction
exe_xor c = result (rd c) (bit_xor (reg c (rs c)) (reg c (rt c))) c

unfoldable pub exe_nor : Instruction
exe_nor c = result (rd c) (not32 (bit_or (reg c (rs c)) (reg c (rt c)))) c

unfoldable pub exe_slt : Instruction
exe_slt c =
    result (rd c) (if ltb_ℤ (int32 (reg c (rs c))) (int32 (reg c (rt c))) then 0x01 else 0x00) c

unfoldable pub exe_sltu : Instruction
exe_sltu c = result (rd c) (if ltb (reg c (rs c)) (reg c (rt c)) then 0x01 else 0x00) c

unfoldable pub exe_bltz : Instruction
exe_bltz c = branch (ltb_ℤ (int32 (reg c (rs c))) (pos 0)) c

unfoldable pub exe_bgez : Instruction
exe_bgez c = branch (not (ltb_ℤ (int32 (reg c (rs c))) (pos 0))) c

-- `(pc_ & 0xf0000000) | jump_target() * 4`
abbrev pub jump_address : Cpu → ℕ
jump_address c = bit_or (bit_and c.pc 0xf0000000) (jump_target c * 4 % 2 ^ 32)

unfoldable pub exe_j : Instruction
exe_j c = done tt (record c { pc = jump_address c })

unfoldable pub exe_jal : Instruction
exe_jal c =
    let c' = set_register c reg_ra (add32 c.pc 4) in done tt (record c' { pc = jump_address c' })

unfoldable pub exe_beq : Instruction
exe_beq c = branch (reg c (rs c) == reg c (rt c)) c

unfoldable pub exe_bne : Instruction
exe_bne c = branch (not (reg c (rs c) == reg c (rt c))) c

unfoldable pub exe_blez : Instruction
exe_blez c = branch (not (ltb_ℤ (pos 0) (int32 (reg c (rs c))))) c

unfoldable pub exe_bgtz : Instruction
exe_bgtz c = branch (ltb_ℤ (pos 0) (int32 (reg c (rs c)))) c

unfoldable pub exe_addiu : Instruction
exe_addiu c = result (rt c) (add32 (reg c (rs c)) (of_int (signed_immediate c))) c

unfoldable pub exe_slti : Instruction
exe_slti c =
    result (rt c) (if ltb_ℤ (int32 (reg c (rs c))) (signed_immediate c) then 0x01 else 0x00) c

-- The immediate is not sign-extended.
unfoldable pub exe_sltiu : Instruction
exe_sltiu c = result (rt c) (if ltb (reg c (rs c)) (unsigned_immediate c) then 0x01 else 0x00) c

unfoldable pub exe_andi : Instruction
exe_andi c = result (rt c) (bit_and (reg c (rs c)) (unsigned_immediate c)) c

unfoldable pub exe_ori : Instruction
exe_ori c = result (rt c) (bit_or (reg c (rs c)) (unsigned_immediate c)) c

unfoldable pub exe_xori : Instruction
exe_xori c = result (rt c) (bit_xor (reg c (rs c)) (unsigned_immediate c)) c

unfoldable pub exe_lui : Instruction
exe_lui c = result (rt c) (shl32 (unsigned_immediate c) 16) c

unfoldable pub exe_mfc0 : Instruction
exe_mfc0 c = result (rt c) ((cp0 c).registers (rd c)) c

unfoldable pub exe_mtc0 : Instruction
exe_mtc0 c = advance (set_cp0 c (write (cp0 c) (rd c) (reg c (rt c))))

-- `Index` is used as it stands: past the arrays' end the behaviour is undefined.
unfoldable pub exe_tlbwi : Instruction
exe_tlbwi c =
    if ltb ((cp0 c).registers Cp0.index) Mmu.tlb_entries
    then advance (record c { mmu = Mmu.write_entry c.mmu })
    else undefined

unfoldable pub exe_eret : Instruction
exe_eret c =
    let c' = record c { pc = (cp0 c).registers Cp0.epc } in
    done tt (set_cp0 c' (Cp0.unset_status_exl (cp0 c')))

-- `registers_[rs()] + signed_immediate()`
abbrev pub address : Cpu → ℕ
address c = add32 (reg c (rs c)) (of_int (signed_immediate c))

unfoldable pub exe_lb : Instruction
exe_lb c =
    bind (on_mmu (Mmu.read_byte (address c)) c) λ val c'. result (rt c') (of_int (int8 val)) c'

unfoldable pub exe_lw : Instruction
exe_lw c = bind (on_mmu (Mmu.read_word (address c)) c) λ val c'. result (rt c') val c'

unfoldable pub exe_lbu : Instruction
exe_lbu c = bind (on_mmu (Mmu.read_byte (address c)) c) λ val c'. result (rt c') val c'

unfoldable pub exe_lhu : Instruction
exe_lhu c = bind (on_mmu (Mmu.read_half_word (address c)) c) λ val c'. result (rt c') val c'

unfoldable pub exe_sb : Instruction
exe_sb c =
    bind (on_mmu (Mmu.write_byte (address c) (bit_and (reg c (rt c)) 0xff)) c) λ _ c'. advance c'

unfoldable pub exe_sw : Instruction
exe_sw c = bind (on_mmu (Mmu.write_word (address c) (reg c (rt c))) c) λ _ c'. advance c'

unfoldable pub exe_cache : Instruction
exe_cache c = advance c
