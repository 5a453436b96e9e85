-- ===== src/Emulator/Cpu/Decode.antt =====
-- The dispatch on the opcode: src/cpu.cc, a table for each `switch`.
pub mod Rule
use mips32_cpu_emulator.Prelude.{ℕ, ◌==◌, List, [], ◌∷◌, if◌then◌else◌}
use mips32_cpu_emulator.Emulator.Outcome.{raised}
use mips32_cpu_emulator.Emulator.Cp0
use mips32_cpu_emulator.Emulator.Cpu.{cp0, set_cp0, main_opcode, sub_opcode, rs, rt}
use mips32_cpu_emulator.Emulator.Cpu.Instructions
use mips32_cpu_emulator.Emulator.Cpu.Instructions.{Instruction}

-- `switch (x)`: the first case whose label is `x`, or the default.
unfoldable pub switch {ℓ} : {A : Type ℓ} → ℕ → List (ℕ × A) → A → A
switch x [] otherwise = otherwise
switch x ((label, body) ∷ cases) otherwise = if label == x then body else switch x cases otherwise

-- The unknown instruction.
unfoldable pub reserved : Instruction
reserved c = raised (set_cp0 c (Cp0.set_exception_code Cp0.exc_ri (cp0 c)))

abbrev pub special_cases : List (ℕ × Instruction)
special_cases =
    (0b000000, Instructions.exe_sll)
    ∷ (0b000010, Instructions.exe_srl)
    ∷ (0b000011, Instructions.exe_sra)
    ∷ (0b000100, Instructions.exe_sllv)
    ∷ (0b000110, Instructions.exe_srlv)
    ∷ (0b000111, Instructions.exe_srav)
    ∷ (0b001000, Instructions.exe_jr)
    ∷ (0b001001, Instructions.exe_jalr)
    ∷ (0b001100, Instructions.exe_syscall)
    ∷ (0b010000, Instructions.exe_mfhi)
    ∷ (0b010001, Instructions.exe_mthi)
    ∷ (0b010010, Instructions.exe_mflo)
    ∷ (0b010011, Instructions.exe_mtlo)
    ∷ (0b011000, Instructions.exe_mult)
    ∷ (0b100001, Instructions.exe_addu)
    ∷ (0b100011, Instructions.exe_subu)
    ∷ (0b100100, Instructions.exe_and)
    ∷ (0b100101, Instructions.exe_or)
    ∷ (0b100110, Instructions.exe_xor)
    ∷ (0b100111, Instructions.exe_nor)
    ∷ (0b101010, Instructions.exe_slt)
    ∷ (0b101011, Instructions.exe_sltu)
    ∷ []

unfoldable pub decode_special : Instruction
unfolding switch
decode_special c = switch (sub_opcode c) special_cases reserved c

abbrev pub regimm_cases : List (ℕ × Instruction)
regimm_cases = (0b00000, Instructions.exe_bltz) ∷ (0b00001, Instructions.exe_bgez) ∷ []

unfoldable pub decode_regimm : Instruction
unfolding switch
decode_regimm c = switch (rt c) regimm_cases reserved c

abbrev pub move_cases : List (ℕ × Instruction)
move_cases = (0b00000, Instructions.exe_mfc0) ∷ (0b00100, Instructions.exe_mtc0) ∷ []

unfoldable pub decode_move : Instruction
unfolding switch
decode_move c = switch (rs c) move_cases reserved c

abbrev pub cop0_cases : List (ℕ × Instruction)
cop0_cases =
    (0b000000, decode_move)
    ∷ (0b000010, Instructions.exe_tlbwi)
    ∷ (0b011000, Instructions.exe_eret)
    ∷ []

unfoldable pub decode_cop0 : Instruction
unfolding switch
decode_cop0 c = switch (sub_opcode c) cop0_cases reserved c

abbrev pub main_cases : List (ℕ × Instruction)
main_cases =
    (0b000000, decode_special)
    ∷ (0b000001, decode_regimm)
    ∷ (0b000010, Instructions.exe_j)
    ∷ (0b000011, Instructions.exe_jal)
    ∷ (0b000100, Instructions.exe_beq)
    ∷ (0b000101, Instructions.exe_bne)
    ∷ (0b000110, Instructions.exe_blez)
    ∷ (0b000111, Instructions.exe_bgtz)
    ∷ (0b001001, Instructions.exe_addiu)
    ∷ (0b001010, Instructions.exe_slti)
    ∷ (0b001011, Instructions.exe_sltiu)
    ∷ (0b001100, Instructions.exe_andi)
    ∷ (0b001101, Instructions.exe_ori)
    ∷ (0b001110, Instructions.exe_xori)
    ∷ (0b001111, Instructions.exe_lui)
    ∷ (0b010000, decode_cop0)
    ∷ (0b100000, Instructions.exe_lb)
    ∷ (0b100011, Instructions.exe_lw)
    ∷ (0b100100, Instructions.exe_lbu)
    ∷ (0b100101, Instructions.exe_lhu)
    ∷ (0b101000, Instructions.exe_sb)
    ∷ (0b101011, Instructions.exe_sw)
    ∷ (0b101111, Instructions.exe_cache)
    ∷ []

unfoldable pub instruction_decode : Instruction
unfolding switch
instruction_decode c = switch (main_opcode c) main_cases reserved c
