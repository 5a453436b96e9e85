-- ===== src/Emulator/Isa.antt =====
-- The instruction set of README.md as the MIPS32 manuals encode it, apart from the emulator's own
-- decoder: a mnemonic with its operands, its machine word, and the method that carries it out.
pub mod Decode
use mips32_cpu_emulator.Prelude.{ℕ, ◌+◌, ◌*◌, ◌^◌, ◌<◌}
use mips32_cpu_emulator.Emulator.Cpu.Instructions
use mips32_cpu_emulator.Emulator.Cpu.Instructions.{Instruction}

-- Register forms: opcode 0 and a function code.
pub data Special : Type 0 where
  sll srl sra sllv srlv srav jr jalr syscall mfhi mthi mflo mtlo mult addu subu and or : Special
  xor nor slt sltu : Special

-- Immediate forms, each with an opcode of its own.
pub data Immediate : Type 0 where
  beq bne blez bgtz addiu slti sltiu andi ori xori lui lb lw lbu lhu sb sw cache : Immediate

pub data Jump : Type 0 where
  j jal : Jump

-- Branches of opcode 1, told apart in the field of rt.
pub data Regimm : Type 0 where
  bltz bgez : Regimm

-- Moves to and from the coprocessor, and its two commands.
pub data Move : Type 0 where
  mfc0 mtc0 : Move

pub data Command : Type 0 where
  tlbwi eret : Command

abbrev pub funct : Special → ℕ
funct sll = 0
funct srl = 2
funct sra = 3
funct sllv = 4
funct srlv = 6
funct srav = 7
funct jr = 8
funct jalr = 9
funct syscall = 12
funct mfhi = 16
funct mthi = 17
funct mflo = 18
funct mtlo = 19
funct mult = 24
funct addu = 33
funct subu = 35
funct and = 36
funct or = 37
funct xor = 38
funct nor = 39
funct slt = 42
funct sltu = 43

abbrev pub special_method : Special → Instruction
special_method sll = Instructions.exe_sll
special_method srl = Instructions.exe_srl
special_method sra = Instructions.exe_sra
special_method sllv = Instructions.exe_sllv
special_method srlv = Instructions.exe_srlv
special_method srav = Instructions.exe_srav
special_method jr = Instructions.exe_jr
special_method jalr = Instructions.exe_jalr
special_method syscall = Instructions.exe_syscall
special_method mfhi = Instructions.exe_mfhi
special_method mthi = Instructions.exe_mthi
special_method mflo = Instructions.exe_mflo
special_method mtlo = Instructions.exe_mtlo
special_method mult = Instructions.exe_mult
special_method addu = Instructions.exe_addu
special_method subu = Instructions.exe_subu
special_method and = Instructions.exe_and
special_method or = Instructions.exe_or
special_method xor = Instructions.exe_xor
special_method nor = Instructions.exe_nor
special_method slt = Instructions.exe_slt
special_method sltu = Instructions.exe_sltu

abbrev pub opcode : Immediate → ℕ
opcode beq = 4
opcode bne = 5
opcode blez = 6
opcode bgtz = 7
opcode addiu = 9
opcode slti = 10
opcode sltiu = 11
opcode andi = 12
opcode ori = 13
opcode xori = 14
opcode lui = 15
opcode lb = 32
opcode lw = 35
opcode lbu = 36
opcode lhu = 37
opcode sb = 40
opcode sw = 43
opcode cache = 47

abbrev pub immediate_method : Immediate → Instruction
immediate_method beq = Instructions.exe_beq
immediate_method bne = Instructions.exe_bne
immediate_method blez = Instructions.exe_blez
immediate_method bgtz = Instructions.exe_bgtz
immediate_method addiu = Instructions.exe_addiu
immediate_method slti = Instructions.exe_slti
immediate_method sltiu = Instructions.exe_sltiu
immediate_method andi = Instructions.exe_andi
immediate_method ori = Instructions.exe_ori
immediate_method xori = Instructions.exe_xori
immediate_method lui = Instructions.exe_lui
immediate_method lb = Instructions.exe_lb
immediate_method lw = Instructions.exe_lw
immediate_method lbu = Instructions.exe_lbu
immediate_method lhu = Instructions.exe_lhu
immediate_method sb = Instructions.exe_sb
immediate_method sw = Instructions.exe_sw
immediate_method cache = Instructions.exe_cache

abbrev pub jump_opcode : Jump → ℕ
jump_opcode j = 2
jump_opcode jal = 3

abbrev pub jump_method : Jump → Instruction
jump_method j = Instructions.exe_j
jump_method jal = Instructions.exe_jal

abbrev pub regimm_code : Regimm → ℕ
regimm_code bltz = 0
regimm_code bgez = 1

abbrev pub regimm_method : Regimm → Instruction
regimm_method bltz = Instructions.exe_bltz
regimm_method bgez = Instructions.exe_bgez

abbrev pub move_code : Move → ℕ
move_code mfc0 = 0
move_code mtc0 = 4

abbrev pub move_method : Move → Instruction
move_method mfc0 = Instructions.exe_mfc0
move_method mtc0 = Instructions.exe_mtc0

abbrev pub command_code : Command → ℕ
command_code tlbwi = 2
command_code eret = 24

abbrev pub command_method : Command → Instruction
command_method tlbwi = Instructions.exe_tlbwi
command_method eret = Instructions.exe_eret

-- The three layouts of a machine word.
abbrev pub register_word : ℕ → ℕ → ℕ → ℕ → ℕ → ℕ → ℕ
register_word op s t d shamt code =
    op * 2 ^ 26 + s * 2 ^ 21 + t * 2 ^ 16 + d * 2 ^ 11 + shamt * 2 ^ 6 + code

abbrev pub immediate_word : ℕ → ℕ → ℕ → ℕ → ℕ
immediate_word op s t imm = op * 2 ^ 26 + s * 2 ^ 21 + t * 2 ^ 16 + imm

abbrev pub jump_word : ℕ → ℕ → ℕ
jump_word op target = op * 2 ^ 26 + target

-- An instruction: what it is, and its operands. The fields that an instruction does not use are
-- free in the register and immediate forms.
pub data Instr : Type 0 where
  special : Special → ℕ → ℕ → ℕ → ℕ → Instr
  immediate : Immediate → ℕ → ℕ → ℕ → Instr
  jump : Jump → ℕ → Instr
  regimm : Regimm → ℕ → ℕ → Instr
  move : Move → ℕ → ℕ → Instr
  command : Command → Instr

unfoldable pub encode : Instr → ℕ
encode (special i s t d shamt) = register_word 0 s t d shamt (funct i)
encode (immediate i s t imm) = immediate_word (opcode i) s t imm
encode (jump i target) = jump_word (jump_opcode i) target
encode (regimm i s offset) = immediate_word 1 s (regimm_code i) offset
encode (move i t d) = register_word 16 (move_code i) t d 0 0
encode (command i) = register_word 16 16 0 0 0 (command_code i)

unfoldable pub method : Instr → Instruction
method (special i _ _ _ _) = special_method i
method (immediate i _ _ _) = immediate_method i
method (jump i _) = jump_method i
method (regimm i _ _) = regimm_method i
method (move i _ _) = move_method i
method (command i) = command_method i

-- The operands fit their fields.
abbrev pub InRange : Instr → Type 0
InRange (special _ s t d shamt) = (s < 32) × (t < 32) × (d < 32) × (shamt < 32)
InRange (immediate _ s t imm) = (s < 32) × (t < 32) × (imm < 2 ^ 16)
InRange (jump _ target) = target < 2 ^ 26
InRange (regimm _ s offset) = (s < 32) × (offset < 2 ^ 16)
InRange (move _ t d) = (t < 32) × (d < 32)
InRange (command _) = Unit
