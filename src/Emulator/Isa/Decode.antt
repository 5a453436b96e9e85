-- ===== src/Emulator/Isa/Decode.antt =====
-- The dispatch of src/cpu.cc against the encoding of the instruction set.
use mips32_cpu_emulator.Prelude.{ℕ, ◌/◌, ◌%◌, ◌^◌, ◌<◌, ◌≤◌, ◌-◌, bit_and, ◌≡◌, ◌∙◌, refl, arith}
use mips32_cpu_emulator.Prelude.Int.{ℤ, pos, negsuc}
use mips32_cpu_emulator.Bits.Split.{bit_and_mask}
use mips32_cpu_emulator.Emulator.Cpu.{
  Cpu, main_opcode, sub_opcode, rs, rt, rd, shift, jump_target, unsigned_immediate,
  signed_immediate, branch_offset,
}
use mips32_cpu_emulator.Emulator.Cpu.Decode.{
  decode_special, decode_regimm, decode_move, decode_cop0, instruction_decode,
}
use mips32_cpu_emulator.Emulator.Isa.{
  Special, Immediate, Jump, Regimm, Move, Command, funct, special_method, opcode, immediate_method,
  jump_opcode, jump_method, regimm_code, regimm_method, move_code, move_method, command_code,
  command_method, register_word, immediate_word, jump_word, Instr, encode, method, InRange,
}

-- A processor that has fetched `word`.
abbrev pub holding : Cpu → ℕ → Cpu
holding c word = record c { instruction = word }

-- The fields of the instruction as remainders and quotients.
pub fields :
    (c : Cpu)
    → (main_opcode c ≡ c.instruction / 2 ^ 26)
      × (sub_opcode c ≡ c.instruction % 2 ^ 6)
      × (rs c ≡ c.instruction / 2 ^ 21 % 2 ^ 5)
      × (rt c ≡ c.instruction / 2 ^ 16 % 2 ^ 5)
      × (rd c ≡ c.instruction / 2 ^ 11 % 2 ^ 5)
      × (shift c ≡ c.instruction / 2 ^ 6 % 2 ^ 5)
      × (jump_target c ≡ c.instruction % 2 ^ 26)
      × (unsigned_immediate c ≡ c.instruction % 2 ^ 16)
unfolding main_opcode sub_opcode rs rt rd shift jump_target unsigned_immediate
fields c = (
  refl,
  bit_and_mask 6 c.instruction,
  bit_and_mask 5 (c.instruction / 2 ^ 21),
  bit_and_mask 5 (c.instruction / 2 ^ 16),
  bit_and_mask 5 (c.instruction / 2 ^ 11),
  bit_and_mask 5 (c.instruction / 2 ^ 6),
  bit_and_mask 26 c.instruction,
  bit_and_mask 16 c.instruction,
)

special_by_code :
    (i : Special) (c : Cpu)
    → main_opcode c ≡ 0
    → sub_opcode c ≡ funct i
    → instruction_decode c ≡ special_method i c
unfolding instruction_decode decode_special
special_by_code Special.sll c p q = rw (p, q) refl
special_by_code _ c p q = rw (p, q) refl

immediate_by_code :
    (i : Immediate) (c : Cpu)
    → main_opcode c ≡ opcode i
    → instruction_decode c ≡ immediate_method i c
unfolding instruction_decode
immediate_by_code Immediate.beq c p = rw p refl
immediate_by_code _ c p = rw p refl

jump_by_code :
    (i : Jump) (c : Cpu) → main_opcode c ≡ jump_opcode i → instruction_decode c ≡ jump_method i c
unfolding instruction_decode
jump_by_code Jump.j c p = rw p refl
jump_by_code Jump.jal c p = rw p refl

regimm_by_code :
    (i : Regimm) (c : Cpu)
    → main_opcode c ≡ 1
    → rt c ≡ regimm_code i
    → instruction_decode c ≡ regimm_method i c
unfolding instruction_decode decode_regimm
regimm_by_code Regimm.bltz c p q = rw (p, q) refl
regimm_by_code Regimm.bgez c p q = rw (p, q) refl

move_by_code :
    (i : Move) (c : Cpu)
    → main_opcode c ≡ 16
    → sub_opcode c ≡ 0
    → rs c ≡ move_code i
    → instruction_decode c ≡ move_method i c
unfolding instruction_decode decode_cop0 decode_move
move_by_code Move.mfc0 c p q r = rw (p, q, r) refl
move_by_code Move.mtc0 c p q r = rw (p, q, r) refl

command_by_code :
    (i : Command) (c : Cpu)
    → main_opcode c ≡ 16
    → sub_opcode c ≡ command_code i
    → instruction_decode c ≡ command_method i c
unfolding instruction_decode decode_cop0
command_by_code Command.tlbwi c p q = rw (p, q) refl
command_by_code Command.eret c p q = rw (p, q) refl

-- The integer that the 16 bits `imm` stand for in two's complement.
abbrev pub IsSigned : ℕ → ℤ → Type 0
IsSigned imm z = (imm < 2 ^ 15 → z ≡ pos imm) × (2 ^ 15 ≤ imm → z ≡ negsuc (2 ^ 16 - 1 - imm))

IsSigned-fields :
    (c : Cpu) (imm : ℕ)
    → c.instruction % 2 ^ 16 ≡ imm
    → IsSigned imm (signed_immediate c) × IsSigned imm (branch_offset c)
unfolding signed_immediate branch_offset
IsSigned-fields c imm low =
    let masked : bit_and c.instruction 0xffff ≡ imm = bit_and_mask 16 c.instruction ∙ low in
    rw masked ((λ h. ground arith, λ h. ground arith), (λ h. ground arith, λ h. ground arith))

-- The operands as the methods read them: an immediate as an unsigned number, as a signed one, and as
-- the offset of a branch in words.
abbrev pub ReadsOperands : Instr → Cpu → Type 0
ReadsOperands (Instr.special _ s t d shamt) c =
    (rs c ≡ s) × (rt c ≡ t) × (rd c ≡ d) × (shift c ≡ shamt)
ReadsOperands (Instr.immediate _ s t imm) c =
    (rs c ≡ s)
    × (rt c ≡ t)
    × (unsigned_immediate c ≡ imm)
    × IsSigned imm (signed_immediate c)
    × IsSigned imm (branch_offset c)
ReadsOperands (Instr.jump _ target) c = jump_target c ≡ target
ReadsOperands (Instr.regimm _ s offset) c = (rs c ≡ s) × IsSigned offset (branch_offset c)
ReadsOperands (Instr.move _ t d) c = (rt c ≡ t) × (rd c ≡ d)
ReadsOperands (Instr.command _) c = Unit

module _ (c : Cpu) (s t : ℕ) (s_fits : s < 32) (t_fits : t < 32) where
  register_fields :
      (op d shamt code : ℕ)
      → op < 64
      → d < 32
      → shamt < 32
      → code < 64
      → let held = holding c (register_word op s t d shamt code) in
        (main_opcode held ≡ op)
        × (sub_opcode held ≡ code)
        × (rs held ≡ s)
        × (rt held ≡ t)
        × (rd held ≡ d)
        × (shift held ≡ shamt)
  register_fields op d shamt code o p q r =
      omega (arith, fields (holding c (register_word op s t d shamt code)))

  immediate_fields :
      (op imm : ℕ)
      → op < 64
      → imm < 2 ^ 16
      → let held = holding c (immediate_word op s t imm) in
        (main_opcode held ≡ op) × (rs held ≡ s) × (rt held ≡ t) × (unsigned_immediate held ≡ imm)
  immediate_fields op imm o p = omega (arith, fields (holding c (immediate_word op s t imm)))

  immediate-IsSigned :
      (op imm : ℕ)
      → op < 64
      → imm < 2 ^ 16
      → let held = holding c (immediate_word op s t imm) in
        IsSigned imm (signed_immediate held) × IsSigned imm (branch_offset held)
  immediate-IsSigned op imm o p =
      IsSigned-fields (holding c (immediate_word op s t imm)) imm (omega arith)

jump_fields :
    (c : Cpu) (op target : ℕ)
    → target < 2 ^ 26
    → let held = holding c (jump_word op target) in
      (main_opcode held ≡ op) × (jump_target held ≡ target)
jump_fields c op target h = omega (arith, fields (holding c (jump_word op target)))

funct-lt : (i : Special) → funct i < 64
funct-lt Special.sll = omega arith
funct-lt _ = omega arith

opcode-lt : (i : Immediate) → opcode i < 64
opcode-lt Immediate.beq = omega arith
opcode-lt _ = omega arith

regimm_code-lt : (i : Regimm) → regimm_code i < 32
regimm_code-lt Regimm.bltz = omega arith
regimm_code-lt Regimm.bgez = omega arith

move_code-lt : (i : Move) → move_code i < 32
move_code-lt Move.mfc0 = omega arith
move_code-lt Move.mtc0 = omega arith

command_code-lt : (i : Command) → command_code i < 64
command_code-lt Command.tlbwi = omega arith
command_code-lt Command.eret = omega arith

-- Every instruction of the set, with operands that fit their fields, is dispatched from its machine
-- word to the method that carries it out, and the functions that read the operands give those that
-- were encoded: the registers, the shift amount, the target of a jump, and the immediate unsigned,
-- signed and as the offset of a branch.
pub instruction_decode-encode :
    (i : Instr) (c : Cpu)
    → InRange i
    → let held = holding c (encode i) in
      (instruction_decode held ≡ method i held) × ReadsOperands i held
unfolding encode method
instruction_decode-encode (Instr.special i s t d shamt) c (p, q, r, a) =
    let f = register_fields c s t p q 0 d shamt (funct i) (omega arith) r a (funct-lt i) in
    (special_by_code i _ f.0 f.1, (f.2, f.3, f.4, f.5))
instruction_decode-encode (Instr.immediate i s t imm) c (p, q, r) =
    let f = immediate_fields c s t p q (opcode i) imm (opcode-lt i) r in
    let g = immediate-IsSigned c s t p q (opcode i) imm (opcode-lt i) r in
    (immediate_by_code i _ f.0, (f.1, f.2, f.3, g.0, g.1))
instruction_decode-encode (Instr.jump i target) c h =
    let f = jump_fields c (jump_opcode i) target h in (jump_by_code i _ f.0, f.1)
instruction_decode-encode (Instr.regimm i s offset) c (p, r) =
    let f = immediate_fields c s (regimm_code i) p (regimm_code-lt i) 1 offset (omega arith) r in
    let g = immediate-IsSigned c s (regimm_code i) p (regimm_code-lt i) 1 offset (omega arith) r in
    (regimm_by_code i _ f.0 f.2, (f.1, g.1))
instruction_decode-encode (Instr.move i t d) c (q, r) =
    let f =
      register_fields c (move_code i) t (move_code-lt i) q 16 d 0 0 (omega arith) r (omega arith)
        (omega arith) in
    (move_by_code i _ f.0 f.1 f.2, (f.3, f.4))
instruction_decode-encode (Instr.command i) c h =
    let f =
      register_fields c 16 0 (omega arith) (omega arith) 16 0 0 (command_code i) (omega arith)
        (omega arith) (omega arith) (command_code-lt i) in
    (command_by_code i _ f.0 f.1, tt)
