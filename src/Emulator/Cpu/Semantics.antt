-- ===== src/Emulator/Cpu/Semantics.antt =====
-- What the instructions of src/cpu_instructions.cc compute, read as integers, and sequences of them.
use native.Mathlib.Nat.{div-le_self}
use mips32_cpu_emulator.Prelude.{
  ℕ, ◌+◌, ◌-◌, ◌*◌, ◌/◌, ◌%◌, ◌^◌, ◌<◌, ◌≤◌, ◌≡◌, ◌≢◌, refl, Bool, true, false, arith,
  if◌then◌else◌,
}
use mips32_cpu_emulator.Prelude.Int.{ℤ, pos, negsuc, ◌+ℤ◌, ◌*ℤ◌}
use mips32_cpu_emulator.Bits.Split.{bit_and_mask, bit_or_fields}
use mips32_cpu_emulator.Emulator.Word.{add32, int32, of_int, shr_int}
use mips32_cpu_emulator.Emulator.Outcome.{done, undefined}
use mips32_cpu_emulator.Emulator.Cpu.{
  Cpu, rs, rt, rd, shift, branch_offset, unsigned_immediate, reg_ra,
}
use mips32_cpu_emulator.Emulator.Cpu.Instructions.{
  branch, exe_sra, exe_mult, exe_lui, exe_ori, exe_jal, exe_jr,
}

-- A signed value that fits 32 bits is the one that its pattern stands for.
int32-shift : (x k : ℕ) → x < 2 ^ 32 → int32 (of_int (shr_int (int32 x) k)) ≡ shr_int (int32 x) k
int32-shift x k h = ground (arith, div-le_self x (2 ^ k), div-le_self (2 ^ 32 - 1 - x) (2 ^ k))

-- `sra` divides the signed value of rt by two to the shift amount, rounding down, and changes
-- no other register; `pc` goes to the next instruction.
pub exe_sra_lem :
    (c : Cpu)
    → c.registers (rt c) < 2 ^ 32
    → (d : Cpu) × (exe_sra c ≡ done tt d)
      × (int32 (d.registers (rd c)) ≡ shr_int (int32 (c.registers (rt c))) (shift c))
      × ((i : ℕ) → i ≢ rd c → d.registers i ≡ c.registers i)
      × (d.pc ≡ (c.pc + 4) % 2 ^ 32)
unfolding exe_sra
exe_sra_lem c h = (
  _,
  refl,
  ground (arith, int32-shift (c.registers (rt c)) (shift c) h),
  λ i ne. ground arith,
  refl,
)

add32-of_int : (p : ℕ) (z : ℤ) → add32 (add32 p (of_int z)) 4 ≡ of_int (pos (p + 4) +ℤ z)
unfolding ◌+ℤ◌
add32-of_int p (pos n) = ground arith
add32-of_int p (negsuc n) = ground arith

-- The target of a branch, taken or not, is that of the manual: relative to the next instruction.
pub branch_lem :
    (taken : Bool) (c : Cpu)
    → (d : Cpu) × (branch taken c ≡ done tt d)
      × (d.pc ≡ (
          if taken
          then of_int (pos (c.pc + 4) +ℤ branch_offset c *ℤ pos 4)
          else (c.pc + 4) % 2 ^ 32))
      × (d.registers ≡ c.registers)
      × (d.mmu ≡ c.mmu)
unfolding branch
branch_lem true c = (_, refl, add32-of_int c.pc (branch_offset c *ℤ pos 4), refl, refl)
branch_lem false c = (_, refl, refl, refl, refl)

-- `mult` leaves the unsigned product in HI and LO when it is below 2 ^ 63, and else overflows
-- `int64_t`, which is undefined. (For factors of 2 ^ 31 and more it is not the signed product.)
pub exe_mult_lem :
    (c : Cpu)
    → let a = c.registers (rs c) in
      let b = c.registers (rt c) in
      (a * b < 2 ^ 63
        → (d : Cpu) × (exe_mult c ≡ done tt d)
          × (d.hi * 2 ^ 32 + d.lo ≡ a * b)
          × (d.registers ≡ c.registers))
      × (2 ^ 63 ≤ a * b → exe_mult c ≡ undefined)
unfolding exe_mult
exe_mult_lem c = (
  λ small. (
    record c {
      hi = c.registers (rs c) * c.registers (rt c) / 2 ^ 32 % 2 ^ 32;
      lo = c.registers (rs c) * c.registers (rt c) % 2 ^ 32;
      pc = add32 c.pc 4;
    },
    ground arith,
    omega arith,
    refl,
  ),
  λ large. ground arith,
)

-- A processor that has fetched `word`.
abbrev pub at_word : Cpu → ℕ → Cpu
at_word c word = record c { instruction = word }

-- The usual way to load a constant: `lui` of the upper half, then `ori` of the lower one from the
-- register that `lui` wrote, leaves the 32-bit constant in the register that `ori` names.
pub ori-lui :
    (c : Cpu) (first second : ℕ)
    → (d : Cpu) × (exe_lui (at_word c first) ≡ done tt d)
      × (rs (at_word d second) ≡ rt (at_word c first)
          → (e : Cpu) × (exe_ori (at_word d second) ≡ done tt e)
            × (e.registers (rt (at_word d second)) ≡ first % 2 ^ 16 * 2 ^ 16 + second % 2 ^ 16)
            × (e.pc ≡ (c.pc + 8) % 2 ^ 32))
unfolding exe_lui exe_ori unsigned_immediate
ori-lui c first second = (
  _,
  refl,
  λ chained. (
    _,
    refl,
    ground (
      arith,
      bit_and_mask 16 first,
      bit_and_mask 16 second,
      bit_or_fields 16 (first % 2 ^ 16) (second % 2 ^ 16),
    ),
    omega arith,
  ),
)

-- A call and its return: `jr` on the register that `jal` wrote goes to the instruction behind the
-- call.
pub jr-jal :
    (c : Cpu) (word : ℕ)
    → (d : Cpu) × (exe_jal c ≡ done tt d)
      × (rs (at_word d word) ≡ reg_ra
          → (e : Cpu) × (exe_jr (at_word d word) ≡ done tt e) × (e.pc ≡ (c.pc + 4) % 2 ^ 32))
unfolding exe_jal exe_jr
jr-jal c word = (_, refl, λ ra. (_, refl, ground arith))
