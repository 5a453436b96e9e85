-- ===== src/Emulator/Mmu/Report.antt =====
-- What a failed translation of src/mmu.h leaves in the coprocessor for the refill handler.
use mips32_cpu_emulator.Prelude.{ℕ, ◌+◌, ◌*◌, ◌/◌, ◌%◌, ◌^◌, ◌<◌, ◌≡◌, arith, bit_and, bit_or}
use mips32_cpu_emulator.Bits.Split.{
  bit_and-split, bit_or-split, bit_and_ones, bit_and_mask, bit_and-zero, bit_or-zero, bit_or_above,
}
use mips32_cpu_emulator.Emulator.Cp0
use mips32_cpu_emulator.Emulator.Cp0.{Cp0}
use mips32_cpu_emulator.Emulator.Cp0.Fields.{cause-set_exception_code, registers-set_exception_code}
use mips32_cpu_emulator.Emulator.Mmu.{report}
use mips32_cpu_emulator.Emulator.Mmu.Tlb.{vpn2}

context_mask : (x : ℕ) → x < 2 ^ 32 → bit_and x 0xff80000f ≡ x / 2 ^ 23 * 2 ^ 23 + x % 2 ^ 4
context_mask x h = ground (
  arith,
  bit_and-split 23 (x / 2 ^ 23) 0x1ff (x % 2 ^ 23) 0xf,
  bit_and_ones 9 (x / 2 ^ 23),
  bit_and_mask 4 (x % 2 ^ 23),
)

context_field :
    (hi page lo : ℕ)
    → page < 2 ^ 19
    → lo < 2 ^ 4
    → bit_or (hi * 2 ^ 23 + lo) (page * 2 ^ 4) ≡ hi * 2 ^ 23 + page * 2 ^ 4 + lo
context_field hi page lo h k =
    ground (arith, bit_or-split 23 hi 0 lo (page * 2 ^ 4), bit_or_above 4 page lo, bit_or-zero hi)

page_mask : (x : ℕ) → x < 2 ^ 32 → bit_and x 0xffffe000 ≡ vpn2 x * 2 ^ 13
page_mask x h = ground (
  arith,
  bit_and-split 13 (x / 2 ^ 13) 0x7ffff (x % 2 ^ 13) 0,
  bit_and_ones 19 (x / 2 ^ 13),
  bit_and-zero (x % 2 ^ 13),
)

-- The report of a failed translation of `v`, read register by register.
pub record Reports (code v : ℕ) (before after : Cp0) : Type 0 where
  pub cause :
      after.registers Cp0.cause
      ≡ before.registers Cp0.cause / 128 * 128 + code * 4 + before.registers Cp0.cause % 4
  pub bad_vaddr : after.registers Cp0.bad_vaddr ≡ v
  pub context :
      after.registers Cp0.context
      ≡ before.registers Cp0.context / 2 ^ 23 * 2 ^ 23
        + vpn2 v * 2 ^ 4
        + before.registers Cp0.context % 2 ^ 4
  pub entry_hi :
      after.registers Cp0.entry_hi ≡ vpn2 v * 2 ^ 13 + before.registers Cp0.entry_hi % 2 ^ 13

-- For a 32-bit address and coprocessor, a report puts the code into Cause.ExcCode, the address into
-- BadVAddr, and its page pair into Context.BadVPN2 and EntryHi.VPN2; the other fields of these
-- registers, PTEBase and ASID among them, are kept.
pub report-Reports :
    (code v : ℕ) (c : Cp0)
    → code < 32
    → v < 2 ^ 32
    → ((i : ℕ) → c.registers i < 2 ^ 32)
    → Reports code v c (report code v c)
unfolding report
report-Reports code v c small narrow words = record {
  cause = ground (arith, cause-set_exception_code code c small (words Cp0.cause));
  bad_vaddr = ground arith;
  context = ground (
    arith,
    registers-set_exception_code code Cp0.context c,
    words Cp0.context,
    context_mask (c.registers Cp0.context),
    context_field (c.registers Cp0.context / 2 ^ 23) (vpn2 v) (c.registers Cp0.context % 2 ^ 4),
  );
  entry_hi = ground (
    arith,
    registers-set_exception_code code Cp0.entry_hi c,
    bit_and_mask 13 (c.registers Cp0.entry_hi),
    page_mask v narrow,
    bit_or_above 13 (vpn2 v) (c.registers Cp0.entry_hi % 2 ^ 13),
  );
}
