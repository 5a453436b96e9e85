-- ===== src/Emulator/Cp0/Fields.antt =====
-- What the methods of struct CP0, src/cp0.h, do to the fields of Cause and Status.
use mips32_cpu_emulator.Prelude.{
  ℕ, ◌+◌, ◌-◌, ◌*◌, ◌/◌, ◌%◌, ◌^◌, ◌<◌, ◌≡◌, ◌≢◌, ◌↔◌, true, arith, bit_and, bit_or,
}
use mips32_cpu_emulator.Bits.Split.{
  bit_and-split, bit_or-split, bit_and_ones, bit_and_mask, bit_and_digit, bit_or_digit, bit_or-zero,
  zero-bit_or,
}
use mips32_cpu_emulator.Emulator.Cp0.{
  Cp0, sr, cause, set_exception_code, set_interrupt_code, interrupt_enabled, line_enabled,
  set_status_exl, unset_status_exl, status_exl, ip_7,
}

-- Status.EXL, Status.IM7 and Cause.ExcCode.
abbrev pub exl : ℕ → ℕ
exl status = status / 2 % 2

abbrev pub im7 : ℕ → ℕ
im7 status = status / 2 ^ 15 % 2

abbrev pub exc_code : ℕ → ℕ
exc_code word = word / 4 % 32

and_clear_code : (x : ℕ) → x < 2 ^ 32 → bit_and x 0xffffff83 ≡ x / 128 * 128 + x % 4
and_clear_code x h = ground (
  arith,
  bit_and-split 7 (x / 128) 0x1ffffff (x % 128) 3,
  bit_and_ones 25 (x / 128),
  bit_and_mask 2 (x % 128),
)

or_code :
    (hi lo code : ℕ)
    → lo < 4
    → code < 32
    → bit_or (hi * 128 + lo) (code * 4) ≡ hi * 128 + code * 4 + lo
or_code hi lo code h k = ground (
  arith,
  bit_or-split 7 hi 0 lo (code * 4),
  bit_or-split 2 0 code lo 0,
  bit_or-zero hi,
  bit_or-zero lo,
  zero-bit_or code,
)

-- `set_exception_code` replaces ExcCode, and keeps the rest of Cause.
pub cause-set_exception_code :
    (code : ℕ) (c : Cp0)
    → code < 32
    → c.registers cause < 2 ^ 32
    → (set_exception_code code c).registers cause
      ≡ c.registers cause / 128 * 128 + code * 4 + c.registers cause % 4
unfolding set_exception_code
cause-set_exception_code code c h k = ground (
  arith,
  and_clear_code (c.registers cause) k,
  or_code (c.registers cause / 128) (c.registers cause % 4) code,
)

pub registers-set_exception_code :
    (code i : ℕ) (c : Cp0) → i ≢ cause → (set_exception_code code c).registers i ≡ c.registers i
unfolding set_exception_code
registers-set_exception_code code i c h = ground arith

pub status_exl_iff : (c : Cp0) → (status_exl c ≡ true) ↔ (exl (c.registers sr) ≡ 1)
unfolding status_exl
status_exl_iff c = ground (arith, bit_and_digit 1 (c.registers sr))

and_not_two : (x : ℕ) → x < 2 ^ 32 → bit_and x 0xfffffffd ≡ x / 4 * 4 + x % 2
and_not_two x h = ground (
  arith,
  bit_and-split 2 (x / 4) 0x3fffffff (x % 4) 1,
  bit_and_ones 30 (x / 4),
  bit_and_mask 1 (x % 4),
)

pub sr-set_status_exl :
    (c : Cp0) → (set_status_exl c).registers sr ≡ c.registers sr / 4 * 4 + 2 + c.registers sr % 2
unfolding set_status_exl
sr-set_status_exl c = ground (arith, bit_or_digit 1 (c.registers sr))

pub sr-unset_status_exl :
    (c : Cp0)
    → c.registers sr < 2 ^ 32
    → (unset_status_exl c).registers sr ≡ c.registers sr / 4 * 4 + c.registers sr % 2
unfolding unset_status_exl
sr-unset_status_exl c h = and_not_two (c.registers sr) h

pub interrupt_enabled_iff : (c : Cp0) → (interrupt_enabled c ≡ true) ↔ (c.registers sr % 8 ≡ 1)
unfolding interrupt_enabled
interrupt_enabled_iff c = ground (arith, bit_and_mask 3 (c.registers sr))

pub line_enabled_iff : (c : Cp0) → (line_enabled c ip_7 ≡ true) ↔ (im7 (c.registers sr) ≡ 1)
unfolding line_enabled
line_enabled_iff c = ground (arith, bit_and_digit 15 (c.registers sr))

-- `set_interrupt_code` sets the line's bit of Cause.
pub cause-set_interrupt_code :
    (c : Cp0)
    → c.registers cause < 2 ^ 32
    → (set_interrupt_code ip_7 c).registers cause
      ≡ c.registers cause + (1 - c.registers cause / 2 ^ 15 % 2) * 2 ^ 15
unfolding set_interrupt_code
cause-set_interrupt_code c h = ground (arith, bit_or_digit 15 (c.registers cause))

pub registers-set_status_exl :
    (i : ℕ) (c : Cp0) → i ≢ sr → (set_status_exl c).registers i ≡ c.registers i
unfolding set_status_exl
registers-set_status_exl i c h = ground arith

pub registers-unset_status_exl :
    (i : ℕ) (c : Cp0) → i ≢ sr → (unset_status_exl c).registers i ≡ c.registers i
unfolding unset_status_exl
registers-unset_status_exl i c h = ground arith

pub registers-set_interrupt_code :
    (code i : ℕ) (c : Cp0) → i ≢ cause → (set_interrupt_code code c).registers i ≡ c.registers i
unfolding set_interrupt_code
registers-set_interrupt_code code i c h = ground arith
