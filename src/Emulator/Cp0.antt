-- ===== src/Emulator/Cp0.antt =====
-- The system coprocessor: struct CP0 of src/cp0.h.
pub mod Fields
use mips32_cpu_emulator.Prelude.{ℕ, ◌==◌, Bool, bit_and, bit_or, if◌then◌else◌}
use mips32_cpu_emulator.Emulator.Word.{shl32, test}

-- `uint32_t registers_[32]`. Every index is a constant below 32 or a field of five bits.
pub record Cp0 : Type 0 where
  pub registers : ℕ → ℕ

-- `array[i] = v`
abbrev pub update : (ℕ → ℕ) → ℕ → ℕ → ℕ → ℕ
update array i v j = if i == j then v else array j

-- The registers' numbers.
abbrev pub index : ℕ
index = 0

abbrev pub entry_lo0 : ℕ
entry_lo0 = 2

abbrev pub entry_lo1 : ℕ
entry_lo1 = 3

abbrev pub context : ℕ
context = 4

abbrev pub bad_vaddr : ℕ
bad_vaddr = 8

abbrev pub count : ℕ
count = 9

abbrev pub entry_hi : ℕ
entry_hi = 10

abbrev pub compare : ℕ
compare = 11

abbrev pub sr : ℕ
sr = 12

abbrev pub cause : ℕ
cause = 13

abbrev pub epc : ℕ
epc = 14

abbrev pub ebase : ℕ
ebase = 15

-- ExcCode.
abbrev pub exc_int : ℕ
exc_int = 0

abbrev pub exc_mod : ℕ
exc_mod = 1

abbrev pub exc_tlbl : ℕ
exc_tlbl = 2

abbrev pub exc_tlbs : ℕ
exc_tlbs = 3

abbrev pub exc_adel : ℕ
exc_adel = 4

abbrev pub exc_ades : ℕ
exc_ades = 5

abbrev pub exc_syscall : ℕ
exc_syscall = 8

abbrev pub exc_ri : ℕ
exc_ri = 10

-- The mask of the clock's interrupt line.
abbrev pub ip_7 : ℕ
ip_7 = 128

-- `registers_[i] = v`
abbrev pub write : Cp0 → ℕ → ℕ → Cp0
write c i v = record c { registers = update c.registers i v }

-- The constructor.
unfoldable pub initial : Cp0
initial = write (record { registers = λ i. 0 }) ebase 0x80000180

unfoldable pub set_exception_code : ℕ → Cp0 → Cp0
set_exception_code exc_code c =
    let c' = write c cause (bit_and (c.registers cause) 0xffffff83) in
    write c' cause (bit_or (c'.registers cause) (shl32 exc_code 2))

unfoldable pub set_interrupt_code : ℕ → Cp0 → Cp0
set_interrupt_code interrupt_code c =
    write c cause (bit_or (c.registers cause) (shl32 interrupt_code 8))

unfoldable pub interrupt_enabled : Cp0 → Bool
interrupt_enabled c = bit_and (c.registers sr) 0b111 == 0b001

unfoldable pub line_enabled : Cp0 → ℕ → Bool
line_enabled c interrupt_mask = test (bit_and (c.registers sr) (shl32 interrupt_mask 8))

unfoldable pub set_status_exl : Cp0 → Cp0
set_status_exl c = write c sr (bit_or (c.registers sr) 0x02)

unfoldable pub unset_status_exl : Cp0 → Cp0
unset_status_exl c = write c sr (bit_and (c.registers sr) 0xfffffffd)

unfoldable pub status_exl : Cp0 → Bool
status_exl c = test (bit_and (c.registers sr) 0x02)
