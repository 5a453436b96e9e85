-- ===== src/Emulator/Mmu/Frame.antt =====
-- What the operations of class MMU, src/mmu.h, leave alone, on every return.
use mips32_cpu_emulator.Prelude.{
  ℕ, zero, suc, ◌+◌, ◌≡◌, refl, subst, Bool, true, false, arith, bit_and,
}
use mips32_cpu_emulator.Emulator.Word.{shr, add32, test}
use mips32_cpu_emulator.Emulator.Outcome.{
  Outcome, Ensures, on_done, on_raised, on_undefined, Ensures-bind, Ensures-if, Ensures-mono,
}
use mips32_cpu_emulator.Emulator.Cp0
use mips32_cpu_emulator.Emulator.Cp0.{Cp0}
use mips32_cpu_emulator.Emulator.Cp0.Fields.{registers-set_exception_code}
use mips32_cpu_emulator.Emulator.Mmu.{
  Mmu, Stream, read_stream, read_physical, write_ram, write_serial, write_physical, tlb_exception,
  tlb_hit, tlb_search, addr_translate, alignment_exception, read_byte, read_half_word, read_word,
  write_byte, write_half_word, write_word, report, u8,
}

-- The coprocessor registers in which a failed access is reported.
pub data IsReport (i : ℕ) : Type 0 where
  in_cause : i ≡ Cp0.cause → IsReport i
  in_bad_vaddr : i ≡ Cp0.bad_vaddr → IsReport i
  in_context : i ≡ Cp0.context → IsReport i
  in_entry_hi : i ≡ Cp0.entry_hi → IsReport i

-- Nothing but the report differs.
pub record OnlyReport (m m' : Mmu) : Type 0 where
  pub ram : m'.ram ≡ m.ram
  pub rom : m'.rom ≡ m.rom
  pub flash : m'.flash ≡ m.flash
  pub tlb_key : m'.tlb_key ≡ m.tlb_key
  pub tlb_data : m'.tlb_data ≡ m.tlb_data
  pub console : m'.console ≡ m.console
  pub cp0 : (i : ℕ) → ¬ IsReport i → m'.cp0.registers i ≡ m.cp0.registers i

-- Nothing but the RAM and the console differs.
pub record OnlyStore (m m' : Mmu) : Type 0 where
  pub cp0 : m'.cp0 ≡ m.cp0
  pub rom : m'.rom ≡ m.rom
  pub flash : m'.flash ≡ m.flash
  pub tlb_key : m'.tlb_key ≡ m.tlb_key
  pub tlb_data : m'.tlb_data ≡ m.tlb_data

pub OnlyStore-trans : {a b c : Mmu} → OnlyStore a b → OnlyStore b c → OnlyStore a c
OnlyStore-trans p q = ground arith

-- A read: the state stays, or is reported in.
abbrev pub Reads : {A : Type 0} → Mmu → Outcome Mmu A → Type 0
Reads m = Ensures (λ _ m'. m' ≡ m) (OnlyReport m)

abbrev pub Writes : Mmu → Outcome Mmu (Unit {0}) → Type 0
Writes m = Ensures (λ _ m'. OnlyStore m m') (OnlyReport m)

registers-report :
    (code virtual_addr i : ℕ) (c : Cp0)
    → ¬ IsReport i
    → (report code virtual_addr c).registers i ≡ c.registers i
unfolding report
registers-report code virtual_addr i c other = ground (
  arith,
  registers-set_exception_code code i c,
  λ (e : i ≡ Cp0.cause). other (IsReport.in_cause e),
  λ (e : i ≡ Cp0.bad_vaddr). other (IsReport.in_bad_vaddr e),
  λ (e : i ≡ Cp0.context). other (IsReport.in_context e),
  λ (e : i ≡ Cp0.entry_hi). other (IsReport.in_entry_hi e),
)

tlb_exception-Reads :
    {A : Type 0} (code virtual_addr : ℕ) (m : Mmu)
    → Reads m (tlb_exception {A = A} code virtual_addr m)
unfolding tlb_exception
tlb_exception-Reads code virtual_addr m = on_raised (record {
  ram = refl;
  rom = refl;
  flash = refl;
  tlb_key = refl;
  tlb_data = refl;
  console = refl;
  cp0 = λ i other. registers-report code virtual_addr i m.cp0 other;
})

alignment_exception-Reads :
    {A : Type 0} (code virtual_addr : ℕ) (m : Mmu)
    → Reads m (alignment_exception {A = A} code virtual_addr m)
unfolding alignment_exception
alignment_exception-Reads code virtual_addr m = on_raised (record {
  ram = refl;
  rom = refl;
  flash = refl;
  tlb_key = refl;
  tlb_data = refl;
  console = refl;
  cp0 = λ i other. ground (
    arith,
    registers-set_exception_code code i m.cp0,
    λ (e : i ≡ Cp0.cause). other (IsReport.in_cause e),
    λ (e : i ≡ Cp0.bad_vaddr). other (IsReport.in_bad_vaddr e),
  );
})

module _ (m : Mmu) where
  tlb_hit-Reads :
      (entry_lo virtual_addr : ℕ) (write : Bool) → Reads m (tlb_hit entry_lo virtual_addr write m)
  unfolding tlb_hit
  tlb_hit-Reads entry_lo virtual_addr write = search (Ensures-if, tlb_exception-Reads, on_done)

  tlb_search-Reads :
      (left i virtual_addr : ℕ) (write : Bool) → Reads m (tlb_search left i virtual_addr write m)
  unfolding tlb_search
  tlb_search-Reads zero i virtual_addr write = tlb_exception-Reads _ virtual_addr m
  tlb_search-Reads (suc left) i virtual_addr write =
      search (Ensures-if, tlb_hit-Reads, tlb_search-Reads left (i + 1) virtual_addr write)

  -- A translation that succeeds changes nothing, and one that fails only reports.
  pub addr_translate-Reads :
      (virtual_addr : ℕ) (write : Bool) → Reads m (addr_translate virtual_addr write m)
  unfolding addr_translate
  addr_translate-Reads virtual_addr write = search (Ensures-if, on_done, tlb_search-Reads)

  read_stream-Reads : (s : Stream) (offset : ℕ) → Reads m (read_stream s offset m)
  unfolding read_stream
  read_stream-Reads s offset = search (Ensures-if, on_done, on_undefined)

  pub read_physical-Reads : (addr : ℕ) → Reads m (read_physical addr m)
  unfolding read_physical
  read_physical-Reads addr = search (Ensures-if, on_done, read_stream-Reads) depth 8

Reads-at : {A : Type 0} {s m : Mmu} {o : Outcome Mmu A} → s ≡ m → Reads s o → Reads m o
Reads-at {o} e h = subst (λ t. Reads t o) e h

pub read_byte-Reads : (virtual_addr : ℕ) (m : Mmu) → Reads m (read_byte virtual_addr m)
unfolding read_byte
read_byte-Reads virtual_addr m =
    Ensures-bind (addr_translate-Reads m virtual_addr false)
      λ a s e. Reads-at e (read_physical-Reads s a)

pub read_half_word-Reads : (virtual_addr : ℕ) (m : Mmu) → Reads m (read_half_word virtual_addr m)
unfolding read_half_word
read_half_word-Reads virtual_addr m =
    Ensures-if (test (bit_and virtual_addr 0x01)) (alignment_exception-Reads _ virtual_addr m) (
      Ensures-bind (addr_translate-Reads m virtual_addr false) λ a s e.
        Ensures-bind (Reads-at e (read_physical-Reads s (add32 a 0))) λ b0 s e.
          Ensures-bind (Reads-at e (read_physical-Reads s (add32 a 1))) λ b1 s e. on_done e)

pub read_word-Reads : (virtual_addr : ℕ) (m : Mmu) → Reads m (read_word virtual_addr m)
unfolding read_word
read_word-Reads virtual_addr m =
    Ensures-if (test (bit_and virtual_addr 0x03)) (alignment_exception-Reads _ virtual_addr m) (
      Ensures-bind (addr_translate-Reads m virtual_addr false) λ a s e.
        Ensures-bind (Reads-at e (read_physical-Reads s (add32 a 0))) λ b0 s e.
          Ensures-bind (Reads-at e (read_physical-Reads s (add32 a 1))) λ b1 s e.
            Ensures-bind (Reads-at e (read_physical-Reads s (add32 a 2))) λ b2 s e.
              Ensures-bind (Reads-at e (read_physical-Reads s (add32 a 3))) λ b3 s e. on_done e)

-- A store never raises, and reaches only the RAM and the console.
pub write_physical-OnlyStore :
    (addr byte : ℕ) (m : Mmu) → OnlyStore m (write_serial addr byte (write_ram addr byte m))
unfolding write_serial write_ram
write_physical-OnlyStore addr byte m = ground arith

stored-Writes : {m s : Mmu} (addr byte : ℕ) → OnlyStore m s → Writes m (write_physical addr byte s)
unfolding write_physical
stored-Writes {s} addr byte h = on_done (OnlyStore-trans h (write_physical-OnlyStore addr byte s))

OnlyStore-of_eq : {m s : Mmu} → s ≡ m → OnlyStore m s
OnlyStore-of_eq e = ground arith

pub write_byte-Writes :
    (virtual_addr byte : ℕ) (m : Mmu) → Writes m (write_byte virtual_addr byte m)
unfolding write_byte
write_byte-Writes virtual_addr byte m =
    Ensures-bind (addr_translate-Reads m virtual_addr true)
      λ a s e. stored-Writes a byte (OnlyStore-of_eq e)

pub write_half_word-Writes :
    (virtual_addr half : ℕ) (m : Mmu) → Writes m (write_half_word virtual_addr half m)
unfolding write_half_word
write_half_word-Writes virtual_addr half m =
    Ensures-if (test (bit_and virtual_addr 0x01))
      (Ensures-mono (λ a s e. OnlyStore-of_eq e) (λ s h. h)
        (alignment_exception-Reads _ virtual_addr m))
      (Ensures-bind (addr_translate-Reads m virtual_addr true) λ a s e.
        Ensures-bind (stored-Writes (add32 a 0) (u8 half) (OnlyStore-of_eq e))
          λ _ s h. stored-Writes (add32 a 1) (u8 (shr half 8)) h)

pub write_word-Writes :
    (virtual_addr word : ℕ) (m : Mmu) → Writes m (write_word virtual_addr word m)
unfolding write_word
write_word-Writes virtual_addr word m =
    Ensures-if (test (bit_and virtual_addr 0x03))
      (Ensures-mono (λ a s e. OnlyStore-of_eq e) (λ s h. h)
        (alignment_exception-Reads _ virtual_addr m))
      (Ensures-bind (addr_translate-Reads m virtual_addr true) λ a s e.
        Ensures-bind (stored-Writes (add32 a 0) (u8 word) (OnlyStore-of_eq e)) λ _ s h.
          Ensures-bind (stored-Writes (add32 a 1) (u8 (shr word 8)) h) λ _ s h.
            Ensures-bind (stored-Writes (add32 a 2) (u8 (shr word 16)) h)
              λ _ s h. stored-Writes (add32 a 3) (u8 (shr word 24)) h)
