-- ===== src/Emulator.antt =====
-- The emulator, src/: the system coprocessor (`Cp0`), the memory management unit (`Mmu`) and the
-- processor (`Cpu`), over machine words (`Word`) and the result of a step (`Outcome`).
pub mod Word
pub mod Outcome
pub mod Cp0
pub mod Mmu
pub mod Cpu
pub mod Isa
mod Tests
