-- ===== src/Kernel/Result.antt =====
-- What a kernel function gives back: a value, a negative error code of ucore_OS/libs/error.h, or
-- nothing, because an `assert` of ucore_OS/kern/libs/assert.h failed and `panic` halts the machine.
use mips32_cpu_emulator.Prelude.{ℕ, List, ◌∷◌}

pub data Result (A : Type 0) : Type 0 where
  returned : A → Result A
  failed : ℕ → Result A
  panic : Result A

abbrev pub e_no_mem : ℕ
e_no_mem = 4

abbrev pub e_inval : ℕ
e_inval = 3

-- An element linked before what an insertion into the rest of a list gives.
abbrev pub linked : {A : Type 0} → A → Result (List A) → Result (List A)
linked a (returned list) = returned (a ∷ list)
linked a (failed code) = failed code
linked a panic = panic

abbrev pub e_busy : ℕ
e_busy = 15

abbrev pub e_max_open : ℕ
e_max_open = 22
