-- ===== src/Kernel/Files/Monad.antt =====
-- The functions of ucore_OS/kern/fs/file.c as a state monad: each gives a result and the new table, or
-- panics where an assert fails.
use mips32_cpu_emulator.Prelude.{ℕ, Bool, Option, some, none, ◌==◌, if◌then◌else◌}
use mips32_cpu_emulator.Kernel.Result.{Result, returned, failed, panic}
use mips32_cpu_emulator.Kernel.Files.{File, Files, Ret, ok, error}

abbrev pub M : Type 0 → Type 0 → Type 0
M V A = Files V → Result (A × Files V)

abbrev pub continue : {V A B : Type 0} → Result (A × Files V) → (A → M V B) → Result (B × Files V)
continue (returned (a, s)) k = k a s
continue (failed code) k = failed code
continue panic k = panic

infixl 5 ◌>>=◌ ◌>>◌
abbrev pub ◌>>=◌ : {V A B : Type 0} → M V A → (A → M V B) → M V B
◌>>=◌ m k s = continue (m s) k

abbrev pub ◌>>◌ : {V B : Type 0} → M V (Unit {0}) → M V B → M V B
m >> k = m >>= λ _. k

abbrev pub pure : {V A : Type 0} → A → M V A
pure a s = returned (a, s)

abbrev pub assert : {V : Type 0} → Bool → M V (Unit {0})
assert test s = if test then returned (tt, s) else panic

abbrev pub file_of : {V : Type 0} → ℕ → M V File
file_of i s = returned (s.fd_array i, s)

abbrev pub set_file : {V : Type 0} → Files V → ℕ → File → Files V
set_file s i file = record s { fd_array = λ j. if i == j then file else s.fd_array j }

-- A store to the fields of the file at `i`.
abbrev pub update : {V : Type 0} → ℕ → (File → File) → M V (Unit {0})
update i change s = returned (tt, set_file s i (change (s.fd_array i)))

-- A call of the file systems.
abbrev pub call : {V A : Type 0} → (V → A × V) → M V A
call f s = let done = f s.vfs in returned (done.0, record s { vfs = done.1 })

abbrev pub call_void : {V : Type 0} → (V → V) → M V (Unit {0})
call_void f s = returned (tt, record s { vfs = f s.vfs })

-- An inode that the code follows: NULL is a fault of the kernel.
abbrev pub node_of : {V : Type 0} → Option ℕ → M V ℕ
node_of none s = panic
node_of (some node) s = returned (node, s)

-- `if ((ret = m) != 0) return ret;`
abbrev pub when_ok : {V : Type 0} → Ret → (ℕ → M V Ret) → M V Ret
when_ok (ok value) k = k value
when_ok (error code) k = pure (error code)
