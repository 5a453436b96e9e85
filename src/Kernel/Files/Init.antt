-- ===== src/Kernel/Files/Init.antt =====
-- `fd_array_init` of ucore_OS/kern/fs/file.c makes a well-formed table.
use mips32_cpu_emulator.Prelude.{
  ℕ, zero, suc, ◌+◌, ◌<◌, ◌≤◌, false, ◌==◌, ◌≡◌, inl, inr, refl, sym, subst, ◌∙◌, arith, Bool-cases,
}
use mips32_cpu_emulator.Kernel.Files.{File, nentry}
use mips32_cpu_emulator.Kernel.Files.Entry.{fd_array_init}
use mips32_cpu_emulator.Kernel.Files.Table.{IsFree, free, IsFiles}

-- A free entry with its number.
record IsFresh (file : File) (fd : ℕ) : Type 0 where
  pub is_free : IsFree file
  pub numbered : file.fd ≡ fd

init-below :
    (left fd : ℕ) (files : ℕ → File) (j : ℕ) → j < fd → fd_array_init left fd files j ≡ files j
unfolding fd_array_init
init-below zero fd files j below = refl
init-below (suc left) fd files j below =
    let other : (fd == j) ≡ false = ground arith in
    init-below left (suc fd) _ j (omega arith) ∙ rw other refl

init-IsFresh :
    (left fd : ℕ) (files : ℕ → File) (j : ℕ)
    → fd ≤ j
    → j < fd + left
    → IsFresh (fd_array_init left fd files j) j
unfolding fd_array_init
init-IsFresh zero fd files j after below = absurd (omega arith)
init-IsFresh (suc left) fd files j after below = elim (Bool-cases (fd == j)) [
  | inl at ↦
      let same : fd ≡ j = ground arith in
      subst (λ (f : File). IsFresh f j) (sym (init-below left (suc fd) _ j (omega (arith, same))))
        (rw at (record { is_free = record { unopened = refl; unused = refl }; numbered = same }))
  | inr off ↦ init-IsFresh left (suc fd) _ j (ground arith) (omega arith)
]

pub fd_array_init-IsFiles :
    {V : Type 0} (files : ℕ → File) (files_count : ℕ) (vfs : V)
    → 0 < files_count
    → IsFiles
        (record { fd_array = fd_array_init nentry 0 files; files_count = files_count; vfs = vfs })
fd_array_init-IsFiles files files_count vfs referenced = record {
  referenced = referenced;
  numbered = λ i inside. (init-IsFresh nentry 0 files i (omega arith) (omega arith)).numbered;
  resting = λ i inside. free (init-IsFresh nentry 0 files i (omega arith) (omega arith)).is_free;
}
