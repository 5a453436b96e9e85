-- ===== src/Kernel/Inode/Tests.antt =====
-- The theorem on open files and inodes at a concrete input.
use mips32_cpu_emulator.Prelude.{true, false, some, refl, arith, []}
use mips32_cpu_emulator.Prelude.Int.{pos}
use mips32_cpu_emulator.Kernel.Result.{Result, returned}
use mips32_cpu_emulator.Kernel.Inode.{Inodes}
use mips32_cpu_emulator.Kernel.Inode.Open.{Undone, dup_close, dup_close-Undone}
use mips32_cpu_emulator.Kernel.Files.{fd_opened, File, Files, ok, Vfs, nentry}
use mips32_cpu_emulator.Kernel.Files.Monad.{set_file}
use mips32_cpu_emulator.Kernel.Files.Entry.{fd_array_init}
use mips32_cpu_emulator.Kernel.Files.Calls.{no_fd}
use mips32_cpu_emulator.Kernel.Files.Sets.{Gives, Sets-refl, Sets-set_file}
use mips32_cpu_emulator.Kernel.Files.Table.{IsFiles, Sets-IsFiles, in_use}
use mips32_cpu_emulator.Kernel.Files.Init.{fd_array_init-IsFiles}

-- Each inode is referenced and open once.
abbrev once : Inodes
once = record { ref_count = λ _. 1; open_count = λ _. 1; calls = [] }

-- File systems that read nothing.
abbrev silent : Vfs (Result Inodes)
silent = record {
  vfs_open = λ path flags v. (ok path, v);
  vfs_close = λ node v. v;
  vop_fstat = λ node v. (ok 0, v);
  vop_read = λ node offset len v. ((0, 0), v);
  vop_write = λ node offset len v. ((0, 0), v);
  vop_tryseek = λ node offset v. (0, v);
  vop_fsync = λ node v. (0, v);
  vop_getdirentry = λ node offset v. ((0, 0), v);
  vop_ref_inc = λ node v. v;
  vop_open_inc = λ node v. v;
}

abbrev input : File
input = record {
  status = fd_opened;
  readable = true;
  writable = false;
  fd = 0;
  offset = pos 3;
  node = some 4;
  open_count = 1;
}

abbrev empty : Files (Result Inodes)
empty = record {
  fd_array = fd_array_init nentry 0 (λ _. input);
  files_count = 1;
  vfs = returned once;
}

-- Descriptor 0 is open on inode 4.
abbrev one_open : Files (Result Inodes)
one_open = set_file empty 0 (record input { fd = (empty.fd_array 0).fd })

one_open-IsFiles : IsFiles one_open
one_open-IsFiles =
    Sets-IsFiles (fd_array_init-IsFiles (λ _. input) 1 (returned once) (omega arith))
      (Sets-set_file (record input { fd = (empty.fd_array 0).fd }) (Sets-refl {start = empty} 0))
      refl (in_use {node = 4} (record { opened = refl; once = refl; with_node = refl }))

dup_close-Undone_example : Gives (Undone one_open once) (dup_close silent (pos 0) no_fd one_open)
dup_close-Undone_example =
    dup_close-Undone silent one_open once (pos 0) no_fd one_open-IsFiles refl
      (λ _ _. (omega arith, omega arith))
