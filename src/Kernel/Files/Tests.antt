-- ===== src/Kernel/Files/Tests.antt =====
-- The theorems on the table of files at concrete inputs.
use mips32_cpu_emulator.Prelude.{
  ℕ, ◌+◌, true, false, some, ◌==◌, if◌then◌else◌, refl, arith, [], ◌∷◌,
}
use mips32_cpu_emulator.Prelude.Int.{pos}
use mips32_cpu_emulator.Kernel.Files.{fd_opened, File, Files, ok, error, Vfs, nentry}
use mips32_cpu_emulator.Kernel.Files.Monad.{set_file}
use mips32_cpu_emulator.Kernel.Files.Entry.{fd_array_init}
use mips32_cpu_emulator.Kernel.Files.Calls.{file_open, file_read, file_dup, no_fd}
use mips32_cpu_emulator.Kernel.Files.Sets.{Gives, Sets-refl, Sets-set_file}
use mips32_cpu_emulator.Kernel.Files.Table.{IsFiles, Sets-IsFiles, in_use}
use mips32_cpu_emulator.Kernel.Files.Init.{fd_array_init-IsFiles}
use mips32_cpu_emulator.Kernel.Files.Open.{FileOpens, file_open-FileOpens}
use mips32_cpu_emulator.Kernel.Files.Close.{FileDups, file_dup-FileDups}
use mips32_cpu_emulator.Kernel.Files.Transfer.{Transfers, file_read-Transfers}
use mips32_cpu_emulator.Kernel.Files.Safe.{
  open_call, read_call, dup_call, close_call, run, run-IsFiles,
}

-- File systems that count the calls: path 0 is missing, a read moves what is asked for.
abbrev counting : Vfs ℕ
counting = record {
  vfs_open = λ path flags v. (if path == 0 then error 16 else ok path, v + 1);
  vfs_close = λ node v. v + 1;
  vop_fstat = λ node v. (ok 7, v + 1);
  vop_read = λ node offset len v. ((0, len), v + 1);
  vop_write = λ node offset len v. ((0, len), v + 1);
  vop_tryseek = λ node offset v. (0, v + 1);
  vop_fsync = λ node v. (0, v + 1);
  vop_getdirentry = λ node offset v. ((0, 1), v + 1);
  vop_ref_inc = λ node v. v + 1;
  vop_open_inc = λ node v. v + 1;
}

abbrev raw : File
raw = record {
  status = fd_opened;
  readable = true;
  writable = false;
  fd = 9;
  offset = pos 3;
  node = some 4;
  open_count = 1;
}

abbrev fresh : Files ℕ
fresh = record { fd_array = fd_array_init nentry 0 (λ _. raw); files_count = 1; vfs = 0 }

fresh-IsFiles : IsFiles fresh
fresh-IsFiles = fd_array_init-IsFiles (λ _. raw) 1 0 (omega arith)

-- Descriptor 0 is open.
abbrev first_open : Files ℕ
first_open = set_file fresh 0 (record raw { fd = (fresh.fd_array 0).fd })

first_open-IsFiles : IsFiles first_open
first_open-IsFiles =
    Sets-IsFiles fresh-IsFiles
      (Sets-set_file (record raw { fd = (fresh.fd_array 0).fd }) (Sets-refl {start = fresh} 0)) refl
      (in_use {node = 4} (record { opened = refl; once = refl; with_node = refl }))

run-IsFiles_example :
    Gives
      (λ _ s. IsFiles s)
      (run counting
        (open_call 5 2
          ∷ read_call (pos 0) 8
          ∷ dup_call (pos 0) no_fd
          ∷ close_call (pos 0)
          ∷ close_call (pos 0)
          ∷ [])
        fresh)
run-IsFiles_example =
    run-IsFiles counting
      (open_call 5 2
        ∷ read_call (pos 0) 8
        ∷ dup_call (pos 0) no_fd
        ∷ close_call (pos 0)
        ∷ close_call (pos 0)
        ∷ [])
      fresh fresh-IsFiles

file_open-FileOpens_example :
    Gives (FileOpens counting 5 0x22 first_open) (file_open counting 5 0x22 first_open)
file_open-FileOpens_example = file_open-FileOpens counting 5 0x22 first_open first_open-IsFiles

file_dup-FileDups_example :
    Gives
      (FileDups counting first_open (pos 0) (pos 3))
      (file_dup counting (pos 0) (pos 3) first_open)
file_dup-FileDups_example = file_dup-FileDups counting first_open (pos 0) (pos 3) first_open-IsFiles

file_read-Transfers_example :
    Gives
      (Transfers first_open
        (λ node offset. counting.vop_read node offset 8)
        (λ file. file.readable)
        (pos 0))
      (file_read counting (pos 0) 8 first_open)
file_read-Transfers_example = file_read-Transfers counting first_open (pos 0) 8 first_open-IsFiles
