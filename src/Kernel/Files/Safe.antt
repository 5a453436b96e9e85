-- ===== src/Kernel/Files/Safe.antt =====
-- Sequences of calls of ucore_OS/kern/fs/file.c, as the system calls of ucore_OS/kern/fs/sysfile.c make
-- them: no assert fails.
use mips32_cpu_emulator.Prelude.{ℕ, Bool, true, false, not, ◌&&◌, if◌then◌else◌, List, [], ◌∷◌}
use mips32_cpu_emulator.Prelude.Int.{ℤ}
use mips32_cpu_emulator.Kernel.Files.{Files, Vfs, index_of}
use mips32_cpu_emulator.Kernel.Files.Monad.{M, ◌>>=◌, ◌>>◌, pure}
use mips32_cpu_emulator.Kernel.Files.Calls.{
  file_open, file_close, file_read, file_write, file_seek, file_fstat, file_fsync, file_getdirentry,
  file_dup, file_testfd,
}
use mips32_cpu_emulator.Kernel.Files.Sets.{Gives, gives, Gives-continue, Gives-mono}
use mips32_cpu_emulator.Kernel.Files.Steps.{with_node-Holds, seek-Holds}
use mips32_cpu_emulator.Kernel.Files.Table.{IsFiles, Holds-IsFiles, fd2file-continue}
use mips32_cpu_emulator.Kernel.Files.Open.{file_open-FileOpens, FileOpens-IsFiles}
use mips32_cpu_emulator.Kernel.Files.Close.{
  file_close-FileCloses, FileCloses-IsFiles, file_dup-FileDups, FileDups-IsFiles,
}
use mips32_cpu_emulator.Kernel.Files.Transfer.{
  file_read-Transfers, file_write-Transfers, Transfers-IsFiles,
}

-- A call with its arguments.
pub data Call : Type 0 where
  open_call : ℕ → ℕ → Call
  close_call : ℤ → Call
  read_call : ℤ → ℕ → Call
  write_call : ℤ → ℕ → Call
  seek_call : ℤ → ℤ → ℕ → Call
  stat_call : ℤ → Call
  sync_call : ℤ → Call
  entry_call : ℤ → ℤ → Call
  dup_call : ℤ → ℤ → Call
  test_call : ℤ → Bool → Bool → Call

module _ {V : Type 0} (ops : Vfs V) where
  -- A call, without its result.
  abbrev pub done : {A : Type 0} → M V A → M V (Unit {0})
  done m = m >>= λ _. pure tt

  abbrev pub perform : Call → M V (Unit {0})
  perform (open_call path open_flags) = done (file_open ops path open_flags)
  perform (close_call fd) = done (file_close ops fd)
  perform (read_call fd len) = done (file_read ops fd len)
  perform (write_call fd len) = done (file_write ops fd len)
  perform (seek_call fd offset whence) = done (file_seek ops fd offset whence)
  perform (stat_call fd) = done (file_fstat ops fd)
  perform (sync_call fd) = done (file_fsync ops fd)
  perform (entry_call fd offset) = done (file_getdirentry ops fd offset)
  perform (dup_call fd1 fd2) = done (file_dup ops fd1 fd2)
  perform (test_call fd readable writable) = done (file_testfd ops fd readable writable)

  abbrev pub run : List Call → M V (Unit {0})
  run [] = pure tt
  run (call ∷ calls) = perform call >> run calls

  module _ (start : Files V) (good : IsFiles start) where
    answer-IsFiles :
        (first second : Bool)
        → Gives
            (λ _ s. IsFiles s)
            ((if first then pure false else if second then pure false else pure true) start)
    answer-IsFiles true second = gives good
    answer-IsFiles false true = gives good
    answer-IsFiles false false = gives good

    file_seek-IsFiles :
        (fd offset : ℤ) (whence : ℕ)
        → Gives (λ _ s. IsFiles s) (file_seek ops fd offset whence start)
    unfolding file_seek
    file_seek-IsFiles fd offset whence =
        fd2file-continue ops start fd _ good
          (λ node named.
            Gives-mono (seek-Holds ops start (index_of fd) node named.is_open offset whence)
              (λ _ s held. Holds-IsFiles good named.is_open held))
          (λ _. gives good)

    file_fstat-IsFiles : (fd : ℤ) → Gives (λ _ s. IsFiles s) (file_fstat ops fd start)
    unfolding file_fstat
    file_fstat-IsFiles fd =
        fd2file-continue ops start fd _ good
          (λ node named.
            Gives-mono (with_node-Holds ops start (index_of fd) node named.is_open ops.vop_fstat)
              (λ _ s held. Holds-IsFiles good named.is_open held))
          (λ _. gives good)

    file_fsync-IsFiles : (fd : ℤ) → Gives (λ _ s. IsFiles s) (file_fsync ops fd start)
    unfolding file_fsync
    file_fsync-IsFiles fd =
        fd2file-continue ops start fd _ good
          (λ node named.
            Gives-continue
              (with_node-Holds ops start (index_of fd) node named.is_open ops.vop_fsync)
              (λ _ s held. gives (Holds-IsFiles good named.is_open held)))
          (λ _. gives good)

    file_getdirentry-IsFiles :
        (fd offset : ℤ) → Gives (λ _ s. IsFiles s) (file_getdirentry ops fd offset start)
    unfolding file_getdirentry
    file_getdirentry-IsFiles fd offset =
        fd2file-continue ops start fd _ good
          (λ node named.
            Gives-continue
              (with_node-Holds ops start (index_of fd) node named.is_open
                (λ inode. ops.vop_getdirentry inode offset))
              (λ _ s held. gives (Holds-IsFiles good named.is_open held)))
          (λ _. gives good)

    file_testfd-IsFiles :
        (fd : ℤ) (readable writable : Bool)
        → Gives (λ _ s. IsFiles s) (file_testfd ops fd readable writable start)
    unfolding file_testfd
    file_testfd-IsFiles fd readable writable =
        fd2file-continue ops start fd _ good
          (λ node named.
            answer-IsFiles (readable && not (start.fd_array (index_of fd)).readable)
              (writable && not (start.fd_array (index_of fd)).writable))
          (λ _. gives good)

  perform-IsFiles :
      (call : Call) (start : Files V)
      → IsFiles start
      → Gives (λ _ s. IsFiles s) (perform call start)
  perform-IsFiles (open_call path open_flags) start good =
      Gives-continue (file_open-FileOpens ops path open_flags start good)
        (λ r s h. gives (FileOpens-IsFiles ops path open_flags start r s good h))
  perform-IsFiles (close_call fd) start good =
      Gives-continue (file_close-FileCloses ops start fd good)
        (λ r s h. gives (FileCloses-IsFiles ops start fd r s good h))
  perform-IsFiles (read_call fd len) start good =
      Gives-continue (file_read-Transfers ops start fd len good)
        (λ r s h. gives (Transfers-IsFiles ops start _ _ fd r s good h))
  perform-IsFiles (write_call fd len) start good =
      Gives-continue (file_write-Transfers ops start fd len good)
        (λ r s h. gives (Transfers-IsFiles ops start _ _ fd r s good h))
  perform-IsFiles (seek_call fd offset whence) start good =
      Gives-continue (file_seek-IsFiles start good fd offset whence) (λ r s h. gives h)
  perform-IsFiles (stat_call fd) start good =
      Gives-continue (file_fstat-IsFiles start good fd) (λ r s h. gives h)
  perform-IsFiles (sync_call fd) start good =
      Gives-continue (file_fsync-IsFiles start good fd) (λ r s h. gives h)
  perform-IsFiles (entry_call fd offset) start good =
      Gives-continue (file_getdirentry-IsFiles start good fd offset) (λ r s h. gives h)
  perform-IsFiles (dup_call fd1 fd2) start good =
      Gives-continue (file_dup-FileDups ops start fd1 fd2 good)
        (λ r s h. gives (FileDups-IsFiles ops start fd1 fd2 r s good h))
  perform-IsFiles (test_call fd readable writable) start good =
      Gives-continue (file_testfd-IsFiles start good fd readable writable) (λ r s h. gives h)

  -- Any sequence of calls with any arguments, from a well-formed table and over any file systems,
  -- returns: no assert fails and no NULL inode is followed. The table is well formed afterwards.
  pub run-IsFiles :
      (calls : List Call) (start : Files V)
      → IsFiles start
      → Gives (λ _ s. IsFiles s) (run calls start)
  run-IsFiles [] start good = gives good
  run-IsFiles (call ∷ calls) start good =
      Gives-continue (perform-IsFiles call start good) λ _ s good'. run-IsFiles calls s good'
