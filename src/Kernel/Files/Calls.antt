-- ===== src/Kernel/Files/Calls.antt =====
-- The functions of ucore_OS/kern/fs/file.c that the system calls use. A call runs from start to end:
-- other threads that share the table are not modelled.
use mips32_cpu_emulator.Prelude.{
  ℕ, Bool, true, false, not, ◌&&◌, Option, none, some, bit_and, ◌==◌, if◌then◌else◌,
}
use mips32_cpu_emulator.Prelude.Int.{ℤ, pos, negsuc, ◌+ℤ◌}
use mips32_cpu_emulator.Kernel.Result.{e_inval}
use mips32_cpu_emulator.Kernel.Files.{Ret, ok, error, Vfs, testfd, index_of, is_opened, off_t}
use mips32_cpu_emulator.Kernel.Files.Monad.{
  M, ◌>>=◌, ◌>>◌, pure, file_of, update, call, call_void, node_of, when_ok,
}
use mips32_cpu_emulator.Kernel.Files.Entry.{
  get_fd_array, fd_array_alloc, fd_array_free, fd_array_acquire, fd_array_release, fd_array_open,
  fd_array_close, fd_array_dup,
}

abbrev pub no_fd : ℤ
no_fd = negsuc 0x9526

-- The error code of a call, as its result.
abbrev pub ret_of : ℕ → Ret
ret_of code = if code == 0 then ok 0 else error code

-- The access mode as `readable` and `writable`.
abbrev pub access_mode : ℕ → Option (Bool × Bool)
access_mode open_flags =
    if bit_and open_flags 3 == 0
    then some (true, false)
    else if bit_and open_flags 3 == 1
    then some (false, true)
    else if bit_and open_flags 3 == 2
    then some (true, true)
    else none

module _ {V : Type 0} (ops : Vfs V) where
  unfoldable pub fd2file : ℤ → M V Ret
  fd2file fd =
      if testfd fd
      then (get_fd_array ops
          >> (file_of (index_of fd) >>= λ file.
              if is_opened file.status && (file.fd == index_of fd)
              then pure (ok (index_of fd))
              else pure (error e_inval)))
      else pure (error e_inval)

  abbrev pub test_access : Bool → Bool → Ret → M V Bool
  test_access readable writable (error code) = pure false
  test_access readable writable (ok i) = file_of i >>= λ file.
      if readable && not file.readable
      then pure false
      else if writable && not file.writable
      then pure false
      else pure true

  unfoldable pub file_testfd : ℤ → Bool → Bool → M V Bool
  file_testfd fd readable writable = fd2file fd >>= test_access readable writable

  -- The file gets its inode and mode, and is opened.
  abbrev pub finish_open : ℕ → Bool × Bool → ℕ → M V Ret
  finish_open i (readable, writable) node = do
    update i (λ f. record f { node = some node; readable = readable; writable = writable })
    fd_array_open ops i
    file ← file_of i
    pure (ok file.fd)

  -- What follows `vop_fstat` of a file that is opened for appending.
  abbrev pub at_end : ℕ → Bool × Bool → ℕ → Ret → M V Ret
  at_end i mode node (error code) =
      call_void (ops.vfs_close node) >> (fd_array_free ops i >> pure (error code))
  at_end i mode node (ok size) =
      update i (λ f. record f { offset = off_t (pos size) }) >> finish_open i mode node

  -- What follows `vfs_open`.
  abbrev pub opened : ℕ → ℕ → Bool × Bool → Ret → M V Ret
  opened i open_flags mode (error code) = fd_array_free ops i >> pure (error code)
  opened i open_flags mode (ok node) =
      update i (λ f. record f { offset = pos 0 })
      >> (if bit_and open_flags 0x20 == 0
          then finish_open i mode node
          else (call (ops.vop_fstat node) >>= at_end i mode node))

  abbrev pub open_mode : ℕ → ℕ → Option (Bool × Bool) → M V Ret
  open_mode path open_flags none = pure (error e_inval)
  open_mode path open_flags (some mode) = fd_array_alloc ops no_fd >>= λ r.
      when_ok r λ i. call (ops.vfs_open path open_flags) >>= opened i open_flags mode

  unfoldable pub file_open : ℕ → ℕ → M V Ret
  file_open path open_flags = open_mode path open_flags (access_mode open_flags)

  unfoldable pub file_close : ℤ → M V Ret
  file_close fd = fd2file fd >>= λ r. when_ok r λ i. fd_array_close ops i >> pure (ok 0)

  -- `if (file->status == FD_OPENED) file->pos += copied;`
  abbrev pub move_offset : ℕ → ℕ → M V (Unit {0})
  move_offset i copied =
      update i
        λ f. if is_opened f.status then record f { offset = off_t (f.offset +ℤ pos copied) } else f

  -- The part of `file_read` and of `file_write` between acquire and release; the result has the
  -- number of bytes too.
  abbrev pub transfer : (ℕ → ℤ → V → (ℕ × ℕ) × V) → ℕ → M V (Ret × ℕ)
  transfer move i = do
    fd_array_acquire ops i
    file ← file_of i
    node ← node_of file.node
    moved ← call (move node file.offset)
    move_offset i moved.1
    fd_array_release ops i
    pure (ret_of moved.0, moved.1)

  abbrev pub read_from : ℕ → Ret → M V (Ret × ℕ)
  read_from len (error code) = pure (error code, 0)
  read_from len (ok i) = file_of i >>= λ file.
      if file.readable
      then transfer (λ node offset. ops.vop_read node offset len) i
      else pure (error e_inval, 0)

  unfoldable pub file_read : ℤ → ℕ → M V (Ret × ℕ)
  file_read fd len = fd2file fd >>= read_from len

  abbrev pub write_to : ℕ → Ret → M V (Ret × ℕ)
  write_to len (error code) = pure (error code, 0)
  write_to len (ok i) = file_of i >>= λ file.
      if file.writable
      then transfer (λ node offset. ops.vop_write node offset len) i
      else pure (error e_inval, 0)

  unfoldable pub file_write : ℤ → ℕ → M V (Ret × ℕ)
  file_write fd len = fd2file fd >>= write_to len

  abbrev pub from_end : ℤ → Ret → M V (Ret × ℤ)
  from_end offset (error code) = pure (error code, offset)
  from_end offset (ok size) = pure (ok 0, off_t (offset +ℤ pos size))

  -- The `switch (whence)` of `file_seek`: the result so far, and the offset.
  abbrev pub seek_target : ℕ → ℤ → ℕ → M V (Ret × ℤ)
  seek_target i offset whence = file_of i >>= λ file.
      if whence == 0
      then pure (ok 0, offset)
      else if whence == 1
      then pure (ok 0, off_t (offset +ℤ file.offset))
      else if whence == 2
      then (node_of file.node >>= λ node. call (ops.vop_fstat node) >>= from_end offset)
      else pure (error e_inval, offset)

  abbrev pub seek_to : ℕ → Ret × ℤ → M V Ret
  seek_to i (error code, offset) = pure (error code)
  seek_to i (ok _, offset) = do
    file ← file_of i
    node ← node_of file.node
    code ← call (ops.vop_tryseek node offset)
    update i (λ f. if code == 0 then record f { offset = offset } else f)
    pure (ret_of code)

  abbrev pub seek_file : ℤ → ℕ → ℕ → M V Ret
  seek_file offset whence i = do
    fd_array_acquire ops i
    target ← seek_target i offset whence
    ret ← seek_to i target
    fd_array_release ops i
    pure ret

  unfoldable pub file_seek : ℤ → ℤ → ℕ → M V Ret
  file_seek fd offset whence = fd2file fd >>= λ r. when_ok r (seek_file offset whence)

  -- A call of an inode operation that leaves the file alone.
  abbrev pub with_node : {A : Type 0} → (ℕ → V → A × V) → ℕ → M V A
  with_node operation i = do
    fd_array_acquire ops i
    file ← file_of i
    node ← node_of file.node
    done ← call (operation node)
    fd_array_release ops i
    pure done

  unfoldable pub file_fstat : ℤ → M V Ret
  file_fstat fd = fd2file fd >>= λ r. when_ok r λ i. with_node ops.vop_fstat i

  unfoldable pub file_fsync : ℤ → M V Ret
  file_fsync fd =
      fd2file fd >>= λ r. when_ok r λ i. with_node ops.vop_fsync i >>= λ code. pure (ret_of code)

  -- The new `direntp->offset` comes with the result.
  abbrev pub entry_of : ℤ → Ret → M V (Ret × ℤ)
  entry_of offset (error code) = pure (error code, offset)
  entry_of offset (ok i) = with_node (λ node. ops.vop_getdirentry node offset) i >>= λ moved.
      pure (ret_of moved.0, if moved.0 == 0 then off_t (offset +ℤ pos moved.1) else offset)

  unfoldable pub file_getdirentry : ℤ → ℤ → M V (Ret × ℤ)
  file_getdirentry fd offset = fd2file fd >>= entry_of offset

  unfoldable pub file_dup : ℤ → ℤ → M V Ret
  file_dup fd1 fd2 = fd2file fd1 >>= λ r. when_ok r λ i. fd_array_alloc ops fd2 >>= λ r2.
      when_ok r2 λ j. do fd_array_dup ops j i; file ← file_of j; pure (ok file.fd)
