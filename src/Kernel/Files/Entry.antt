-- ===== src/Kernel/Files/Entry.antt =====
-- The `fd_array_` functions of ucore_OS/kern/fs/file.c: the life of one entry of the table.
use mips32_cpu_emulator.Prelude.{
  ℕ, zero, suc, ◌+◌, ◌-◌, Bool, true, false, ◌&&◌, ◌||◌, Option, none, some, ltb, ◌==◌,
  if◌then◌else◌,
}
use mips32_cpu_emulator.Prelude.Int.{ℤ}
use mips32_cpu_emulator.Kernel.Result.{e_inval, e_busy, e_max_open}
use mips32_cpu_emulator.Kernel.Files.{
  fd_none, fd_init, fd_opened, fd_closed, File, Ret, ok, error, Vfs, nentry, is_no_fd, testfd,
  index_of, is_none, is_init, is_opened, is_closed,
}
use mips32_cpu_emulator.Kernel.Files.Monad.{
  M, ◌>>=◌, ◌>>◌, pure, assert, file_of, update, call_void, node_of,
}

-- `fd_array_init`, with `left` entries to go from `fd` on.
unfoldable pub fd_array_init : ℕ → ℕ → (ℕ → File) → ℕ → File
fd_array_init zero fd files = files
fd_array_init (suc left) fd files = fd_array_init left (suc fd) λ j.
    if fd == j then record (files fd) { open_count = 0; status = fd_none; fd = fd } else files j

-- The search for a free entry.
unfoldable pub find_free : ℕ → ℕ → (ℕ → File) → Option ℕ
find_free zero fd files = none
find_free (suc left) fd files =
    let rest = find_free left (suc fd) files in if is_none (files fd).status then some fd else rest

module _ {V : Type 0} (ops : Vfs V) where
  unfoldable pub get_fd_array : M V (Unit {0})
  get_fd_array s = assert (ltb 0 s.files_count) s

  unfoldable pub alloc_found : ℕ → M V Ret
  alloc_found i = do
    file ← file_of i
    assert (file.open_count == 0)
    update i (λ f. record f { status = fd_init; node = none })
    pure (ok i)

  abbrev pub alloc_first : Option ℕ → M V Ret
  alloc_first none = pure (error e_max_open)
  alloc_first (some i) = alloc_found i

  abbrev pub alloc_at : ℤ → M V Ret
  alloc_at fd s =
      if testfd fd
      then (if is_none (s.fd_array (index_of fd)).status
          then alloc_found (index_of fd) s
          else pure (error e_busy) s)
      else pure (error e_inval) s

  unfoldable pub fd_array_alloc : ℤ → M V Ret
  fd_array_alloc fd = get_fd_array >> λ s.
      if is_no_fd fd then alloc_first (find_free nentry 0 s.fd_array) s else alloc_at fd s

  abbrev pub close_if : Bool → Option ℕ → M V (Unit {0})
  close_if true inode = node_of inode >>= λ n. call_void (ops.vfs_close n)
  close_if false inode = pure tt

  unfoldable pub fd_array_free : ℕ → M V (Unit {0})
  fd_array_free i = do
    file ← file_of i
    assert (is_init file.status || is_closed file.status)
    assert (file.open_count == 0)
    close_if (is_closed file.status) file.node
    update i (λ f. record f { status = fd_none })

  unfoldable pub fd_array_acquire : ℕ → M V (Unit {0})
  fd_array_acquire i = do
    file ← file_of i
    assert (is_opened file.status)
    update i (λ f. record f { open_count = f.open_count + 1 })

  -- `if (fopen_count_dec(file) == 0) fd_array_free(file);`
  abbrev pub dec_and_free : ℕ → M V (Unit {0})
  dec_and_free i = do
    update i (λ f. record f { open_count = f.open_count - 1 })
    file ← file_of i
    if file.open_count == 0 then fd_array_free i else pure tt

  unfoldable pub fd_array_release : ℕ → M V (Unit {0})
  fd_array_release i = do
    file ← file_of i
    assert (is_opened file.status || is_closed file.status)
    assert (ltb 0 file.open_count)
    dec_and_free i

  abbrev pub has_node : Option ℕ → Bool
  has_node none = false
  has_node (some node) = true

  unfoldable pub fd_array_open : ℕ → M V (Unit {0})
  fd_array_open i = do
    file ← file_of i
    assert (is_init file.status && has_node file.node)
    update i (λ f. record f { status = fd_opened; open_count = f.open_count + 1 })

  unfoldable pub fd_array_close : ℕ → M V (Unit {0})
  fd_array_close i = do
    file ← file_of i
    assert (is_opened file.status)
    assert (ltb 0 file.open_count)
    update i (λ f. record f { status = fd_closed })
    dec_and_free i

  unfoldable pub fd_array_dup : ℕ → ℕ → M V (Unit {0})
  fd_array_dup to from = do
    target ← file_of to
    source ← file_of from
    assert (is_init target.status && is_opened source.status)
    update to (λ f. record f {
      offset = source.offset;
      readable = source.readable;
      writable = source.writable;
    })
    node ← node_of source.node
    call_void (ops.vop_ref_inc node)
    call_void (ops.vop_open_inc node)
    update to (λ f. record f { node = some node })
    fd_array_open to
