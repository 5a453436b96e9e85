-- ===== src/Kernel/Files/Lifecycle.antt =====
-- What the `fd_array_` functions of ucore_OS/kern/fs/file.c do to one entry of the table, and that they
-- return.
use mips32_cpu_emulator.Prelude.{
  ℕ, ◌+◌, ◌-◌, ◌<◌, true, false, some, ltb, ◌==◌, ◌≡◌, ◌≢◌, refl, sym, arith, lt→ltb,
}
use mips32_cpu_emulator.Kernel.Files.{
  fd_none, fd_opened, fd_closed, File, Files, Vfs, is_init, is_opened, is_closed,
}
use mips32_cpu_emulator.Kernel.Files.Entry.{
  fd_array_free, fd_array_acquire, fd_array_release, fd_array_open, fd_array_close, dec_and_free,
  has_node, fd_array_dup,
}
use mips32_cpu_emulator.Kernel.Files.Sets.{
  Gives, gives, Sets, Sets-update, Sets-vfs, node_of_lem, unused_test,
}

module _ {V : Type 0} (ops : Vfs V) where
  pub fd_array_acquire-Sets :
      (start s : Files V) (i : ℕ) (file : File)
      → Sets start s i file
      → is_opened file.status ≡ true
      → Gives
          (λ _ s'.
            Sets start s' i (record file { open_count = file.open_count + 1 }) × (s'.vfs ≡ s.vfs))
          (fd_array_acquire ops i s)
  unfolding fd_array_acquire
  fd_array_acquire-Sets start s i file sets opened =
      rw (sets.entry, opened)
        (gives (Sets-update (λ f. record f { open_count = f.open_count + 1 }) sets, refl))

  -- A release that leaves a reference.
  pub fd_array_release-Sets :
      (start s : Files V) (i : ℕ) (file : File)
      → Sets start s i file
      → is_opened file.status ≡ true
      → 1 < file.open_count
      → Gives
          (λ _ s'.
            Sets start s' i (record file { open_count = file.open_count - 1 }) × (s'.vfs ≡ s.vfs))
          (fd_array_release ops i s)
  unfolding fd_array_release
  fd_array_release-Sets start s i file sets opened shared =
      let positive : ltb 0 file.open_count ≡ true = lt→ltb _ _ (omega arith) in
      let left : (file.open_count - 1 == 0) ≡ false = ground arith in
      let less = Sets-update (λ f. record f { open_count = f.open_count - 1 }) sets in
      rw (sets.entry, opened, positive) (rw (less.entry, left) (gives (less, refl)))

  -- An entry that was allocated but not opened becomes free.
  pub fd_array_free-Sets :
      (start s : Files V) (i : ℕ) (file : File)
      → Sets start s i file
      → is_init file.status ≡ true
      → is_closed file.status ≡ false
      → file.open_count ≡ 0
      → Gives
          (λ _ s'. Sets start s' i (record file { status = fd_none }) × (s'.vfs ≡ s.vfs))
          (fd_array_free ops i s)
  unfolding fd_array_free
  fd_array_free-Sets start s i file sets init not_closed unused =
      rw (sets.entry, init, unused_test file.open_count unused, not_closed)
        (gives (Sets-update (λ f. record f { status = fd_none }) sets, refl))

  -- A closed entry without a reference becomes free, and its inode is closed.
  fd_array_free-closed :
      (start s : Files V) (i : ℕ) (file : File) (node : ℕ)
      → Sets start s i file
      → is_init file.status ≡ false
      → is_closed file.status ≡ true
      → file.open_count ≡ 0
      → file.node ≡ some node
      → Gives
          (λ _ s'.
            Sets start s' i (record file { status = fd_none })
            × (s'.vfs ≡ ops.vfs_close node s.vfs))
          (fd_array_free ops i s)
  unfolding fd_array_free
  fd_array_free-closed start s i file node sets not_init closed unused with_node =
      rw
        (
          sets.entry,
          not_init,
          closed,
          unused_test file.open_count unused,
          node_of_lem s file.node node with_node,
        )
        (gives (
          Sets-update (λ f. record f { status = fd_none })
              (Sets-vfs (ops.vfs_close node s.vfs) sets),
          refl,
        ))

  dec_and_free-Sets :
      (start s : Files V) (i : ℕ) (file : File) (node : ℕ)
      → Sets start s i file
      → is_init file.status ≡ false
      → is_closed file.status ≡ true
      → file.open_count ≡ 1
      → file.node ≡ some node
      → Gives
          (λ _ s'.
            Sets start s' i (record file { status = fd_none; open_count = file.open_count - 1 })
            × (s'.vfs ≡ ops.vfs_close node s.vfs))
          (dec_and_free ops i s)
  dec_and_free-Sets start s i file node sets not_init closed once with_node =
      let less = Sets-update (λ f. record f { open_count = f.open_count - 1 }) sets in
      let last : (file.open_count - 1 == 0) ≡ true = ground arith in
      rw (less.entry, last)
        (fd_array_free-closed start _ i (record file { open_count = file.open_count - 1 }) node less
          not_init closed (omega arith) with_node)

  pub fd_array_open-Sets :
      (start s : Files V) (i : ℕ) (file : File)
      → Sets start s i file
      → is_init file.status ≡ true
      → has_node ops file.node ≡ true
      → Gives
          (λ _ s'.
            Sets start s' i (record file { status = fd_opened; open_count = file.open_count + 1 })
            × (s'.vfs ≡ s.vfs))
          (fd_array_open ops i s)
  unfolding fd_array_open
  fd_array_open-Sets start s i file sets init with_node =
      rw (sets.entry, init, with_node)
        (gives (
          Sets-update (λ f. record f { status = fd_opened; open_count = f.open_count + 1 }) sets,
          refl,
        ))

  -- The last close: the inode is closed, and the entry free.
  pub fd_array_close-Sets :
      (start s : Files V) (i : ℕ) (file : File) (node : ℕ)
      → Sets start s i file
      → is_opened file.status ≡ true
      → file.open_count ≡ 1
      → file.node ≡ some node
      → Gives
          (λ _ s'.
            Sets start s' i (record file { status = fd_none; open_count = file.open_count - 1 })
            × (s'.vfs ≡ ops.vfs_close node s.vfs))
          (fd_array_close ops i s)
  unfolding fd_array_close
  fd_array_close-Sets start s i file node sets opened once with_node =
      let positive : ltb 0 file.open_count ≡ true = lt→ltb _ _ (omega arith) in
      let closed = Sets-update (λ f. record f { status = fd_closed }) sets in
      rw (sets.entry, opened, positive)
        (dec_and_free-Sets start _ i (record file { status = fd_closed }) node closed refl refl once
          with_node)

  -- A copy of the open file at `i` to the allocated entry `j`.
  pub fd_array_dup-Sets :
      (start s : Files V) (i j node : ℕ) (file : File)
      → j ≢ i
      → Sets start s j file
      → is_init file.status ≡ true
      → is_opened (start.fd_array i).status ≡ true
      → (start.fd_array i).node ≡ some node
      → Gives
          (λ _ s'.
            Sets start s' j (record file {
              status = fd_opened;
              node = some node;
              offset = (start.fd_array i).offset;
              readable = (start.fd_array i).readable;
              writable = (start.fd_array i).writable;
              open_count = file.open_count + 1;
            })
            × (s'.vfs ≡ ops.vop_open_inc node (ops.vop_ref_inc node s.vfs)))
          (fd_array_dup ops j i s)
  unfolding fd_array_dup
  fd_array_dup-Sets start s i j node file apart sets init opened with_node =
      rw
        (
          sets.entry,
          sets.others i (λ e. apart (sym e)),
          init,
          opened,
          node_of_lem _ (start.fd_array i).node node with_node,
        )
        (fd_array_open-Sets start _ j _
          (Sets-update (λ f. record f { node = some node })
            (Sets-vfs (ops.vop_open_inc node (ops.vop_ref_inc node s.vfs)) (
              Sets-update
                (λ f. record f {
                  offset = (start.fd_array i).offset;
                  readable = (start.fd_array i).readable;
                  writable = (start.fd_array i).writable;
                })
                sets)))
          init refl)
