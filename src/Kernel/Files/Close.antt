-- ===== src/Kernel/Files/Close.antt =====
-- `file_close` and `file_dup` of ucore_OS/kern/fs/file.c on every branch.
use mips32_cpu_emulator.Prelude.{ℕ, none, ◌≡◌, ◌≢◌, refl, ap, sym, ◌∙◌, arith}
use mips32_cpu_emulator.Prelude.Int.{ℤ}
use mips32_cpu_emulator.Kernel.Result.{e_inval}
use mips32_cpu_emulator.Kernel.Files.{
  fd_init, File, Files, Ret, ok, error, Vfs, index_of, is_opened,
}
use mips32_cpu_emulator.Kernel.Files.Calls.{file_close, file_dup}
use mips32_cpu_emulator.Kernel.Files.Sets.{
  Gives, gives, Gives-continue, Sets, Sets-refl, Sets-update,
}
use mips32_cpu_emulator.Kernel.Files.Lifecycle.{fd_array_close-Sets, fd_array_dup-Sets}
use mips32_cpu_emulator.Kernel.Files.Steps.{IsOpen}
use mips32_cpu_emulator.Kernel.Files.Table.{
  IsFree, free, in_use, IsFiles, Sets-IsFiles, IsFd, IsBadFd, fd2file-continue,
}
use mips32_cpu_emulator.Kernel.Files.Alloc.{
  IsFreeAt, allocated, Chosen, NotAllocated, fd_array_alloc-continue,
}

-- An open file with the inode, the offset and the mode of another.
pub record IsCopy (file source : File) (node : ℕ) : Type 0 where
  pub is_open : IsOpen file node
  pub same_offset : file.offset ≡ source.offset
  pub same_readable : file.readable ≡ source.readable
  pub same_writable : file.writable ≡ source.writable

module _ {V : Type 0} (ops : Vfs V) (start : Files V) where
  -- The branches of `file_close`.
  pub data FileCloses (fd : ℤ) : Ret → Files V → Type 0 where
    not_closed : IsBadFd start fd → FileCloses fd (error e_inval) start
    closes :
        {node : ℕ} {s : Files V} {file : File}
        → IsFd start fd node
        → Sets start s (index_of fd) file
        → file.fd ≡ (start.fd_array (index_of fd)).fd
        → IsFree file
        → s.vfs ≡ ops.vfs_close node start.vfs
        → FileCloses fd (ok 0) s

  -- The branches of `file_dup`.
  pub data FileDups (fd1 fd2 : ℤ) : Ret → Files V → Type 0 where
    not_open : IsBadFd start fd1 → FileDups fd1 fd2 (error e_inval) start
    not_allocated :
        {node code : ℕ}
        → IsFd start fd1 node
        → NotAllocated start fd2 code
        → FileDups fd1 fd2 (error code) start
    dups :
        {node j : ℕ} {s : Files V} {file : File}
        → IsFd start fd1 node
        → IsFreeAt start j
        → Chosen start fd2 j
        → IsCopy file (start.fd_array (index_of fd1)) node
        → file.fd ≡ j
        → Sets start s j file
        → s.vfs ≡ ops.vop_open_inc node (ops.vop_ref_inc node start.vfs)
        → FileDups fd1 fd2 (ok j) s

module _ {V : Type 0} (ops : Vfs V) (start : Files V) where
  -- `file_close` on a well-formed table returns: -E_INVAL with nothing changed for a descriptor
  -- that is not open; else 0, with the entry free, the others as they were, and the inode closed
  -- once.
  pub file_close-FileCloses :
      (fd : ℤ) → IsFiles start → Gives (FileCloses ops start fd) (file_close ops fd start)
  unfolding file_close
  file_close-FileCloses fd good =
      fd2file-continue ops start fd _ good
        (λ node named.
          Gives-continue
            (fd_array_close-Sets ops start start (index_of fd) _ node (Sets-refl (index_of fd))
              (ap is_opened named.is_open.opened) named.is_open.once named.is_open.with_node)
            (λ _ s (sets, closed). gives (
              closes named sets refl
                (record { unopened = refl; unused = omega (arith, named.is_open.once) }) closed)))
        (λ bad. gives (not_closed bad))

  pub FileCloses-IsFiles :
      (fd : ℤ) (r : Ret) (s : Files V) → IsFiles start → FileCloses ops start fd r s → IsFiles s
  FileCloses-IsFiles fd _ s good (not_closed _) = good
  FileCloses-IsFiles fd _ s good (closes _ sets same_fd is_free _) =
      Sets-IsFiles good sets same_fd (free is_free)

  -- `file_dup` on a well-formed table returns: an error code with nothing changed, where the
  -- first descriptor is not open or the second one cannot be allocated; else the entry that `fd2`
  -- names, or the lowest free one, which was free and is open with the inode, the offset and the
  -- mode of the first; the other entries are as they were, and the inode got one more reference
  -- and one more opening.
  pub file_dup-FileDups :
      (fd1 fd2 : ℤ)
      → IsFiles start
      → Gives (FileDups ops start fd1 fd2) (file_dup ops fd1 fd2 start)
  unfolding file_dup
  file_dup-FileDups fd1 fd2 good =
      fd2file-continue ops start fd1 _ good
        (λ node named.
          fd_array_alloc-continue ops start fd2 _ good
            (λ j is_free chosen.
              let apart : j ≢ index_of fd1 = λ e. cc (
                ap (λ t. (start.fd_array t).status) e,
                is_free.entry.unopened,
                named.is_open.opened,
              ) in
              let target = record (start.fd_array j) { status = fd_init; node = none } in
              let sets : Sets start (allocated start j) j target =
                Sets-update (λ f. record f { status = fd_init; node = none }) (Sets-refl j) in
              Gives-continue
                (fd_array_dup-Sets ops start (allocated start j) (index_of fd1) j node target apart
                  sets refl (ap is_opened named.is_open.opened) named.is_open.with_node)
                (λ _ s (sets', referenced).
                  rw (ap (λ (f : File). f.fd) sets'.entry ∙ good.numbered j is_free.inside) (
                    gives (
                      dups named is_free chosen
                        (record {
                          is_open = record {
                            opened = refl;
                            once = omega (arith, is_free.entry.unused);
                            with_node = refl;
                          };
                          same_offset = refl;
                          same_readable = refl;
                          same_writable = refl;
                        })
                        (good.numbered j is_free.inside) sets' referenced))))
            (λ code reason. gives (not_allocated named reason)))
        (λ bad. gives (not_open bad))

  pub FileDups-IsFiles :
      (fd1 fd2 : ℤ) (r : Ret) (s : Files V)
      → IsFiles start
      → FileDups ops start fd1 fd2 r s
      → IsFiles s
  FileDups-IsFiles fd1 fd2 _ s good (not_open _) = good
  FileDups-IsFiles fd1 fd2 _ s good (not_allocated _ _) = good
  FileDups-IsFiles fd1 fd2 _ s good (dups _ is_free _ copy same_fd sets _) =
      Sets-IsFiles good sets (same_fd ∙ sym (good.numbered _ is_free.inside)) (in_use copy.is_open)
