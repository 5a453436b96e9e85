-- ===== src/Kernel/Files/Transfer.antt =====
-- `file_read` and `file_write` of ucore_OS/kern/fs/file.c on every branch.
use mips32_cpu_emulator.Prelude.{
  ℕ, ◌+◌, ◌-◌, ◌<◌, Bool, true, false, if◌then◌else◌, ◌≡◌, inl, inr, refl, ap, ap₂, ◌∙◌, arith,
  Bool-cases,
}
use mips32_cpu_emulator.Prelude.Int.{ℤ, pos, ◌+ℤ◌}
use mips32_cpu_emulator.Kernel.Result.{e_inval}
use mips32_cpu_emulator.Kernel.Files.{File, Files, Ret, error, Vfs, is_opened, index_of, off_t}
use mips32_cpu_emulator.Kernel.Files.Calls.{transfer, file_read, file_write, ret_of}
use mips32_cpu_emulator.Kernel.Files.Sets.{
  Gives, gives, Gives-continue, Gives-mono, Sets, Sets-refl, Sets-update, Sets-same, Sets-vfs,
  node_of_lem,
}
use mips32_cpu_emulator.Kernel.Files.Lifecycle.{fd_array_acquire-Sets, fd_array_release-Sets}
use mips32_cpu_emulator.Kernel.Files.Steps.{IsOpen}
use mips32_cpu_emulator.Kernel.Files.Table.{
  IsFiles, IsFd, IsBadFd, fd2file-continue, Sets-IsFiles, in_use,
}

module _ {V : Type 0} (start : Files V) (move : ℕ → ℤ → V → (ℕ × ℕ) × V) where
  -- What the file system answers for the file at `i`.
  abbrev pub answer : ℕ → ℕ → (ℕ × ℕ) × V
  answer i node = move node (start.fd_array i).offset start.vfs

  -- The bytes are moved once, at the file's offset, which goes on by as many as were moved.
  pub record Moved (i node : ℕ) (r : Ret × ℕ) (s : Files V) : Type 0 where
    pub result : r ≡ (ret_of (answer i node).0.0, (answer i node).0.1)
    pub sets : Sets start s i (record (start.fd_array i) {
      offset = off_t ((start.fd_array i).offset +ℤ pos (answer i node).0.1);
      open_count = 1;
    })
    pub performed : s.vfs ≡ (answer i node).1

  -- The branches of a transfer that wants a file with `allowed`.
  pub data Transfers (allowed : File → Bool) (fd : ℤ) : Ret × ℕ → Files V → Type 0 where
    no_file : IsBadFd start fd → Transfers allowed fd (error e_inval, 0) start
    denied :
        {node : ℕ}
        → IsFd start fd node
        → allowed (start.fd_array (index_of fd)) ≡ false
        → Transfers allowed fd (error e_inval, 0) start
    moves :
        {node : ℕ} {r : Ret × ℕ} {s : Files V}
        → IsFd start fd node
        → allowed (start.fd_array (index_of fd)) ≡ true
        → Moved (index_of fd) node r s
        → Transfers allowed fd r s

module _ {V : Type 0} (ops : Vfs V) (start : Files V) (move : ℕ → ℤ → V → (ℕ × ℕ) × V) where
  transfer-Moved :
      (i node : ℕ)
      → IsOpen (start.fd_array i) node
      → Gives (Moved start move i node) (transfer ops move i start)
  transfer-Moved i node is_open =
      let opened : is_opened (start.fd_array i).status ≡ true = ap is_opened is_open.opened in
      Gives-continue
        (fd_array_acquire-Sets ops start start i (start.fd_array i) (Sets-refl i) opened)
        λ _ s (sets, same_vfs).
          let found =
            node_of_lem s (s.fd_array i).node node
              (ap (λ (f : File). f.node) sets.entry ∙ is_open.with_node) in
          let asked : move node (s.fd_array i).offset s.vfs ≡ answer start move i node =
            ap₂ (move node) (ap (λ (f : File). f.offset) sets.entry) same_vfs in
          let done = answer start move i node in
          let moved =
            Sets-same
              (Sets-update
                (λ f.
                  if is_opened f.status
                  then record f { offset = off_t (f.offset +ℤ pos done.0.1) }
                  else f)
                (Sets-vfs done.1 sets))
              (ap
                (λ (t : Bool).
                  if t
                  then moved_file done.0.1
                  else record (start.fd_array i) { open_count = (start.fd_array i).open_count + 1 })
                opened) in
          let shared : 1 < (start.fd_array i).open_count + 1 = omega (arith, is_open.once) in
          let once : ((start.fd_array i).open_count + 1) - 1 ≡ 1 = omega (arith, is_open.once) in
          rw (found, asked)
            (Gives-continue
              (fd_array_release-Sets ops start _ i (moved_file done.0.1) moved opened shared)
              (λ _ s' (sets', same'). gives (record {
                result = refl;
                sets = Sets-same sets' (
                    ap
                      (λ (t : ℕ). record (start.fd_array i) {
                        offset = off_t ((start.fd_array i).offset +ℤ pos done.0.1);
                        open_count = t;
                      })
                      once);
                performed = same';
              })))
    where
      moved_file : ℕ → File
      moved_file copied = record (start.fd_array i) {
        offset = off_t ((start.fd_array i).offset +ℤ pos copied);
        open_count = (start.fd_array i).open_count + 1;
      }

  pub Transfers-IsFiles :
      (allowed : File → Bool) (fd : ℤ) (r : Ret × ℕ) (s : Files V)
      → IsFiles start
      → Transfers start move allowed fd r s
      → IsFiles s
  Transfers-IsFiles allowed fd _ s good (no_file _) = good
  Transfers-IsFiles allowed fd _ s good (denied _ _) = good
  Transfers-IsFiles allowed fd _ s good (moves named _ moved) = Sets-IsFiles good moved.sets refl (
      in_use (record {
        opened = named.is_open.opened;
        once = refl;
        with_node = named.is_open.with_node;
      }))

module _ {V : Type 0} (ops : Vfs V) (start : Files V) where
  -- `file_read` on a well-formed table returns: -E_INVAL with nothing changed for a descriptor
  -- that is not open or not readable; else the answer of one `vop_read` at the offset of the
  -- file, which goes on by the bytes that were moved, and the other entries are as they were.
  pub file_read-Transfers :
      (fd : ℤ) (len : ℕ)
      → IsFiles start
      → Gives
          (Transfers start (λ node offset. ops.vop_read node offset len) (λ file. file.readable) fd)
          (file_read ops fd len start)
  unfolding file_read
  file_read-Transfers fd len good =
      fd2file-continue ops start fd _ good
        (λ node named. elim (Bool-cases (start.fd_array (index_of fd)).readable) [
          | inl readable ↦ rw readable (
              Gives-mono
                (transfer-Moved ops start (λ node offset. ops.vop_read node offset len)
                  (index_of fd) node named.is_open)
                (λ r s moved. moves named readable moved))
          | inr not_readable ↦ rw not_readable (gives (denied named not_readable))
        ])
        (λ bad. gives (no_file bad))

  -- `file_write` in the same way, for a writable file and `vop_write`.
  pub file_write-Transfers :
      (fd : ℤ) (len : ℕ)
      → IsFiles start
      → Gives
          (Transfers start
            (λ node offset. ops.vop_write node offset len)
            (λ file. file.writable)
            fd)
          (file_write ops fd len start)
  unfolding file_write
  file_write-Transfers fd len good =
      fd2file-continue ops start fd _ good
        (λ node named. elim (Bool-cases (start.fd_array (index_of fd)).writable) [
          | inl writable ↦ rw writable (
              Gives-mono
                (transfer-Moved ops start (λ node offset. ops.vop_write node offset len)
                  (index_of fd) node named.is_open)
                (λ r s moved. moves named writable moved))
          | inr not_writable ↦ rw not_writable (gives (denied named not_writable))
        ])
        (λ bad. gives (no_file bad))
