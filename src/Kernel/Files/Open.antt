-- ===== src/Kernel/Files/Open.antt =====
-- `file_open` of ucore_OS/kern/fs/file.c on every branch.
use mips32_cpu_emulator.Prelude.{
  ℕ, ◌%◌, ◌<◌, ◌⊎◌, Bool, true, false, some, none, bit_and, ◌==◌, ◌≡◌, inl, inr, refl, ap, sym,
  subst, ◌∙◌, arith, Bool-cases,
}
use mips32_cpu_emulator.Prelude.Int.{ℤ, pos}
use mips32_cpu_emulator.Bits.Split.{bit_and_mask}
use mips32_cpu_emulator.Kernel.Result.{e_inval, e_max_open}
use mips32_cpu_emulator.Kernel.Files.{
  fd_init, fd_opened, File, Files, Ret, ok, error, Vfs, is_init, is_closed, off_t,
}
use mips32_cpu_emulator.Kernel.Files.Monad.{continue, pure, call, ◌>>=◌}
use mips32_cpu_emulator.Kernel.Files.Entry.{fd_array_free}
use mips32_cpu_emulator.Kernel.Files.Calls.{access_mode, file_open, finish_open, opened, at_end}
use mips32_cpu_emulator.Kernel.Files.Sets.{
  Gives, gives, Gives-continue, Sets, Sets-refl, Sets-update, Sets-vfs,
}
use mips32_cpu_emulator.Kernel.Files.Lifecycle.{fd_array_free-Sets, fd_array_open-Sets}
use mips32_cpu_emulator.Kernel.Files.Table.{IsFree, free, in_use, IsFiles, Sets-IsFiles}
use mips32_cpu_emulator.Kernel.Files.Alloc.{
  Ret-cases, IsFull, IsLowestFree, allocated, alloc_any-continue,
}

-- The file at `i` after it was opened, with the mode and the offset given.
abbrev pub as_opened : File → ℕ → Bool × Bool → ℤ → File
as_opened file node mode offset = record file {
  status = fd_opened;
  node = some node;
  readable = mode.0;
  writable = mode.1;
  offset = offset;
  open_count = 1;
}

-- The access mode that the two lowest bits of the flags ask for, as `readable` and `writable`.
pub data Mode (open_flags : ℕ) : Bool × Bool → Type 0 where
  read_only : open_flags % 4 ≡ 0 → Mode open_flags (true, false)
  write_only : open_flags % 4 ≡ 1 → Mode open_flags (false, true)
  read_write : open_flags % 4 ≡ 2 → Mode open_flags (true, true)

-- The flags ask for one of the three modes, or for none.
access_mode-Mode :
    (open_flags : ℕ)
    → ((access_mode open_flags ≡ none) × (open_flags % 4 ≡ 3))
      ⊎ ((mode : Bool × Bool) × (access_mode open_flags ≡ some mode) × Mode open_flags mode)
access_mode-Mode open_flags =
    let masked : bit_and open_flags 3 ≡ open_flags % 4 = bit_and_mask 2 open_flags in
    elim (Bool-cases (bit_and open_flags 3 == 0)) [
      | inl h0 ↦ rw h0 (inr ((true, false), refl, read_only (ground arith)))
      | inr h0 ↦ elim (Bool-cases (bit_and open_flags 3 == 1)) [
        | inl h1 ↦ rw (h0, h1) (inr ((false, true), refl, write_only (ground arith)))
        | inr h1 ↦ elim (Bool-cases (bit_and open_flags 3 == 2)) [
          | inl h2 ↦ rw (h0, h1, h2) (inr ((true, true), refl, read_write (ground arith)))
          | inr h2 ↦ rw (h0, h1, h2) (inl (refl, ground arith))
        ]
      ]
    ]

module _ {V : Type 0} (ops : Vfs V) (path open_flags : ℕ) (start : Files V) where
  -- Why the file systems refuse an open, and the state they are left in: it fails itself, or the
  -- size for an append cannot be read and the inode is closed again.
  pub data Refusal (code : ℕ) : V → Type 0 where
    cannot_open :
        (ops.vfs_open path open_flags start.vfs).0 ≡ error code
        → Refusal code (ops.vfs_open path open_flags start.vfs).1
    cannot_stat :
        {node : ℕ}
        → (bit_and open_flags 0x20 == 0) ≡ false
        → (ops.vfs_open path open_flags start.vfs).0 ≡ ok node
        → (ops.vop_fstat node (ops.vfs_open path open_flags start.vfs).1).0 ≡ error code
        → Refusal code
            (ops.vfs_close node (ops.vop_fstat node (ops.vfs_open path open_flags start.vfs).1).1)

  -- Where the file starts: at 0, or for an append at its size as an `off_t`; and the state of the
  -- file systems.
  pub data Starts (node : ℕ) : ℤ → V → Type 0 where
    at_start :
        (bit_and open_flags 0x20 == 0) ≡ true
        → Starts node (pos 0) (ops.vfs_open path open_flags start.vfs).1
    at_size :
        {size : ℕ}
        → (bit_and open_flags 0x20 == 0) ≡ false
        → (ops.vop_fstat node (ops.vfs_open path open_flags start.vfs).1).0 ≡ ok size
        → Starts node
            (off_t (pos size))
            (ops.vop_fstat node (ops.vfs_open path open_flags start.vfs).1).1

  -- The branches of `file_open`.
  pub data FileOpens : Ret → Files V → Type 0 where
    bad_mode : open_flags % 4 ≡ 3 → FileOpens (error e_inval) start
    no_entry : open_flags % 4 < 3 → IsFull start → FileOpens (error e_max_open) start
    refused :
        {code i : ℕ} {s : Files V} {file : File}
        → open_flags % 4 < 3
        → Refusal code s.vfs
        → IsLowestFree start i
        → Sets start s i file
        → file.fd ≡ (start.fd_array i).fd
        → IsFree file
        → FileOpens (error code) s
    opens :
        {i node : ℕ} {offset : ℤ} {mode : Bool × Bool} {s : Files V}
        → Mode open_flags mode
        → (ops.vfs_open path open_flags start.vfs).0 ≡ ok node
        → Starts node offset s.vfs
        → IsLowestFree start i
        → Sets start s i (as_opened (start.fd_array i) node mode offset)
        → FileOpens (ok i) s

Mode-lt : (open_flags : ℕ) (mode : Bool × Bool) → Mode open_flags mode → open_flags % 4 < 3
Mode-lt open_flags _ (read_only h) = omega (arith, h)
Mode-lt open_flags _ (write_only h) = omega (arith, h)
Mode-lt open_flags _ (read_write h) = omega (arith, h)

module _ {V : Type 0} (ops : Vfs V) (path open_flags : ℕ) (start : Files V) (i : ℕ) where
  -- The end of a refused open.
  refuse :
      (code : ℕ) (s : Files V) (file : File)
      → open_flags % 4 < 3
      → Refusal ops path open_flags start code s.vfs
      → IsLowestFree start i
      → Sets start s i file
      → file.fd ≡ (start.fd_array i).fd
      → file.status ≡ fd_init
      → file.open_count ≡ 0
      → Gives
          (FileOpens ops path open_flags start)
          (continue (fd_array_free ops i s) (λ _. pure (error code)))
  refuse code s file allowed reason lowest sets same_fd init unused =
      Gives-continue
        (fd_array_free-Sets ops start s i file sets (ap is_init init) (ap is_closed init) unused)
        (λ _ s' (sets', same_vfs). gives (
          refused allowed (subst (Refusal ops path open_flags start code) (sym same_vfs) reason)
            lowest sets' same_fd (record { unopened = refl; unused = unused })))

  -- The end of an open.
  finish :
      (s : Files V) (node : ℕ) (offset : ℤ) (mode : Bool × Bool)
      → IsFiles start
      → Mode open_flags mode
      → (ops.vfs_open path open_flags start.vfs).0 ≡ ok node
      → Starts ops path open_flags start node offset s.vfs
      → IsLowestFree start i
      → Sets start s i
          (record (start.fd_array i) { status = fd_init; node = none; offset = offset })
      → Gives (FileOpens ops path open_flags start) (finish_open ops i mode node s)
  finish s node offset (readable, writable) good allowed answer start_at lowest sets =
      let given =
        Sets-update (λ f. record f { node = some node; readable = readable; writable = writable })
          sets in
      Gives-continue (fd_array_open-Sets ops start _ i _ given refl refl) (λ _ s' (sets', same_vfs).
        rw (ap (λ (f : File). f.fd) sets'.entry ∙ good.numbered i lowest.free_entry.inside) (
          gives (
            opens allowed answer
              (subst (Starts ops path open_flags start node offset) (sym same_vfs) start_at) lowest
              (subst
                (λ (t : ℕ).
                  Sets start s' i
                    (record (as_opened (start.fd_array i) node (readable, writable) offset) {
                      open_count = t;
                    }))
                (omega (arith, lowest.free_entry.entry.unused)) sets'))))

  -- The rest of an open for an append, once the size is asked for.
  append :
      (s : Files V) (node : ℕ) (mode : Bool × Bool) (offset : ℤ)
      → IsFiles start
      → Mode open_flags mode
      → (ops.vfs_open path open_flags start.vfs).0 ≡ ok node
      → s.vfs ≡ (ops.vfs_open path open_flags start.vfs).1
      → (bit_and open_flags 0x20 == 0) ≡ false
      → IsLowestFree start i
      → Sets start s i
          (record (start.fd_array i) { status = fd_init; node = none; offset = offset })
      → Gives
          (FileOpens ops path open_flags start)
          ((call (ops.vop_fstat node) >>= at_end ops i mode node) s)
  append s node mode offset good allowed answer same_vfs appends lowest sets =
      elim (Ret-cases (ops.vop_fstat node s.vfs).0) [
        | inl (size, told) ↦ rw told (
            finish _ node (off_t (pos size)) mode good allowed answer
              (subst (λ v. Starts ops path open_flags start node (off_t (pos size)) v)
                (ap (λ v. (ops.vop_fstat node v).1) (sym same_vfs))
                (at_size appends (ap (λ v. (ops.vop_fstat node v).0) (sym same_vfs) ∙ told)))
              lowest
              (Sets-update (λ f. record f { offset = off_t (pos size) })
                (Sets-vfs (ops.vop_fstat node s.vfs).1 sets)))
        | inr (code, failed) ↦ rw failed (
            refuse code _ _ (Mode-lt open_flags mode allowed)
              (subst (Refusal ops path open_flags start code)
                (ap (λ v. ops.vfs_close node (ops.vop_fstat node v).1) (sym same_vfs))
                (cannot_stat appends answer
                  (ap (λ v. (ops.vop_fstat node v).0) (sym same_vfs) ∙ failed)))
              lowest (Sets-vfs _ (Sets-vfs (ops.vop_fstat node s.vfs).1 sets)) refl refl
              lowest.free_entry.entry.unused)
      ]

  -- What follows the allocation of entry `i`.
  after_alloc :
      (mode : Bool × Bool)
      → IsFiles start
      → Mode open_flags mode
      → IsLowestFree start i
      → Gives (FileOpens ops path open_flags start) (
          (call (ops.vfs_open path open_flags) >>= opened ops i open_flags mode)
            (allocated start i))
  after_alloc mode good allowed lowest =
      let sets = Sets-vfs (ops.vfs_open path open_flags start.vfs).1 (
        Sets-update (λ f. record f { status = fd_init; node = none })
          (Sets-refl {start = start} i)) in
      elim (Ret-cases (ops.vfs_open path open_flags start.vfs).0) [
        | inl (node, answer) ↦
            let zeroed = Sets-update (λ f. record f { offset = pos 0 }) sets in
            elim (Bool-cases (bit_and open_flags 0x20 == 0)) [
              | inl plain ↦
                  rw (answer, plain)
                    (finish _ node (pos 0) mode good allowed answer (at_start plain) lowest zeroed)
              | inr appends ↦
                  rw (answer, appends)
                    (append _ node mode (pos 0) good allowed answer refl appends lowest zeroed)
            ]
        | inr (code, failed) ↦ rw failed (
            refuse code _ _ (Mode-lt open_flags mode allowed) (cannot_open failed) lowest sets refl
              refl lowest.free_entry.entry.unused)
      ]

module _ {V : Type 0} (ops : Vfs V) (path open_flags : ℕ) (start : Files V) where
  -- `file_open` on a well-formed table returns, and does what one of the branches says: -E_INVAL
  -- for the access mode 3 and -E_MAX_OPEN for a full table, with nothing changed; the code of the file
  -- systems where they refuse, with the lowest free entry free again and the others as they were,
  -- and with the inode closed again if only its size could not be read; or the lowest free
  -- descriptor, open with the inode, the mode that the flags ask for and the offset 0, or for an
  -- append the size as an off_t, and the other entries as they were. The file systems are called
  -- for nothing else.
  pub file_open-FileOpens :
      IsFiles start
      → Gives (FileOpens ops path open_flags start) (file_open ops path open_flags start)
  unfolding file_open
  file_open-FileOpens good = elim (access_mode-Mode open_flags) [
    | inl (none_asked, bad) ↦ rw none_asked (gives (bad_mode bad))
    | inr (mode, asked, allowed) ↦ rw asked (
        alloc_any-continue ops start _ good
          (λ i lowest. after_alloc ops path open_flags start i mode good allowed lowest)
          (λ all. gives (no_entry (Mode-lt open_flags mode allowed) all)))
  ]

  pub FileOpens-IsFiles :
      (r : Ret) (s : Files V) → IsFiles start → FileOpens ops path open_flags start r s → IsFiles s
  FileOpens-IsFiles _ s good (bad_mode _) = good
  FileOpens-IsFiles _ s good (no_entry _ _) = good
  FileOpens-IsFiles _ s good (refused _ _ _ sets same_fd is_free) =
      Sets-IsFiles good sets same_fd (free is_free)
  FileOpens-IsFiles _ s good (opens {node} _ _ _ _ sets) =
      Sets-IsFiles good sets refl
        (in_use {node = node} (record { opened = refl; once = refl; with_node = refl }))
