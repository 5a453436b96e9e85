-- ===== src/Kernel/Files/Steps.antt =====
-- The calls of ucore_OS/kern/fs/file.c that work on one open file: they hold a reference to it while the
-- file system runs, and leave it open.
use mips32_cpu_emulator.Prelude.{
  ℕ, ◌+◌, ◌-◌, Bool, true, false, some, ◌==◌, if◌then◌else◌, ◌≡◌, inl, inr, ap, subst, ◌∙◌, arith,
  Bool-cases,
}
use mips32_cpu_emulator.Prelude.Int.{ℤ}
use mips32_cpu_emulator.Kernel.Result.{returned}
use mips32_cpu_emulator.Kernel.Files.{fd_opened, File, Files, Ret, ok, error, Vfs, is_opened}
use mips32_cpu_emulator.Kernel.Files.Monad.{continue, pure, node_of, set_file}
use mips32_cpu_emulator.Kernel.Files.Entry.{fd_array_acquire, fd_array_release}
use mips32_cpu_emulator.Kernel.Files.Calls.{
  transfer, with_node, seek_file, seek_target, seek_to, from_end,
}
use mips32_cpu_emulator.Kernel.Files.Sets.{
  Gives, gives, Gives-continue, Gives-mono, Sets, Sets-refl, Sets-update, Sets-vfs, node_of_lem,
}
use mips32_cpu_emulator.Kernel.Files.Lifecycle.{fd_array_acquire-Sets, fd_array_release-Sets}

-- The file at `i` is as at the start, but for its offset and for `count` references.
pub record Holds {V : Type 0} (start : Files V) (i count : ℕ) (s : Files V) : Type 0 where
  pub offset : ℤ
  pub sets : Sets start s i (record (start.fd_array i) { offset = offset; open_count = count })

-- What is known of an open file between two calls.
pub record IsOpen (file : File) (node : ℕ) : Type 0 where
  pub opened : file.status ≡ fd_opened
  pub once : file.open_count ≡ 1
  pub with_node : file.node ≡ some node

module _ {V : Type 0} (ops : Vfs V) (start : Files V) (i node : ℕ)
    (is_open : IsOpen (start.fd_array i) node) where
  is_opened_file : is_opened (start.fd_array i).status ≡ true
  is_opened_file = ap is_opened is_open.opened

  counted :
      (s : Files V) (offset : ℤ) (count count' : ℕ)
      → count ≡ count'
      → Sets start s i (record (start.fd_array i) { offset = offset; open_count = count })
      → Holds start i count' s
  counted s offset count count' same sets = record {
    offset = offset;
    sets =
        subst
          (λ (t : ℕ).
            Sets start s i (record (start.fd_array i) { offset = offset; open_count = t }))
          same sets;
  }

  acquire : Gives (λ _ s. Holds start i 2 s) (fd_array_acquire ops i start)
  acquire =
      Gives-mono
        (fd_array_acquire-Sets ops start start i (start.fd_array i) (Sets-refl i) is_opened_file)
        (λ _ s (sets, _).
          counted s (start.fd_array i).offset ((start.fd_array i).open_count + 1) 2
            (omega (arith, is_open.once)) sets)

  release :
      (s : Files V)
      → Holds start i 2 s
      → Gives (λ _ s'. Holds start i 1 s') (fd_array_release ops i s)
  release s held =
      Gives-mono
        (fd_array_release-Sets ops start s i
          (record (start.fd_array i) { offset = held.offset; open_count = 2 }) held.sets
          is_opened_file (omega arith))
        (λ _ s' (sets, _). counted s' held.offset (2 - 1) 1 (omega arith) sets)

  node_at : (s : Files V) → Holds start i 2 s → node_of (s.fd_array i).node s ≡ returned (node, s)
  node_at s held =
      node_of_lem s (s.fd_array i).node node
        (ap (λ (f : File). f.node) held.sets.entry ∙ is_open.with_node)

  after_call :
      (s : Files V) (vfs : V) → Holds start i 2 s → Holds start i 2 (record s { vfs = vfs })
  after_call s vfs held = record { offset = held.offset; sets = Sets-vfs vfs held.sets }

  with_offset :
      (s : Files V) (move : Bool) (offset : ℤ)
      → Holds start i 2 s
      → Holds start i 2
          (set_file s i (if move then record (s.fd_array i) { offset = offset } else s.fd_array i))
  with_offset s true offset held = record {
    offset = offset;
    sets = Sets-update (λ f. record f { offset = offset }) held.sets;
  }
  with_offset s false offset held = record {
    offset = held.offset;
    sets = Sets-update (λ f. f) held.sets;
  }

  -- A release at the end of a call, whatever its result.
  finish :
      {A : Type 0} (s : Files V) (a : A)
      → Holds start i 2 s
      → Gives (λ _ s'. Holds start i 1 s') (continue (fd_array_release ops i s) (λ _. pure a))
  finish s a held = Gives-continue (release s held) (λ _ s' held'. gives held')

  pub with_node-Holds :
      {A : Type 0} (operation : ℕ → V → A × V)
      → Gives (λ _ s. Holds start i 1 s) (with_node ops operation i start)
  with_node-Holds operation =
      Gives-continue acquire
        λ _ s held. rw (node_at s held) (finish _ _ (after_call s (operation node s.vfs).1 held))

  pub transfer-Holds :
      (move : ℕ → ℤ → V → (ℕ × ℕ) × V)
      → Gives (λ _ s. Holds start i 1 s) (transfer ops move i start)
  transfer-Holds move = Gives-continue acquire λ _ s held.
      rw (node_at s held) (
        finish _ _
          (with_offset _ _ _ (after_call s (move node (s.fd_array i).offset s.vfs).1 held)))

  seek_to-Holds :
      (s : Files V) (target : Ret × ℤ)
      → Holds start i 2 s
      → Gives (λ _ s'. Holds start i 2 s') (seek_to ops i target s)
  seek_to-Holds s (error code, offset) held = gives held
  seek_to-Holds s (ok value, offset) held =
      rw (node_at s held)
        (gives (with_offset _ _ _ (after_call s (ops.vop_tryseek node offset s.vfs).1 held)))

  from_end-Holds :
      (s : Files V) (offset : ℤ) (size : Ret)
      → Holds start i 2 s
      → Gives (λ _ s'. Holds start i 2 s') (from_end ops offset size s)
  from_end-Holds s offset (error code) held = gives held
  from_end-Holds s offset (ok size) held = gives held

  seek_target-Holds :
      (s : Files V) (offset : ℤ) (whence : ℕ)
      → Holds start i 2 s
      → Gives (λ _ s'. Holds start i 2 s') (seek_target ops i offset whence s)
  seek_target-Holds s offset whence held = elim (Bool-cases (whence == 0)) [
    | inl set ↦ rw set (gives held)
    | inr not_set ↦ elim (Bool-cases (whence == 1)) [
      | inl cur ↦ rw (not_set, cur) (gives held)
      | inr not_cur ↦ elim (Bool-cases (whence == 2)) [
        | inl end ↦
            rw (not_set, not_cur, end, node_at s held)
              (from_end-Holds _ offset (ops.vop_fstat node s.vfs).0
                (after_call s (ops.vop_fstat node s.vfs).1 held))
        | inr other ↦ rw (not_set, not_cur, other) (gives held)
      ]
    ]
  ]

  pub seek-Holds :
      (offset : ℤ) (whence : ℕ)
      → Gives (λ _ s. Holds start i 1 s) (seek_file ops offset whence i start)
  seek-Holds offset whence = Gives-continue acquire λ _ s held.
      Gives-continue (seek_target-Holds s offset whence held) λ target s1 held1.
        Gives-continue (seek_to-Holds s1 target held1) λ ret s2 held2. finish s2 ret held2
