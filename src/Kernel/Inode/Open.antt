-- ===== src/Kernel/Inode/Open.antt =====
-- The table of files of ucore_OS/kern/fs/file.c over the counts of ucore_OS/kern/fs/vfs/inode.c.
use mips32_cpu_emulator.Prelude.{ℕ, ◌<◌, some, ◌≡◌, ap, sym, ◌∙◌, subst, lt→ltb}
use mips32_cpu_emulator.Prelude.Int.{ℤ, pos}
use mips32_cpu_emulator.Kernel.Result.{Result, returned}
use mips32_cpu_emulator.Kernel.Inode.{Inodes, inode_ref_inc, inode_open_inc, vfs_close, and_then}
use mips32_cpu_emulator.Kernel.Inode.Counts.{Restores, vfs_close-Restores}
use mips32_cpu_emulator.Kernel.Files.{File, Files, Ret, ok, error, Vfs, nentry}
use mips32_cpu_emulator.Kernel.Files.Monad.{M, ◌>>=◌, when_ok}
use mips32_cpu_emulator.Kernel.Files.Calls.{file_dup, file_close}
use mips32_cpu_emulator.Kernel.Files.Sets.{Gives, gives, Gives-continue, Gives-mono, Sets}
use mips32_cpu_emulator.Kernel.Files.Steps.{IsOpen}
use mips32_cpu_emulator.Kernel.Files.Table.{IsFree, IsFiles, IsFd, out_of_range, not_open}
use mips32_cpu_emulator.Kernel.Files.Alloc.{IsFreeAt}
use mips32_cpu_emulator.Kernel.Files.Close.{
  FileCloses, closes, not_closed, FileDups, dups, not_allocated, file_dup-FileDups,
  file_close-FileCloses, FileDups-IsFiles,
}

-- File systems with the counts of inode.c; a failed assert stops them.
abbrev pub with_inodes : Vfs (Result Inodes) → Vfs (Result Inodes)
with_inodes ops = record ops {
  vfs_close = λ node v. and_then v (vfs_close node);
  vop_ref_inc = λ node v. and_then v (λ s. returned (inode_ref_inc node s));
  vop_open_inc = λ node v. and_then v (λ s. returned (inode_open_inc node s));
}

-- `file_dup`, and a `file_close` of the descriptor that it gives.
abbrev pub dup_close : Vfs (Result Inodes) → ℤ → ℤ → M (Result Inodes) Ret
dup_close ops fd1 fd2 =
    file_dup (with_inodes ops) fd1 fd2 >>= λ r. when_ok r λ j. file_close (with_inodes ops) (pos j)

-- What the two calls do together.
pub data Undone (start : Files (Result Inodes)) (v : Inodes)
    : Ret → Files (Result Inodes) → Type 0 where
  refused : {code : ℕ} → Undone start v (error code) start
  undone :
      {j : ℕ} {s : Files (Result Inodes)} {file : File}
      → IsFreeAt start j
      → Sets start s j file
      → IsFree file
      → Restores v s.vfs
      → Undone start v (ok 0) s

Sets-twice :
    {V : Type 0} {start s s' : Files V} {j : ℕ} {file file' : File}
    → Sets start s j file
    → Sets s s' j file'
    → Sets start s' j file'
Sets-twice sets sets' = record {
  entry = sets'.entry;
  others = λ i apart. sets'.others i apart ∙ sets.others i apart;
  count_kept = sets'.count_kept ∙ sets.count_kept;
}

module _ (ops : Vfs (Result Inodes)) (start : Files (Result Inodes)) (v : Inodes) where
  closed_again :
      (node j : ℕ) (s : Files (Result Inodes)) (file : File) (r : Ret) (s' : Files (Result Inodes))
      → start.vfs ≡ returned v
      → 0 < v.ref_count node
      → 0 < v.open_count node
      → IsFreeAt start j
      → IsOpen file node
      → Sets start s j file
      → s.vfs ≡ (with_inodes ops).vop_open_inc node ((with_inodes ops).vop_ref_inc node start.vfs)
      → FileCloses (with_inodes ops) s (pos j) r s'
      → Undone start v r s'
  closed_again node j s file _ _ same referenced opened is_free is_open sets taken
        (not_closed (out_of_range invalid)) =
      absurd (cc (invalid, lt→ltb j nentry is_free.inside))
  closed_again node j s file _ _ same referenced opened is_free is_open sets taken
        (not_closed (not_open free')) =
      absurd (cc (free'.unopened, sets.entry, is_open.opened))
  closed_again node j s file _ s' same referenced opened is_free is_open sets taken
        (closes {node = node'} named sets' _ free' closed) =
      let there : some node' ≡ some node =
        sym named.is_open.with_node ∙ ap (λ (f : File). f.node) sets.entry ∙ is_open.with_node in
      let one_node : node' ≡ node = cc in
      let end : s'.vfs ≡ vfs_close node (inode_open_inc node (inode_ref_inc node v)) =
        closed
        ∙ ap (λ n. and_then s.vfs (vfs_close n)) one_node
        ∙ ap (λ t. and_then t (vfs_close node)) taken
        ∙ ap
            (λ t.
              and_then
                (and_then (and_then t (λ u. returned (inode_ref_inc node u)))
                  (λ u. returned (inode_open_inc node u)))
                (vfs_close node))
            same in
      undone is_free (Sets-twice sets sets') free'
        (subst (Restores v) (sym end) (vfs_close-Restores node v referenced opened))

  after_dup :
      (fd1 fd2 : ℤ) (r : Ret) (s : Files (Result Inodes))
      → IsFiles start
      → start.vfs ≡ returned v
      → ((node : ℕ) → IsFd start fd1 node → (0 < v.ref_count node) × (0 < v.open_count node))
      → IsFiles s
      → FileDups (with_inodes ops) start fd1 fd2 r s
      → Gives (Undone start v) (when_ok r (λ j. file_close (with_inodes ops) (pos j)) s)
  after_dup fd1 fd2 _ _ good same counted good' (FileDups.not_open _) = gives refused
  after_dup fd1 fd2 _ _ good same counted good' (not_allocated _ _) = gives refused
  after_dup fd1 fd2 _ s good same counted good'
        (dups {node} {j} named is_free chosen copy same_fd sets taken) =
      Gives-mono (file_close-FileCloses (with_inodes ops) s (pos j) good') (λ r' s' h.
        closed_again node j s _ r' s' same (counted node named).0 (counted node named).1 is_free
          copy.is_open sets taken h)

  -- On a well-formed table, over inodes whose counts are not 0 where the first descriptor is open: `file_dup`
  -- and a `file_close` of the descriptor that it gives return. Either `file_dup` has refused, and all is as
  -- it was; or the descriptor was free and is free again, the other entries and the counts of all inodes are as they
  -- were, and no file system was called to close or reclaim one.
  pub dup_close-Undone :
      (fd1 fd2 : ℤ)
      → IsFiles start
      → start.vfs ≡ returned v
      → ((node : ℕ) → IsFd start fd1 node → (0 < v.ref_count node) × (0 < v.open_count node))
      → Gives (Undone start v) (dup_close ops fd1 fd2 start)
  dup_close-Undone fd1 fd2 good same counted =
      Gives-continue (file_dup-FileDups (with_inodes ops) start fd1 fd2 good) λ r s h.
        after_dup fd1 fd2 r s good same counted
          (FileDups-IsFiles (with_inodes ops) start fd1 fd2 r s good h) h
