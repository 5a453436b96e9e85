-- ===== src/Kernel/Inode/Counts.antt =====
-- Open files and the counts of their inodes: `file_dup` and `file_close` of ucore_OS/kern/fs/file.c over
-- ucore_OS/kern/fs/vfs/inode.c.
use mips32_cpu_emulator.Prelude.{
  ℕ, ◌+◌, ◌-◌, ◌<◌, true, false, ltb, ◌==◌, ==_iff, ◌≡◌, inl, inr, refl, ap, ◌∙◌, arith, Bool-cases,
  lt→ltb,
}
use mips32_cpu_emulator.Kernel.Result.{Result, returned}
use mips32_cpu_emulator.Kernel.Inode.{
  Inodes, set_count, inode_ref_inc, inode_ref_dec, inode_open_inc, inode_open_dec, vfs_close,
}

-- The same counts, and no further call of a file system.
pub record SameCounts (s s' : Inodes) : Type 0 where
  pub refs : (n : ℕ) → s'.ref_count n ≡ s.ref_count n
  pub opens : (n : ℕ) → s'.open_count n ≡ s.open_count n
  pub no_calls : s'.calls ≡ s.calls

pub data Restores (s : Inodes) : Result Inodes → Type 0 where
  restores : {s' : Inodes} → SameCounts s s' → Restores s (returned s')

set_back :
    (counts : ℕ → ℕ) (node n value : ℕ)
    → value ≡ counts node
    → set_count (set_count counts node (counts node + 1)) node value n ≡ counts n
set_back counts node n value same = elim (Bool-cases (node == n)) [
  | inl h ↦ let equal : node ≡ n = ground arith in rw h (same ∙ ap counts equal)
  | inr h ↦ rw h refl
]

-- A `vfs_close` after one more reference and one more opening, as `file_dup` takes them, of an inode that
-- is referenced and open, restores the counts of all inodes, and calls neither `vop_close` nor `vop_reclaim`.
pub vfs_close-Restores :
    (node : ℕ) (s : Inodes)
    → 0 < s.ref_count node
    → 0 < s.open_count node
    → Restores s (vfs_close node (inode_open_inc node (inode_ref_inc node s)))
unfolding vfs_close inode_open_dec inode_ref_dec
vfs_close-Restores node s referenced opened =
    let itself : (node == node) ≡ true = (==_iff node node).1 refl in
    let some_open : ltb 0 (s.open_count node + 1) ≡ true = lt→ltb _ _ (omega arith) in
    let some_ref : ltb 0 (s.ref_count node + 1) ≡ true = lt→ltb _ _ (omega arith) in
    let open_left : (s.open_count node + 1 - 1 == 0) ≡ false = ground arith in
    let ref_left : (s.ref_count node + 1 - 1 == 0) ≡ false = ground arith in
    let same_ref : s.ref_count node + 1 - 1 ≡ s.ref_count node = omega arith in
    let same_open : s.open_count node + 1 - 1 ≡ s.open_count node = omega arith in
    rw (itself, some_open, open_left)
      (rw (itself, some_ref, ref_left)
        (restores (record {
          refs = λ n. set_back s.ref_count node n _ same_ref;
          opens = λ n. set_back s.open_count node n _ same_open;
          no_calls = refl;
        })))
