-- ===== src/Kernel/Inode.antt =====
-- The counts of an inode: ucore_OS/kern/fs/vfs/inode.c, and `vfs_close` of vfsfile.c. An inode is a number.
-- What a file system does in `vop_reclaim` and `vop_close` is not modelled: the calls are kept in a list,
-- the last one first.
pub mod Counts
pub mod Open
mod Tests
use mips32_cpu_emulator.Prelude.{
  ℕ, ◌+◌, ◌-◌, Bool, true, false, ◌&&◌, Option, none, some, List, [], ◌∷◌, ltb, leb, ◌==◌,
  if◌then◌else◌,
}
use mips32_cpu_emulator.Kernel.Result.{Result, returned, failed, panic}
use mips32_cpu_emulator.Kernel.Sched.{◌>>=◌}

pub data VopCall : Type 0 where
  vop_reclaim vop_close : ℕ → VopCall

pub record Inodes : Type 0 where
  pub ref_count : ℕ → ℕ
  pub open_count : ℕ → ℕ
  pub calls : List VopCall

abbrev pub set_count : (ℕ → ℕ) → ℕ → ℕ → ℕ → ℕ
set_count counts node value n = if node == n then value else counts n

abbrev pub inode_ref_inc : ℕ → Inodes → Inodes
inode_ref_inc node s = record s { ref_count = set_count s.ref_count node (s.ref_count node + 1) }

abbrev pub inode_init : ℕ → Inodes → Inodes
inode_init node s = inode_ref_inc node (record s {
  ref_count = set_count s.ref_count node 0;
  open_count = set_count s.open_count node 0;
})

abbrev pub inode_kill : ℕ → Inodes → Result Inodes
inode_kill node s =
    if (s.ref_count node == 0) && (s.open_count node == 0) then returned s else panic

unfoldable pub inode_ref_dec : ℕ → Inodes → Result Inodes
inode_ref_dec node s =
    let ref_count = s.ref_count node - 1 in
    if ltb 0 (s.ref_count node)
    then returned (record s {
      ref_count = set_count s.ref_count node ref_count;
      calls = if ref_count == 0 then vop_reclaim node ∷ s.calls else s.calls;
    })
    else panic

abbrev pub inode_open_inc : ℕ → Inodes → Inodes
inode_open_inc node s = record s {
  open_count = set_count s.open_count node (s.open_count node + 1);
}

unfoldable pub inode_open_dec : ℕ → Inodes → Result Inodes
inode_open_dec node s =
    let open_count = s.open_count node - 1 in
    if ltb 0 (s.open_count node)
    then returned (record s {
      open_count = set_count s.open_count node open_count;
      calls = if open_count == 0 then vop_close node ∷ s.calls else s.calls;
    })
    else panic

-- MAX_INODE_COUNT
abbrev pub max_inode_count : ℕ
max_inode_count = 0x10000

abbrev pub inode_check : ℕ → Inodes → Result Inodes
inode_check node s =
    if leb (s.open_count node) (s.ref_count node)
      && (ltb (s.ref_count node) max_inode_count && ltb (s.open_count node) max_inode_count)
    then returned s
    else panic

unfoldable pub vfs_close : ℕ → Inodes → Result Inodes
vfs_close node s = inode_open_dec node s >>= inode_ref_dec node

-- A call on a state that a failed assert may have stopped before.
abbrev pub and_then : Result Inodes → (Inodes → Result Inodes) → Result Inodes
and_then v k = v >>= k
