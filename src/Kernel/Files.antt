-- ===== src/Kernel/Files.antt =====
-- The table of open files of a process: ucore_OS/kern/fs/file.c. A pointer to a `struct file` is its
-- index in the table, a pointer to an inode is a number. The functions of the file systems are the
-- fields of `Vfs`, over a state of theirs; they do not touch the table.
pub mod Monad
pub mod Entry
pub mod Calls
pub mod Sets
pub mod Lifecycle
pub mod Steps
pub mod Table
pub mod Init
pub mod Alloc
pub mod Open
pub mod Close
pub mod Transfer
pub mod Safe
pub mod Process
mod Tests
use mips32_cpu_emulator.Prelude.{
  ℕ, zero, suc, ◌+◌, ◌-◌, ◌%◌, ◌^◌, Bool, true, false, not, ◌&&◌, ◌||◌, Option, none, some, bit_and,
  ltb, ◌==◌, if◌then◌else◌,
}
use mips32_cpu_emulator.Prelude.Int.{ℤ, pos, negsuc, ◌+ℤ◌}

pub data Status : Type 0 where
  fd_none fd_init fd_opened fd_closed : Status

pub record File : Type 0 where
  pub status : Status
  pub readable : Bool
  pub writable : Bool
  pub fd : ℕ
  pub offset : ℤ
  pub node : Option ℕ
  pub open_count : ℕ

-- `files_count` is that of the process's `files_struct`.
pub record Files (V : Type 0) : Type 0 where
  pub fd_array : ℕ → File
  pub files_count : ℕ
  pub vfs : V

-- A value, or a negated error code.
pub data Ret : Type 0 where
  ok : ℕ → Ret
  error : ℕ → Ret

-- What the table's functions call: `vfs_open` and `vfs_close` of ucore_OS/kern/fs/vfs/vfsfile.c and the
-- operations of an inode. A call that moves data gives its code and the number of bytes moved.
pub record Vfs (V : Type 0) : Type 0 where
  pub vfs_open : ℕ → ℕ → V → Ret × V
  pub vfs_close : ℕ → V → V
  pub vop_fstat : ℕ → V → Ret × V
  pub vop_read : ℕ → ℤ → ℕ → V → (ℕ × ℕ) × V
  pub vop_write : ℕ → ℤ → ℕ → V → (ℕ × ℕ) × V
  pub vop_tryseek : ℕ → ℤ → V → ℕ × V
  pub vop_fsync : ℕ → V → ℕ × V
  pub vop_getdirentry : ℕ → ℤ → V → (ℕ × ℕ) × V
  pub vop_ref_inc : ℕ → V → V
  pub vop_open_inc : ℕ → V → V

-- (PGSIZE - sizeof(struct files_struct)) / sizeof(struct file), on the 32-bit machine.
abbrev pub nentry : ℕ
nentry = 145

-- NO_FD is -0x9527.
abbrev pub is_no_fd : ℤ → Bool
is_no_fd (pos n) = false
is_no_fd (negsuc n) = n == 0x9526

abbrev pub testfd : ℤ → Bool
testfd (pos n) = ltb n nentry
testfd (negsuc n) = false

-- The index that a valid descriptor is.
abbrev pub index_of : ℤ → ℕ
index_of (pos n) = n
index_of (negsuc n) = 0

abbrev pub is_none : Status → Bool
is_none fd_none = true
is_none _ = false

abbrev pub is_init : Status → Bool
is_init fd_init = true
is_init _ = false

abbrev pub is_opened : Status → Bool
is_opened fd_opened = true
is_opened _ = false

abbrev pub is_closed : Status → Bool
is_closed fd_closed = true
is_closed _ = false

abbrev unsigned_of : ℤ → ℕ
unsigned_of (pos n) = n % 2 ^ 32
unsigned_of (negsuc n) = 2 ^ 32 - 1 - n % 2 ^ 32

abbrev signed_of : ℕ → ℤ
signed_of n = if ltb n (2 ^ 31) then pos n else negsuc (2 ^ 32 - 1 - n)

-- A sum as an `off_t` of 32 bits.
abbrev pub off_t : ℤ → ℤ
off_t n = signed_of (unsigned_of n)
