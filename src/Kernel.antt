-- ===== src/Kernel.antt =====
-- Parts of the kernel that runs on the emulated machine: ucore_OS/kern.
pub mod Result
pub mod Bitmap
pub mod Vma
pub mod FirstFit
pub mod RoundRobin
pub mod Sched
pub mod Sem
pub mod Inode
pub mod Pid
pub mod Sleep
pub mod Files
pub mod Tests
