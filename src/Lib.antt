-- ===== src/Lib.antt =====
-- Verification library of the MIPS32 CPU emulator and of the kernel that it runs.
--
-- The program. src/ is the emulator, in C++: a coprocessor (cp0.h), a memory management unit with
-- its devices (mmu.h) and a processor (cpu.h, cpu.cc, cpu_instructions.cc) whose endless loop
-- fetches, decodes and executes one instruction a round. ucore_OS/ is the kernel and its programs,
-- in C, which the emulator boots from its images.
--
-- Emulator (src/):
--   Emulator.Word       uint32_t and the signed types: wrap-around by `%`, signed values as integers
--   Emulator.Outcome    a call with `bool& exception`: it returns, raises, or is undefined behaviour
--   Emulator.Cp0        struct CP0; `Cp0.Fields` reads the fields of Status and Cause
--   Emulator.Mmu        class MMU: translation, physical devices, loads and stores; its children
--                       are `Frame` (what is left alone), `Tlb`, `Entries`, `Report`, `Memory`
--   Emulator.Cpu        class CPU: the state and the fields of an instruction; `Instructions` has a
--                       definition for each exe_ method, `Decode` the switch statements as tables,
--                       `Run` the loop; `Precise`, `Semantics`, `Run.Exceptions` and
--                       `Run.Faults` are about them
--   Emulator.Isa        the encoding of the instruction set, apart from the emulator's decoder
-- The reference MMU::cp0_ and the member CPU::cp0_ are one object: it stands inside the MMU's
-- state. A method that sets `exception` returns at once, and so do its callers; hence `raised`.
-- `undefined` stands for: a shift by a register of 32 or more, a product that overflows int64_t, a
-- TLB index past the arrays, and a read past the end of the ROM or flash stream. What C++ leaves
-- uninitialised in the constructors is an argument of `initial`. The loop is endless; `run` is its
-- first n rounds, for any n, so no fuel bounds it.
--
-- Kernel (ucore_OS/kern/):
--   Kernel.Result       a value, a negative error code, or the panic of a failed `assert`
--   Kernel.Bitmap       fs/sfs/bitmap.c: the bitmap of free blocks; its children are `Free` (the set
--                       of free indices that it stands for), `Create`, `Alloc` and `Release`
--   Kernel.Vma          mm/vmm.c: the areas of an address space; its children are `Areas` (what is
--                       well formed), `Find`, `Insert`, `Map` and `Check`
--   Kernel.FirstFit     mm/default_pmm.c: the first-fit page allocator; its children are `Blocks` (the
--                       set of free pages), `Taken`, `Alloc`, `Add`, `Range` and `Init`
--   Kernel.RoundRobin   schedule/default_sched.c: the round-robin run queue; `Queue` is about its
--                       order, count and time slices
--   Kernel.Sched        schedule/sched.c, over the round-robin class; its children are `Timers` (the
--                       ticks that a timer list stands for), `Wake`, `Expire`, `Tick`, `Elapse`
--                       (ticks in a row), `Asleep`, `Turns`, `Fair` and `Rounds` (calls of schedule in
--                       a row) and `Timed`
--   Kernel.Sem          sync/wait.c and sync/sem.c, over the scheduler; its children are `Waiting`
--                       (what is well formed, `up`), `Down` and `Handover`
--   Kernel.Pid          process/proc.c, get_pid; its children are `Scan` and `Total`
--   Kernel.Sleep        process/proc.c, do_sleep, over the timers of the scheduler
--   Kernel.Files        fs/file.c and part of fs/fs.c: the table of open files, as a state monad over
--                       file systems that are a parameter (`Vfs`); its children are `Entry` and
--                       `Calls` (the functions), `Sets`, `Lifecycle`, `Steps` (what they do to an
--                       entry), `Table` (what is well formed), `Init`, `Alloc`, `Open`, `Close`,
--                       `Transfer`, `Safe` (sequences of calls) and `Process` (fs.c)
--   Kernel.Inode        fs/vfs/inode.c: the counts of an inode; its children are `Counts` and `Open` (the
--                       table of files over them)
-- A pointer that may be NULL is an Option. Loops over an array recurse on the number of elements
-- that are left, and loops over a linked list on the list. The loop of user_mem_check has fuel for a
-- round per address and one more, which is enough because each round moves up.
-- The loop of get_pid over the list starts again a bounded number of times: twice MAX_PID rounds are
-- enough. FILES_STRUCT_NENTRY is 145, from the sizes of the structs on the 32-bit machine.
--
-- C library (ucore_OS/libs/string.c, ucore_OS/kern/libs/string.c):
--   Libs.Memory         the memory functions, on a function from addresses to bytes
--   Libs.Strings        the string functions, with a bound on the bytes that are read; its children
--                       are `Length`, `Compare` and `Write`
--   Libs.Numbers        printnum of ucore_OS/libs/printfmt.c with do_div of libs/mips32s.h, and
--                       strtol; its children are `Divide`, `Digits` and `Parse`
-- printnum has fuel, and a number below it never uses it up. The loop of memcpy_flash has fuel, one
-- more than the bytes that are asked for.
-- An overflow of the signed `val` of strtol is undefined, and gives no result.
--
-- Not modelled: src/main.cc, which reads the images. Its streams are records of a size and bytes.
-- Of the kernel: page tables and the TLB refill (mm/pmm.c, mm/tlb.c), swapping, kmalloc, processes
-- beyond their identifiers, monitors, the file systems beyond the bitmap and the table of open
-- files, format strings, devices, traps and system calls; the self-tests in the modelled files; the
-- user programs and the host tools. A kernel function that gets memory from kmalloc has an argument
-- that tells whether it does.
pub mod Prelude
pub mod Bits
pub mod Emulator
pub mod Libs
pub mod Kernel
