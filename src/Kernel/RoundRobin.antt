-- ===== src/Kernel/RoundRobin.antt =====
-- The round-robin scheduling class: ucore_OS/kern/schedule/default_sched.c. A process is a number, and
-- `procs` has the fields of `proc_struct` that the class uses. `run_link` is empty exactly while the
-- process is on no list, and there is one run queue, so `proc->rq` is that queue for a linked process. `proc_num`
-- is unsigned: it counts the processes of the queue, is lowered only where there is one, and cannot
-- reach 2 ^ 32, since each process takes memory.
pub mod Queue
use mips32_cpu_emulator.Prelude.{
  ℕ, ◌+◌, ◌-◌, Bool, true, false, ◌||◌, Option, none, some, List, [], ◌∷◌, ◌++◌, ltb, ◌==◌,
  if◌then◌else◌,
}
use mips32_cpu_emulator.Kernel.Result.{Result, returned, failed, panic}

pub record Proc : Type 0 where
  pub time_slice : ℕ
  pub need_resched : Bool

pub record RunQueue : Type 0 where
  pub procs : ℕ → Proc
  pub run_list : List ℕ
  pub proc_num : ℕ
  pub max_time_slice : ℕ

abbrev pub set_proc : RunQueue → ℕ → Proc → RunQueue
set_proc rq proc value = record rq { procs = λ p. if proc == p then value else rq.procs p }

-- `!list_empty(&(proc->run_link))`.
unfoldable pub is_linked : ℕ → List ℕ → Bool
is_linked proc [] = false
is_linked proc (p ∷ list) = (p == proc) || is_linked proc list

abbrev pub rr_init : RunQueue → RunQueue
rr_init rq = record rq { run_list = []; proc_num = 0 }

-- The new value of `time_slice`.
abbrev pub full_slice : RunQueue → ℕ → ℕ
full_slice rq time_slice =
    if (time_slice == 0) || ltb rq.max_time_slice time_slice then rq.max_time_slice else time_slice

-- The run queue with the process at its end.
abbrev pub appended : RunQueue → ℕ → RunQueue
appended rq proc =
    record (set_proc rq proc
      (record (rq.procs proc) { time_slice = full_slice rq (rq.procs proc).time_slice })) {
        run_list = rq.run_list ++ (proc ∷ []);
        proc_num = rq.proc_num + 1;
      }

unfoldable pub rr_enqueue : RunQueue → ℕ → Result RunQueue
rr_enqueue rq proc = if is_linked proc rq.run_list then panic else returned (appended rq proc)

-- `list_del_init`.
unfoldable pub unlink : ℕ → List ℕ → List ℕ
unlink proc [] = []
unlink proc (p ∷ list) = let rest = unlink proc list in if p == proc then list else p ∷ rest

-- The run queue without the process.
abbrev pub taken_off : RunQueue → ℕ → RunQueue
taken_off rq proc = record rq { run_list = unlink proc rq.run_list; proc_num = rq.proc_num - 1 }

unfoldable pub rr_dequeue : RunQueue → ℕ → Result RunQueue
rr_dequeue rq proc = if is_linked proc rq.run_list then returned (taken_off rq proc) else panic

abbrev pub first_of : List ℕ → Option ℕ
first_of [] = none
first_of (proc ∷ list) = some proc

unfoldable pub rr_pick_next : RunQueue → Option ℕ
rr_pick_next rq = first_of rq.run_list

unfoldable pub rr_proc_tick : RunQueue → ℕ → RunQueue
rr_proc_tick rq proc =
    let old = rq.procs proc in
    let slice = old.time_slice - 1 in
    set_proc rq proc
      (record { time_slice = slice; need_resched = if slice == 0 then true else old.need_resched })
