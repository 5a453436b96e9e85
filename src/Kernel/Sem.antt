-- ===== src/Kernel/Sem.antt =====
-- Wait queues and semaphores: ucore_OS/kern/sync/wait.c and sem.c, over the scheduler. A `wait_t` is a
-- local variable of the process that waits, so it is named by that process, and `queue` has the waits of
-- one wait queue in order. Interrupts are off in each part, so it runs from start to end; `down` has two
-- parts, with the processes that run between them.
pub mod Waiting
pub mod Down
pub mod Handover
mod Tests
use mips32_cpu_emulator.Prelude.{
  ℕ, ◌+◌, ◌-◌, Bool, true, false, not, ◌&&◌, Option, none, some, List, [], ◌∷◌, ◌++◌, ltb, ◌==◌,
  if◌then◌else◌,
}
use mips32_cpu_emulator.Kernel.Result.{Result, returned, failed, panic}
use mips32_cpu_emulator.Kernel.RoundRobin.{is_linked, unlink, first_of}
use mips32_cpu_emulator.Kernel.Sched.{
  ProcState, proc_sleeping, Sched, ◌>>=◌, wakeup_proc, schedule, wt_interrupted,
}

-- A semaphore with its wait queue and the scheduler; `wakeup_flags` is that of the wait of each process.
pub record Sem : Type 0 where
  pub value : ℕ
  pub queue : List ℕ
  pub wakeup_flags : ℕ → ℕ
  pub sched : Sched

abbrev pub wt_ksem : ℕ
wt_ksem = 0x100

abbrev pub sem_init : Sem → ℕ → Sem
sem_init s value = record s { value = value; queue = [] }

abbrev pub set_flags : Sem → ℕ → ℕ → Sem
set_flags s proc flags = record s {
  wakeup_flags = λ p. if proc == p then flags else s.wakeup_flags p;
}

abbrev pub wait_queue_first : Sem → Option ℕ
wait_queue_first s = first_of s.queue

unfoldable pub last_of : List ℕ → Option ℕ
last_of [] = none
last_of (wait ∷ []) = some wait
last_of (wait ∷ next ∷ list) = last_of (next ∷ list)

abbrev pub wait_queue_last : Sem → Option ℕ
wait_queue_last s = last_of s.queue

abbrev pub wait_queue_empty : Sem → Bool
wait_queue_empty s = is_empty s.queue
  where
    is_empty : List ℕ → Bool
    is_empty [] = true
    is_empty (wait ∷ list) = false

abbrev pub wait_in_queue : Sem → ℕ → Bool
wait_in_queue s wait = is_linked wait s.queue

unfoldable pub wait_queue_add : Sem → ℕ → Result Sem
wait_queue_add s wait =
    if not (wait_in_queue s wait) && not (wait == 0)
    then returned (record s { queue = s.queue ++ (wait ∷ []) })
    else panic

unfoldable pub wait_queue_del : Sem → ℕ → Result Sem
wait_queue_del s wait =
    if wait_in_queue s wait then returned (record s { queue = unlink wait s.queue }) else panic

-- The element behind `wait` in a list.
unfoldable pub next_of : ℕ → List ℕ → Option ℕ
next_of wait [] = none
next_of wait (first ∷ list) =
    let rest = next_of wait list in if first == wait then first_of list else rest

unfoldable pub wait_queue_next : Sem → ℕ → Result (Option ℕ)
wait_queue_next s wait = if wait_in_queue s wait then returned (next_of wait s.queue) else panic

-- The element before `wait` in a list that has `before` in front of it.
unfoldable pub prev_of : Option ℕ → ℕ → List ℕ → Option ℕ
prev_of before wait [] = none
prev_of before wait (first ∷ list) =
    let rest = prev_of (some first) wait list in if first == wait then before else rest

unfoldable pub wait_queue_prev : Sem → ℕ → Result (Option ℕ)
wait_queue_prev s wait =
    if wait_in_queue s wait then returned (prev_of none wait s.queue) else panic

-- `wakeup_proc(wait->proc)`
abbrev pub wake : Sem → ℕ → Result Sem
wake s wait = wakeup_proc s.sched wait >>= λ sched. returned (record s { sched = sched })

unfoldable pub wakeup_wait : ℕ → Bool → Sem → ℕ → Result Sem
wakeup_wait flags del s wait = (if del then wait_queue_del s wait else returned s) >>= λ s'.
    wake (set_flags s' wait flags) wait

abbrev pub wake_first : ℕ → Bool → Sem → Option ℕ → Result Sem
wake_first flags del s none = returned s
wake_first flags del s (some wait) = wakeup_wait flags del s wait

abbrev pub wakeup_first : ℕ → Bool → Sem → Result Sem
wakeup_first flags del s = wake_first flags del s (wait_queue_first s)

-- Both loops of `wakeup_queue`, on the waits that are left.
unfoldable pub wake_each : ℕ → Bool → Sem → List ℕ → Result Sem
wake_each flags del s [] = returned s
wake_each flags del s (wait ∷ list) =
    wakeup_wait flags del s wait >>= λ s'. wake_each flags del s' list

abbrev pub wakeup_queue : ℕ → Bool → Sem → Result Sem
wakeup_queue flags del s = wake_each flags del s s.queue

-- The current process is asleep.
abbrev pub put_to_sleep : Sched → ℕ → Sched
put_to_sleep s state = record s {
  state = λ p. if s.current == p then proc_sleeping else s.state p;
  wait_state = λ p. if s.current == p then state else s.wait_state p;
}

unfoldable pub wait_current_set : ℕ → Sem → Result Sem
wait_current_set wait_state s =
    if s.sched.current == 0
    then panic
    else wait_queue_add
        (record (set_flags s s.sched.current wt_interrupted) {
          sched = put_to_sleep s.sched wait_state;
        })
        s.sched.current

unfoldable pub wait_current_del : Sem → ℕ → Result Sem
wait_current_del s wait = if wait_in_queue s wait then wait_queue_del s wait else returned s

-- `__up`, for the first wait of the queue.
abbrev pub up_first : ℕ → Sem → Option ℕ → Result Sem
up_first wait_state s none = returned (record s { value = s.value + 1 })
up_first wait_state s (some wait) =
    if s.sched.wait_state wait == wait_state then wakeup_wait wait_state true s wait else panic

unfoldable pub up : Sem → Result Sem
up s = up_first wt_ksem s (wait_queue_first s)

-- `down` up to `schedule`; the answer is whether it has returned already.
unfoldable pub down_enter : Sem → Result (Bool × Sem)
down_enter s =
    if ltb 0 s.value
    then returned (true, record s { value = s.value - 1 })
    else (wait_current_set wt_ksem s >>= λ s'.
        schedule s'.sched >>= λ sched. returned (false, record s' { sched = sched }))

-- `down` from there on, when the process runs again.
unfoldable pub down_leave : Sem → Result Sem
down_leave s = wait_current_del s s.sched.current >>= λ s'.
    let flags = s'.wakeup_flags s.sched.current in
    if flags == wt_ksem then returned s' else if flags == 0 then returned s' else panic

abbrev pub try_down : Sem → Bool × Sem
try_down s = if ltb 0 s.value then (true, record s { value = s.value - 1 }) else (false, s)
