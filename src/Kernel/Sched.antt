-- ===== src/Kernel/Sched.antt =====
-- The scheduler and its timers: ucore_OS/kern/schedule/sched.c, over the round-robin class. Interrupts
-- are off in each function, so it runs from start to end. A process is a number, and NULL is 0. The
-- switch of the contexts in `proc_run` is not modelled: the model goes on as the process that runs.
pub mod Timers
pub mod Wake
pub mod Expire
pub mod Tick
pub mod Elapse
pub mod Asleep
pub mod Turns
pub mod Fair
pub mod Rounds
pub mod Timed
mod Tests
use mips32_cpu_emulator.Prelude.{
  ℕ, ◌+◌, ◌-◌, Bool, true, false, not, ◌&&◌, Option, none, some, List, [], ◌∷◌, ltb, ◌==◌, bit_and,
  if◌then◌else◌,
}
use mips32_cpu_emulator.Kernel.Result.{Result, returned, failed, panic}
use mips32_cpu_emulator.Kernel.RoundRobin.{
  Proc, RunQueue, set_proc, rr_init, rr_enqueue, rr_dequeue, rr_pick_next, rr_proc_tick,
}

pub data ProcState : Type 0 where
  proc_uninit proc_sleeping proc_runnable proc_zombie : ProcState

-- A timer on the list: `timer` is its address. `expires` counts from the timer before it.
pub record Timer : Type 0 where
  pub timer : ℕ
  pub expires : ℕ
  pub proc : ℕ

pub record Sched : Type 0 where
  pub rq : RunQueue
  pub state : ℕ → ProcState
  pub wait_state : ℕ → ℕ
  pub runs : ℕ → ℕ
  pub current : ℕ
  pub idleproc : ℕ
  pub timer_list : List Timer

infixl 5 ◌>>=◌
abbrev pub ◌>>=◌ : {A B : Type 0} → Result A → (A → Result B) → Result B
returned a >>= k = k a
failed code >>= k = failed code
panic >>= k = panic

abbrev pub is_runnable : ProcState → Bool
is_runnable proc_runnable = true
is_runnable _ = false

abbrev pub is_zombie : ProcState → Bool
is_zombie proc_zombie = true
is_zombie _ = false

-- WT_INTERRUPTED
abbrev pub wt_interrupted : ℕ
wt_interrupted = 0x80000000

abbrev pub max_time_slice : ℕ
max_time_slice = 20

abbrev pub with_rq : Sched → RunQueue → Sched
with_rq s rq = record s { rq = rq }

-- `proc->need_resched = value`.
abbrev pub set_need_resched : Sched → ℕ → Bool → Sched
set_need_resched s proc value =
    with_rq s (set_proc s.rq proc (record (s.rq.procs proc) { need_resched = value }))

unfoldable pub sched_class_enqueue : Sched → ℕ → Result Sched
sched_class_enqueue s proc =
    if proc == s.idleproc
    then returned s
    else (rr_enqueue s.rq proc >>= λ rq. returned (with_rq s rq))

unfoldable pub sched_class_dequeue : Sched → ℕ → Result Sched
sched_class_dequeue s proc = rr_dequeue s.rq proc >>= λ rq. returned (with_rq s rq)

unfoldable pub sched_class_proc_tick : Sched → ℕ → Sched
sched_class_proc_tick s proc =
    if proc == s.idleproc then set_need_resched s proc true else with_rq s (rr_proc_tick s.rq proc)

abbrev pub sched_init : Sched → Sched
sched_init s = record s {
  timer_list = [];
  rq = rr_init (record s.rq { max_time_slice = max_time_slice });
}

-- The process becomes runnable.
abbrev pub set_runnable : Sched → ℕ → Sched
set_runnable s proc = record s {
  state = λ p. if proc == p then proc_runnable else s.state p;
  wait_state = λ p. if proc == p then 0 else s.wait_state p;
}

unfoldable pub wakeup_proc : Sched → ℕ → Result Sched
wakeup_proc s proc =
    if is_zombie (s.state proc)
    then panic
    else if is_runnable (s.state proc)
    then returned s
    else if proc == s.current
    then returned (set_runnable s proc)
    else sched_class_enqueue (set_runnable s proc) proc

-- `proc_run`, without the switch of the contexts.
abbrev pub proc_run : Sched → ℕ → Sched
proc_run s next = record s { current = next }

-- The end of `schedule`: the process that was picked runs.
abbrev pub run_next : Sched → ℕ → Sched
run_next s next =
    let counted = record s { runs = λ p. if next == p then s.runs p + 1 else s.runs p } in
    if next == s.current then counted else proc_run counted next

abbrev pub pick : Sched → Option ℕ → Result Sched
pick s none = returned (run_next s s.idleproc)
pick s (some next) = sched_class_dequeue s next >>= λ s'. returned (run_next s' next)

unfoldable pub schedule : Sched → Result Sched
schedule s =
    let quiet = set_need_resched s s.current false in
    (if is_runnable (quiet.state quiet.current)
      then sched_class_enqueue quiet quiet.current
      else returned quiet)
    >>= λ s'. pick s' (rr_pick_next s'.rq)

unfoldable pub is_pending : ℕ → List Timer → Bool
is_pending timer [] = false
is_pending timer (next ∷ list) =
    let rest = is_pending timer list in if next.timer == timer then true else rest

-- The loop of `add_timer`, and the insertion.
unfoldable pub insert_timer : Timer → List Timer → List Timer
insert_timer new [] = new ∷ []
insert_timer new (next ∷ list) =
    let later = insert_timer (record new { expires = new.expires - next.expires }) list in
    if ltb new.expires next.expires
    then new ∷ record next { expires = next.expires - new.expires } ∷ list
    else next ∷ later

unfoldable pub add_timer : Sched → Timer → Result Sched
add_timer s new =
    if ltb 0 new.expires && not (new.proc == 0)
    then (if is_pending new.timer s.timer_list
        then panic
        else returned (record s { timer_list = insert_timer new s.timer_list }))
    else panic

-- `next->expires += expires`, where there is a next timer.
abbrev pub delay_next : ℕ → List Timer → List Timer
delay_next expires [] = []
delay_next expires (next ∷ list) = record next { expires = next.expires + expires } ∷ list

unfoldable pub remove_timer : ℕ → List Timer → List Timer
remove_timer timer [] = []
remove_timer timer (next ∷ list) =
    let rest = remove_timer timer list in
    if next.timer == timer
    then (if next.expires == 0 then list else delay_next next.expires list)
    else next ∷ rest

-- A timer that is on no list is left alone.
abbrev pub del_timer : Sched → ℕ → Sched
del_timer s timer = record s { timer_list = remove_timer timer s.timer_list }

-- The check of `run_timer_list` on the process of an expired timer.
abbrev pub may_wake : ℕ → Bool
may_wake wait_state = if wait_state == 0 then true else not (bit_and wait_state wt_interrupted == 0)

-- The loop of `run_timer_list` on the timers that are left: those that expire are taken off, and their
-- processes are woken.
unfoldable pub expire_timers : Sched → List Timer → Result Sched
expire_timers s [] = returned (record s { timer_list = [] })
expire_timers s (next ∷ list) =
    if next.expires == 0
    then (if may_wake (s.wait_state next.proc)
        then (wakeup_proc s next.proc >>= λ s'. expire_timers s' list)
        else panic)
    else returned (record s { timer_list = next ∷ list })

abbrev pub tick_first : Sched → List Timer → Result Sched
tick_first s [] = returned s
tick_first s (next ∷ list) =
    if next.expires == 0
    then panic
    else expire_timers s (record next { expires = next.expires - 1 } ∷ list)

unfoldable pub run_timer_list : Sched → Result Sched
run_timer_list s =
    tick_first s s.timer_list >>= λ s'. returned (sched_class_proc_tick s' s'.current)
