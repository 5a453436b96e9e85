-- ===== src/Kernel/Sleep.antt =====
-- `do_sleep` of ucore_OS/kern/process/proc.c: a process that sleeps for some ticks. The timer is a local
-- variable; `timer` is its address.
use mips32_cpu_emulator.Prelude.{
  ℕ, ◌+◌, ◌-◌, ◌<◌, true, false, List, [], ◌∷◌, ltb, ◌==◌, ==_iff, if◌then◌else◌, ◌≡◌, ◌≢◌, inl,
  inr, refl, ap, sym, ◌∙◌, subst, arith, Bool-cases, lt→ltb,
}
use mips32_cpu_emulator.Kernel.Result.{Result, returned}
use mips32_cpu_emulator.Kernel.Sched.{
  proc_sleeping, proc_runnable, Sched, Timer, is_zombie, may_wake, ◌>>=◌, add_timer, del_timer,
  schedule, is_pending, insert_timer,
}
use mips32_cpu_emulator.Kernel.Sched.Expire.{IsWakeable, AllWakeable, Waits, IsTimed}
use mips32_cpu_emulator.Kernel.Sched.Elapse.{
  elapse, IsDue, first_due, later_due, After, still_due, fired, elapse-After,
}
use mips32_cpu_emulator.Kernel.Sched.Asleep.{
  NoTimer, NoneBefore, insert_timer-NoneBefore, Keeps, elapse-Keeps,
}
use mips32_cpu_emulator.Kernel.Sched.Turns.{Schedules, schedules, schedule-Schedules}
use mips32_cpu_emulator.Kernel.Sched.Timed.{insert_timer-IsTimed}
use mips32_cpu_emulator.Kernel.Sem.{put_to_sleep}
use mips32_cpu_emulator.Kernel.Sem.Down.{put_to_sleep-IsSched}

-- WT_TIMER
abbrev pub wt_timer : ℕ
wt_timer = 0x80000002

abbrev pub timer_init : ℕ → ℕ → ℕ → Timer
timer_init timer proc expires = record { timer = timer; expires = expires; proc = proc }

-- `do_sleep` up to `schedule`.
unfoldable pub do_sleep_enter : ℕ → ℕ → Sched → Result Sched
do_sleep_enter time timer s =
    if time == 0
    then returned s
    else (add_timer (put_to_sleep s wt_timer) (timer_init timer s.current time) >>= λ s'.
        schedule s')

-- `do_sleep` from there on, when the process runs again.
abbrev pub do_sleep_leave : ℕ → Sched → Sched
do_sleep_leave timer s = del_timer s timer

insert_timer-IsDue :
    (new : Timer) (list : List Timer) → IsDue new.proc new.expires (insert_timer new list)
unfolding insert_timer
insert_timer-IsDue new [] = first_due refl refl
insert_timer-IsDue new (next ∷ list) = elim (Bool-cases (ltb new.expires next.expires)) [
  | inl before ↦ rw before (first_due refl refl)
  | inr after ↦ rw after (
      later_due {m = new.expires - next.expires} (ground arith)
        (insert_timer-IsDue (record new { expires = new.expires - next.expires }) list))
]

put_to_sleep-IsWakeable :
    (s : Sched) (p : ℕ) → IsWakeable s p → IsWakeable (put_to_sleep s wt_timer) p
put_to_sleep-IsWakeable s p h = elim (Bool-cases (s.current == p)) [
  | inl at ↦ record { alive = rw at refl; interruptible = rw at refl }
  | inr off ↦ record { alive = rw off h.alive; interruptible = rw off h.interruptible }
]

put_to_sleep-AllWakeable :
    (s : Sched) (list : List Timer)
    → AllWakeable s list
    → AllWakeable (put_to_sleep s wt_timer) list
put_to_sleep-AllWakeable s [] all = tt
put_to_sleep-AllWakeable s (next ∷ list) (first, rest) =
    (put_to_sleep-IsWakeable s next.proc first, put_to_sleep-AllWakeable s list rest)

put_to_sleep-IsTimed : (s : Sched) → IsTimed s → IsTimed (put_to_sleep s wt_timer)
put_to_sleep-IsTimed s timed = record {
  good = put_to_sleep-IsSched s wt_timer timed.good;
  first_waits = timed.first_waits;
  wakeable = put_to_sleep-AllWakeable s s.timer_list timed.wakeable;
}

AllWakeable-same :
    (s s' : Sched) (list : List Timer)
    → s'.state ≡ s.state
    → s'.wait_state ≡ s.wait_state
    → AllWakeable s list
    → AllWakeable s' list
AllWakeable-same s s' [] states waits all = tt
AllWakeable-same s s' (next ∷ list) states waits (first, rest) = (
  record {
    alive = ap (λ f. is_zombie (f next.proc)) states ∙ first.alive;
    interruptible = ap (λ f. may_wake (f next.proc)) waits ∙ first.interruptible;
  },
  AllWakeable-same s s' list states waits rest,
)

-- A process that went to sleep, when `left` ticks are left: it sleeps and its timer is due, or its time is
-- over and it is runnable.
pub data Sleeps (p left : ℕ) : Result Sched → Type 0 where
  asleep :
      {s : Sched}
      → 0 < left
      → s.state p ≡ proc_sleeping
      → s.wait_state p ≡ wt_timer
      → IsDue p left s.timer_list
      → IsTimed s
      → Sleeps p left (returned s)
  woken :
      {s : Sched} → left ≡ 0 → s.state p ≡ proc_runnable → IsTimed s → Sleeps p left (returned s)

After-Sleeps :
    (p left : ℕ) (s : Sched) (result : Result Sched)
    → s.state p ≡ proc_sleeping
    → s.wait_state p ≡ wt_timer
    → (0 < left → Keeps p s result)
    → After p left result
    → Sleeps p left result
After-Sleeps p left s _ sleeping waits kept (still_due more timed due) =
    let same = kept more in asleep more (same.0 ∙ sleeping) (same.1 ∙ waits) due timed
After-Sleeps p left s _ sleeping waits kept (fired over timed runs) = woken over runs timed

-- `schedule` leaves the timers and the states as they are.
rescheduled :
    (p m left : ℕ) (s : Sched) (result : Result Sched)
    → IsTimed s
    → IsDue p (m + left) s.timer_list
    → NoneBefore p (m + left) s.timer_list
    → s.state p ≡ proc_sleeping
    → s.wait_state p ≡ wt_timer
    → Schedules s result
    → Sleeps p left (result >>= λ s'. elapse m s')
rescheduled p m left s _ timed due before sleeping waiting
      (schedules {s'} _ good states waits timers _) =
    let timed' : IsTimed s' = record {
      good = good;
      first_waits = subst Waits (sym timers) timed.first_waits;
      wakeable =
          subst (AllWakeable s') (sym timers)
            (AllWakeable-same s s' s.timer_list states waits timed.wakeable);
    } in
    After-Sleeps p left s' (elapse m s') (ap (λ f. f p) states ∙ sleeping)
      (ap (λ f. f p) waits ∙ waiting)
      (λ more.
        elapse-Keeps m left p s' timed' more (subst (NoneBefore p (m + left)) (sym timers) before))
      (elapse-After m left p s' timed' (subst (IsDue p (m + left)) (sym timers) due))

-- On a well-formed scheduler without a timer of the current process, `do_sleep` by that process for
-- `m + left` ticks, at least one, with a timer that is not on the list, does not panic, and neither do the
-- `m` ticks of the clock after it. If `left` is not 0 then the process sleeps, waits for a timer, and the
-- timer is due in `left` ticks; if it is 0 then the process is runnable. The scheduler is well formed
-- again.
pub do_sleep-Sleeps :
    (m left timer : ℕ) (s : Sched)
    → IsTimed s
    → s.current ≢ 0
    → NoTimer s.current s.timer_list
    → is_pending timer s.timer_list ≡ false
    → 0 < m + left
    → Sleeps s.current left (do_sleep_enter (m + left) timer s >>= λ s'. elapse m s')
unfolding do_sleep_enter add_timer
do_sleep-Sleeps m left timer s timed some_process no_timer fresh more =
    let itself : (s.current == s.current) ≡ true = (==_iff s.current s.current).1 refl in
    let some_time : (m + left == 0) ≡ false = ground arith in
    let some_ticks : ltb 0 (m + left) ≡ true = lt→ltb _ _ more in
    let not_null : (s.current == 0) ≡ false = ground arith in
    let new = timer_init timer s.current (m + left) in
    let sleeper = put_to_sleep s wt_timer in
    let wakeable : IsWakeable sleeper s.current = record {
      alive = rw itself refl;
      interruptible = rw itself refl;
    } in
    let list = insert_timer new s.timer_list in
    let timed' = insert_timer-IsTimed sleeper new (put_to_sleep-IsTimed s timed) wakeable more in
    rw (some_time, some_ticks, not_null, fresh)
      (rescheduled s.current m left (record sleeper { timer_list = list })
        (schedule (record sleeper { timer_list = list })) timed'
        (insert_timer-IsDue new s.timer_list)
        (insert_timer-NoneBefore s.current new s.timer_list no_timer) (rw itself refl)
        (rw itself refl) (schedule-Schedules (record sleeper { timer_list = list }) timed'.good))
