-- ===== src/Kernel/Sched/Tests.antt =====
-- The theorems on the scheduler at concrete inputs.
use mips32_cpu_emulator.Prelude.{
  ℕ, true, false, ◌==◌, if◌then◌else◌, List, [], ◌∷◌, ◌≡◌, inl, inr, refl, arith, Bool-cases,
}
use mips32_cpu_emulator.Kernel.RoundRobin.{is_linked}
use mips32_cpu_emulator.Kernel.Sched.{
  ◌>>=◌, is_pending, proc_sleeping, proc_runnable, Sched, is_runnable, wakeup_proc, add_timer,
}
use mips32_cpu_emulator.Kernel.Sleep.{Sleeps, do_sleep_enter, do_sleep-Sleeps}
use mips32_cpu_emulator.Kernel.Sched.Wake.{IsSched, Wakes, wakeup_proc-Wakes}
use mips32_cpu_emulator.Kernel.Sched.Expire.{IsTimed}
use mips32_cpu_emulator.Kernel.Sched.Elapse.{elapse, first_due, later_due, After, elapse-After}
use mips32_cpu_emulator.Kernel.Sched.Fair.{Reaches}
use mips32_cpu_emulator.Kernel.Sched.Rounds.{Act, wake, block, rounds, rounds-Reaches}
use mips32_cpu_emulator.Kernel.Sched.Timed.{AddsTimer, add_timer-AddsTimer}

-- Process 1 runs, 2 and 3 are on the queue, 4 sleeps until a timer expires, in 3 + 2 ticks.
abbrev busy : Sched
busy = record {
  rq = record {
    procs = λ _. record { time_slice = 5; need_resched = false };
    run_list = 2 ∷ 3 ∷ [];
    proc_num = 2;
    max_time_slice = 20;
  };
  state = λ p. if p == 4 then proc_sleeping else proc_runnable;
  wait_state = λ p. if p == 4 then 0x80000002 else 0;
  runs = λ _. 1;
  current = 1;
  idleproc = 9;
  timer_list =
      record { timer = 100; expires = 3; proc = 3 }
      ∷ record { timer = 101; expires = 2; proc = 4 }
      ∷ [];
}

busy-runnable : (p : ℕ) → is_linked p (2 ∷ 3 ∷ []) ≡ true → is_runnable (busy.state p) ≡ true
unfolding is_linked
busy-runnable p on = elim (Bool-cases (p == 4)) [
  | inl h ↦
      let same : p ≡ 4 = ground arith in
      let wrong : is_linked 4 (2 ∷ 3 ∷ []) ≡ true = rw same at on in absurd cc
  | inr h ↦ rw h refl
]

busy-IsSched : IsSched busy
unfolding is_linked
busy-IsSched = record {
  queued = record {
    queue = record {
      some_slice = omega arith;
      counted = refl;
      slices = (omega arith, omega arith, (omega arith, omega arith, tt));
    };
    distinct = (refl, (refl, tt));
    runnable = busy-runnable;
  };
  running = refl;
}

busy-IsTimed : IsTimed busy
busy-IsTimed = record {
  good = busy-IsSched;
  first_waits = omega arith;
  wakeable = (
    record { alive = refl; interruptible = refl },
    (record { alive = refl; interruptible = refl }, tt),
  );
}

wakeup_proc-Wakes_example : Wakes busy 4 (wakeup_proc busy 4)
wakeup_proc-Wakes_example = wakeup_proc-Wakes busy 4 busy-IsSched

elapse-After_example : After 4 0 (elapse 5 busy)
elapse-After_example =
    elapse-After 5 0 4 busy busy-IsTimed (later_due {m = 2} refl (first_due refl refl))

-- Process 1 wakes process 4 and goes to sleep; then process 2 wakes it again.
abbrev two_rounds : List (List Act)
two_rounds = (wake 4 ∷ block 1 ∷ []) ∷ (wake 1 ∷ []) ∷ []

rounds-Reaches_example : Reaches 3 (rounds two_rounds busy)
rounds-Reaches_example =
    rounds-Reaches two_rounds 1 3 busy busy-IsSched refl
      (((λ e. absurd cc), (tt, tt)), (((λ e. absurd cc), tt), tt)) refl

add_timer-AddsTimer_example :
    AddsTimer busy
      (record { timer = 102; expires = 4; proc = 2 })
      (add_timer busy (record { timer = 102; expires = 4; proc = 2 }))
add_timer-AddsTimer_example =
    add_timer-AddsTimer busy (record { timer = 102; expires = 4; proc = 2 }) busy-IsTimed
      (record { alive = refl; interruptible = refl })

do_sleep-Sleeps_example : Sleeps 1 2 (do_sleep_enter 7 200 busy >>= λ s. elapse 5 s)
unfolding is_pending
do_sleep-Sleeps_example =
    do_sleep-Sleeps 5 2 200 busy busy-IsTimed (λ e. absurd (omega (arith, e)))
      (λ e. absurd (omega (arith, e)), (λ e. absurd (omega (arith, e)), tt)) refl (omega arith)
