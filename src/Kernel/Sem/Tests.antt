-- ===== src/Kernel/Sem/Tests.antt =====
-- The theorems on semaphores at concrete inputs.
use mips32_cpu_emulator.Prelude.{
  ℕ, true, false, ◌==◌, if◌then◌else◌, [], ◌∷◌, ◌≡◌, inl, inr, refl, arith, Bool-cases,
}
use mips32_cpu_emulator.Kernel.RoundRobin.{is_linked}
use mips32_cpu_emulator.Kernel.Sched.{proc_sleeping, proc_runnable, is_runnable}
use mips32_cpu_emulator.Kernel.Sem.{Sem, up, down_enter}
use mips32_cpu_emulator.Kernel.Sem.Waiting.{IsSem, IsAsleep, Ups, up-Ups}
use mips32_cpu_emulator.Kernel.Sem.Down.{Downs, down_enter-Downs}
use mips32_cpu_emulator.Kernel.Sem.Handover.{handover, Gets, handover-Gets}

-- Process 1 runs, 2 is on the run queue, and 3 waits for the semaphore.
abbrev taken : Sem
taken = record {
  value = 0;
  queue = 3 ∷ [];
  wakeup_flags = λ _. 0x80000000;
  sched = record {
    rq = record {
      procs = λ _. record { time_slice = 5; need_resched = false };
      run_list = 2 ∷ [];
      proc_num = 1;
      max_time_slice = 20;
    };
    state = λ p. if p == 3 then proc_sleeping else proc_runnable;
    wait_state = λ p. if p == 3 then 0x100 else 0;
    runs = λ _. 1;
    current = 1;
    idleproc = 9;
    timer_list = [];
  };
}

taken-runnable : (p : ℕ) → is_linked p (2 ∷ []) ≡ true → is_runnable (taken.sched.state p) ≡ true
unfolding is_linked
taken-runnable p on = elim (Bool-cases (p == 3)) [
  | inl h ↦
      let same : p ≡ 3 = ground arith in
      let wrong : is_linked 3 (2 ∷ []) ≡ true = rw same at on in absurd cc
  | inr h ↦ rw h refl
]

taken-IsAsleep : (p : ℕ) → is_linked p (3 ∷ []) ≡ true → IsAsleep taken.sched p
unfolding is_linked
taken-IsAsleep p on = elim (Bool-cases (3 == p)) [
  | inl h ↦
      let same : p ≡ 3 = ground arith in
      rw same (record { sleeps = refl; waits = refl; not_idle = λ e. absurd (omega (arith, e)) })
  | inr h ↦ let wrong : false ≡ true = rw h at on in absurd cc
]

taken-IsSem : IsSem taken
unfolding is_linked
taken-IsSem = record {
  good = record {
    queued = record {
      queue = record {
        some_slice = omega arith;
        counted = refl;
        slices = (omega arith, omega arith, tt);
      };
      distinct = (refl, tt);
      runnable = taken-runnable;
    };
    running = refl;
  };
  distinct = (refl, tt);
  asleep = taken-IsAsleep;
  none_lost = inl refl;
}

up-Ups_example : Ups taken (up taken)
up-Ups_example = up-Ups taken taken-IsSem refl

down_enter-Downs_example : Downs taken (down_enter taken)
down_enter-Downs_example =
    down_enter-Downs taken taken-IsSem refl (λ e. absurd (omega (arith, e)))
      (λ e. absurd (omega (arith, e)))

handover-Gets_example : Gets 3 (handover 2 taken)
handover-Gets_example = handover-Gets taken 3 [] taken-IsSem refl refl
