-- ===== src/Kernel/Sem/Down.antt =====
-- `down` of ucore_OS/kern/sync/sem.c, up to the switch to another process.
use mips32_cpu_emulator.Prelude.{
  ℕ, ◌+◌, Bool, true, false, List, [], ◌∷◌, ◌++◌, ltb, ◌==◌, ==_iff, ◌≡◌, ◌≢◌, inl, inr, refl, ap,
  sym, ◌∙◌, subst, arith, Bool-cases, tests,
}
use mips32_cpu_emulator.Kernel.Result.{Result, returned}
use mips32_cpu_emulator.Kernel.RoundRobin.{is_linked}
use mips32_cpu_emulator.Kernel.Sched.{proc_sleeping, Sched, is_runnable, ◌>>=◌, schedule}
use mips32_cpu_emulator.Kernel.Sched.Wake.{IsSched, Distinct-last, linked_last, or_left}
use mips32_cpu_emulator.Kernel.Sched.Turns.{Runs, Schedules, schedules, schedule-Schedules}
use mips32_cpu_emulator.Kernel.Sem.{
  Sem, wt_ksem, wait_queue_add, wait_current_set, put_to_sleep, down_enter,
}
use mips32_cpu_emulator.Kernel.Sem.Waiting.{IsAsleep, IsSem}

-- The branches of `down` up to `schedule`.
pub data Downs (s : Sem) : Result (Bool × Sem) → Type 0 where
  takes :
      {s' : Sem}
      → s'.value + 1 ≡ s.value
      → s'.queue ≡ s.queue
      → s'.sched ≡ s.sched
      → IsSem s'
      → Downs s (returned (true, s'))
  blocks :
      {s' : Sem}
      → s.value ≡ 0
      → s'.value ≡ 0
      → s'.queue ≡ s.queue ++ (s.sched.current ∷ [])
      → Runs s.sched.idleproc s.sched.rq.run_list s'.sched
      → s'.sched.state s.sched.current ≡ proc_sleeping
      → IsSem s'
      → Downs s (returned (false, s'))

-- The current process is not on the run queue, so it may sleep.
pub put_to_sleep-IsSched : (s : Sched) (state : ℕ) → IsSched s → IsSched (put_to_sleep s state)
put_to_sleep-IsSched s state good = record {
  queued = record {
    queue = good.queued.queue;
    distinct = good.queued.distinct;
    runnable = λ q on. elim (Bool-cases (s.current == q)) [
      | inl h ↦
          let same : s.current ≡ q = ground arith in
          absurd (cc (good.running, on, ap (λ t. is_linked t s.rq.run_list) same))
      | inr h ↦ rw h (good.queued.runnable q on)
    ];
  };
  running = good.running;
}

module _ (s : Sem) (good : IsSem s) (runs : is_runnable (s.sched.state s.sched.current) ≡ true)
    (some_process : s.sched.current ≢ 0) (not_idle : s.sched.current ≢ s.sched.idleproc) where
  -- A process that runs does not wait.
  not_waiting : is_linked s.sched.current s.queue ≡ false
  not_waiting = elim (Bool-cases (is_linked s.sched.current s.queue)) [
    | inl h ↦ absurd (cc (ap is_runnable (good.asleep s.sched.current h).sleeps, runs))
    | inr h ↦ h
  ]

  current_sleeps : (put_to_sleep s.sched wt_ksem).state s.sched.current ≡ proc_sleeping
  current_sleeps =
      let itself : (s.sched.current == s.sched.current) ≡ true =
        (==_iff s.sched.current s.sched.current).1 refl in
      rw itself refl

  -- The processes on the queue sleep, with the current one behind them.
  queue-IsAsleep :
      (q : ℕ)
      → is_linked q (s.queue ++ (s.sched.current ∷ [])) ≡ true
      → IsAsleep (put_to_sleep s.sched wt_ksem) q
  queue-IsAsleep q on = elim (Bool-cases (s.sched.current == q)) [
    | inl h ↦
        let same : s.sched.current ≡ q = ground arith in
        record { sleeps = rw h refl; waits = rw h refl; not_idle = λ e. not_idle (same ∙ e) }
    | inr h ↦
        let old =
          good.asleep q (or_left _ _ h (sym (linked_last q s.sched.current s.queue) ∙ on)) in
        record { sleeps = rw h old.sleeps; waits = rw h old.waits; not_idle = old.not_idle }
  ]

  -- The semaphore with the current process on its queue, after another one was picked.
  blocked :
      (flags : ℕ → ℕ) (result : Result Sched)
      → s.value ≡ 0
      → Schedules (put_to_sleep s.sched wt_ksem) result
      → Downs s (
          result >>= λ sched. returned (
            false,
            record {
              value = s.value;
              queue = s.queue ++ (s.sched.current ∷ []);
              wakeup_flags = flags;
              sched = sched;
            },
          ))
  blocked flags _ none_left (schedules {s'} next good' same_state same_wait _ same_idle) =
      blocks none_left none_left refl
        (subst (λ (l : List ℕ). Runs s.sched.idleproc l s')
          (rw (ap is_runnable current_sleeps) refl) next)
        (ap (λ f. f s.sched.current) same_state ∙ current_sleeps)
        (record {
          good = good';
          distinct = Distinct-last s.sched.current s.queue not_waiting good.distinct;
          asleep = λ q on.
              let h = queue-IsAsleep q on in
              record {
                sleeps = ap (λ f. f q) same_state ∙ h.sleeps;
                waits = ap (λ f. f q) same_wait ∙ h.waits;
                not_idle = λ e. h.not_idle (e ∙ same_idle);
              };
          none_lost = inl none_left;
        })

  -- `down` of a well-formed semaphore, by a process that runs and is not the idle one, does not panic
  -- before it leaves the processor. If the semaphore has a value, the value is taken down by one, and
  -- `down` returns. Else the process sleeps at the end of the wait queue, and the first process of the
  -- run queue runs, or the idle one. The semaphore stays well formed.
  pub down_enter-Downs : Downs s (down_enter s)
  unfolding down_enter wait_current_set wait_queue_add
  down_enter-Downs = elim (Bool-cases (ltb 0 s.value)) [
    | inl more ↦ rw more (
        takes (grind tests) refl refl (record {
          good = good.good;
          distinct = good.distinct;
          asleep = good.asleep;
          none_lost = elim good.none_lost [
            | inl zero_value ↦ absurd (cc (more, ap (ltb 0) zero_value))
            | inr no_queue ↦ inr no_queue
          ];
        }))
    | inr none_left ↦
        let here : (s.sched.current == 0) ≡ false = ground arith in
        rw (none_left, here, not_waiting)
          (blocked _ (schedule (put_to_sleep s.sched wt_ksem)) (grind tests) (
            schedule-Schedules (put_to_sleep s.sched wt_ksem)
              (put_to_sleep-IsSched s.sched wt_ksem good.good)))
  ]
