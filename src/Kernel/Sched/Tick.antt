-- ===== src/Kernel/Sched/Tick.antt =====
-- `run_timer_list` of ucore_OS/kern/schedule/sched.c: one tick of the clock.
use mips32_cpu_emulator.Prelude.{
  ℕ, ◌-◌, ◌<◌, true, false, List, [], ◌∷◌, ◌==◌, ◌≡◌, inl, inr, refl, sym, subst, arith, Bool-cases,
}
use mips32_cpu_emulator.Kernel.Result.{Result, returned}
use mips32_cpu_emulator.Kernel.RoundRobin.{Proc, RunQueue, is_linked, set_proc, rr_proc_tick}
use mips32_cpu_emulator.Kernel.RoundRobin.Queue.{Slices}
use mips32_cpu_emulator.Kernel.Sched.{
  Sched, Timer, with_rq, expire_timers, tick_first, run_timer_list, sched_class_proc_tick, ◌>>=◌,
}
use mips32_cpu_emulator.Kernel.Sched.Wake.{
  IsSched, IsQueued, Woken, Woken-refl, Woken-trans, Woken-runnable,
}
use mips32_cpu_emulator.Kernel.Sched.Expire.{
  AllWakeable, Waits, IsTimed, AllWakeable-Woken, Expired, Expires, Quiet, Same,
  expire_timers-Expires, all_gone, rest_waits, gone, expires,
}

-- The first timer has one tick less left.
abbrev pub counted_down : List Timer → List Timer
counted_down [] = []
counted_down (next ∷ list) = record next { expires = next.expires - 1 } ∷ list

Slices-other :
    (rq : RunQueue) (p : ℕ) (value : Proc) (list : List ℕ)
    → is_linked p list ≡ false
    → Slices rq.procs rq.max_time_slice list
    → Slices (set_proc rq p value).procs rq.max_time_slice list
unfolding is_linked
Slices-other rq p value [] apart slices = tt
Slices-other rq p value (q ∷ list) apart (left, most, rest) = elim (Bool-cases (q == p)) [
  | inl h ↦ let both : true ≡ false = rw h at apart in absurd cc
  | inr h ↦
      let apart' : is_linked p list ≡ false = rw h at apart in
      let other : (p == q) ≡ false = ground arith in
      rw other (left, most, Slices-other rq p value list apart' rest)
]

-- A change to a process that is not on the queue.
pub set_proc-IsQueued :
    (s : Sched) (p : ℕ) (value : Proc)
    → is_linked p s.rq.run_list ≡ false
    → IsQueued s
    → IsQueued (with_rq s (set_proc s.rq p value))
set_proc-IsQueued s p value apart good = record {
  queue = record {
    some_slice = good.queue.some_slice;
    counted = good.queue.counted;
    slices = Slices-other s.rq p value s.rq.run_list apart good.queue.slices;
  };
  distinct = good.distinct;
  runnable = good.runnable;
}

-- What one tick does: `list` are the timers after the first was counted down.
pub data Ticks (s : Sched) : Result Sched → Type 0 where
  ticks :
      {s' : Sched}
      → Woken s s'
      → Expired s' (counted_down s.timer_list) s'.timer_list
      → IsTimed s'
      → ((p : ℕ) → Quiet p (counted_down s.timer_list) → Same p s s')
      → Ticks s (returned s')

Expired-Woken :
    (s s' : Sched) (list left : List Timer)
    → Woken s s'
    → Expired s list left
    → Expired s' list left
Expired-Woken s s' list left woken all_gone = all_gone
Expired-Woken s s' list left woken (rest_waits more) = rest_waits more
Expired-Woken s s' list left woken (gone {next} now runs later) =
    gone now (Woken-runnable next.proc woken runs) (Expired-Woken s s' _ left woken later)

Expired-Waits : (s : Sched) (list left : List Timer) → Expired s list left → Waits left
Expired-Waits s list left all_gone = tt
Expired-Waits s list left (rest_waits more) = more
Expired-Waits s list left (gone now runs later) = Expired-Waits s _ left later

-- A change to the process that runs, which ends a tick.
end_tick :
    (s s' : Sched) (value : Proc)
    → Woken s s'
    → IsSched s'
    → Expired s' (counted_down s.timer_list) s'.timer_list
    → AllWakeable s' s'.timer_list
    → ((p : ℕ) → Quiet p (counted_down s.timer_list) → Same p s s')
    → Ticks s (returned (with_rq s' (set_proc s'.rq s'.current value)))
end_tick s s' value woken good expired wakeable same =
    let s'' = with_rq s' (set_proc s'.rq s'.current value) in
    let changed : Woken s' s'' = record {
      states = λ p. inl refl;
      waits = λ p. inl refl;
      same_current = refl;
      same_idle = refl;
    } in
    ticks (Woken-trans woken changed) (Expired-Woken s' s'' _ _ changed expired)
      (record {
        good = record {
          queued = set_proc-IsQueued s' s'.current value good.running good.queued;
          running = good.running;
        };
        first_waits = Expired-Waits s' (counted_down s.timer_list) s'.timer_list expired;
        wakeable = AllWakeable-Woken s' s'' s'.timer_list changed wakeable;
      })
      same

end_tick-Ticks :
    (s s' : Sched)
    → Woken s s'
    → IsSched s'
    → Expired s' (counted_down s.timer_list) s'.timer_list
    → AllWakeable s' s'.timer_list
    → ((p : ℕ) → Quiet p (counted_down s.timer_list) → Same p s s')
    → Ticks s (returned (sched_class_proc_tick s' s'.current))
unfolding sched_class_proc_tick rr_proc_tick
end_tick-Ticks s s' woken good expired wakeable same =
    elim (Bool-cases (s'.current == s'.idleproc)) [
      | inl h ↦ rw h (end_tick s s' _ woken good expired wakeable same)
      | inr h ↦ rw h (end_tick s s' _ woken good expired wakeable same)
    ]

after_expiry :
    (s : Sched) (result : Result Sched)
    → Expires s (counted_down s.timer_list) result
    → Ticks s (result >>= λ s'. returned (sched_class_proc_tick s' s'.current))
after_expiry s _ (expires woken good expired wakeable same) =
    end_tick-Ticks s _ woken good expired wakeable same

tick_first-Ticks :
    (s : Sched) (list : List Timer)
    → s.timer_list ≡ list
    → IsTimed s
    → Ticks s (tick_first s list >>= λ s'. returned (sched_class_proc_tick s' s'.current))
tick_first-Ticks s [] same timed =
    end_tick-Ticks s s (Woken-refl s) timed.good
      (subst (λ (list : List Timer). Expired s (counted_down list) list) (sym same) all_gone)
      timed.wakeable (λ p quiet. (refl, refl))
tick_first-Ticks s (next ∷ list) same timed =
    let more : 0 < next.expires = subst Waits same timed.first_waits in
    let some_left : (next.expires == 0) ≡ false = ground arith in
    let counted = record next { expires = next.expires - 1 } ∷ list in
    rw some_left (
      after_expiry s (expire_timers s counted) (
        subst (λ (l : List Timer). Expires s (counted_down l) (expire_timers s counted)) (sym same)
          (expire_timers-Expires counted s timed.good (subst (AllWakeable s) same timed.wakeable))))

-- `run_timer_list` on a well-formed scheduler does not panic. The first timer is counted down,
-- the timers at the front that have no ticks left are taken off and their processes are runnable,
-- and the scheduler stays well formed.
pub run_timer_list-Ticks : (s : Sched) → IsTimed s → Ticks s (run_timer_list s)
unfolding run_timer_list
run_timer_list-Ticks s timed = tick_first-Ticks s s.timer_list refl timed
