-- ===== src/Kernel/Sem/Waiting.antt =====
-- Semaphores of ucore_OS/kern/sync/sem.c: who waits, and what `up` and `down` do.
use mips32_cpu_emulator.Prelude.{
  ℕ, ◌+◌, true, false, List, [], ◌∷◌, ◌++◌, ◌==◌, ==_iff, ◌≡◌, ◌≢◌, ◌⊎◌, inl, inr, refl, ap, sym,
  ◌∙◌, subst,
}
use mips32_cpu_emulator.Kernel.Result.{Result, returned}
use mips32_cpu_emulator.Kernel.RoundRobin.{is_linked, unlink, first_of}
use mips32_cpu_emulator.Kernel.Sched.{proc_sleeping, Sched, is_runnable, ◌>>=◌, wakeup_proc}
use mips32_cpu_emulator.Kernel.Sched.Wake.{
  IsSched, Distinct, Awake, Wakes, dead, awake, unqueued, enqueued, wakeup_proc-Wakes,
}
use mips32_cpu_emulator.Kernel.Sched.Turns.{unlink-first, linked-first, unlink-runnable}
use mips32_cpu_emulator.Kernel.Sem.{
  Sem, wt_ksem, set_flags, wakeup_wait, wait_queue_del, up_first, up,
}

-- The process `p` sleeps on a semaphore.
pub record IsAsleep (s : Sched) (p : ℕ) : Type 0 where
  pub sleeps : s.state p ≡ proc_sleeping
  pub waits : s.wait_state p ≡ wt_ksem
  pub not_idle : p ≢ s.idleproc

-- A well-formed semaphore: it has a value or processes that wait, never both; those sleep.
pub record IsSem (s : Sem) : Type 0 where
  pub good : IsSched s.sched
  pub distinct : Distinct s.queue
  pub asleep : (p : ℕ) → is_linked p s.queue ≡ true → IsAsleep s.sched p
  pub none_lost : (s.value ≡ 0) ⊎ (s.queue ≡ [])

-- The branches of `up`.
pub data Ups (s : Sem) : Result Sem → Type 0 where
  counts :
      s.queue ≡ []
      → IsSem (record s { value = s.value + 1 })
      → Ups s (returned (record s { value = s.value + 1 }))
  hands_over :
      {p : ℕ} {list : List ℕ} {s' : Sem}
      → s.queue ≡ p ∷ list
      → s'.queue ≡ list
      → s'.value ≡ s.value
      → s'.wakeup_flags p ≡ wt_ksem
      → Awake s.sched s'.sched p
      → s'.sched.rq.run_list ≡ s.sched.rq.run_list ++ (p ∷ [])
      → IsSem s'
      → Ups s (returned s')

distinct_apart :
    (p q : ℕ) (list : List ℕ) → is_linked p list ≡ false → is_linked q list ≡ true → q ≢ p
distinct_apart p q list apart on same = cc (apart, on, ap (λ t. is_linked t list) same)

-- The state after the first process was taken off the queue and woken.
after_wake :
    (s s' : Sem) (p : ℕ) (list : List ℕ)
    → IsSem s
    → s.queue ≡ p ∷ list
    → s'.queue ≡ list
    → s'.value ≡ s.value
    → Awake s.sched s'.sched p
    → IsSem s'
after_wake s s' p list good same same' value up =
    let both : Distinct (p ∷ list) = subst Distinct same good.distinct in
    record {
      good = up.good;
      distinct = subst Distinct (sym same') both.1;
      asleep = λ q on.
          let on' : is_linked q list ≡ true = ap (is_linked q) (sym same') ∙ on in
          let h = good.asleep q (ap (is_linked q) same ∙ unlink-runnable q p list on') in
          let apart = distinct_apart p q list both.0 on' in
          record {
            sleeps = (up.others q apart).0 ∙ h.sleeps;
            waits = (up.others q apart).1 ∙ h.waits;
            not_idle = λ e. h.not_idle (e ∙ up.woken.same_idle);
          };
      none_lost = elim good.none_lost [
        | inl zero_value ↦ inl (value ∙ zero_value)
        | inr no_queue ↦ absurd (cc (no_queue, same))
      ];
    }

wake-Ups :
    (s s1 : Sem) (p : ℕ) (list : List ℕ) (result : Result Sched)
    → IsSem s
    → is_runnable (s.sched.state s.sched.current) ≡ true
    → s.queue ≡ p ∷ list
    → s1.queue ≡ list
    → s1.value ≡ s.value
    → s1.wakeup_flags p ≡ wt_ksem
    → IsAsleep s.sched p
    → Wakes s.sched p result
    → Ups s (result >>= λ sched. returned (record s1 { sched = sched }))
wake-Ups s s1 p list _ good runs same same' value flags h (dead zombie) =
    absurd (cc (h.sleeps, zombie))
wake-Ups s s1 p list _ good runs same same' value flags h (awake now) = absurd (cc (h.sleeps, now))
wake-Ups s s1 p list _ good runs same same' value flags h (unqueued (inl current) _ _) =
    absurd (cc (ap is_runnable h.sleeps, runs, ap (λ q. is_runnable (s.sched.state q)) current))
wake-Ups s s1 p list _ good runs same same' value flags h (unqueued (inr idle) _ _) =
    absurd (h.not_idle idle)
wake-Ups s s1 p list _ good runs same same' value flags h (enqueued {s'} _ _ up last) =
    hands_over same same' value flags up last
      (after_wake s (record s1 { sched = s' }) p list good same same' value up)

up_first-Ups :
    (s : Sem) (list : List ℕ)
    → s.queue ≡ list
    → IsSem s
    → is_runnable (s.sched.state s.sched.current) ≡ true
    → Ups s (up_first wt_ksem s (first_of list))
unfolding wakeup_wait wait_queue_del
up_first-Ups s [] same good runs = counts same (record {
  good = good.good;
  distinct = good.distinct;
  asleep = good.asleep;
  none_lost = inr same;
})
up_first-Ups s (p ∷ list) same good runs =
    let on : is_linked p s.queue ≡ true = ap (is_linked p) same ∙ linked-first p list in
    let h = good.asleep p on in
    let waits : (s.sched.wait_state p == wt_ksem) ≡ true = (==_iff _ _).1 h.waits in
    let left : unlink p s.queue ≡ list = ap (unlink p) same ∙ unlink-first p list in
    let itself : (p == p) ≡ true = (==_iff p p).1 refl in
    rw (waits, on)
      (wake-Ups s (set_flags (record s { queue = unlink p s.queue }) p wt_ksem) p list
        (wakeup_proc s.sched p) good runs same left refl (rw itself refl) h
        (wakeup_proc-Wakes s.sched p good.good))

-- `up` of a well-formed semaphore by a process that runs does not panic. Without a process that waits
-- the value goes up by one. Else the first process that waits is taken off the queue and gets the
-- flag of a granted semaphore, is runnable, and stands at the end of the run queue; the value is as it was.
-- The semaphore stays well formed.
pub up-Ups : (s : Sem) → IsSem s → is_runnable (s.sched.state s.sched.current) ≡ true → Ups s (up s)
unfolding up
up-Ups s good runs = up_first-Ups s s.queue refl good runs
