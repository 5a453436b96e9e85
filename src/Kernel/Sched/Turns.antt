-- ===== src/Kernel/Sched/Turns.antt =====
-- `schedule` of ucore_OS/kern/schedule/sched.c: which process runs next, and that each gets its turn.
use mips32_cpu_emulator.Prelude.{
  ℕ, true, false, some, none, List, [], ◌∷◌, ◌++◌, ◌==◌, ==_iff, if◌then◌else◌, ◌≡◌, inl, inr, refl,
  ap, ap₂, sym, ◌∙◌, subst, arith, Bool-cases,
}
use mips32_cpu_emulator.Kernel.Result.{Result, returned}
use mips32_cpu_emulator.Kernel.RoundRobin.{
  RunQueue, is_linked, taken_off, unlink, rr_enqueue, rr_dequeue, rr_pick_next, first_of,
}
use mips32_cpu_emulator.Kernel.RoundRobin.Queue.{IsRunQueue, taken_off-IsRunQueue}
use mips32_cpu_emulator.Kernel.Sched.{
  Sched, is_runnable, with_rq, set_need_resched, sched_class_enqueue, sched_class_dequeue, run_next,
  pick, schedule,
}
use mips32_cpu_emulator.Kernel.Sched.Wake.{IsSched, IsQueued, Distinct, appended-IsQueued}
use mips32_cpu_emulator.Kernel.Sched.Tick.{set_proc-IsQueued}

-- The queue that `schedule` picks from: the process that runs goes to its end if it is runnable, unless
-- it is the idle one.
abbrev pub waiting : Sched → List ℕ
waiting s =
    if is_runnable (s.state s.current)
    then (if s.current == s.idleproc then s.rq.run_list else s.rq.run_list ++ (s.current ∷ []))
    else s.rq.run_list

-- The first process of the list runs, and the others wait; without one, the idle process runs.
pub data Runs (idleproc : ℕ) : List ℕ → Sched → Type 0 where
  idles : {s : Sched} → s.current ≡ idleproc → s.rq.run_list ≡ [] → Runs idleproc [] s
  first_runs :
      {s : Sched} {p : ℕ} {list : List ℕ}
      → s.current ≡ p
      → s.rq.run_list ≡ list
      → Runs idleproc (p ∷ list) s

-- What `schedule` does; the states of the processes are as before.
pub data Schedules (s : Sched) : Result Sched → Type 0 where
  schedules :
      {s' : Sched}
      → Runs s.idleproc (waiting s) s'
      → IsSched s'
      → s'.state ≡ s.state
      → s'.wait_state ≡ s.wait_state
      → s'.timer_list ≡ s.timer_list
      → s'.idleproc ≡ s.idleproc
      → Schedules s (returned s')

-- The process `p` runs, and nothing that the queue depends on is changed.
record Switched (s s' : Sched) (p : ℕ) : Type 0 where
  pub now : s'.current ≡ p
  pub same_rq : s'.rq ≡ s.rq
  pub same_state : s'.state ≡ s.state
  pub same_wait : s'.wait_state ≡ s.wait_state
  pub same_timers : s'.timer_list ≡ s.timer_list
  pub same_idle : s'.idleproc ≡ s.idleproc

run_next-Switched : (s : Sched) (p : ℕ) → Switched s (run_next s p) p
run_next-Switched s p = elim (Bool-cases (p == s.current)) [
  | inl h ↦
      let same : s.current ≡ p = ground arith in
      rw h (record {
        now = same;
        same_rq = refl;
        same_state = refl;
        same_wait = refl;
        same_timers = refl;
        same_idle = refl;
      })
  | inr h ↦ rw h (record {
    now = refl;
    same_rq = refl;
    same_state = refl;
    same_wait = refl;
    same_timers = refl;
    same_idle = refl;
  })
]

Switched-IsSched :
    (s s' : Sched) (p : ℕ)
    → IsQueued s
    → is_linked p s.rq.run_list ≡ false
    → Switched s s' p
    → IsSched s'
Switched-IsSched s s' p good apart switched =
    let same_list : s'.rq.run_list ≡ s.rq.run_list =
      ap (λ (rq : RunQueue). rq.run_list) switched.same_rq in
    record {
      queued = record {
        queue = subst IsRunQueue (sym switched.same_rq) good.queue;
        distinct = subst Distinct (sym same_list) good.distinct;
        runnable = λ q on.
            ap (λ f. is_runnable (f q)) switched.same_state
            ∙ good.runnable q (ap (is_linked q) (sym same_list) ∙ on);
      };
      running = ap₂ is_linked switched.now same_list ∙ apart;
    }

-- The end of `schedule`, for the queue of `s`.
data Picks (s : Sched) : Result Sched → Type 0 where
  picks :
      {s' : Sched}
      → Runs s.idleproc s.rq.run_list s'
      → IsSched s'
      → s'.state ≡ s.state
      → s'.wait_state ≡ s.wait_state
      → s'.timer_list ≡ s.timer_list
      → s'.idleproc ≡ s.idleproc
      → Picks s (returned s')

pub unlink-first : (p : ℕ) (list : List ℕ) → unlink p (p ∷ list) ≡ list
unfolding unlink
unlink-first p list = let same : (p == p) ≡ true = (==_iff p p).1 refl in rw same refl

pub linked-first : (p : ℕ) (list : List ℕ) → is_linked p (p ∷ list) ≡ true
unfolding is_linked
linked-first p list = let same : (p == p) ≡ true = (==_iff p p).1 refl in rw same refl

pub linked-nil : (p : ℕ) → is_linked p [] ≡ false
unfolding is_linked
linked-nil p = refl

pub unlink-runnable :
    (q p : ℕ) (list : List ℕ) → is_linked q list ≡ true → is_linked q (p ∷ list) ≡ true
unfolding is_linked
unlink-runnable q p list on = elim (Bool-cases (p == q)) [ inl h ↦ rw h refl | inr h ↦ rw h on ]

-- The queue without its first process.
taken_off-IsQueued :
    (s : Sched) (p : ℕ) (list : List ℕ)
    → s.rq.run_list ≡ p ∷ list
    → IsQueued s
    → IsQueued (with_rq s (taken_off s.rq p))
taken_off-IsQueued s p list same good =
    let left : unlink p s.rq.run_list ≡ list = ap (unlink p) same ∙ unlink-first p list in
    record {
      queue = taken_off-IsRunQueue s.rq p good.queue (ap (is_linked p) same ∙ linked-first p list);
      distinct = subst Distinct (sym left) (subst Distinct same good.distinct).1;
      runnable = λ q on.
          good.runnable q
            (ap (is_linked q) same ∙ unlink-runnable q p list (ap (is_linked q) (sym left) ∙ on));
    }

dequeued :
    (s : Sched) (p : ℕ) (list : List ℕ)
    → s.rq.run_list ≡ p ∷ list
    → sched_class_dequeue s p ≡ returned (with_rq s (taken_off s.rq p))
unfolding sched_class_dequeue rr_dequeue
dequeued s p list same =
    let on : is_linked p s.rq.run_list ≡ true = ap (is_linked p) same ∙ linked-first p list in
    rw on refl

first_picked :
    (s : Sched) (p : ℕ) (list : List ℕ) → s.rq.run_list ≡ p ∷ list → rr_pick_next s.rq ≡ some p
unfolding rr_pick_next
first_picked s p list same = ap first_of same

none_picked : (s : Sched) → s.rq.run_list ≡ [] → rr_pick_next s.rq ≡ none
unfolding rr_pick_next
none_picked s same = ap first_of same

pick-Picks :
    (s : Sched) (list : List ℕ)
    → s.rq.run_list ≡ list
    → IsQueued s
    → Picks s (pick s (rr_pick_next s.rq))
pick-Picks s [] same good =
    let switched = run_next-Switched s s.idleproc in
    let apart : is_linked s.idleproc s.rq.run_list ≡ false =
      ap (is_linked s.idleproc) same ∙ linked-nil s.idleproc in
    rw (none_picked s same) (
      picks
        (subst (λ (l : List ℕ). Runs s.idleproc l (run_next s s.idleproc)) (sym same)
          (idles switched.now (ap (λ (rq : RunQueue). rq.run_list) switched.same_rq ∙ same)))
        (Switched-IsSched s _ s.idleproc good apart switched) switched.same_state switched.same_wait
        switched.same_timers switched.same_idle)
pick-Picks s (p ∷ list) same good =
    let s1 = with_rq s (taken_off s.rq p) in
    let left : unlink p s.rq.run_list ≡ list = ap (unlink p) same ∙ unlink-first p list in
    let switched = run_next-Switched s1 p in
    let apart : is_linked p (unlink p s.rq.run_list) ≡ false =
      ap (is_linked p) left ∙ (subst Distinct same good.distinct).0 in
    rw (first_picked s p list same, dequeued s p list same)
      (picks
        (subst (λ (l : List ℕ). Runs s.idleproc l (run_next s1 p)) (sym same)
          (first_runs switched.now (ap (λ (rq : RunQueue). rq.run_list) switched.same_rq ∙ left)))
        (Switched-IsSched s1 _ p (taken_off-IsQueued s p list same good) apart switched)
        switched.same_state switched.same_wait switched.same_timers switched.same_idle)

-- The picked process, once the queue is what `schedule` made of it.
picked :
    (s s1 : Sched)
    → s1.rq.run_list ≡ waiting s
    → s1.state ≡ s.state
    → s1.wait_state ≡ s.wait_state
    → s1.timer_list ≡ s.timer_list
    → s1.idleproc ≡ s.idleproc
    → IsQueued s1
    → Schedules s (pick s1 (rr_pick_next s1.rq))
picked s s1 same_list same_state same_wait same_timers same_idle good =
    from_picks (pick-Picks s1 s1.rq.run_list refl good)
  where
    from_picks : {result : Result Sched} → Picks s1 result → Schedules s result
    from_picks (picks {s'} runs good' state' wait' timers' idle') =
        schedules
          (subst (λ (l : List ℕ). Runs s.idleproc l s') same_list
            (subst (λ (i : ℕ). Runs i s1.rq.run_list s') same_idle runs))
          good' (state' ∙ same_state) (wait' ∙ same_wait) (timers' ∙ same_timers)
          (idle' ∙ same_idle)

-- `schedule` on a well-formed scheduler does not panic. The process that runs goes to the end of
-- the queue if it is runnable and not the idle one; then the first process of the queue runs and
-- is taken off, or the idle process if there is none. The scheduler stays well formed.
pub schedule-Schedules : (s : Sched) → IsSched s → Schedules s (schedule s)
unfolding schedule sched_class_enqueue rr_enqueue
schedule-Schedules s good =
    let quiet =
      set_proc-IsQueued s s.current (record (s.rq.procs s.current) { need_resched = false })
        good.running good.queued in
    elim (Bool-cases (is_runnable (s.state s.current))) [
      | inl runs ↦ elim (Bool-cases (s.current == s.idleproc)) [
        | inl idle ↦ rw (runs, idle) (picked s _ (rw (runs, idle) refl) refl refl refl refl quiet)
        | inr busy ↦
            rw (runs, busy, good.running)
              (picked s _ (rw (runs, busy) refl) refl refl refl refl (
                appended-IsQueued (set_need_resched s s.current false) s.current quiet good.running
                  runs))
      ]
      | inr stops ↦ rw stops (picked s _ (rw stops refl) refl refl refl refl quiet)
    ]
