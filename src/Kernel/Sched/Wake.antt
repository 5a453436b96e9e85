-- ===== src/Kernel/Sched/Wake.antt =====
-- The well-formed scheduler of ucore_OS/kern/schedule/sched.c, and `wakeup_proc` on every branch.
use mips32_cpu_emulator.Prelude.{
  ℕ, Bool, true, false, ◌||◌, List, [], ◌∷◌, ◌++◌, ◌==◌, ==_iff, ◌≡◌, ◌≢◌, ◌⊎◌, inl, inr, refl, ap,
  sym, ◌∙◌, subst, arith, Bool-cases,
}
use mips32_cpu_emulator.Kernel.Result.{Result, returned, panic}
use mips32_cpu_emulator.Kernel.RoundRobin.{is_linked, appended, rr_enqueue}
use mips32_cpu_emulator.Kernel.RoundRobin.Queue.{IsRunQueue, appended-IsRunQueue}
use mips32_cpu_emulator.Kernel.Sched.{
  ProcState, proc_uninit, proc_sleeping, proc_runnable, proc_zombie, Sched, is_runnable, is_zombie,
  with_rq, set_runnable, wakeup_proc, sched_class_enqueue,
}

-- No process stands on the list twice.
abbrev pub Distinct : List ℕ → Type 0
Distinct [] = Unit {0}
Distinct (p ∷ list) = (is_linked p list ≡ false) × Distinct list

-- The run queue is well formed, and all processes on it are runnable.
pub record IsQueued (s : Sched) : Type 0 where
  pub queue : IsRunQueue s.rq
  pub distinct : Distinct s.rq.run_list
  pub runnable : (p : ℕ) → is_linked p s.rq.run_list ≡ true → is_runnable (s.state p) ≡ true

-- Between two calls, the process that runs is not on the queue.
pub record IsSched (s : Sched) : Type 0 where
  pub queued : IsQueued s
  pub running : is_linked s.current s.rq.run_list ≡ false

-- Some processes were woken since `s`.
pub record Woken (s s' : Sched) : Type 0 where
  pub states : (p : ℕ) → (s'.state p ≡ s.state p) ⊎ (s'.state p ≡ proc_runnable)
  pub waits : (p : ℕ) → (s'.wait_state p ≡ s.wait_state p) ⊎ (s'.wait_state p ≡ 0)
  pub same_current : s'.current ≡ s.current
  pub same_idle : s'.idleproc ≡ s.idleproc

pub Woken-refl : (s : Sched) → Woken s s
Woken-refl s = record {
  states = λ p. inl refl;
  waits = λ p. inl refl;
  same_current = refl;
  same_idle = refl;
}

either_trans :
    {A : Type 0} {a b c d : A} → (b ≡ a) ⊎ (b ≡ d) → (c ≡ b) ⊎ (c ≡ d) → (c ≡ a) ⊎ (c ≡ d)
either_trans (inl e) (inl e') = inl (e' ∙ e)
either_trans (inr e) (inl e') = inr (e' ∙ e)
either_trans h (inr e') = inr e'

pub Woken-trans : {s s1 s2 : Sched} → Woken s s1 → Woken s1 s2 → Woken s s2
Woken-trans h h' = record {
  states = λ p. either_trans (h.states p) (h'.states p);
  waits = λ p. either_trans (h.waits p) (h'.waits p);
  same_current = h'.same_current ∙ h.same_current;
  same_idle = h'.same_idle ∙ h.same_idle;
}

-- A process that is runnable stays so.
pub Woken-runnable :
    {s s' : Sched} (p : ℕ) → Woken s s' → s.state p ≡ proc_runnable → s'.state p ≡ proc_runnable
Woken-runnable p woken runs = elim (woken.states p) [ inl same ↦ same ∙ runs | inr now ↦ now ]

pub linked_last :
    (q p : ℕ) (list : List ℕ) → is_linked q (list ++ (p ∷ [])) ≡ (is_linked q list || (p == q))
unfolding is_linked
linked_last q p [] = elim (Bool-cases (p == q)) [ inl h ↦ rw h refl | inr h ↦ rw h refl ]
linked_last q p (r ∷ list) = elim (Bool-cases (r == q)) [
  | inl h ↦ rw h refl
  | inr h ↦ rw h (linked_last q p list)
]

pub Distinct-last :
    (p : ℕ) (list : List ℕ) → is_linked p list ≡ false → Distinct list → Distinct (list ++ (p ∷ []))
unfolding is_linked
Distinct-last p [] apart distinct = (refl, tt)
Distinct-last p (r ∷ list) apart (alone, distinct) = elim (Bool-cases (r == p)) [
  | inl h ↦ let both : true ≡ false = rw h at apart in absurd cc
  | inr h ↦
      let apart' : is_linked p list ≡ false = rw h at apart in
      let other : (p == r) ≡ false = ground arith in
      (linked_last r p list ∙ rw (alone, other) refl, Distinct-last p list apart' distinct)
]

pub or_left : (a b : Bool) → b ≡ false → (a || b) ≡ true → a ≡ true
or_left true b off either = refl
or_left false b off either = cc

-- A runnable process at the end of the queue.
pub appended-IsQueued :
    (s : Sched) (p : ℕ)
    → IsQueued s
    → is_linked p s.rq.run_list ≡ false
    → is_runnable (s.state p) ≡ true
    → IsQueued (with_rq s (appended s.rq p))
appended-IsQueued s p good apart runs = record {
  queue = appended-IsRunQueue s.rq p good.queue apart;
  distinct = Distinct-last p s.rq.run_list apart good.distinct;
  runnable = λ q on. elim (Bool-cases (p == q)) [
    | inl h ↦
        let same : p ≡ q = ground arith in
        subst (λ (t : ℕ). is_runnable (s.state t) ≡ true) same runs
    | inr h ↦ good.runnable q (or_left _ _ h (sym (linked_last q p s.rq.run_list) ∙ on))
  ];
}

set_runnable-IsQueued : (s : Sched) (p : ℕ) → IsQueued s → IsQueued (set_runnable s p)
set_runnable-IsQueued s p good = record {
  queue = good.queue;
  distinct = good.distinct;
  runnable =
      λ q on. elim (Bool-cases (p == q)) [ inl h ↦ rw h refl | inr h ↦ rw h (good.runnable q on) ];
}

set_runnable-Woken : (s : Sched) (p : ℕ) → Woken s (set_runnable s p)
set_runnable-Woken s p = record {
  states = λ q. elim (Bool-cases (p == q)) [ inl h ↦ rw h (inr refl) | inr h ↦ rw h (inl refl) ];
  waits = λ q. elim (Bool-cases (p == q)) [ inl h ↦ rw h (inr refl) | inr h ↦ rw h (inl refl) ];
  same_current = refl;
  same_idle = refl;
}

-- The process `p`, neither runnable nor a zombie in `s`, is runnable in `s'`, and waits for nothing.
pub record Awake (s s' : Sched) (p : ℕ) : Type 0 where
  pub runs : s'.state p ≡ proc_runnable
  pub no_wait : s'.wait_state p ≡ 0
  pub woken : Woken s s'
  pub others : (q : ℕ) → q ≢ p → (s'.state q ≡ s.state q) × (s'.wait_state q ≡ s.wait_state q)
  pub good : IsSched s'
  pub same_timers : s'.timer_list ≡ s.timer_list
  pub alive : s.state p ≢ proc_zombie
  pub stopped : s.state p ≢ proc_runnable

-- The branches of `wakeup_proc`.
pub data Wakes (s : Sched) (p : ℕ) : Result Sched → Type 0 where
  dead : s.state p ≡ proc_zombie → Wakes s p panic
  awake : s.state p ≡ proc_runnable → Wakes s p (returned s)
  unqueued :
      {s' : Sched}
      → (p ≡ s.current) ⊎ (p ≡ s.idleproc)
      → Awake s s' p
      → s'.rq.run_list ≡ s.rq.run_list
      → Wakes s p (returned s')
  enqueued :
      {s' : Sched}
      → p ≢ s.current
      → p ≢ s.idleproc
      → Awake s s' p
      → s'.rq.run_list ≡ s.rq.run_list ++ (p ∷ [])
      → Wakes s p (returned s')

runnable_state : (state : ProcState) → is_runnable state ≡ true → state ≡ proc_runnable
runnable_state proc_uninit h = cc
runnable_state proc_sleeping h = cc
runnable_state proc_runnable h = refl
runnable_state proc_zombie h = cc

zombie_state : (state : ProcState) → is_zombie state ≡ true → state ≡ proc_zombie
zombie_state proc_uninit h = cc
zombie_state proc_sleeping h = cc
zombie_state proc_runnable h = cc
zombie_state proc_zombie h = refl

unlinked :
    (s : Sched) (p : ℕ)
    → IsQueued s
    → is_runnable (s.state p) ≡ false
    → is_linked p s.rq.run_list ≡ false
unlinked s p good stopped = elim (Bool-cases (is_linked p s.rq.run_list)) [
  | inl h ↦ absurd (cc (good.runnable p h, stopped))
  | inr h ↦ h
]

-- A process that is made runnable without a place on the queue.
set_runnable-Awake :
    (s : Sched) (p : ℕ)
    → IsSched s
    → is_zombie (s.state p) ≡ false
    → is_runnable (s.state p) ≡ false
    → Awake s (set_runnable s p) p
set_runnable-Awake s p good no_zombie not_runnable =
    let same : (p == p) ≡ true = (==_iff p p).1 refl in
    record {
      runs = rw same refl;
      no_wait = rw same refl;
      others = λ q apart. let other : (p == q) ≡ false = ground arith in rw other (refl, refl);
      woken = set_runnable-Woken s p;
      good = record { queued = set_runnable-IsQueued s p good.queued; running = good.running };
      same_timers = refl;
      alive = λ e. absurd (cc (ap is_zombie e, no_zombie));
      stopped = λ e. absurd (cc (ap is_runnable e, not_runnable));
    }

enqueued-Awake :
    (s : Sched) (p : ℕ)
    → IsSched s
    → is_linked p s.rq.run_list ≡ false
    → (p == s.current) ≡ false
    → is_zombie (s.state p) ≡ false
    → is_runnable (s.state p) ≡ false
    → Awake s (with_rq (set_runnable s p) (appended s.rq p)) p
enqueued-Awake s p good apart other no_zombie not_runnable =
    let stands = set_runnable-Awake s p good no_zombie not_runnable in
    record {
      runs = stands.runs;
      no_wait = stands.no_wait;
      others = stands.others;
      woken = record {
        states = stands.woken.states;
        waits = stands.woken.waits;
        same_current = refl;
        same_idle = refl;
      };
      good = record {
        queued =
            appended-IsQueued (set_runnable s p) p (set_runnable-IsQueued s p good.queued) apart
              (ap is_runnable stands.runs);
        running = linked_last s.current p s.rq.run_list ∙ rw (good.running, other) refl;
      };
      same_timers = refl;
      alive = stands.alive;
      stopped = stands.stopped;
    }

-- `wakeup_proc` on a well-formed scheduler panics exactly for a zombie. A runnable process is
-- left alone. Another one becomes runnable and waits for nothing; it stands at the end of the
-- queue, unless it is the current or the idle process. The scheduler stays well formed and the
-- timers stay as they are.
pub wakeup_proc-Wakes : (s : Sched) (p : ℕ) → IsSched s → Wakes s p (wakeup_proc s p)
unfolding wakeup_proc sched_class_enqueue rr_enqueue
wakeup_proc-Wakes s p good = elim (Bool-cases (is_zombie (s.state p))) [
  | inl h ↦ rw h (dead (zombie_state (s.state p) h))
  | inr alive ↦ elim (Bool-cases (is_runnable (s.state p))) [
    | inl h ↦ rw (alive, h) (awake (runnable_state (s.state p) h))
    | inr stopped ↦
        let apart = unlinked s p good.queued stopped in
        elim (Bool-cases (p == s.current)) [
          | inl h ↦
              rw (alive, stopped, h)
                (unqueued (inl (ground arith)) (set_runnable-Awake s p good alive stopped) refl)
          | inr other ↦ elim (Bool-cases (p == s.idleproc)) [
            | inl h ↦
                rw (alive, stopped, other, h)
                  (unqueued (inr (ground arith)) (set_runnable-Awake s p good alive stopped) refl)
            | inr not_idle ↦
                rw (alive, stopped, other, not_idle, apart)
                  (enqueued (ground arith) (ground arith)
                    (enqueued-Awake s p good apart other alive stopped) refl)
          ]
        ]
  ]
]
