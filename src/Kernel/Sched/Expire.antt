-- ===== src/Kernel/Sched/Expire.antt =====
-- The loop of `run_timer_list` of ucore_OS/kern/schedule/sched.c: the timers that expire.
use mips32_cpu_emulator.Prelude.{
  ℕ, ◌<◌, true, false, List, [], ◌∷◌, ◌==◌, ◌≡◌, ◌≢◌, inl, inr, refl, ap, sym, ◌∙◌, arith,
  Bool-cases,
}
use mips32_cpu_emulator.Kernel.Result.{Result, returned}
use mips32_cpu_emulator.Kernel.Sched.{
  proc_runnable, Sched, Timer, is_zombie, wakeup_proc, may_wake, expire_timers, ◌>>=◌,
}
use mips32_cpu_emulator.Kernel.Sched.Wake.{
  IsSched, Woken, Woken-refl, Woken-trans, Woken-runnable, Wakes, dead, awake, unqueued, enqueued,
  wakeup_proc-Wakes,
}

-- A process that its timer may wake: it is no zombie, and it can be interrupted if it waits.
pub record IsWakeable (s : Sched) (p : ℕ) : Type 0 where
  pub alive : is_zombie (s.state p) ≡ false
  pub interruptible : may_wake (s.wait_state p) ≡ true

abbrev pub AllWakeable : Sched → List Timer → Type 0
AllWakeable s [] = Unit {0}
AllWakeable s (next ∷ list) = IsWakeable s next.proc × AllWakeable s list

-- The first timer of a list has ticks left.
abbrev pub Waits : List Timer → Type 0
Waits [] = Unit {0}
Waits (next ∷ list) = 0 < next.expires

-- A scheduler with timers that is well formed between two ticks.
pub record IsTimed (s : Sched) : Type 0 where
  pub good : IsSched s
  pub first_waits : Waits s.timer_list
  pub wakeable : AllWakeable s s.timer_list

IsWakeable-Woken : (s s' : Sched) (p : ℕ) → Woken s s' → IsWakeable s p → IsWakeable s' p
IsWakeable-Woken s s' p woken h = record {
  alive = elim (woken.states p) [
    | inl same ↦ ap is_zombie same ∙ h.alive
    | inr now ↦ ap is_zombie now
  ];
  interruptible = elim (woken.waits p) [
    | inl same ↦ ap may_wake same ∙ h.interruptible
    | inr now ↦ ap may_wake now
  ];
}

pub AllWakeable-Woken :
    (s s' : Sched) (list : List Timer) → Woken s s' → AllWakeable s list → AllWakeable s' list
AllWakeable-Woken s s' [] woken h = tt
AllWakeable-Woken s s' (next ∷ list) woken (h, rest) =
    (IsWakeable-Woken s s' next.proc woken h, AllWakeable-Woken s s' list woken rest)

-- The processes of the timers at the front that have no ticks left are runnable, and the others are
-- left.
pub data Expired (s : Sched) : List Timer → List Timer → Type 0 where
  all_gone : Expired s [] []
  rest_waits :
      {next : Timer} {list : List Timer} → 0 < next.expires → Expired s (next ∷ list) (next ∷ list)
  gone :
      {next : Timer} {list left : List Timer}
      → next.expires ≡ 0
      → s.state next.proc ≡ proc_runnable
      → Expired s list left
      → Expired s (next ∷ list) left

-- None of the timers at the front that have no ticks left is of `p`.
abbrev pub Quiet : ℕ → List Timer → Type 0
Quiet p [] = Unit {0}
Quiet p (next ∷ list) = next.expires ≡ 0 → (next.proc ≢ p) × Quiet p list

-- The process `p` is as it was.
abbrev pub Same : ℕ → Sched → Sched → Type 0
Same p s s' = (s'.state p ≡ s.state p) × (s'.wait_state p ≡ s.wait_state p)

-- The state after the loop of `run_timer_list`.
pub data Expires (s : Sched) (list : List Timer) : Result Sched → Type 0 where
  expires :
      {s' : Sched}
      → Woken s s'
      → IsSched s'
      → Expired s' list s'.timer_list
      → AllWakeable s' s'.timer_list
      → ((p : ℕ) → Quiet p list → Same p s s')
      → Expires s list (returned s')

-- The loop after one process was woken.
expire-next :
    (s s1 : Sched) (next : Timer) (list : List Timer) (result : Result Sched)
    → next.expires ≡ 0
    → Woken s s1
    → s1.state next.proc ≡ proc_runnable
    → ((p : ℕ) → p ≢ next.proc → Same p s s1)
    → Expires s1 list result
    → Expires s (next ∷ list) result
expire-next s s1 next list _ now woken runs same (expires woken' good expired wakeable same') =
    expires (Woken-trans woken woken') good
      (gone now (Woken-runnable next.proc woken' runs) expired) wakeable
      (λ p quiet.
        let (apart, rest) = quiet now in
        let before = same p (λ e. apart (sym e)) in
        let after = same' p rest in (after.0 ∙ before.0, after.1 ∙ before.1))

expire-woken :
    (s : Sched) (next : Timer) (list : List Timer) (result : Result Sched)
    → ((s' : Sched) → IsSched s' → AllWakeable s' list → Expires s' list (expire_timers s' list))
    → IsSched s
    → next.expires ≡ 0
    → IsWakeable s next.proc
    → AllWakeable s list
    → Wakes s next.proc result
    → Expires s (next ∷ list) (result >>= λ s'. expire_timers s' list)
expire-woken s next list _ further good now first rest (dead zombie) =
    absurd (cc (ap is_zombie zombie, first.alive))
expire-woken s next list _ further good now first rest (awake runs) =
    expire-next s s next list _ now (Woken-refl s) runs (λ p apart. (refl, refl))
      (further s good rest)
expire-woken s next list _ further good now first rest (unqueued {s'} _ up _) =
    expire-next s s' next list _ now up.woken up.runs up.others
      (further s' up.good (AllWakeable-Woken s s' list up.woken rest))
expire-woken s next list _ further good now first rest (enqueued {s'} _ _ up _) =
    expire-next s s' next list _ now up.woken up.runs up.others
      (further s' up.good (AllWakeable-Woken s s' list up.woken rest))

-- A new timer list changes nothing else.
pub retimed : (s : Sched) (list : List Timer) → Woken s (record s { timer_list = list })
retimed s list = record {
  states = λ p. inl refl;
  waits = λ p. inl refl;
  same_current = refl;
  same_idle = refl;
}

pub retimed-IsSched :
    (s : Sched) (list : List Timer) → IsSched s → IsSched (record s { timer_list = list })
retimed-IsSched s list good = record {
  queued = record {
    queue = good.queued.queue;
    distinct = good.queued.distinct;
    runnable = good.queued.runnable;
  };
  running = good.running;
}

pub expire_timers-Expires :
    (list : List Timer) (s : Sched)
    → IsSched s
    → AllWakeable s list
    → Expires s list (expire_timers s list)
unfolding expire_timers
expire_timers-Expires [] s good wakeable =
    expires (retimed s []) (retimed-IsSched s [] good) all_gone tt (λ p quiet. (refl, refl))
expire_timers-Expires (next ∷ list) s good (first, rest) = elim (Bool-cases (next.expires == 0)) [
  | inl now ↦
      rw (now, first.interruptible)
        (expire-woken s next list (wakeup_proc s next.proc) (λ s'. expire_timers-Expires list s')
          good (ground arith) first rest (wakeup_proc-Wakes s next.proc good))
  | inr later ↦ rw later (
      expires (retimed s (next ∷ list)) (retimed-IsSched s (next ∷ list) good)
        (rest_waits (ground arith))
        (AllWakeable-Woken s _ (next ∷ list) (retimed s (next ∷ list)) (first, rest))
        (λ p quiet. (refl, refl)))
]
