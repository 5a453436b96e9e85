-- ===== src/Kernel/Sched/Elapse.antt =====
-- Ticks in a row: `run_timer_list` of ucore_OS/kern/schedule/sched.c wakes the process of each timer in
-- time.
use mips32_cpu_emulator.Prelude.{
  ℕ, zero, suc, ◌+◌, ◌-◌, ◌<◌, List, [], ◌∷◌, ◌≡◌, ◌⊎◌, inl, inr, sym, subst, ◌∙◌, arith,
}
use mips32_cpu_emulator.Kernel.Result.{Result, returned}
use mips32_cpu_emulator.Kernel.Sched.{proc_runnable, Sched, Timer, run_timer_list, ◌>>=◌}
use mips32_cpu_emulator.Kernel.Sched.Expire.{Expired, all_gone, rest_waits, gone, Waits, IsTimed}
use mips32_cpu_emulator.Kernel.Sched.Tick.{counted_down, Ticks, ticks, run_timer_list-Ticks}

abbrev pub elapse : ℕ → Sched → Result Sched
elapse zero s = returned s
elapse (suc n) s = run_timer_list s >>= λ s'. elapse n s'

-- A timer of the list with the process `p` expires in `n` ticks.
pub data IsDue (p : ℕ) : ℕ → List Timer → Type 0 where
  first_due :
      {next : Timer} {list : List Timer} {n : ℕ}
      → next.proc ≡ p
      → next.expires ≡ n
      → IsDue p n (next ∷ list)
  later_due :
      {next : Timer} {list : List Timer} {n m : ℕ}
      → next.expires + m ≡ n
      → IsDue p m list
      → IsDue p n (next ∷ list)

IsDue-counted_down :
    (p n : ℕ) (list : List Timer)
    → Waits list
    → IsDue p n list
    → (0 < n) × IsDue p (n - 1) (counted_down list)
IsDue-counted_down p n [] waits due = elim due [ ]
IsDue-counted_down p n (next ∷ list) waits (first_due same now) =
    (omega arith, first_due same (omega (arith, now)))
IsDue-counted_down p n (next ∷ list) waits (later_due sum due) =
    (omega (arith, sum, waits), later_due (omega (arith, sum, waits)) due)

-- After the loop of a tick, a timer without ticks left has woken its process, and another is still due.
Expired-IsDue :
    (s : Sched) (p n : ℕ) (list left : List Timer)
    → Expired s list left
    → IsDue p n list
    → ((n ≡ 0) × (s.state p ≡ proc_runnable)) ⊎ ((0 < n) × IsDue p n left)
Expired-IsDue s p n _ _ all_gone due = elim due [ ]
Expired-IsDue s p n _ _ (rest_waits more) (first_due same now) =
    inr (omega (arith, now, more), first_due same now)
Expired-IsDue s p n _ _ (rest_waits more) (later_due sum due) =
    inr (omega (arith, sum, more), later_due sum due)
Expired-IsDue s p n _ _ (gone none_left runs later) (first_due same now) =
    inl (sym now ∙ none_left, subst (λ (q : ℕ). s.state q ≡ proc_runnable) same runs)
Expired-IsDue s p n _ left (gone {list = list} none_left runs later) (later_due {m = m} sum due) =
    let equal : m ≡ n = omega (arith, sum, none_left) in
    Expired-IsDue s p n _ left later (subst (λ (t : ℕ). IsDue p t list) equal due)

-- The state some ticks later, when `left` ticks are left of a timer of `p`.
pub data After (p left : ℕ) : Result Sched → Type 0 where
  still_due :
      {s : Sched} → 0 < left → IsTimed s → IsDue p left s.timer_list → After p left (returned s)
  fired : {s : Sched} → left ≡ 0 → IsTimed s → s.state p ≡ proc_runnable → After p left (returned s)

no_more :
    (p m left : ℕ) (s : Sched)
    → m ≡ 0
    → left ≡ 0
    → IsTimed s
    → s.state p ≡ proc_runnable
    → After p left (elapse m s)
no_more p zero left s none_left over timed runs = fired over timed runs
no_more p (suc m) left s none_left over timed runs = absurd (omega (arith, none_left))

elapse_suc :
    (p m left : ℕ) (s : Sched) (result : Result Sched)
    → ((s' : Sched) → IsTimed s' → IsDue p (m + left) s'.timer_list → After p left (elapse m s'))
    → IsDue p (m + left) (counted_down s.timer_list)
    → Ticks s result
    → After p left (result >>= λ s'. elapse m s')
elapse_suc p m left s _ further due (ticks {s'} woken expired timed same) =
    elim (Expired-IsDue s' p (m + left) _ _ expired due) [
      | inl (none_left, runs) ↦
          no_more p m left s' (omega (arith, none_left)) (omega (arith, none_left)) timed runs
      | inr (more, due') ↦ further s' timed due'
    ]

-- On a well-formed scheduler with a timer of `p` that expires in `m + left` ticks, `m` ticks pass without
-- a panic. If `left` is not 0 then the timer is still due, in `left` ticks; if it is 0 then `p` is
-- runnable. The scheduler is well formed again.
pub elapse-After :
    (m left p : ℕ) (s : Sched)
    → IsTimed s
    → IsDue p (m + left) s.timer_list
    → After p left (elapse m s)
elapse-After zero left p s timed due =
    let here : 0 + left ≡ left = omega arith in
    let due' : IsDue p left s.timer_list = subst (λ (t : ℕ). IsDue p t s.timer_list) here due in
    still_due (IsDue-counted_down p left s.timer_list timed.first_waits due').0 timed due'
elapse-After (suc m) left p s timed due =
    let counted = (IsDue-counted_down p (suc m + left) s.timer_list timed.first_waits due).1 in
    let less : suc m + left - 1 ≡ m + left = omega arith in
    elapse_suc p m left s (run_timer_list s)
      (λ s' timed' due'. elapse-After m left p s' timed' due')
      (subst (λ (t : ℕ). IsDue p t (counted_down s.timer_list)) less counted)
      (run_timer_list-Ticks s timed)
