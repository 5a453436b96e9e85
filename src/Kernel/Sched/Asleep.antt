-- ===== src/Kernel/Sched/Asleep.antt =====
-- Ticks of ucore_OS/kern/schedule/sched.c before the first timer of a process expires.
use mips32_cpu_emulator.Prelude.{
  ℕ, zero, suc, ◌+◌, ◌-◌, ◌<◌, ◌≤◌, List, [], ◌∷◌, ltb, ◌≡◌, ◌≢◌, inl, inr, refl, subst, ◌∙◌, arith,
  Bool-cases,
}
use mips32_cpu_emulator.Kernel.Result.{Result, returned, failed, panic}
use mips32_cpu_emulator.Kernel.Sched.{Sched, Timer, insert_timer, run_timer_list, ◌>>=◌}
use mips32_cpu_emulator.Kernel.Sched.Expire.{
  Expired, all_gone, rest_waits, gone, Waits, IsTimed, Quiet, Same,
}
use mips32_cpu_emulator.Kernel.Sched.Tick.{counted_down, Ticks, ticks, run_timer_list-Ticks}
use mips32_cpu_emulator.Kernel.Sched.Elapse.{elapse}

-- No timer of the list is of `p`.
abbrev pub NoTimer : ℕ → List Timer → Type 0
NoTimer p [] = Unit {0}
NoTimer p (next ∷ list) = (next.proc ≢ p) × NoTimer p list

-- No timer of `p` expires in fewer than `n` ticks.
abbrev pub NoneBefore : ℕ → ℕ → List Timer → Type 0
NoneBefore p n [] = Unit {0}
NoneBefore p n (next ∷ list) =
    (next.proc ≡ p → n ≤ next.expires) × NoneBefore p (n - next.expires) list

NoTimer-NoneBefore : (p n : ℕ) (list : List Timer) → NoTimer p list → NoneBefore p n list
NoTimer-NoneBefore p n [] none_there = tt
NoTimer-NoneBefore p n (next ∷ list) (apart, rest) =
    (λ e. absurd (apart e), NoTimer-NoneBefore p (n - next.expires) list rest)

pub insert_timer-NoneBefore :
    (p : ℕ) (new : Timer) (list : List Timer)
    → NoTimer p list
    → NoneBefore p new.expires (insert_timer new list)
unfolding insert_timer
insert_timer-NoneBefore p new [] none_there = (λ e. omega arith, tt)
insert_timer-NoneBefore p new (next ∷ list) (apart, rest) =
    elim (Bool-cases (ltb new.expires next.expires)) [
      | inl before ↦
          rw before (λ e. omega arith, (λ e. absurd (apart e), NoTimer-NoneBefore p _ list rest))
      | inr after ↦ rw after (
        λ e. absurd (apart e),
        insert_timer-NoneBefore p (record new { expires = new.expires - next.expires }) list rest,
      )
    ]

NoneBefore-Quiet : (p n : ℕ) (list : List Timer) → 0 < n → NoneBefore p n list → Quiet p list
NoneBefore-Quiet p n [] more before = tt
NoneBefore-Quiet p n (next ∷ list) more (first, rest) = λ now. (
  λ e. absurd (omega (arith, first e, now, more)),
  NoneBefore-Quiet p (n - next.expires) list (omega (arith, now, more)) rest,
)

NoneBefore-counted_down :
    (p n : ℕ) (list : List Timer)
    → 0 < n
    → Waits list
    → NoneBefore p n list
    → NoneBefore p (n - 1) (counted_down list)
NoneBefore-counted_down p n [] more waits before = tt
NoneBefore-counted_down p n (next ∷ list) more waits (first, rest) =
    let same : n - next.expires ≡ n - 1 - (next.expires - 1) = omega (arith, more, waits) in
    (λ e. omega (arith, first e), subst (λ (t : ℕ). NoneBefore p t list) same rest)

Expired-NoneBefore :
    (s : Sched) (p n : ℕ) (list left : List Timer)
    → Expired s list left
    → NoneBefore p n list
    → NoneBefore p n left
Expired-NoneBefore s p n _ _ all_gone before = tt
Expired-NoneBefore s p n _ _ (rest_waits more) before = before
Expired-NoneBefore s p n _ left (gone {next} {list} none_left runs later) (first, rest) =
    let same : n - next.expires ≡ n = omega (arith, none_left) in
    Expired-NoneBefore s p n list left later (subst (λ (t : ℕ). NoneBefore p t list) same rest)

-- The process `p` is in the result as it was in `s`.
abbrev pub Keeps : ℕ → Sched → Result Sched → Type 0
Keeps p s (returned s') = Same p s s'
Keeps p s (failed code) = ⊥
Keeps p s panic = ⊥

Keeps-trans : (p : ℕ) (s s' : Sched) (r : Result Sched) → Same p s s' → Keeps p s' r → Keeps p s r
Keeps-trans p s s' (returned s'') same same' = (same'.0 ∙ same.0, same'.1 ∙ same.1)
Keeps-trans p s s' (failed code) same none_there = none_there
Keeps-trans p s s' panic same none_there = none_there

elapse_one :
    (p m n : ℕ) (s : Sched) (result : Result Sched)
    → ((s' : Sched) → IsTimed s' → NoneBefore p n s'.timer_list → Keeps p s' (elapse m s'))
    → 0 < n
    → NoneBefore p n (counted_down s.timer_list)
    → Ticks s result
    → Keeps p s (result >>= λ s'. elapse m s')
elapse_one p m n s _ further more before (ticks {s'} woken expired timed same) =
    Keeps-trans p s s' (elapse m s') (same p (NoneBefore-Quiet p n _ more before))
      (further s' timed (Expired-NoneBefore s' p n _ _ expired before))

-- A process stays as it is for fewer ticks than its first timer has left.
pub elapse-Keeps :
    (m left p : ℕ) (s : Sched)
    → IsTimed s
    → 0 < left
    → NoneBefore p (m + left) s.timer_list
    → Keeps p s (elapse m s)
elapse-Keeps zero left p s timed more before = (refl, refl)
elapse-Keeps (suc m) left p s timed more before =
    let less : suc m + left - 1 ≡ m + left = omega arith in
    elapse_one p m (m + left) s (run_timer_list s)
      (λ s' timed' before'. elapse-Keeps m left p s' timed' more before') (omega arith)
      (subst (λ (t : ℕ). NoneBefore p t (counted_down s.timer_list)) less
        (NoneBefore-counted_down p (suc m + left) s.timer_list (omega arith) timed.first_waits
          before))
      (run_timer_list-Ticks s timed)
