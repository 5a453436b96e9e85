-- ===== src/Kernel/Sched/Fair.antt =====
-- Calls of `schedule` of ucore_OS/kern/schedule/sched.c in a row: each process on the queue gets its turn.
use mips32_cpu_emulator.Prelude.{
  ℕ, zero, suc, some, List, [], ◌∷◌, ◌++◌, get_elem?, ◌≡◌, inl, inr, ap, ◌∙◌, Bool-cases, ◌==◌,
}
use mips32_cpu_emulator.Kernel.Result.{Result, returned}
use mips32_cpu_emulator.Kernel.Sched.{Sched, is_runnable, schedule, ◌>>=◌}
use mips32_cpu_emulator.Kernel.Sched.Wake.{IsSched}
use mips32_cpu_emulator.Kernel.Sched.Turns.{
  waiting, Runs, idles, first_runs, Schedules, schedules, schedule-Schedules,
}

abbrev pub turns : ℕ → Sched → Result Sched
turns zero s = returned s
turns (suc n) s = schedule s >>= λ s'. turns n s'

pub get_elem?-append :
    (list more : List ℕ) (k p : ℕ) → get_elem? list k ≡ some p → get_elem? (list ++ more) k ≡ some p
get_elem?-append [] more k p at = cc
get_elem?-append (q ∷ list) more zero p at = at
get_elem?-append (q ∷ list) more (suc k) p at = get_elem?-append list more k p at

pub get_elem?-waiting :
    (s : Sched) (k p : ℕ) → get_elem? s.rq.run_list k ≡ some p → get_elem? (waiting s) k ≡ some p
get_elem?-waiting s k p at = elim (Bool-cases (is_runnable (s.state s.current))) [
  | inl runs ↦ elim (Bool-cases (s.current == s.idleproc)) [
    | inl idle ↦ rw (runs, idle) at
    | inr busy ↦ rw (runs, busy) (get_elem?-append s.rq.run_list (s.current ∷ []) k p at)
  ]
  | inr stops ↦ rw stops at
]

-- The process `p` runs.
pub data Reaches (p : ℕ) : Result Sched → Type 0 where
  reaches : {s : Sched} → s.current ≡ p → IsSched s → Reaches p (returned s)

-- The process that runs is `p`, or `p` waits at place `k` of the queue.
pub Runs-first :
    (idle p : ℕ) (list : List ℕ) (s : Sched)
    → Runs idle list s
    → get_elem? list 0 ≡ some p
    → s.current ≡ p
Runs-first idle p _ s (idles _ _) at = cc
Runs-first idle p _ s (first_runs now same) at = now ∙ cc

pub Runs-later :
    (idle k p : ℕ) (list : List ℕ) (s : Sched)
    → Runs idle list s
    → get_elem? list (suc k) ≡ some p
    → get_elem? s.rq.run_list k ≡ some p
Runs-later idle k p _ s (idles _ _) at = cc
Runs-later idle k p _ s (first_runs now same) at = ap (λ l. get_elem? l k) same ∙ at

turn_first :
    (p : ℕ) (s : Sched) (result : Result Sched)
    → get_elem? (waiting s) 0 ≡ some p
    → Schedules s result
    → Reaches p (result >>= λ s'. returned s')
turn_first p s _ at (schedules {s'} runs good _ _ _ _) =
    reaches (Runs-first s.idleproc p (waiting s) s' runs at) good

turn_later :
    (k p : ℕ) (s : Sched) (result : Result Sched)
    → ((s' : Sched)
        → IsSched s'
        → get_elem? s'.rq.run_list k ≡ some p
        → Reaches p (turns (suc k) s'))
    → get_elem? (waiting s) (suc k) ≡ some p
    → Schedules s result
    → Reaches p (result >>= λ s'. turns (suc k) s')
turn_later k p s _ further at (schedules {s'} runs good _ _ _ _) =
    further s' good (Runs-later s.idleproc k p (waiting s) s' runs at)

-- On a well-formed scheduler the process at place `k` of the queue, counted from 0, runs after `k + 1`
-- calls of `schedule` with nothing between them; none of them panics, and the scheduler is well formed
-- then.
pub turns-Reaches :
    (k p : ℕ) (s : Sched)
    → IsSched s
    → get_elem? s.rq.run_list k ≡ some p
    → Reaches p (turns (suc k) s)
turns-Reaches zero p s good at =
    turn_first p s (schedule s) (get_elem?-waiting s 0 p at) (schedule-Schedules s good)
turns-Reaches (suc k) p s good at =
    turn_later k p s (schedule s) (λ s' good' at'. turns-Reaches k p s' good' at')
      (get_elem?-waiting s (suc k) p at) (schedule-Schedules s good)
