-- ===== src/Kernel/Sched/Rounds.antt =====
-- Calls of `schedule` of ucore_OS/kern/schedule/sched.c, between which the processes that run wake others
-- and go to sleep: each process on the queue gets its turn.
use mips32_cpu_emulator.Prelude.{
  ℕ, zero, suc, some, List, [], ◌∷◌, length, get_elem?, ◌≡◌, ◌≢◌, inl, inr, refl, ap, sym, ◌∙◌,
  arith, Bool-cases, ◌==◌,
}
use mips32_cpu_emulator.Kernel.Result.{Result, returned}
use mips32_cpu_emulator.Kernel.Sched.{proc_zombie, Sched, wakeup_proc, schedule, ◌>>=◌}
use mips32_cpu_emulator.Kernel.Sched.Wake.{
  IsSched, Woken, Wakes, dead, awake, unqueued, enqueued, wakeup_proc-Wakes,
}
use mips32_cpu_emulator.Kernel.Sched.Turns.{waiting, Schedules, schedules, schedule-Schedules}
use mips32_cpu_emulator.Kernel.Sched.Fair.{
  Reaches, reaches, Runs-first, Runs-later, get_elem?-append, get_elem?-waiting,
}
use mips32_cpu_emulator.Kernel.Sem.{put_to_sleep}
use mips32_cpu_emulator.Kernel.Sem.Down.{put_to_sleep-IsSched}

-- What the process that runs does to the scheduler: it wakes a process, or is set to sleep with a wait
-- state, as `wait_current_set` does.
pub data Act : Type 0 where
  wake : ℕ → Act
  block : ℕ → Act

abbrev act : Act → Sched → Result Sched
act (wake q) s = wakeup_proc s q
act (block wait_state) s = returned (put_to_sleep s wait_state)

abbrev acts : List Act → Sched → Result Sched
acts [] s = returned s
acts (first ∷ rest) s = act first s >>= λ s'. acts rest s'

-- Some acts and a call of `schedule`, for each list.
abbrev pub rounds : List (List Act) → Sched → Result Sched
rounds [] s = returned s
rounds (first ∷ rest) s = acts first s >>= λ s1. (schedule s1 >>= λ s2. rounds rest s2)

-- No zombie is woken.
abbrev Wakeable : Sched → Act → Type 0
Wakeable s (wake q) = s.state q ≢ proc_zombie
Wakeable s (block wait_state) = Unit {0}

abbrev AllActs : Sched → List Act → Type 0
AllActs s [] = Unit {0}
AllActs s (first ∷ rest) = Wakeable s first × AllActs s rest

abbrev pub AllRounds : Sched → List (List Act) → Type 0
AllRounds s [] = Unit {0}
AllRounds s (first ∷ rest) = AllActs s first × AllRounds s rest

-- No process has become a zombie.
abbrev NoDeath : Sched → Sched → Type 0
NoDeath s s' = (q : ℕ) → s.state q ≢ proc_zombie → s'.state q ≢ proc_zombie

NoDeath-Woken : (s s' : Sched) → Woken s s' → NoDeath s s'
NoDeath-Woken s s' woken q alive = elim (woken.states q) [
  | inl same ↦ λ e. alive (sym same ∙ e)
  | inr now ↦ λ e. absurd (cc (now, e))
]

AllActs-NoDeath : (s s' : Sched) (list : List Act) → NoDeath s s' → AllActs s list → AllActs s' list
AllActs-NoDeath s s' [] kept all = tt
AllActs-NoDeath s s' (wake q ∷ rest) kept (first, all) =
    (kept q first, AllActs-NoDeath s s' rest kept all)
AllActs-NoDeath s s' (block wait_state ∷ rest) kept (first, all) =
    (tt, AllActs-NoDeath s s' rest kept all)

AllRounds-NoDeath :
    (s s' : Sched) (list : List (List Act)) → NoDeath s s' → AllRounds s list → AllRounds s' list
AllRounds-NoDeath s s' [] kept all = tt
AllRounds-NoDeath s s' (first ∷ rest) kept (now, later) =
    (AllActs-NoDeath s s' first kept now, AllRounds-NoDeath s s' rest kept later)

-- A well-formed scheduler in which `p` still has place `k` of the queue.
data Holds (s : Sched) (k p : ℕ) : Result Sched → Type 0 where
  holds :
      {s' : Sched}
      → IsSched s'
      → get_elem? s'.rq.run_list k ≡ some p
      → NoDeath s s'
      → Holds s k p (returned s')

wake-Holds :
    (s : Sched) (k p q : ℕ) (result : Result Sched)
    → IsSched s
    → get_elem? s.rq.run_list k ≡ some p
    → s.state q ≢ proc_zombie
    → Wakes s q result
    → Holds s k p result
wake-Holds s k p q _ good at alive (dead zombie) = absurd (alive zombie)
wake-Holds s k p q _ good at alive (awake runs) = holds good at (λ r h. h)
wake-Holds s k p q _ good at alive (unqueued {s'} _ up same) =
    holds up.good (ap (λ l. get_elem? l k) same ∙ at) (NoDeath-Woken s s' up.woken)
wake-Holds s k p q _ good at alive (enqueued {s'} _ _ up last) =
    holds up.good (ap (λ l. get_elem? l k) last ∙ get_elem?-append s.rq.run_list (q ∷ []) k p at)
      (NoDeath-Woken s s' up.woken)

act-Holds :
    (s : Sched) (k p : ℕ) (a : Act)
    → IsSched s
    → get_elem? s.rq.run_list k ≡ some p
    → Wakeable s a
    → Holds s k p (act a s)
act-Holds s k p (wake q) good at alive =
    wake-Holds s k p q (wakeup_proc s q) good at alive (wakeup_proc-Wakes s q good)
act-Holds s k p (block wait_state) good at alive =
    holds (put_to_sleep-IsSched s wait_state good) at (λ q h. elim (Bool-cases (s.current == q)) [
      | inl here ↦ rw here (λ e. absurd cc)
      | inr other ↦ rw other h
    ])

behind :
    (s s' : Sched) (k p : ℕ) (result : Result Sched)
    → NoDeath s s'
    → Holds s' k p result
    → Holds s k p result
behind s s' k p _ kept (holds good at kept') = holds good at (λ q h. kept' q (kept q h))

after_act :
    (s : Sched) (k p : ℕ) (rest : List Act) (result : Result Sched)
    → ((s' : Sched)
        → IsSched s'
        → get_elem? s'.rq.run_list k ≡ some p
        → AllActs s' rest
        → Holds s' k p (acts rest s'))
    → AllActs s rest
    → Holds s k p result
    → Holds s k p (result >>= λ s'. acts rest s')
after_act s k p rest _ further later (holds {s'} good at kept) =
    behind s s' k p (acts rest s') kept (further s' good at (AllActs-NoDeath s s' rest kept later))

acts-Holds :
    (s : Sched) (k p : ℕ) (list : List Act)
    → IsSched s
    → get_elem? s.rq.run_list k ≡ some p
    → AllActs s list
    → Holds s k p (acts list s)
acts-Holds s k p [] good at all = holds good at (λ q h. h)
acts-Holds s k p (first ∷ rest) good at (now, later) =
    after_act s k p rest (act first s) (λ s' good' at' all'. acts-Holds s' k p rest good' at' all')
      later (act-Holds s k p first good at now)

-- What `schedule` does to the process at place `k`: it runs now, or has one place less to wait.
after_schedule :
    (k p : ℕ) (s : Sched) (rest : List (List Act)) (result : Result Sched)
    → (k ≡ 0 → rest ≡ [])
    → ((s' : Sched) (j : ℕ)
        → k ≡ suc j
        → IsSched s'
        → get_elem? s'.rq.run_list j ≡ some p
        → AllRounds s' rest
        → Reaches p (rounds rest s'))
    → get_elem? s.rq.run_list k ≡ some p
    → AllRounds s rest
    → Schedules s result
    → Reaches p (result >>= λ s'. rounds rest s')
after_schedule zero p s rest _ last further at all (schedules {s'} runs good _ _ _ _) =
    rw (last refl)
      (reaches (Runs-first s.idleproc p (waiting s) s' runs (get_elem?-waiting s 0 p at)) good)
after_schedule (suc k) p s rest _ last further at all (schedules {s'} runs good states _ _ _) =
    further s' k refl good
      (Runs-later s.idleproc k p (waiting s) s' runs (get_elem?-waiting s (suc k) p at))
      (AllRounds-NoDeath s s' rest (λ q h e. h (sym (ap (λ f. f q) states) ∙ e)) all)

after_acts :
    (k p : ℕ) (s : Sched) (rest : List (List Act)) (result : Result Sched)
    → (k ≡ 0 → rest ≡ [])
    → ((s' : Sched) (j : ℕ)
        → k ≡ suc j
        → IsSched s'
        → get_elem? s'.rq.run_list j ≡ some p
        → AllRounds s' rest
        → Reaches p (rounds rest s'))
    → AllRounds s rest
    → Holds s k p result
    → Reaches p (result >>= λ s1. (schedule s1 >>= λ s2. rounds rest s2))
after_acts k p s rest _ last further all (holds {s'} good at kept) =
    after_schedule k p s' rest (schedule s') last further at (AllRounds-NoDeath s s' rest kept all)
      (schedule-Schedules s' good)

no_rounds : (rest : List (List Act)) (k : ℕ) → length rest ≡ k → k ≡ 0 → rest ≡ []
no_rounds [] k size none_left = refl
no_rounds (first ∷ rest) k size none_left = absurd (omega (arith, size, none_left))

-- On a well-formed scheduler the process at place `k` of the queue, counted from 0, runs after `k + 1`
-- calls of `schedule`, whatever processes the running ones wake and whether they go to sleep before each
-- call, as long as they wake no process that is a zombie at the start. Nothing panics, and the scheduler
-- is well formed then.
pub rounds-Reaches :
    (list : List (List Act)) (k p : ℕ) (s : Sched)
    → IsSched s
    → length list ≡ suc k
    → AllRounds s list
    → get_elem? s.rq.run_list k ≡ some p
    → Reaches p (rounds list s)
rounds-Reaches [] k p s good size all at = absurd (omega (arith, size))
rounds-Reaches (first ∷ rest) k p s good size (now, later) at =
    let fewer : length rest ≡ k = omega (arith, size) in
    after_acts k p s rest (acts first s) (no_rounds rest k fewer)
      (λ s' j less good' at' all'. rounds-Reaches rest j p s' good' (fewer ∙ less) all' at') later
      (acts-Holds s k p first good at now)
