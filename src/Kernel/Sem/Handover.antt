-- ===== src/Kernel/Sem/Handover.antt =====
-- A process that waits for a semaphore of ucore_OS/kern/sync/sem.c gets it in the end: `up`, calls of
-- `schedule`, and the rest of its `down`.
use mips32_cpu_emulator.Prelude.{
  ℕ, suc, true, false, some, List, [], ◌∷◌, ◌++◌, length, get_elem?, ◌==◌, ==_iff, ◌≡◌, refl, ap,
  ◌∙◌, subst,
}
use mips32_cpu_emulator.Kernel.Result.{Result, returned}
use mips32_cpu_emulator.Kernel.RoundRobin.{is_linked}
use mips32_cpu_emulator.Kernel.Sched.{Sched, is_runnable, ◌>>=◌}
use mips32_cpu_emulator.Kernel.Sched.Wake.{Distinct}
use mips32_cpu_emulator.Kernel.Sched.Fair.{turns, Reaches, reaches, turns-Reaches}
use mips32_cpu_emulator.Kernel.Sem.{Sem, wt_ksem, up, down_leave, wait_current_del}
use mips32_cpu_emulator.Kernel.Sem.Waiting.{IsSem, Ups, counts, hands_over, up-Ups}

-- `up`, then `n` calls of `schedule`, then the rest of the `down` of the process that runs.
abbrev pub handover : ℕ → Sem → Result Sem
handover n s = up s >>= λ s'. turns n s'.sched >>= λ sched. down_leave (record s' { sched = sched })

-- The process `p` runs, and its `down` has returned.
pub data Gets (p : ℕ) : Result Sem → Type 0 where
  gets : {s : Sem} → s.sched.current ≡ p → is_linked p s.queue ≡ false → Gets p (returned s)

get_elem?-last : (list : List ℕ) (p : ℕ) → get_elem? (list ++ (p ∷ [])) (length list) ≡ some p
get_elem?-last [] p = refl
get_elem?-last (q ∷ list) p = get_elem?-last list p

leave :
    (s : Sem) (p : ℕ) (result : Result Sched)
    → is_linked p s.queue ≡ false
    → s.wakeup_flags p ≡ wt_ksem
    → Reaches p result
    → Gets p (result >>= λ sched. down_leave (record s { sched = sched }))
unfolding down_leave wait_current_del
leave s p _ apart flags (reaches {s = s'} now good) =
    let apart' : is_linked s'.current s.queue ≡ false = ap (λ t. is_linked t s.queue) now ∙ apart in
    let granted : (s.wakeup_flags s'.current == wt_ksem) ≡ true =
      (==_iff _ _).1 (ap s.wakeup_flags now ∙ flags) in
    rw (apart', granted) (gets now apart)

after_up :
    (s : Sem) (p : ℕ) (list : List ℕ) (result : Result Sem)
    → IsSem s
    → s.queue ≡ p ∷ list
    → Ups s result
    → Gets p (
        result >>= λ s'. turns (suc (length s.sched.rq.run_list)) s'.sched >>= λ sched.
        down_leave (record s' { sched = sched }))
after_up s p list _ good same (counts no_queue _) = absurd (cc (no_queue, same))
after_up s p list _ good same
      (hands_over {p = p'} {list = list'} {s' = s'} same' left _ flags awoken last _) =
    let first : p' ≡ p = cc (same, same') in
    let at : get_elem? s'.sched.rq.run_list (length s.sched.rq.run_list) ≡ some p' =
      ap (λ l. get_elem? l (length s.sched.rq.run_list)) last
      ∙ get_elem?-last s.sched.rq.run_list p' in
    let both : Distinct (p' ∷ list') = subst Distinct same' good.distinct in
    let apart : is_linked p' s'.queue ≡ false = ap (is_linked p') left ∙ both.0 in
    subst
      (λ (q : ℕ). Gets q (
        turns (suc (length s.sched.rq.run_list)) s'.sched >>= λ sched.
        down_leave (record s' { sched = sched })))
      first
      (leave s' p' _ apart flags
        (turns-Reaches (length s.sched.rq.run_list) p' s'.sched awoken.good at))

-- On a well-formed semaphore with a process `p` at the front of the wait queue: after an `up` by a process
-- that runs, and one call of `schedule` more than there were processes on the run queue, `p` runs, its
-- `down` returns without a panic, and `p` is not on the wait queue.
pub handover-Gets :
    (s : Sem) (p : ℕ) (list : List ℕ)
    → IsSem s
    → is_runnable (s.sched.state s.sched.current) ≡ true
    → s.queue ≡ p ∷ list
    → Gets p (handover (suc (length s.sched.rq.run_list)) s)
handover-Gets s p list good runs same = after_up s p list (up s) good same (up-Ups s good runs)
