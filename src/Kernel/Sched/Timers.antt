-- ===== src/Kernel/Sched/Timers.antt =====
-- The timer list of ucore_OS/kern/schedule/sched.c stands for the timers with the number of ticks that
-- each has left, in order.
use mips32_cpu_emulator.Prelude.{
  ℕ, ◌+◌, ◌-◌, true, false, List, [], ◌∷◌, ltb, ◌==◌, if◌then◌else◌, ◌≡◌, inl, inr, refl, ap, sym,
  arith, Bool-cases,
}
use mips32_cpu_emulator.Kernel.Sched.{Timer, insert_timer, remove_timer, delay_next}

-- The timers with the ticks that are left of each, `passed` being those of the timers before.
abbrev pub due : ℕ → List Timer → List Timer
due passed [] = []
due passed (next ∷ list) =
    let left = passed + next.expires in record next { expires = left } ∷ due left list

-- A timer put behind those that do not expire later.
unfoldable pub put : Timer → List Timer → List Timer
put new [] = new ∷ []
put new (next ∷ list) =
    let later = put new list in
    if ltb new.expires next.expires then new ∷ next ∷ list else next ∷ later

-- A list without a timer.
unfoldable pub without : ℕ → List Timer → List Timer
without timer [] = []
without timer (next ∷ list) =
    let rest = without timer list in if next.timer == timer then list else next ∷ rest

due-insert_timer_from :
    (passed expires : ℕ) (new : Timer) (list : List Timer)
    → new.expires ≡ passed + expires
    → due passed (insert_timer (record new { expires = expires }) list) ≡ put new (due passed list)
unfolding insert_timer put
due-insert_timer_from passed expires new [] same =
    ap (λ t. record new { expires = t } ∷ []) (sym same)
due-insert_timer_from passed expires new (next ∷ list) same =
    elim (Bool-cases (ltb expires next.expires)) [
      | inl before ↦
          let earlier : ltb new.expires (passed + next.expires) ≡ true = ground arith in
          let first : passed + expires ≡ new.expires = omega (arith, same) in
          let second : passed + expires + (next.expires - expires) ≡ passed + next.expires =
            ground arith in
          rw (before, earlier, second, first) refl
      | inr after ↦
          let later : ltb new.expires (passed + next.expires) ≡ false = ground arith in
          let left : new.expires ≡ passed + next.expires + (expires - next.expires) =
            ground arith in
          rw (after, later)
            (ap (λ rest. record next { expires = passed + next.expires } ∷ rest)
              (due-insert_timer_from (passed + next.expires) (expires - next.expires) new list
                left))
    ]

-- `add_timer` puts the timer behind those that expire no later, and leaves the ticks of the others.
pub due-insert_timer :
    (new : Timer) (list : List Timer) → due 0 (insert_timer new list) ≡ put new (due 0 list)
due-insert_timer new list = due-insert_timer_from 0 new.expires new list (omega arith)

due-delay_next :
    (passed expires : ℕ) (list : List Timer)
    → due passed (delay_next expires list) ≡ due (passed + expires) list
due-delay_next passed expires [] = refl
due-delay_next passed expires (next ∷ list) =
    let same : passed + (next.expires + expires) ≡ passed + expires + next.expires = omega arith in
    rw same refl

due-remove_timer_from :
    (passed timer : ℕ) (list : List Timer)
    → due passed (remove_timer timer list) ≡ without timer (due passed list)
unfolding remove_timer without
due-remove_timer_from passed timer [] = refl
due-remove_timer_from passed timer (next ∷ list) = elim (Bool-cases (next.timer == timer)) [
  | inl hit ↦ elim (Bool-cases (next.expires == 0)) [
    | inl now ↦
        let same : passed + next.expires ≡ passed = ground arith in
        rw (hit, now) (ap (λ t. due t list) (sym same))
    | inr later ↦ rw (hit, later) (due-delay_next passed next.expires list)
  ]
  | inr other ↦ rw other (
      ap (λ rest. record next { expires = passed + next.expires } ∷ rest)
        (due-remove_timer_from (passed + next.expires) timer list))
]

-- `del_timer` takes out one timer, and leaves the ticks of the others.
pub due-remove_timer :
    (timer : ℕ) (list : List Timer) → due 0 (remove_timer timer list) ≡ without timer (due 0 list)
due-remove_timer timer list = due-remove_timer_from 0 timer list
