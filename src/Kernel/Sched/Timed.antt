-- ===== src/Kernel/Sched/Timed.antt =====
-- `add_timer` and `del_timer` of ucore_OS/kern/schedule/sched.c on every branch.
use mips32_cpu_emulator.Prelude.{
  ℕ, ◌-◌, ◌<◌, true, false, List, [], ◌∷◌, ltb, ◌==◌, ◌≡◌, ◌≢◌, inl, inr, arith, tests, Bool-cases,
}
use mips32_cpu_emulator.Kernel.Result.{Result, returned, panic}
use mips32_cpu_emulator.Kernel.Sched.{
  Sched, Timer, add_timer, del_timer, insert_timer, remove_timer, delay_next, is_pending,
}
use mips32_cpu_emulator.Kernel.Sched.Timers.{due, put, without, due-insert_timer, due-remove_timer}
use mips32_cpu_emulator.Kernel.Sched.Expire.{
  IsWakeable, AllWakeable, AllWakeable-Woken, Waits, IsTimed, retimed, retimed-IsSched,
}

insert_timer-Waits :
    (new : Timer) (list : List Timer) → 0 < new.expires → Waits list → Waits (insert_timer new list)
unfolding insert_timer
insert_timer-Waits new [] more waits = more
insert_timer-Waits new (next ∷ list) more waits = elim (Bool-cases (ltb new.expires next.expires)) [
  | inl h ↦ rw h more
  | inr h ↦ rw h waits
]

insert_timer-AllWakeable :
    (s : Sched) (new : Timer) (list : List Timer)
    → IsWakeable s new.proc
    → AllWakeable s list
    → AllWakeable s (insert_timer new list)
unfolding insert_timer
insert_timer-AllWakeable s new [] first rest = (first, tt)
insert_timer-AllWakeable s new (next ∷ list) first (second, rest) =
    elim (Bool-cases (ltb new.expires next.expires)) [
      | inl h ↦ rw h (first, (second, rest))
      | inr h ↦ rw h (
        second,
        insert_timer-AllWakeable s (record new { expires = new.expires - next.expires }) list first
            rest,
      )
    ]

remove_timer-AllWakeable :
    (s : Sched) (timer : ℕ) (list : List Timer)
    → AllWakeable s list
    → AllWakeable s (remove_timer timer list)
unfolding remove_timer
remove_timer-AllWakeable s timer [] all = tt
remove_timer-AllWakeable s timer (next ∷ list) (first, rest) =
    elim (Bool-cases (next.timer == timer)) [
      | inl h ↦ elim (Bool-cases (next.expires == 0)) [
        | inl now ↦ rw (h, now) rest
        | inr later ↦ rw (h, later) (delayed list rest)
      ]
      | inr h ↦ rw h (first, remove_timer-AllWakeable s timer list rest)
    ]
  where
    delayed :
        (list : List Timer) → AllWakeable s list → AllWakeable s (delay_next next.expires list)
    delayed [] all = tt
    delayed (second ∷ list) (wakeable, rest) = (wakeable, rest)

remove_timer-Waits : (timer : ℕ) (list : List Timer) → Waits list → Waits (remove_timer timer list)
unfolding remove_timer
remove_timer-Waits timer [] waits = tt
remove_timer-Waits timer (next ∷ list) waits = elim (Bool-cases (next.timer == timer)) [
  | inl h ↦ let later : (next.expires == 0) ≡ false = ground arith in rw (h, later) (delayed list)
  | inr h ↦ rw h waits
]
  where
    delayed : (list : List Timer) → Waits (delay_next next.expires list)
    delayed [] = tt
    delayed (second ∷ list) = omega (arith, waits)

pub insert_timer-IsTimed :
    (s : Sched) (new : Timer)
    → IsTimed s
    → IsWakeable s new.proc
    → 0 < new.expires
    → IsTimed (record s { timer_list = insert_timer new s.timer_list })
insert_timer-IsTimed s new timed wakeable more =
    let list = insert_timer new s.timer_list in
    record {
      good = retimed-IsSched s list timed.good;
      first_waits = insert_timer-Waits new s.timer_list more timed.first_waits;
      wakeable =
          AllWakeable-Woken s _ list (retimed s list)
            (insert_timer-AllWakeable s new s.timer_list wakeable timed.wakeable);
    }

-- The branches of `add_timer`.
pub data AddsTimer (s : Sched) (new : Timer) : Result Sched → Type 0 where
  no_ticks : new.expires ≡ 0 → AddsTimer s new panic
  no_process : new.proc ≡ 0 → AddsTimer s new panic
  pending : is_pending new.timer s.timer_list ≡ true → AddsTimer s new panic
  added :
      {s' : Sched}
      → 0 < new.expires
      → new.proc ≢ 0
      → is_pending new.timer s.timer_list ≡ false
      → due 0 s'.timer_list ≡ put new (due 0 s.timer_list)
      → IsTimed s'
      → AddsTimer s new (returned s')

-- `add_timer` on a well-formed scheduler, of a timer whose process may be woken: a panic for a
-- timer without ticks or process, or one that is on the list; else the ticks that are left of
-- each timer are as they were, with the new one in order, behind those that expire no later, and
-- the scheduler stays well formed.
pub add_timer-AddsTimer :
    (s : Sched) (new : Timer)
    → IsTimed s
    → IsWakeable s new.proc
    → AddsTimer s new (add_timer s new)
unfolding add_timer
add_timer-AddsTimer s new timed wakeable = elim (Bool-cases (ltb 0 new.expires)) [
  | inl more ↦ elim (Bool-cases (new.proc == 0)) [
    | inl null ↦ rw (more, null) (no_process (ground arith))
    | inr some_proc ↦ elim (Bool-cases (is_pending new.timer s.timer_list)) [
      | inl h ↦ rw (more, some_proc, h) (pending h)
      | inr h ↦
          rw (more, some_proc, h)
            (added (grind tests) (ground arith) h (due-insert_timer new s.timer_list)
              (insert_timer-IsTimed s new timed wakeable (grind tests)))
    ]
  ]
  | inr none_left ↦ rw none_left (no_ticks (grind tests))
]

-- What `del_timer` does: the other timers keep the ticks that they have left.
pub record DelsTimer (s : Sched) (timer : ℕ) (s' : Sched) : Type 0 where
  pub timers : due 0 s'.timer_list ≡ without timer (due 0 s.timer_list)
  pub timed : IsTimed s'

-- `del_timer` on a well-formed scheduler takes one timer out, leaves the ticks of the others as
-- they were, and the scheduler stays well formed.
pub del_timer-DelsTimer :
    (s : Sched) (timer : ℕ) → IsTimed s → DelsTimer s timer (del_timer s timer)
del_timer-DelsTimer s timer timed =
    let list = remove_timer timer s.timer_list in
    record {
      timers = due-remove_timer timer s.timer_list;
      timed = record {
        good = retimed-IsSched s list timed.good;
        first_waits = remove_timer-Waits timer s.timer_list timed.first_waits;
        wakeable =
            AllWakeable-Woken s _ list (retimed s list)
              (remove_timer-AllWakeable s timer s.timer_list timed.wakeable);
      };
    }
