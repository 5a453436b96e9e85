-- ===== src/Kernel/RoundRobin/Queue.antt =====
-- The run queue of ucore_OS/kern/schedule/default_sched.c: its order, its count and its time slices.
use mips32_cpu_emulator.Prelude.{
  ℕ, ◌+◌, ◌≤◌, ◌<◌, true, false, some, List, [], ◌∷◌, ◌++◌, length, length-append, ◌==◌, ==_iff,
  ◌≡◌, inl, inr, refl, ap, arith, Bool-cases, tests,
}
use mips32_cpu_emulator.Kernel.Result.{Result, returned, panic}
use mips32_cpu_emulator.Kernel.RoundRobin.{
  Proc, RunQueue, set_proc, is_linked, full_slice, rr_enqueue, unlink, rr_dequeue, rr_pick_next,
  appended, taken_off,
}

-- The processes of a list have slices that are neither used up nor too long.
abbrev pub Slices : (ℕ → Proc) → ℕ → List ℕ → Type 0
Slices procs most [] = Unit {0}
Slices procs most (p ∷ list) =
    (0 < (procs p).time_slice) × ((procs p).time_slice ≤ most) × Slices procs most list

pub record IsRunQueue (rq : RunQueue) : Type 0 where
  pub some_slice : 0 < rq.max_time_slice
  pub counted : rq.proc_num ≡ length rq.run_list
  pub slices : Slices rq.procs rq.max_time_slice rq.run_list

pub length-unlink :
    (proc : ℕ) (list : List ℕ)
    → is_linked proc list ≡ true
    → length (unlink proc list) + 1 ≡ length list
unfolding is_linked unlink
length-unlink proc [] linked = absurd cc
length-unlink proc (p ∷ list) linked = elim (Bool-cases (p == proc)) [
  | inl h ↦ rw h (omega arith)
  | inr h ↦ rw h (omega (arith, length-unlink proc list (rw h at linked)))
]

Slices-unlink :
    (procs : ℕ → Proc) (most proc : ℕ) (list : List ℕ)
    → Slices procs most list
    → Slices procs most (unlink proc list)
unfolding unlink
Slices-unlink procs most proc [] slices = tt
Slices-unlink procs most proc (p ∷ list) (some_left, bounded, rest) =
    elim (Bool-cases (p == proc)) [
      | inl h ↦ rw h rest
      | inr h ↦ rw h (some_left, bounded, Slices-unlink procs most proc list rest)
    ]

full_slice_lem :
    (rq : RunQueue) (slice : ℕ)
    → 0 < rq.max_time_slice
    → (0 < full_slice rq slice) × (full_slice rq slice ≤ rq.max_time_slice)
full_slice_lem rq slice some_slice = (grind tests, grind tests)

pub Slices-append :
    (rq : RunQueue) (proc : ℕ) (value : Proc) (list : List ℕ)
    → is_linked proc list ≡ false
    → 0 < value.time_slice
    → value.time_slice ≤ rq.max_time_slice
    → Slices rq.procs rq.max_time_slice list
    → Slices (set_proc rq proc value).procs rq.max_time_slice (list ++ (proc ∷ []))
unfolding is_linked
Slices-append rq proc value [] apart some_left bounded slices =
    let same : (proc == proc) ≡ true = (==_iff proc proc).1 refl in rw same (some_left, bounded, tt)
Slices-append rq proc value (p ∷ list) apart some_left bounded (left, most, rest) =
    elim (Bool-cases (p == proc)) [
      | inl h ↦ let both : true ≡ false = rw h at apart in absurd cc
      | inr h ↦
          let apart' : is_linked proc list ≡ false = rw h at apart in
          let other : (proc == p) ≡ false = ground arith in
          let later = Slices-append rq proc value list apart' some_left bounded rest in
          rw other (left, most, later)
    ]

pub appended-IsRunQueue :
    (rq : RunQueue) (proc : ℕ)
    → IsRunQueue rq
    → is_linked proc rq.run_list ≡ false
    → IsRunQueue (appended rq proc)
appended-IsRunQueue rq proc well apart =
    let slice = full_slice_lem rq (rq.procs proc).time_slice well.some_slice in
    record {
      some_slice = well.some_slice;
      counted = omega (arith, well.counted, length-append rq.run_list (proc ∷ []));
      slices = Slices-append rq proc _ rq.run_list apart slice.0 slice.1 well.slices;
    }

pub taken_off-IsRunQueue :
    (rq : RunQueue) (proc : ℕ)
    → IsRunQueue rq
    → is_linked proc rq.run_list ≡ true
    → IsRunQueue (taken_off rq proc)
taken_off-IsRunQueue rq proc well linked = record {
  some_slice = well.some_slice;
  counted = omega (arith, well.counted, length-unlink proc rq.run_list linked);
  slices = Slices-unlink rq.procs rq.max_time_slice proc rq.run_list well.slices;
}

-- What `RR_enqueue` gives on each branch.
pub data Enqueues (rq : RunQueue) (proc : ℕ) : Result RunQueue → Type 0 where
  last :
      {rq' : RunQueue}
      → is_linked proc rq.run_list ≡ false
      → rq'.run_list ≡ rq.run_list ++ (proc ∷ [])
      → IsRunQueue rq'
      → Enqueues rq proc (returned rq')
  twice : is_linked proc rq.run_list ≡ true → Enqueues rq proc panic

-- `RR_enqueue` on a well-formed run queue panics exactly for a process that is on the queue.
-- Otherwise the process is the last one of the queue, which stays well formed: its count is exact, and
-- each process on it has a slice between 1 and the longest one.
pub rr_enqueue-Enqueues :
    (rq : RunQueue) (proc : ℕ) → IsRunQueue rq → Enqueues rq proc (rr_enqueue rq proc)
unfolding rr_enqueue
rr_enqueue-Enqueues rq proc well = elim (Bool-cases (is_linked proc rq.run_list)) [
  | inl h ↦ rw h (twice h)
  | inr h ↦ rw h (last h refl (appended-IsRunQueue rq proc well h))
]

-- What `RR_dequeue` gives on each branch.
pub data Dequeues (rq : RunQueue) (proc : ℕ) : Result RunQueue → Type 0 where
  removed :
      {rq' : RunQueue}
      → is_linked proc rq.run_list ≡ true
      → rq'.run_list ≡ unlink proc rq.run_list
      → rq'.procs ≡ rq.procs
      → IsRunQueue rq'
      → Dequeues rq proc (returned rq')
  absent : is_linked proc rq.run_list ≡ false → Dequeues rq proc panic

-- `RR_dequeue` on a well-formed run queue panics exactly for a process that is not on the queue.
-- Otherwise it unlinks the process and keeps the queue well formed.
pub rr_dequeue-Dequeues :
    (rq : RunQueue) (proc : ℕ) → IsRunQueue rq → Dequeues rq proc (rr_dequeue rq proc)
unfolding rr_dequeue
rr_dequeue-Dequeues rq proc well = elim (Bool-cases (is_linked proc rq.run_list)) [
  | inl h ↦ rw h (removed h refl refl (taken_off-IsRunQueue rq proc well h))
  | inr h ↦ rw h (absent h)
]

-- After the first process of a queue was taken off and put on again.
pub record Turn (rq : RunQueue) (proc : ℕ) (list : List ℕ) : Type 0 where
  pub picked : rr_pick_next rq ≡ some proc
  pub without : RunQueue
  pub taken : rr_dequeue rq proc ≡ returned without
  pub behind : RunQueue
  pub put : rr_enqueue without proc ≡ returned behind
  pub rotated : behind.run_list ≡ list ++ (proc ∷ [])
  pub well_formed : IsRunQueue behind

-- A turn of the scheduler on a well-formed queue whose first process stands on it once:
-- `RR_pick_next` picks that process, `RR_dequeue` and a later `RR_enqueue` of it succeed, the queue is
-- rotated by one place, and it is well formed again.
pub rr_enqueue-rr_dequeue :
    (rq : RunQueue) (proc : ℕ) (list : List ℕ)
    → IsRunQueue rq
    → rq.run_list ≡ proc ∷ list
    → is_linked proc list ≡ false
    → Turn rq proc list
unfolding rr_dequeue rr_enqueue rr_pick_next is_linked unlink
rr_enqueue-rr_dequeue rq proc list well first once =
    let same : (proc == proc) ≡ true = (==_iff proc proc).1 refl in
    let linked : is_linked proc rq.run_list ≡ true = rw (first, same) refl in
    let left : unlink proc rq.run_list ≡ list = rw (first, same) refl in
    let apart : is_linked proc (unlink proc rq.run_list) ≡ false = rw left once in
    record {
      picked = rw first refl;
      without = taken_off rq proc;
      taken = rw linked refl;
      behind = appended (taken_off rq proc) proc;
      put = rw apart refl;
      rotated = ap (λ (l : List ℕ). l ++ (proc ∷ [])) left;
      well_formed =
          appended-IsRunQueue (taken_off rq proc) proc (taken_off-IsRunQueue rq proc well linked)
            apart;
    }
