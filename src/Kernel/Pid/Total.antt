-- ===== src/Kernel/Pid/Total.antt =====
-- `get_pid` of ucore_OS/kern/process/proc.c ends with an identifier that no process has.
use mips32_cpu_emulator.Prelude.{
  ℕ, zero, suc, ◌+◌, ◌-◌, ◌*◌, ◌<◌, ◌≤◌, true, false, Option, some, List, [], ◌∷◌, length, leb,
  ◌==◌, if◌then◌else◌, ◌≡◌, inl, inr, refl, arith, Bool-cases,
}
use mips32_cpu_emulator.Kernel.RoundRobin.{is_linked, unlink}
use mips32_cpu_emulator.Kernel.RoundRobin.Queue.{length-unlink}
use mips32_cpu_emulator.Kernel.Pid.{
  Pids, Scanned, scan_pids, after_scan, repeat_scan, get_pid, max_pid,
}
use mips32_cpu_emulator.Kernel.Pid.Scan.{
  Unused, Unused-narrow, Scans, ends, restarts, scan_pids-Scans,
}

Unused-unlinked :
    (from to q : ℕ) (list : List ℕ)
    → Unused from to list
    → from ≤ q
    → q < to
    → is_linked q list ≡ false
unfolding is_linked
Unused-unlinked from to q [] unused low high = refl
Unused-unlinked from to q (pid ∷ list) (outside, unused) low high =
    let apart : (pid == q) ≡ false = ground arith in
    rw apart (Unused-unlinked from to q list unused low high)

unlinked-unlink :
    (q k : ℕ) (list : List ℕ)
    → q < k
    → is_linked q (unlink k list) ≡ false
    → is_linked q list ≡ false
unfolding is_linked unlink
unlinked-unlink q k [] below free = refl
unlinked-unlink q k (p ∷ list) below free = elim (Bool-cases (p == k)) [
  | inl h ↦
      let apart : (p == q) ≡ false = ground arith in
      let rest : is_linked q list ≡ false = rw h at free in rw (apart, rest) refl
  | inr h ↦ elim (Bool-cases (p == q)) [
    | inl hit ↦ let both : true ≡ false = rw (h, hit) at free in absurd cc
    | inr miss ↦
        let rest : is_linked q (unlink k list) ≡ false = rw (h, miss) at free in
        rw miss (unlinked-unlink q k list below rest)
  ]
]

-- Fewer identifiers than `k` leave one of 1 to `k` free.
free_pid :
    (k : ℕ) (list : List ℕ)
    → length list < k
    → (q : ℕ) × (0 < q) × (q ≤ k) × (is_linked q list ≡ false)
free_pid zero list fewer = absurd (omega (arith, fewer))
free_pid (suc k) list fewer = elim (Bool-cases (is_linked (suc k) list)) [
  | inr h ↦ (suc k, omega arith, omega arith, h)
  | inl h ↦
      let (q, low, high, free) =
        free_pid k (unlink (suc k) list) (omega (arith, length-unlink (suc k) list h, fewer)) in
      (q, low, omega (arith, high), unlinked-unlink q (suc k) list (omega (arith, high)) free)
]

-- What `get_pid` gives: an identifier in the range that is not on the list, and none on the list from it
-- to `next_safe`, also when its process is.
pub data GetsPid (list : List ℕ) : Option Pids → Type 0 where
  fresh :
      {s : Pids}
      → 0 < s.last_pid
      → s.last_pid < max_pid
      → is_linked s.last_pid list ≡ false
      → Unused (suc s.last_pid) s.next_safe (s.last_pid ∷ list)
      → GetsPid list (some s)

-- The steps from `last_pid` up and around to `q`.
abbrev distance : ℕ → ℕ → ℕ
distance q last_pid = if leb last_pid q then q - last_pid else max_pid - last_pid + q

repeat_scan-GetsPid :
    (fuel : ℕ) (list : List ℕ) (q last_pid : ℕ)
    → 0 < q
    → q < max_pid
    → is_linked q list ≡ false
    → 0 < last_pid
    → last_pid < max_pid
    → distance q last_pid < fuel
    → GetsPid list (repeat_scan fuel list last_pid)
unfolding repeat_scan
repeat_scan-GetsPid zero list q last_pid q_low q_high free low high enough =
    absurd (omega (arith, enough))
repeat_scan-GetsPid (suc fuel) list q last_pid q_low q_high free low high enough =
    from_scan (scan_pids list last_pid max_pid)
      (λ next. repeat_scan-GetsPid fuel list q next q_low q_high free)
      (scan_pids-Scans list q last_pid max_pid free high (omega arith))
  where
    from_scan :
        (result : Scanned)
        → ((next : ℕ)
            → 0 < next
            → next < max_pid
            → distance q next < fuel
            → GetsPid list (repeat_scan fuel list next))
        → Scans list q last_pid max_pid result
        → GetsPid list (after_scan (repeat_scan fuel list) result)
    from_scan _ further (ends {last} {safe} up below within unused) =
        fresh (omega (arith, low, up)) (omega (arith, below, within))
          (Unused-unlinked last safe last list unused (omega arith) below)
          (
            inl (omega arith),
            Unused-narrow last safe (suc last) safe list (omega arith) (omega arith) unused,
          )
    from_scan _ further (restarts {last} {next} up below before same) =
        further next (ground arith) (ground arith) (ground arith)

-- From any state of the static variables that an earlier call has left, and with fewer processes than
-- identifiers, `get_pid` ends: twice MAX_PID rounds are enough. It returns an identifier from 1 to below
-- MAX_PID that no process on the list has, and leaves the variables as a later call wants them, also when
-- the new process is on the list.
pub get_pid-GetsPid :
    (fuel : ℕ) (list : List ℕ) (s : Pids)
    → Unused (suc s.last_pid) s.next_safe list
    → suc (length list) < max_pid
    → 2 * max_pid ≤ fuel
    → GetsPid list (get_pid fuel list s)
unfolding get_pid
get_pid-GetsPid fuel list s unused fewer enough =
    let (q, low, high, free) = free_pid (max_pid - 1) list (omega (arith, fewer)) in
    elim (Bool-cases (leb max_pid (suc s.last_pid))) [
      | inl top ↦ rw top (
          repeat_scan-GetsPid fuel list q 1 low (omega (arith, high)) free (omega arith)
            (omega arith) (ground arith))
      | inr room ↦ elim (Bool-cases (leb s.next_safe (suc s.last_pid))) [
        | inl unsafe ↦
            rw (room, unsafe)
              (repeat_scan-GetsPid fuel list q (suc s.last_pid) low (omega (arith, high)) free
                (omega arith) (ground arith) (ground arith))
        | inr safe ↦
            rw (room, safe)
              (fresh (omega arith) (ground arith)
                (Unused-unlinked (suc s.last_pid) s.next_safe (suc s.last_pid) list unused
                  (omega arith) (ground arith))
                (
                  inl (omega arith),
                  Unused-narrow (suc s.last_pid) s.next_safe (suc (suc s.last_pid)) s.next_safe list
                      (omega arith) (omega arith) unused,
                ))
      ]
    ]
