-- ===== src/Kernel/Pid.antt =====
-- The choice of a process identifier: `get_pid` of ucore_OS/kern/process/proc.c. The list has the
-- identifiers of the processes on `proc_list`.
pub mod Scan
pub mod Total
mod Tests
use mips32_cpu_emulator.Prelude.{
  ℕ, zero, suc, ◌+◌, Bool, true, false, ◌&&◌, Option, none, some, List, [], ◌∷◌, ltb, leb, ◌==◌,
  if◌then◌else◌,
}

-- The static variables of `get_pid`.
pub record Pids : Type 0 where
  pub last_pid : ℕ
  pub next_safe : ℕ

abbrev pub max_process : ℕ
max_process = 4096

abbrev pub max_pid : ℕ
max_pid = 8192

abbrev pub pids_start : Pids
pids_start = record { last_pid = max_pid; next_safe = max_pid }

-- The loop over the list ends, or starts again with another `last_pid`.
pub data Scanned : Type 0 where
  scanned : ℕ → ℕ → Scanned
  again : ℕ → Scanned

unfoldable pub scan_pids : List ℕ → ℕ → ℕ → Scanned
scan_pids [] last_pid next_safe = scanned last_pid next_safe
scan_pids (pid ∷ list) last_pid next_safe =
    let higher = scan_pids list (suc last_pid) next_safe in
    let nearer = scan_pids list last_pid pid in
    let same = scan_pids list last_pid next_safe in
    if pid == last_pid
    then (if leb next_safe (suc last_pid)
        then again (if leb max_pid (suc last_pid) then 1 else suc last_pid)
        else higher)
    else if ltb last_pid pid && ltb pid next_safe
    then nearer
    else same

-- What follows a scan, with the way back to the label `repeat`.
abbrev pub after_scan : (ℕ → Option Pids) → Scanned → Option Pids
after_scan repeat (scanned last_pid next_safe) =
    some (record { last_pid = last_pid; next_safe = next_safe })
after_scan repeat (again last_pid) = repeat last_pid

-- From the label `repeat` on, for at most `fuel` rounds.
unfoldable pub repeat_scan : ℕ → List ℕ → ℕ → Option Pids
repeat_scan zero list last_pid = none
repeat_scan (suc fuel) list last_pid =
    after_scan (repeat_scan fuel list) (scan_pids list last_pid max_pid)

-- The new `last_pid` is the identifier that is returned.
unfoldable pub get_pid : ℕ → List ℕ → Pids → Option Pids
get_pid fuel list s =
    let last_pid = suc s.last_pid in
    if leb max_pid last_pid
    then repeat_scan fuel list 1
    else if leb s.next_safe last_pid
    then repeat_scan fuel list last_pid
    else some (record { last_pid = last_pid; next_safe = s.next_safe })
