-- ===== src/Kernel/Pid/Tests.antt =====
-- The theorem on `get_pid` at a concrete input.
use mips32_cpu_emulator.Prelude.{[], ◌∷◌, ◌≡◌, inr, refl, arith, some}
use mips32_cpu_emulator.Kernel.Pid.{Pids, get_pid, repeat_scan, scan_pids}
use mips32_cpu_emulator.Kernel.Pid.Total.{GetsPid, get_pid-GetsPid}

-- The last identifier was 2, and none is known to be free.
abbrev late : Pids
late = record { last_pid = 2; next_safe = 3 }

-- 3, 4 and 7 are in use: the scan goes on to 5.
get_pid_three : get_pid 2 (4 ∷ 3 ∷ 7 ∷ []) late ≡ some (record { last_pid = 5; next_safe = 7 })
unfolding get_pid repeat_scan scan_pids
get_pid_three = refl

get_pid-GetsPid_example : GetsPid (4 ∷ 3 ∷ 7 ∷ []) (get_pid 16384 (4 ∷ 3 ∷ 7 ∷ []) late)
get_pid-GetsPid_example =
    get_pid-GetsPid 16384 (4 ∷ 3 ∷ 7 ∷ []) late
      (inr (omega arith), (inr (omega arith), (inr (omega arith), tt))) (omega arith) (omega arith)
