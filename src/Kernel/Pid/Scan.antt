-- ===== src/Kernel/Pid/Scan.antt =====
-- What a scan of the list in `get_pid` of ucore_OS/kern/process/proc.c finds.
use mips32_cpu_emulator.Prelude.{
  ℕ, suc, ◌<◌, ◌≤◌, true, false, ◌&&◌, List, [], ◌∷◌, ltb, leb, ◌==◌, if◌then◌else◌, ◌≡◌, ◌⊎◌, inl,
  inr, refl, arith, Bool-cases, tests,
}
use mips32_cpu_emulator.Kernel.RoundRobin.{is_linked}
use mips32_cpu_emulator.Kernel.Pid.{Scanned, scanned, again, scan_pids, max_pid}

-- No identifier of the list is in the range from `from` to below `to`.
abbrev pub Unused : ℕ → ℕ → List ℕ → Type 0
Unused from to [] = Unit {0}
Unused from to (pid ∷ list) = ((pid < from) ⊎ (to ≤ pid)) × Unused from to list

pub Unused-narrow :
    (from to from' to' : ℕ) (list : List ℕ)
    → from ≤ from'
    → to' ≤ to
    → Unused from to list
    → Unused from' to' list
Unused-narrow from to from' to' [] low high unused = tt
Unused-narrow from to from' to' (pid ∷ list) low high (outside, unused) =
    (omega (arith, outside, low, high), Unused-narrow from to from' to' list low high unused)

-- The end of a scan from `last_pid` with `next_safe`, where `q` is an identifier that is not on the list.
pub data Scans (list : List ℕ) (q last_pid next_safe : ℕ) : Scanned → Type 0 where
  ends :
      {last safe : ℕ}
      → last_pid ≤ last
      → last < safe
      → safe ≤ next_safe
      → Unused last safe list
      → Scans list q last_pid next_safe (scanned last safe)
  restarts :
      {last next : ℕ}
      → last_pid ≤ last
      → last < max_pid
      → (last_pid ≤ q → last < q)
      → next ≡ (if leb max_pid (suc last) then 1 else suc last)
      → Scans list q last_pid next_safe (again next)

-- One more element in front.
Scans-cons :
    (pid : ℕ) (list : List ℕ) (q last_pid next_safe last_pid' next_safe' : ℕ) (result : Scanned)
    → last_pid ≤ last_pid'
    → next_safe' ≤ next_safe
    → (last_pid ≤ q → last_pid' ≤ q)
    → (pid < last_pid') ⊎ (next_safe' ≤ pid)
    → Scans list q last_pid' next_safe' result
    → Scans (pid ∷ list) q last_pid next_safe result
Scans-cons pid list q last_pid next_safe last_pid' next_safe' _ low high keeps outside
      (ends {last} {safe} up below within unused) =
    ends (omega (arith, low, up)) below (omega (arith, high, within))
      (omega (arith, outside, up, within), unused)
Scans-cons pid list q last_pid next_safe last_pid' next_safe' _ low high keeps outside
      (restarts up below before next) =
    restarts (omega (arith, low, up)) below (λ h. before (keeps h)) next

-- A scan that starts with no identifier seen.
pub scan_pids-Scans :
    (list : List ℕ) (q last_pid next_safe : ℕ)
    → is_linked q list ≡ false
    → last_pid < next_safe
    → next_safe ≤ max_pid
    → Scans list q last_pid next_safe (scan_pids list last_pid next_safe)
unfolding scan_pids is_linked
scan_pids-Scans [] q last_pid next_safe free below fits = ends (omega arith) below (omega arith) tt
scan_pids-Scans (pid ∷ list) q last_pid next_safe free below fits = elim (Bool-cases (pid == q)) [
  | inl h ↦ let both : true ≡ false = rw h at free in absurd cc
  | inr apart ↦
      let free' : is_linked q list ≡ false = rw apart at free in
      elim (Bool-cases (pid == last_pid)) [
        | inl hit ↦ elim (Bool-cases (leb next_safe (suc last_pid))) [
          | inl full ↦
              rw (hit, full)
                (restarts (omega arith) (omega (arith, below, fits)) (λ h. ground arith) refl)
          | inr room ↦
              rw (hit, room)
                (Scans-cons pid list q last_pid next_safe (suc last_pid) next_safe _ (omega arith)
                  (omega arith) (λ h. ground arith) (inl (ground arith))
                  (scan_pids-Scans list q (suc last_pid) next_safe free' (grind tests) fits))
        ]
        | inr miss ↦ elim (Bool-cases (ltb last_pid pid && ltb pid next_safe)) [
          | inl near ↦
              rw (miss, near)
                (Scans-cons pid list q last_pid next_safe last_pid pid _ (omega arith)
                  (ground arith) (λ h. h) (inr (omega arith))
                  (scan_pids-Scans list q last_pid pid free' (ground arith) (ground arith)))
          | inr far ↦
              rw (miss, far)
                (Scans-cons pid list q last_pid next_safe last_pid next_safe _ (omega arith)
                  (omega arith) (λ h. h) (ground arith)
                  (scan_pids-Scans list q last_pid next_safe free' below fits))
        ]
      ]
]
