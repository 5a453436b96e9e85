-- ===== src/Kernel/Vma/Areas.antt =====
-- Well-formed address spaces of ucore_OS/kern/mm/vmm.c: areas that are not empty, sorted, and apart.
use mips32_cpu_emulator.Prelude.{
  ℕ, ◌≤◌, ◌<◌, true, false, ◌⊎◌, Option, some, none, List, [], ◌∷◌, length, ◌≡◌, inl, inr, leb,
  ltb→lt, leb→le, arith, tests, Bool-cases,
}
use mips32_cpu_emulator.Kernel.Vma.{Vma, Mm, contains, user_access}

-- The areas from `low` on.
abbrev pub AreasFrom : ℕ → List Vma → Type 0
AreasFrom low [] = Unit {0}
AreasFrom low (vma ∷ list) =
    (low ≤ vma.vm_start) × (vma.vm_start < vma.vm_end) × AreasFrom vma.vm_end list

-- Membership, with its place.
pub data Has (vma : Vma) : List Vma → Type 0 where
  here : {list : List Vma} → Has vma (vma ∷ list)
  further : {other : Vma} {list : List Vma} → Has vma list → Has vma (other ∷ list)

abbrev pub Cached : Option Vma → List Vma → Type 0
Cached none list = Unit {0}
Cached (some vma) list = Has vma list

pub record IsMm (mm : Mm) : Type 0 where
  pub sorted : AreasFrom 0 mm.mmap_list
  pub cached : Cached mm.mmap_cache mm.mmap_list
  pub counted : mm.map_count ≡ length mm.mmap_list

abbrev pub InArea : Vma → ℕ → Type 0
InArea vma addr = (vma.vm_start ≤ addr) × (addr < vma.vm_end)

pub contains-InArea : (vma : Vma) (addr : ℕ) → contains vma addr ≡ true → InArea vma addr
contains-InArea vma addr h = elim (Bool-cases (leb vma.vm_start addr)) [
  | inl from ↦ (leb→le _ _ from, ltb→lt _ _ (rw from at h))
  | inr under ↦ absurd (ground arith)
]

pub InArea-contains : (vma : Vma) (addr : ℕ) → InArea vma addr → contains vma addr ≡ true
InArea-contains vma addr (from, below) = grind tests

-- An area of the list lies above `low`.
pub AreasFrom-Has :
    (low : ℕ) (list : List Vma) (vma : Vma)
    → AreasFrom low list
    → Has vma list
    → (low ≤ vma.vm_start) × (vma.vm_start < vma.vm_end)
AreasFrom-Has low [] vma sorted has = elim has [ ]
AreasFrom-Has low (_ ∷ list) vma (from, area, above) here = (from, area)
AreasFrom-Has low (other ∷ list) vma (from, area, above) (further has) =
    let later = AreasFrom-Has other.vm_end list vma above has in (omega (arith, later.0), later.1)

-- A range of user memory.
abbrev pub IsUser : ℕ → ℕ → Type 0
IsUser start end = (0x00200000 ≤ start) × (start < end) × (end ≤ 0x80000000)

pub user_access-cases :
    (start end : ℕ)
    → ((user_access start end ≡ true) × IsUser start end)
      ⊎ ((user_access start end ≡ false) × (¬ IsUser start end))
user_access-cases start end = elim (Bool-cases (user_access start end)) [
  | inl h ↦ inl (h, (grind tests, grind tests, grind tests))
  | inr h ↦ inr (h, λ u. absurd (ground arith))
]
