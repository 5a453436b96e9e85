-- ===== src/Kernel/Vma/Check.antt =====
-- `user_mem_check` of ucore_OS/kern/mm/vmm.c: may a process use a range of its memory?
use mips32_cpu_emulator.Prelude.{
  ℕ, zero, suc, ◌+◌, ◌-◌, ◌%◌, ◌^◌, ◌≤◌, ◌<◌, bit_and, Bool, true, false, Option, some, none, List,
  ◌≡◌, ◌⊎◌, inl, inr, refl, subst, ltb, ltb→lt, ◌==◌, arith, Bool-cases, Option-cases,
  if◌then◌else◌,
}
use mips32_cpu_emulator.Kernel.Vma.{
  Vma, Mm, permits, vm_read, vm_write, find_vma, check_areas, user_mem_check, with_mm, vm_stack,
  page_size,
}
use mips32_cpu_emulator.Kernel.Vma.Areas.{Has, IsMm, InArea, IsUser, user_access-cases}
use mips32_cpu_emulator.Kernel.Vma.Find.{Located, at, nowhere, find_vma-Finds}

-- The area has the flag for the access.
abbrev pub HasFlag : Vma → Bool → Type 0
HasFlag vma write = (bit_and vma.vm_flags (if write then vm_write else vm_read) == 0) ≡ false

abbrev pub IsStack : Vma → Type 0
IsStack vma = (bit_and vma.vm_flags vm_stack == 0) ≡ false

-- The address lies in an area with the flag for the access, and a write is not to the lowest page of a
-- stack.
abbrev pub Allowed : List Vma → Bool → ℕ → Type 0
Allowed list write addr =
    (vma : Vma) × Has vma list
    × InArea vma addr
    × HasFlag vma write
    × (write ≡ true → IsStack vma → vma.vm_start + page_size ≤ addr)

-- Why an address is refused: no area, an area without the flag, or a write to the lowest page of a stack.
pub data Refuses (list : List Vma) (write : Bool) (addr : ℕ) : Type 0 where
  no_area : ((vma : Vma) → Has vma list → InArea vma addr → ⊥) → Refuses list write addr
  no_flag :
      {vma : Vma} → Has vma list → InArea vma addr → ¬ HasFlag vma write → Refuses list write addr
  lowest_page :
      {vma : Vma}
      → Has vma list
      → InArea vma addr
      → write ≡ true
      → IsStack vma
      → addr < vma.vm_start + page_size
      → Refuses list write addr

-- What the loop gives for the addresses from `start` to `end`. There is no case for `none`.
data Checks (list : List Vma) (start end : ℕ) (write : Bool) : Option (Bool × Mm) → Type 0 where
  allowed :
      {mm : Mm}
      → ((addr : ℕ) → start ≤ addr → addr < end → Allowed list write addr)
      → IsMm mm
      → mm.mmap_list ≡ list
      → Checks list start end write (some (true, mm))
  denied :
      {mm : Mm} {addr : ℕ}
      → start ≤ addr
      → addr < end
      → Refuses list write addr
      → IsMm mm
      → mm.mmap_list ≡ list
      → Checks list start end write (some (false, mm))

-- What `user_mem_check` gives for a process with an address space.
pub data MemoryChecked (mm : Mm) (start end : ℕ) (write : Bool)
    : Option (Bool × Option Mm) → Type 0 where
  granted :
      {mm' : Mm}
      → IsUser start end
      → ((addr : ℕ) → start ≤ addr → addr < end → Allowed mm.mmap_list write addr)
      → IsMm mm'
      → mm'.mmap_list ≡ mm.mmap_list
      → MemoryChecked mm start end write (some (true, some mm'))
  rejected :
      {mm' : Mm} {addr : ℕ}
      → IsUser start end
      → start ≤ addr
      → addr < end
      → Refuses mm.mmap_list write addr
      → IsMm mm'
      → mm'.mmap_list ≡ mm.mmap_list
      → MemoryChecked mm start end write (some (false, some mm'))
  not_user : ¬ IsUser start end → MemoryChecked mm start end write (some (false, some mm))

MemoryChecked-with_mm :
    (mm : Mm) (start end : ℕ) (write : Bool) (r : Option (Bool × Mm))
    → IsUser start end
    → Checks mm.mmap_list start end write r
    → MemoryChecked mm start end write (with_mm r)
MemoryChecked-with_mm mm start end write _ user (allowed all well same) = granted user all well same
MemoryChecked-with_mm mm start end write _ user (denied from below refused well same) =
    rejected user from below refused well same

permits-cases :
    (list : List Vma) (vma : Vma) (start : ℕ) (write : Bool)
    → Has vma list
    → InArea vma start
    → start < 2 ^ 31
    → ((permits vma start write ≡ true)
        × HasFlag vma write
        × (write ≡ true → IsStack vma → vma.vm_start + page_size ≤ start))
      ⊎ ((permits vma start write ≡ false) × Refuses list write start)
permits-cases list vma start write has inside low = elim (Bool-cases (permits vma start write)) [
  | inl ok ↦ inl (ok, ground arith, λ w stack. ground arith)
  | inr refused ↦
      let flag = bit_and vma.vm_flags (if write then vm_write else vm_read) == 0 in
      elim (Bool-cases flag) [
        | inl missing ↦ inr (refused, no_flag has inside (λ given. absurd (cc (missing, given))))
        | inr given ↦
            inr (refused, lowest_page has inside (ground arith) (ground arith) (ground arith))
      ]
]

Checks-further :
    {list : List Vma} {start end : ℕ} {write : Bool} {r : Option (Bool × Mm)} (vma : Vma)
    → Has vma list
    → InArea vma start
    → HasFlag vma write
    → (write ≡ true → IsStack vma → vma.vm_start + page_size ≤ start)
    → Checks list vma.vm_end end write r
    → Checks list start end write r
Checks-further {start = start} vma has inside flag above (allowed rest well same) =
    allowed
      (λ addr from below. elim (Bool-cases (ltb addr vma.vm_end)) [
        | inl h ↦ (
          vma,
          has,
          (omega (arith, inside.0), ltb→lt _ _ h),
          flag,
          λ w stack. omega (arith, above w stack),
        )
        | inr h ↦ rest addr (ground arith) below
      ])
      well same
Checks-further vma has inside flag above (denied from below refused well same) =
    denied (omega (arith, inside.1)) below refused well same

Located-area :
    (list : List Vma) (addr : ℕ) (o : Option Vma) (vma : Vma)
    → Located list addr o
    → o ≡ some vma
    → Has vma list × InArea vma addr
Located-area list addr none vma located e = absurd cc
Located-area list addr (some found) vma (at has inside) e =
    let same : found ≡ vma = cc in
    (subst (λ v. Has v list) same has, subst (λ v. InArea v addr) same inside)

Located-vacant :
    (list : List Vma) (addr : ℕ) (o : Option Vma)
    → Located list addr o
    → o ≡ none
    → (vma : Vma) → Has vma list
    → InArea vma addr
    → ⊥
Located-vacant list addr _ (at has inside) e = absurd cc
Located-vacant list addr _ (nowhere vacant) e = vacant

check_areas-Checks :
    (fuel start end : ℕ) (write : Bool) (mm : Mm)
    → IsMm mm
    → end ≤ 2 ^ 31
    → end - start < fuel
    → Checks mm.mmap_list start end write (check_areas fuel start end write mm)
unfolding check_areas
check_areas-Checks zero start end write mm well low enough = absurd (omega arith)
check_areas-Checks (suc fuel) start end write mm well low enough =
    let finds = find_vma-Finds mm start well in
    elim (Bool-cases (ltb start end)) [
      | inr h ↦ rw h (allowed (λ addr from below. absurd (ground arith)) well refl)
      | inl h ↦ elim (Option-cases (find_vma mm start).0) [
        | inl e ↦
            rw (h, e)
              (denied (omega arith) (ltb→lt _ _ h)
                (no_area (Located-vacant mm.mmap_list start _ finds.located e)) finds.well_formed
                finds.list_kept)
        | inr (vma, e) ↦
            let area = Located-area mm.mmap_list start _ vma finds.located e in
            elim (permits-cases mm.mmap_list vma start write area.0 area.1
              (omega (arith, ltb→lt _ _ h))) [
                | inl (ok, flag, above) ↦
                    let rest =
                      check_areas-Checks fuel vma.vm_end end write (find_vma mm start).1
                        finds.well_formed low (omega (arith, area.1.1, ltb→lt _ _ h)) in
                    rw (h, e, ok)
                      (Checks-further vma area.0 area.1 flag above (
                        subst
                          (λ (list : List Vma).
                            Checks list vma.vm_end end write
                              (check_areas fuel vma.vm_end end write (find_vma mm start).1))
                          finds.list_kept rest))
                | inr (refused, reason) ↦
                    rw (h, e, refused)
                      (denied (omega arith) (ltb→lt _ _ h) reason finds.well_formed finds.list_kept)
              ]
      ]
    ]

-- `user_mem_check` for a well-formed address space always ends. It says yes only if the range is user
-- memory, from 0x00200000 to 0x80000000, and each of its addresses lies in an area with the flag for the
-- access, and for a write not in the lowest page of a stack. It says no only if the range is not user
-- memory, or an address of it lies in no area, in an area without the flag, or for a write in the lowest
-- page of a stack. Only the cache changes.
pub user_mem_check-Checks :
    (mm : Mm) (addr len : ℕ) (write : Bool)
    → IsMm mm
    → MemoryChecked mm addr ((addr + len) % 2 ^ 32) write (user_mem_check (some mm) addr len write)
unfolding user_mem_check
user_mem_check-Checks mm addr len write well =
    let end = (addr + len) % 2 ^ 32 in
    elim (user_access-cases addr end) [
      | inl (test, user) ↦ rw test (
          MemoryChecked-with_mm mm addr end write _ user
            (check_areas-Checks (suc (end - addr)) addr end write mm well user.2 (omega arith)))
      | inr (test, other) ↦ rw test (not_user other)
    ]
