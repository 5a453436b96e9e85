-- ===== src/Kernel/Vma/Map.antt =====
-- `mm_map` of ucore_OS/kern/mm/vmm.c: a new area for a range of addresses.
use mips32_cpu_emulator.Prelude.{
  ℕ, ◌+◌, ◌%◌, ◌^◌, ◌<◌, Bool, true, false, Option, some, none, List, ◌≡◌, ◌⊎◌, inl, inr, refl,
  subst, lt→ltb, arith, if◌then◌else◌,
}
use mips32_cpu_emulator.Kernel.Result.{Result, returned, panic, e_no_mem, e_inval}
use mips32_cpu_emulator.Kernel.Vma.{
  Vma, Mm, Mapping, round_down, round_up, begins_before, insert_created, insert_vma_struct,
  vma_create, with_store, find_vma, mm_map,
}
use mips32_cpu_emulator.Kernel.Vma.Areas.{Has, IsMm, InArea, IsUser, user_access-cases}
use mips32_cpu_emulator.Kernel.Vma.Find.{Located, at, nowhere, find_vma-Finds}
use mips32_cpu_emulator.Kernel.Vma.Insert.{
  Overlaps, Inserts, inserted, empty_area, overlapping, insert_vma_struct-Inserts,
}

-- What `mm_map` gives for an address space with the areas `list`, where `new` is the range in whole
-- pages and lies in user memory.
pub data MapsUser (got store : Bool) (list : List Vma) (new : Vma) : Result Mapping → Type 0 where
  occupied :
      {mm' : Mm} {other : Vma}
      → Has other list
      → InArea other new.vm_start
      → IsMm mm'
      → mm'.mmap_list ≡ list
      → MapsUser got store list new
          (returned (record { mm = some mm'; ret = e_inval; vma_store = none }))
  no_memory :
      {mm' : Mm}
      → got ≡ false
      → ((area : Vma) → Has area list → InArea area new.vm_start → ⊥)
      → IsMm mm'
      → mm'.mmap_list ≡ list
      → MapsUser got store list new
          (returned (record { mm = some mm'; ret = e_no_mem; vma_store = none }))
  mapped :
      {mm' : Mm}
      → got ≡ true
      → ((other : Vma) → Has other list → Overlaps new other → ⊥)
      → IsMm mm'
      → Has new mm'.mmap_list
      → ((other : Vma) → Has other list → Has other mm'.mmap_list)
      → ((other : Vma) → Has other mm'.mmap_list → (other ≡ new) ⊎ Has other list)
      → MapsUser got store list new (
          returned
            (record { mm = some mm'; ret = 0; vma_store = if store then some new else none }))
  crashed :
      {other : Vma}
      → got ≡ true
      → ((area : Vma) → Has area list → InArea area new.vm_start → ⊥)
      → Has other list
      → Overlaps new other
      → MapsUser got store list new panic

-- What `mm_map` gives on each branch.
pub data Maps (got store : Bool) (new : Vma) : Option Mm → Result Mapping → Type 0 where
  outside :
      {space : Option Mm}
      → ¬ IsUser new.vm_start new.vm_end
      → Maps got store new space (returned (record { mm = space; ret = e_inval; vma_store = none }))
  no_space : IsUser new.vm_start new.vm_end → Maps got store new none panic
  within :
      {mm : Mm} {result : Result Mapping}
      → IsUser new.vm_start new.vm_end
      → MapsUser got store mm.mmap_list new result
      → Maps got store new (some mm) result

module _ (store : Bool) (mm : Mm) (new : Vma) (area : new.vm_start < new.vm_end)
    (vacant : (other : Vma) → Has other mm.mmap_list → InArea other new.vm_start → ⊥) where
  Maps-Inserts :
      (r : Result Mm)
      → Inserts mm new r
      → MapsUser true store mm.mmap_list new (with_store store new r)
  Maps-Inserts _ (inserted _ apart well has kept only) = mapped refl apart well has kept only
  Maps-Inserts _ (empty_area empty) = absurd (omega arith)
  Maps-Inserts _ (overlapping has over) = crashed refl vacant has over

  Maps-created :
      (got : Bool)
      → IsMm mm
      → MapsUser got store mm.mmap_list new
          (insert_created store mm (vma_create got new.vm_start new.vm_end new.vm_flags))
  Maps-created false well = no_memory refl vacant well refl
  Maps-created true well =
      Maps-Inserts (insert_vma_struct mm new) (insert_vma_struct-Inserts mm new well)

-- The address space is well formed if there is one.
abbrev pub AllMm : Option Mm → Type 0
AllMm none = Unit {0}
AllMm (some mm) = IsMm mm

-- The range from `addr` on, in whole pages.
abbrev pub pages : ℕ → ℕ → ℕ → Vma
pages addr len vm_flags = record {
  vm_start = round_down addr;
  vm_end = round_up ((addr + len) % 2 ^ 32);
  vm_flags = vm_flags;
}

Maps-Located :
    (got store : Bool) (mm mm' : Mm) (new : Vma) (o : Option Vma)
    → new.vm_start < new.vm_end
    → IsMm mm'
    → mm'.mmap_list ≡ mm.mmap_list
    → Located mm.mmap_list new.vm_start o
    → MapsUser got store mm.mmap_list new (
        if begins_before o new.vm_end
        then returned (record { mm = some mm'; ret = e_inval; vma_store = none })
        else insert_created store mm' (vma_create got new.vm_start new.vm_end new.vm_flags))
Maps-Located got store mm mm' new (some vma) area well same (at has inside) =
    rw (lt→ltb vma.vm_start new.vm_end (omega (arith, inside.0))) (occupied has inside well same)
Maps-Located got store mm mm' new none area well same (nowhere vacant) =
    subst
      (λ (list : List Vma).
        MapsUser got store list new
          (insert_created store mm' (vma_create got new.vm_start new.vm_end new.vm_flags)))
      same
      (Maps-created store mm' new area (λ other has. vacant other (subst (Has other) same has)) got
        well)

-- `mm_map` on every branch, on no address space or a well-formed one. Outside user memory, from
-- 0x00200000 to 0x80000000, it is -E_INVAL and nothing changes. Inside it panics without an address space;
-- it is -E_INVAL and no new area for a range that begins in an area, -E_NO_MEM without memory; otherwise
-- the area of whole pages is added, and stored where a place for it is given, and the address space stays
-- well formed. It panics too where memory is given out for a range that begins in no area but overlaps a
-- later one.
pub mm_map-Maps :
    (got store : Bool) (space : Option Mm) (addr len vm_flags : ℕ)
    → AllMm space
    → Maps got store (pages addr len vm_flags) space (mm_map got space addr len vm_flags store)
unfolding mm_map
mm_map-Maps got store none addr len vm_flags well =
    let new = pages addr len vm_flags in
    elim (user_access-cases new.vm_start new.vm_end) [
      | inl (test, user) ↦ rw test (no_space user)
      | inr (test, other) ↦ rw test (outside other)
    ]
mm_map-Maps got store (some mm) addr len vm_flags well =
    let new = pages addr len vm_flags in
    let finds = find_vma-Finds mm new.vm_start well in
    elim (user_access-cases new.vm_start new.vm_end) [
      | inl (test, user) ↦ rw test (
          within user (
            Maps-Located got store mm (find_vma mm new.vm_start).1 new (find_vma mm new.vm_start).0
              user.1 finds.well_formed finds.list_kept finds.located))
      | inr (test, other) ↦ rw test (outside other)
    ]
