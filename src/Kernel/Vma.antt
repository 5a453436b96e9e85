-- ===== src/Kernel/Vma.antt =====
-- The areas of a user address space: ucore_OS/kern/mm/vmm.c. `Mm` has the fields of `mm_struct`
-- that these functions use. An area does not change once it is in the list, so the pointer
-- `mmap_cache` is a copy of the area that it points to. A parameter `mm` that may be NULL is an Option.
pub mod Areas
pub mod Find
pub mod Insert
pub mod Map
pub mod Check
use mips32_cpu_emulator.Prelude.{
  ℕ, zero, suc, ◌+◌, ◌-◌, ◌%◌, ◌^◌, bit_and, Bool, true, false, not, ◌&&◌, Option, none, some, List,
  [], ◌∷◌, ltb, leb, ◌==◌, if◌then◌else◌,
}
use mips32_cpu_emulator.Kernel.Result.{Result, returned, failed, panic, linked, e_no_mem, e_inval}

pub record Vma : Type 0 where
  pub vm_start : ℕ
  pub vm_end : ℕ
  pub vm_flags : ℕ

pub record Mm : Type 0 where
  pub mmap_list : List Vma
  pub mmap_cache : Option Vma
  pub map_count : ℕ

abbrev pub page_size : ℕ
page_size = 4096

abbrev pub vm_read : ℕ
vm_read = 1

abbrev pub vm_write : ℕ
vm_write = 2

abbrev pub vm_stack : ℕ
vm_stack = 8

abbrev pub user_access : ℕ → ℕ → Bool
user_access start end = leb 0x00200000 start && (ltb start end && leb end 0x80000000)

abbrev pub kern_access : ℕ → ℕ → Bool
kern_access start end = leb 0x80000000 start && (ltb start end && leb end 0x80800000)

-- `ROUNDDOWN` and `ROUNDUP` of ucore_OS/libs/defs.h to a page.
abbrev pub round_down : ℕ → ℕ
round_down a = a - a % page_size

abbrev pub round_up : ℕ → ℕ
round_up a = round_down ((a + page_size - 1) % 2 ^ 32)

-- The new address space: no area, nothing cached.
abbrev pub mm_create : Mm
mm_create = record { mmap_list = []; mmap_cache = none; map_count = 0 }

-- `got` tells whether `kmalloc` returns memory.
abbrev pub vma_create : Bool → ℕ → ℕ → ℕ → Option Vma
vma_create got vm_start vm_end vm_flags =
    if got
    then some (record { vm_start = vm_start; vm_end = vm_end; vm_flags = vm_flags })
    else none

abbrev pub contains : Vma → ℕ → Bool
contains vma addr = leb vma.vm_start addr && ltb addr vma.vm_end

-- The search of the list.
unfoldable pub scan : List Vma → ℕ → Option Vma
scan [] addr = none
scan (vma ∷ list) addr = let rest = scan list addr in if contains vma addr then some vma else rest

abbrev pub hit : Option Vma → ℕ → Bool
hit none addr = false
hit (some vma) addr = contains vma addr

abbrev pub with_cache : Mm → Option Vma → Mm
with_cache mm none = mm
with_cache mm (some vma) = record mm { mmap_cache = some vma }

unfoldable pub find_vma : Mm → ℕ → Option Vma × Mm
find_vma mm addr =
    let vma = if hit mm.mmap_cache addr then mm.mmap_cache else scan mm.mmap_list addr in
    (vma, with_cache mm vma)

abbrev pub check_vma_overlap : Vma → Vma → Bool
check_vma_overlap prev next =
    ltb prev.vm_start prev.vm_end
    && (leb prev.vm_end next.vm_start && ltb next.vm_start next.vm_end)

abbrev pub after_prev : Option Vma → Vma → Bool
after_prev none vma = true
after_prev (some prev) vma = check_vma_overlap prev vma

-- The place of the new area: `le_prev` is the area before the place reached, if there is one.
unfoldable pub insert_from : Option Vma → List Vma → Vma → Result (List Vma)
insert_from le_prev [] vma = if after_prev le_prev vma then returned (vma ∷ []) else panic
insert_from le_prev (mmap_prev ∷ list) vma =
    let rest = linked mmap_prev (insert_from (some mmap_prev) list vma) in
    if ltb vma.vm_start mmap_prev.vm_start
    then (if after_prev le_prev vma && check_vma_overlap vma mmap_prev
        then returned (vma ∷ mmap_prev ∷ list)
        else panic)
    else rest

abbrev pub with_list : Mm → Result (List Vma) → Result Mm
with_list mm (returned list) =
    returned (record mm { mmap_list = list; map_count = mm.map_count + 1 })
with_list mm (failed code) = failed code
with_list mm panic = panic

unfoldable pub insert_vma_struct : Mm → Vma → Result Mm
insert_vma_struct mm vma =
    if ltb vma.vm_start vma.vm_end then with_list mm (insert_from none mm.mmap_list vma) else panic

-- `end > vma->vm_start` for the area that `find_vma` found.
abbrev pub begins_before : Option Vma → ℕ → Bool
begins_before none end = false
begins_before (some vma) end = ltb vma.vm_start end

-- What `mm_map` leaves: the address space, the negated error code, 0 for success, and the area that is
-- stored to `*vma_store`.
pub record Mapping : Type 0 where
  pub mm : Option Mm
  pub ret : ℕ
  pub vma_store : Option Vma

-- `mm_map` from the insertion on; `store` tells whether `vma_store` is not NULL.
abbrev pub with_store : Bool → Vma → Result Mm → Result Mapping
with_store store vma (returned mm) =
    returned (record { mm = some mm; ret = 0; vma_store = if store then some vma else none })
with_store store vma (failed code) = failed code
with_store store vma panic = panic

abbrev pub insert_created : Bool → Mm → Option Vma → Result Mapping
insert_created store mm none = returned (record { mm = some mm; ret = e_no_mem; vma_store = none })
insert_created store mm (some vma) = with_store store vma (insert_vma_struct mm vma)

-- `got` tells whether `vma_create` gets memory.
unfoldable pub mm_map : Bool → Option Mm → ℕ → ℕ → ℕ → Bool → Result Mapping
mm_map got none addr len vm_flags store =
    if user_access (round_down addr) (round_up ((addr + len) % 2 ^ 32))
    then panic
    else returned (record { mm = none; ret = e_inval; vma_store = none })
mm_map got (some mm) addr len vm_flags store =
    let start = round_down addr in
    let end = round_up ((addr + len) % 2 ^ 32) in
    let found = find_vma mm start in
    if user_access start end
    then (if begins_before found.0 end
        then returned (record { mm = some found.1; ret = e_inval; vma_store = none })
        else insert_created store found.1 (vma_create got start end vm_flags))
    else returned (record { mm = some mm; ret = e_inval; vma_store = none })

-- The tests that the loop of `user_mem_check` makes on an area.
abbrev pub permits : Vma → ℕ → Bool → Bool
permits vma start write =
    leb vma.vm_start start
    && (not (bit_and vma.vm_flags (if write then vm_write else vm_read) == 0)
        && not (
            write
            && (not (bit_and vma.vm_flags vm_stack == 0)
                && ltb start ((vma.vm_start + page_size) % 2 ^ 32))))

-- A round whose search found no area ends the loop.
abbrev pub with_area : Option Vma → Mm → (Vma → Option (Bool × Mm)) → Option (Bool × Mm)
with_area none mm rest = some (false, mm)
with_area (some vma) mm rest = rest vma

-- The loop, for at most `fuel` rounds; `none` when they are used up. The address space comes back
-- because every search may change its cache.
unfoldable pub check_areas : ℕ → ℕ → ℕ → Bool → Mm → Option (Bool × Mm)
check_areas zero start end write mm = none
check_areas (suc fuel) start end write mm =
    let found = find_vma mm start in
    let round = with_area found.0 found.1 λ vma.
      let rest = check_areas fuel vma.vm_end end write found.1 in
      if permits vma start write then rest else some (false, found.1) in
    if ltb start end then round else some (true, mm)

abbrev pub with_mm : Option (Bool × Mm) → Option (Bool × Option Mm)
with_mm none = none
with_mm (some (ok, mm)) = some (ok, some mm)

-- A round moves `start` up, so one round for each address, and the last test, are enough.
unfoldable pub user_mem_check : Option Mm → ℕ → ℕ → Bool → Option (Bool × Option Mm)
user_mem_check none addr len write = some (kern_access addr ((addr + len) % 2 ^ 32), none)
user_mem_check (some mm) addr len write =
    let end = (addr + len) % 2 ^ 32 in
    if user_access addr end
    then with_mm (check_areas (suc (end - addr)) addr end write mm)
    else some (false, some mm)
