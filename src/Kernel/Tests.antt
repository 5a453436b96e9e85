-- ===== src/Kernel/Tests.antt =====
-- The kernel's theorems at concrete inputs.
use mips32_cpu_emulator.Prelude.{
  inl, inr, leb, ltb, ◌&&◌, false, ◌==◌, ◌||◌, if◌then◌else◌, List, Option, ℕ, zero, suc, ◌%◌, ◌≤◌,
  ◌≡◌, refl, arith, some, [], ◌∷◌, true,
}
use mips32_cpu_emulator.Kernel.Result.{Result, returned, failed, panic}
use mips32_cpu_emulator.Bits.Digits.{digit, digit-zero}
use mips32_cpu_emulator.Kernel.Bitmap.{
  Bitmap, with_word, bitmap_create, mark_leftover, bitmap_alloc, bitmap_free, find_word,
  find_offset,
}
use mips32_cpu_emulator.Kernel.Bitmap.Free.{IsBitmap, free_bit}
use mips32_cpu_emulator.Kernel.Bitmap.Create.{Creates, bitmap_create-Creates}
use mips32_cpu_emulator.Kernel.Bitmap.Alloc.{Allocates, bitmap_alloc-Allocates}
use mips32_cpu_emulator.Kernel.Bitmap.Release.{
  Frees, Reusable, bitmap_free-Frees, bitmap_free-bitmap_alloc,
}
use mips32_cpu_emulator.Kernel.FirstFit.{
  Pmm, default_init_memmap, default_alloc_pages, first_fit, relink,
}
use mips32_cpu_emulator.Kernel.RoundRobin.{RunQueue, rr_proc_tick}
use mips32_cpu_emulator.Kernel.RoundRobin.Queue.{IsRunQueue}
use mips32_cpu_emulator.Kernel.FirstFit.Blocks.{IsPmm}
use mips32_cpu_emulator.Kernel.FirstFit.Init.{Inits, default_init_memmap-Inits}
use mips32_cpu_emulator.Kernel.FirstFit.Alloc.{AllocatesPages, default_alloc_pages-AllocatesPages}
use mips32_cpu_emulator.Kernel.Vma.{
  Vma, Mm, find_vma, scan, insert_vma_struct, insert_from, mm_map, user_mem_check, check_areas,
}
use mips32_cpu_emulator.Kernel.Vma.Areas.{IsMm, here, further}
use mips32_cpu_emulator.Kernel.Vma.Find.{Finds, find_vma-Finds}
use mips32_cpu_emulator.Kernel.Vma.Insert.{Inserts, insert_vma_struct-Inserts}
use mips32_cpu_emulator.Kernel.Vma.Map.{Maps, pages, mm_map-Maps}
use mips32_cpu_emulator.Kernel.Vma.Check.{MemoryChecked, user_mem_check-Checks}

-- Three indices: 0 is in use, 1 and 2 are free.
abbrev three : Bitmap
three = record { nbits = 3; nwords = 1; map = λ _. 6 }

above_three : (k : ℕ) → 3 ≤ k → digit k 6 ≡ 0
unfolding digit
above_three zero from = absurd (omega arith)
above_three (suc zero) from = absurd (omega arith)
above_three (suc (suc zero)) from = absurd (omega arith)
above_three (suc (suc (suc k))) from = digit-zero k

three-IsBitmap : IsBitmap three
unfolding free_bit
three-IsBitmap = record {
  nbits_fits = omega arith;
  nwords_exact = refl;
  words_fit = λ _. omega arith;
  leftover_used = λ i over inside. above_three (i % 32) (omega arith);
}

bitmap_create-Creates_example : Creates true 40 (bitmap_create true true 40)
bitmap_create-Creates_example = bitmap_create-Creates true true 40 (omega arith)

bitmap_alloc-Allocates_example : Allocates three (bitmap_alloc three)
bitmap_alloc-Allocates_example = bitmap_alloc-Allocates three three-IsBitmap

bitmap_free-Frees_example : Frees three 0 (bitmap_free three 0)
bitmap_free-Frees_example = bitmap_free-Frees three 0 three-IsBitmap

bitmap_free-bitmap_alloc_example : Reusable three (with_word three 0 4) 1
unfolding bitmap_alloc find_word find_offset
bitmap_free-bitmap_alloc_example =
    bitmap_free-bitmap_alloc three (with_word three 0 4) 1 three-IsBitmap refl

-- The leftover bits of 40 indices: the second word keeps its low 8 bits.
mark_leftover_test : mark_leftover 24 8 0xffffffff ≡ 0xff
unfolding mark_leftover
mark_leftover_test = refl

-- One page of code and two pages of stack.
abbrev code_area : Vma
code_area = record { vm_start = 0x00800000; vm_end = 0x00801000; vm_flags = 3 }

abbrev stack_area : Vma
stack_area = record { vm_start = 0x00900000; vm_end = 0x00902000; vm_flags = 11 }

abbrev two_areas : Mm
two_areas = record {
  mmap_list = code_area ∷ stack_area ∷ [];
  mmap_cache = some stack_area;
  map_count = 2;
}

two_areas-IsMm : IsMm two_areas
two_areas-IsMm = record {
  sorted = (omega arith, omega arith, (omega arith, omega arith, tt));
  cached = further here;
  counted = refl;
}

find_vma-Finds_example : Finds two_areas 0x00800010 (find_vma two_areas 0x00800010)
find_vma-Finds_example = find_vma-Finds two_areas 0x00800010 two_areas-IsMm

abbrev heap_area : Vma
heap_area = record { vm_start = 0x00802000; vm_end = 0x00803000; vm_flags = 3 }

insert_vma_struct-Inserts_example :
    Inserts two_areas heap_area (insert_vma_struct two_areas heap_area)
insert_vma_struct-Inserts_example = insert_vma_struct-Inserts two_areas heap_area two_areas-IsMm

-- A range from the page below the stack into it: it begins in no area, and the insertion panics.
mm_map_test : mm_map true (some two_areas) 0x008ff000 0x2000 3 true ≡ panic
unfolding mm_map find_vma scan insert_vma_struct insert_from
mm_map_test = refl

mm_map-Maps_example :
    Maps true true
      (pages 0x008ff000 0x2000 3)
      (some two_areas)
      (mm_map true (some two_areas) 0x008ff000 0x2000 3 true)
mm_map-Maps_example = mm_map-Maps true true (some two_areas) 0x008ff000 0x2000 3 two_areas-IsMm

user_mem_check-Checks_example :
    MemoryChecked two_areas 0x00801000 0x00901000 true
      (user_mem_check (some two_areas) 0x00801000 0x100000 true)
user_mem_check-Checks_example =
    user_mem_check-Checks two_areas 0x00801000 0x100000 true two_areas-IsMm

-- Writing the lowest page of a stack is refused.
user_mem_check_test :
    user_mem_check (some two_areas) 0x00900ffc 4 true ≡ some (false, some two_areas)
unfolding user_mem_check check_areas find_vma scan
user_mem_check_test = refl

-- A block of six pages at 4, and one of two at 20; pages 10, 11 and 12 are reserved.
abbrev two_blocks : Pmm
two_blocks = record {
  pages = λ p. record {
    ref = 0;
    reserved = leb 10 p && ltb p 13;
    is_head = (p == 4) || (p == 20);
    property = if p == 4 then 6 else if p == 20 then 2 else 0;
  };
  free_list = 4 ∷ 20 ∷ [];
  nr_free = 8;
}

two_blocks-IsPmm : IsPmm two_blocks
two_blocks-IsPmm = record {
  blocks = (omega arith, omega arith, refl, (omega arith, omega arith, refl, tt));
  counted = refl;
}

default_alloc_pages-AllocatesPages_example :
    AllocatesPages 2 two_blocks (default_alloc_pages 2 two_blocks)
default_alloc_pages-AllocatesPages_example =
    default_alloc_pages-AllocatesPages 2 two_blocks two_blocks-IsPmm

abbrev links : Result (Option ℕ × Pmm) → List ℕ
links (returned (page, s)) = s.free_list
links (failed code) = []
links panic = []

-- The remainder of the first block takes its place.
default_alloc_pages_test : links (default_alloc_pages 2 two_blocks) ≡ 6 ∷ 20 ∷ []
unfolding default_alloc_pages first_fit relink
default_alloc_pages_test = refl

default_init_memmap-Inits_example : Inits 10 3 two_blocks (default_init_memmap 10 3 two_blocks)
default_init_memmap-Inits_example =
    default_init_memmap-Inits 10 3 two_blocks two_blocks-IsPmm
      (λ a from below free. elim free [
        | inl first ↦ absurd (omega (arith, first.1))
        | inr later ↦ elim later [
          | inl second ↦ absurd (omega (arith, second.0))
          | inr nothing ↦ nothing
        ]
      ])
      (omega arith)

-- Processes 3, 1 and 2 wait, with two ticks each.
abbrev three_procs : RunQueue
three_procs = record {
  procs = λ p. record { time_slice = 2; need_resched = false };
  run_list = 3 ∷ 1 ∷ 2 ∷ [];
  proc_num = 3;
  max_time_slice = 20;
}

three_procs-IsRunQueue : IsRunQueue three_procs
three_procs-IsRunQueue = record {
  some_slice = omega arith;
  counted = refl;
  slices = (omega arith, omega arith, (omega arith, omega arith, (omega arith, omega arith, tt)));
}

-- A slice of two ticks is used up after two.
rr_proc_tick_test :
    (((rr_proc_tick three_procs 3).procs 3).need_resched ≡ false)
    × (((rr_proc_tick (rr_proc_tick three_procs 3) 3).procs 3).need_resched ≡ true)
unfolding rr_proc_tick
rr_proc_tick_test = (refl, refl)
