-- ===== src/Kernel/Vma/Insert.antt =====
-- `insert_vma_struct` of ucore_OS/kern/mm/vmm.c: sorted insertion with checks for overlaps.
use mips32_cpu_emulator.Prelude.{
  ℕ, ◌+◌, ◌≤◌, ◌<◌, Option, some, none, List, [], ◌∷◌, length, ◌≡◌, ◌⊎◌, inl, inr, refl, ltb, leb,
  ltb→lt, lt→ltb, leb→le, arith, tests, Bool-cases,
}
use mips32_cpu_emulator.Kernel.Result.{linked, Result, returned, panic}
use mips32_cpu_emulator.Kernel.Vma.{
  Vma, Mm, after_prev, check_vma_overlap, insert_from, with_list, insert_vma_struct,
}
use mips32_cpu_emulator.Kernel.Vma.Areas.{
  AreasFrom, Has, here, further, IsMm, Cached, AreasFrom-Has,
}

abbrev pub Overlaps : Vma → Vma → Type 0
Overlaps vma other = (vma.vm_start < other.vm_end) × (other.vm_start < vma.vm_end)

-- The insertion of `vma` into the areas from `low` on.
data InsertsFrom (low : ℕ) (list : List Vma) (vma : Vma) : Result (List Vma) → Type 0 where
  placed :
      {list' : List Vma}
      → low ≤ vma.vm_start
      → ((other : Vma) → Has other list → Overlaps vma other → ⊥)
      → AreasFrom low list'
      → Has vma list'
      → ((other : Vma) → Has other list → Has other list')
      → ((other : Vma) → Has other list' → (other ≡ vma) ⊎ Has other list)
      → length list' ≡ length list + 1
      → InsertsFrom low list vma (returned list')
  before_low : vma.vm_start < low → InsertsFrom low list vma panic
  overlap : {other : Vma} → Has other list → Overlaps vma other → InsertsFrom low list vma panic

InsertsFrom-front :
    (low : ℕ) (list : List Vma) (vma : Vma)
    → low ≤ vma.vm_start
    → vma.vm_start < vma.vm_end
    → AreasFrom vma.vm_end list
    → InsertsFrom low list vma (returned (vma ∷ list))
InsertsFrom-front low list vma from area above =
    placed from
      (λ other has over.
        let later = AreasFrom-Has vma.vm_end list other above has in
        absurd (omega (arith, later.0, over.1)))
      (from, area, above) here (λ other has. further has) (front list vma) (omega arith)
  where
    front :
        (list : List Vma) (vma other : Vma)
        → Has other (vma ∷ list)
        → (other ≡ vma) ⊎ Has other list
    front list vma _ here = inl refl
    front list vma other (further has) = inr has

InsertsFrom-linked :
    (low : ℕ) (first : Vma) (list : List Vma) (vma : Vma) (r : Result (List Vma))
    → low ≤ first.vm_start
    → first.vm_start < first.vm_end
    → first.vm_start ≤ vma.vm_start
    → vma.vm_start < vma.vm_end
    → InsertsFrom first.vm_end list vma r
    → InsertsFrom low (first ∷ list) vma (linked first r)
InsertsFrom-linked low first list vma _ from area before grows (before_low under) =
    overlap here (under, omega arith)
InsertsFrom-linked low first list vma _ from area before grows (overlap has over) =
    overlap (further has) over
InsertsFrom-linked low first list vma _ from area before grows
      (placed {list' = list'} above apart sorted has_new kept only counted) =
    placed (omega arith) (all_apart first list vma above apart) (from, area, sorted)
      (further has_new) (all_kept first list list' kept) (only_new first list list' vma only)
      (omega arith)
  where
    all_apart :
        (first : Vma) (list : List Vma) (vma : Vma)
        → first.vm_end ≤ vma.vm_start
        → ((other : Vma) → Has other list → Overlaps vma other → ⊥)
        → (other : Vma) → Has other (first ∷ list)
        → Overlaps vma other
        → ⊥
    all_apart first list vma above apart _ here over = absurd (omega (arith, over.0))
    all_apart first list vma above apart other (further has) over = apart other has over

    all_kept :
        (first : Vma) (list list' : List Vma)
        → ((other : Vma) → Has other list → Has other list')
        → (other : Vma) → Has other (first ∷ list)
        → Has other (first ∷ list')
    all_kept first list list' kept _ here = here
    all_kept first list list' kept other (further has) = further (kept other has)

    only_new :
        (first : Vma) (list list' : List Vma) (vma : Vma)
        → ((other : Vma) → Has other list' → (other ≡ vma) ⊎ Has other list)
        → (other : Vma) → Has other (first ∷ list')
        → (other ≡ vma) ⊎ Has other (first ∷ list)
    only_new first list list' vma only _ here = inr here
    only_new first list list' vma only other (further has) = elim (only other has) [
      | inl same ↦ inl same
      | inr old ↦ inr (further old)
    ]

overlap_test :
    (prev next : Vma)
    → prev.vm_start < prev.vm_end
    → next.vm_start < next.vm_end
    → check_vma_overlap prev next ≡ leb prev.vm_end next.vm_start
overlap_test prev next area area' = elim (Bool-cases (leb prev.vm_end next.vm_start)) [
  | inl h ↦ rw (lt→ltb _ _ area, h, lt→ltb _ _ area') refl
  | inr h ↦ rw (lt→ltb _ _ area, h) refl
]

insert_from-InsertsFrom :
    (low : ℕ) (le_prev : Option Vma) (list : List Vma) (vma : Vma)
    → after_prev le_prev vma ≡ leb low vma.vm_start
    → vma.vm_start < vma.vm_end
    → AreasFrom low list
    → InsertsFrom low list vma (insert_from le_prev list vma)
unfolding insert_from
insert_from-InsertsFrom low le_prev [] vma test area sorted =
    elim (Bool-cases (leb low vma.vm_start)) [
      | inl from ↦ rw (test, from) (InsertsFrom-front low [] vma (leb→le _ _ from) area tt)
      | inr under ↦ rw (test, under) (before_low (ground arith))
    ]
insert_from-InsertsFrom low le_prev (first ∷ list) vma test area (from, first_area, above) =
    elim (Bool-cases (ltb vma.vm_start first.vm_start)) [
      | inl before ↦ elim (Bool-cases (leb low vma.vm_start)) [
        | inl low_ok ↦ elim (Bool-cases (leb vma.vm_end first.vm_start)) [
          | inl apart ↦
              rw (before, test, low_ok, overlap_test vma first area first_area, apart)
                (InsertsFrom-front low (first ∷ list) vma (leb→le _ _ low_ok) area
                  (leb→le _ _ apart, first_area, above))
          | inr over ↦
              let lower = ltb→lt _ _ before in
              rw (before, test, low_ok, overlap_test vma first area first_area, over)
                (overlap here (omega arith, ground arith))
        ]
        | inr under ↦ rw (before, test, under) (before_low (ground arith))
      ]
      | inr after ↦ rw after (
          InsertsFrom-linked low first list vma (insert_from (some first) list vma) from first_area
            (ground arith) area
            (insert_from-InsertsFrom first.vm_end (some first) list vma
              (overlap_test first vma first_area area) area above))
    ]

-- What `insert_vma_struct` gives on each branch.
pub data Inserts (mm : Mm) (vma : Vma) : Result Mm → Type 0 where
  inserted :
      {mm' : Mm}
      → vma.vm_start < vma.vm_end
      → ((other : Vma) → Has other mm.mmap_list → Overlaps vma other → ⊥)
      → IsMm mm'
      → Has vma mm'.mmap_list
      → ((other : Vma) → Has other mm.mmap_list → Has other mm'.mmap_list)
      → ((other : Vma) → Has other mm'.mmap_list → (other ≡ vma) ⊎ Has other mm.mmap_list)
      → Inserts mm vma (returned mm')
  empty_area : vma.vm_end ≤ vma.vm_start → Inserts mm vma panic
  overlapping : {other : Vma} → Has other mm.mmap_list → Overlaps vma other → Inserts mm vma panic

Cached-kept :
    (cache : Option Vma) (list list' : List Vma)
    → ((other : Vma) → Has other list → Has other list')
    → Cached cache list
    → Cached cache list'
Cached-kept none list list' kept cached = tt
Cached-kept (some vma) list list' kept cached = kept vma cached

with_list-Inserts :
    (mm : Mm) (vma : Vma) (r : Result (List Vma))
    → IsMm mm
    → vma.vm_start < vma.vm_end
    → InsertsFrom 0 mm.mmap_list vma r
    → Inserts mm vma (with_list mm r)
with_list-Inserts mm vma _ well area (placed {list' = list'} _ apart sorted has kept only counted) =
    inserted area apart
      (record {
        sorted = sorted;
        cached = Cached-kept mm.mmap_cache mm.mmap_list list' kept well.cached;
        counted = omega (arith, well.counted);
      })
      has kept only
with_list-Inserts mm vma _ well area (before_low under) = absurd (omega arith)
with_list-Inserts mm vma _ well area (overlap has over) = overlapping has over

-- `insert_vma_struct` on every branch, on a well-formed address space. It panics exactly for an
-- empty area or one that overlaps an area of the list. Otherwise it adds the area and loses none,
-- and the list stays sorted and apart, the cache in it and the count exact.
pub insert_vma_struct-Inserts :
    (mm : Mm) (vma : Vma) → IsMm mm → Inserts mm vma (insert_vma_struct mm vma)
unfolding insert_vma_struct
insert_vma_struct-Inserts mm vma well = elim (Bool-cases (ltb vma.vm_start vma.vm_end)) [
  | inl h ↦ rw h (
      with_list-Inserts mm vma _ well (ltb→lt _ _ h)
        (insert_from-InsertsFrom 0 none mm.mmap_list vma (grind tests) (ltb→lt _ _ h) well.sorted))
  | inr h ↦ rw h (empty_area (ground arith))
]
