-- ===== src/Kernel/FirstFit/Alloc.antt =====
-- `default_alloc_pages` of ucore_OS/kern/mm/default_pmm.c: the first fit and the pages it gives out.
use mips32_cpu_emulator.Prelude.{
  ℕ, ◌+◌, ◌≤◌, ◌<◌, Option, some, none, List, [], ◌∷◌, ◌≡◌, ◌≢◌, ◌⊎◌, inl, inr, refl, ltb, ltb→lt,
  leb, Bool-cases, Option-cases, arith, subst,
}
use mips32_cpu_emulator.Kernel.Result.{Result, returned, panic}
use mips32_cpu_emulator.Kernel.FirstFit.{Page, Pmm, first_fit, default_alloc_pages}
use mips32_cpu_emulator.Kernel.FirstFit.Blocks.{BlocksFrom, total, Free, IsPmm}
use mips32_cpu_emulator.Kernel.FirstFit.Taken.{after, after_other, some_same, first_fit-Taken}

-- No block of the list has `n` pages.
abbrev pub NoneFits : (ℕ → Page) → ℕ → List ℕ → Type 0
NoneFits pages n [] = Unit {0}
NoneFits pages n (p ∷ list) = ((pages p).property < n) × NoneFits pages n list

-- No block below `page` has `n` pages.
abbrev pub NoneFitsBelow : (ℕ → Page) → ℕ → ℕ → List ℕ → Type 0
NoneFitsBelow pages n page [] = Unit {0}
NoneFitsBelow pages n page (p ∷ list) =
    (p < page → (pages p).property < n) × NoneFitsBelow pages n page list

NoneFits-total :
    (pages : ℕ → Page) (n : ℕ) (list : List ℕ) → total pages list < n → NoneFits pages n list
NoneFits-total pages n [] less = tt
NoneFits-total pages n (p ∷ list) less = (omega arith, NoneFits-total pages n list (omega arith))

first_fit-NoneFits :
    (pages : ℕ → Page) (n : ℕ) (list : List ℕ)
    → first_fit pages n list ≡ none
    → NoneFits pages n list
unfolding first_fit
first_fit-NoneFits pages n [] e = tt
first_fit-NoneFits pages n (p ∷ list) e = elim (Bool-cases (leb n (pages p).property)) [
  | inl fits ↦
      let absent : some p ≡ none = subst (λ (o : Option ℕ). o ≡ none) (rw fits refl) e in absurd cc
  | inr short ↦ (
    ground arith,
    first_fit-NoneFits pages n list (subst (λ (o : Option ℕ). o ≡ none) (rw short refl) e),
  )
]

all_above :
    (pages : ℕ → Page) (n page low : ℕ) (list : List ℕ)
    → page ≤ low
    → BlocksFrom pages low list
    → NoneFitsBelow pages n page list
all_above pages n page low [] le blocks = tt
all_above pages n page low (p ∷ list) le (from, _, _, above) = (
  (λ under. absurd (omega arith)),
  all_above pages n page (p + (pages p).property) list (omega arith) above,
)

first_fit-NoneFitsBelow :
    (pages : ℕ → Page) (n page low : ℕ) (list : List ℕ)
    → BlocksFrom pages low list
    → first_fit pages n list ≡ some page
    → NoneFitsBelow pages n page list
unfolding first_fit
first_fit-NoneFitsBelow pages n page low [] blocks found = tt
first_fit-NoneFitsBelow pages n page low (p ∷ list) (from, _, _, above) found =
    elim (Bool-cases (leb n (pages p).property)) [
      | inl fits ↦
          let same : p ≡ page =
            some_same (subst (λ (o : Option ℕ). o ≡ some page) (rw fits refl) found) in
          (
            (λ under. absurd (omega arith)),
            all_above pages n page (p + (pages p).property) list (omega arith) above,
          )
      | inr short ↦ (
        (λ _. ground arith),
        first_fit-NoneFitsBelow pages n page (p + (pages p).property) list above
            (subst (λ (o : Option ℕ). o ≡ some page) (rw short refl) found),
      )
    ]

-- What `default_alloc_pages` gives on each branch.
pub data AllocatesPages (n : ℕ) (s : Pmm) : Result (Option ℕ × Pmm) → Type 0 where
  given :
      {s' : Pmm} {page : ℕ}
      → ((a : ℕ) → page ≤ a → a < page + n → Free s.pages s.free_list a)
      → ((a : ℕ)
          → Free s.pages s.free_list a
          → (a < page) ⊎ (page + n ≤ a)
          → Free s'.pages s'.free_list a)
      → ((a : ℕ)
          → Free s'.pages s'.free_list a
          → Free s.pages s.free_list a × ((a < page) ⊎ (page + n ≤ a)))
      → NoneFitsBelow s.pages n page s.free_list
      → IsPmm s'
      → s'.nr_free + n ≡ s.nr_free
      → ((q : ℕ) → q ≢ page → q ≢ page + n → s'.pages q ≡ s.pages q)
      → AllocatesPages n s (returned (some page, s'))
  no_fit : NoneFits s.pages n s.free_list → AllocatesPages n s (returned (none, s))
  no_pages : n ≡ 0 → AllocatesPages n s panic

-- `default_alloc_pages` on every branch, on a well-formed allocator. It panics exactly for no pages.
-- It gives NULL and changes nothing exactly where no block has `n` pages. Otherwise it gives out `n`
-- free pages, of the lowest block that has so many; they leave the set of free pages and no other
-- page does, the count goes down by `n`, no page other than the first and the one behind the last is
-- written, and the allocator stays well formed.
pub default_alloc_pages-AllocatesPages :
    (n : ℕ) (s : Pmm) → IsPmm s → AllocatesPages n s (default_alloc_pages n s)
unfolding default_alloc_pages after
default_alloc_pages-AllocatesPages n s well = elim (Bool-cases (ltb 0 n)) [
  | inr nothing ↦ rw nothing (no_pages (ground arith))
  | inl some_pages ↦ elim (Bool-cases (ltb s.nr_free n)) [
    | inl few ↦
        rw (some_pages, few)
          (no_fit
            (NoneFits-total s.pages n s.free_list (omega (arith, well.counted, ltb→lt _ _ few))))
    | inr enough ↦ elim (Option-cases (first_fit s.pages n s.free_list)) [
      | inl e ↦ rw (some_pages, enough, e) (no_fit (first_fit-NoneFits s.pages n s.free_list e))
      | inr (page, e) ↦
          let positive = ltb→lt 0 n some_pages in
          let taken = first_fit-Taken s.pages page n positive 0 s.free_list well.blocks e in
          rw (some_pages, enough, e)
            (given taken.were_free taken.kept taken.only_kept
              (first_fit-NoneFitsBelow s.pages n page 0 s.free_list well.blocks e)
              (record {
                blocks = taken.blocks;
                counted = omega (arith, taken.counted, well.counted);
              })
              (ground (arith, taken.counted, well.counted)) (after_other s.pages page n positive))
    ]
  ]
]
