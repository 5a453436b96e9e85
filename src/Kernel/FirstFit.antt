-- ===== src/Kernel/FirstFit.antt =====
-- The first-fit page allocator: ucore_OS/kern/mm/default_pmm.c. A pointer to a page is its index in
-- the array of pages; `free_list` has the first page of each free block, in the order of the links.
pub mod Blocks
pub mod Taken
pub mod Alloc
pub mod Add
pub mod Range
pub mod Init
use mips32_cpu_emulator.Prelude.{
  ℕ, zero, suc, ◌+◌, ◌-◌, ◌%◌, ◌^◌, Bool, true, false, not, ◌&&◌, Option, none, some, List, [], ◌∷◌,
  ◌++◌, ltb, leb, ◌==◌, if◌then◌else◌,
}
use mips32_cpu_emulator.Kernel.Result.{Result, returned, failed, panic, linked}

-- `reserved` and `is_head` are the two bits of `flags`, PG_reserved and PG_property.
pub record Page : Type 0 where
  pub ref : ℕ
  pub reserved : Bool
  pub is_head : Bool
  pub property : ℕ

pub record Pmm : Type 0 where
  pub pages : ℕ → Page
  pub free_list : List ℕ
  pub nr_free : ℕ

abbrev pub set_page : (ℕ → Page) → ℕ → Page → ℕ → Page
set_page pages p page q = if p == q then page else pages q

abbrev pub default_init : Pmm → Pmm
default_init s = record s { free_list = []; nr_free = 0 }

-- The block is linked before the first block above it.
unfoldable pub default_list_add : (ℕ → Page) → ℕ → List ℕ → Result (List ℕ)
default_list_add pages base [] = returned (base ∷ [])
default_list_add pages base (p ∷ list) =
    let rest = linked p (default_list_add pages base list) in
    if base == p
    then panic
    else if ltb base p
    then (if leb (base + (pages base).property) p then returned (base ∷ p ∷ list) else panic)
    else if leb (p + (pages p).property) base
    then rest
    else panic

abbrev pub with_free_list : Pmm → Result (List ℕ) → Result Pmm
with_free_list s (returned list) = returned (record s { free_list = list })
with_free_list s (failed code) = failed code
with_free_list s panic = panic

-- The loop of `default_init_memmap` over `left` pages from `p` on.
unfoldable pub init_pages : ℕ → ℕ → (ℕ → Page) → Result (ℕ → Page)
init_pages zero p pages = returned pages
init_pages (suc left) p pages =
    let rest =
      init_pages left (suc p)
        (set_page pages p (record { ref = 0; reserved = false; is_head = false; property = 0 })) in
    if (pages p).reserved then rest else panic

-- The block of `n` pages at `base` enters the list and the count.
abbrev pub add_block : Pmm → ℕ → ℕ → Result (ℕ → Page) → Result Pmm
add_block s base n (returned pages) =
    let pages' = set_page pages base (record (pages base) { property = n; is_head = true }) in
    with_free_list (record s { pages = pages'; nr_free = (s.nr_free + n) % 2 ^ 32 })
      (default_list_add pages' base s.free_list)
add_block s base n (failed code) = failed code
add_block s base n panic = panic

unfoldable pub default_init_memmap : ℕ → ℕ → Pmm → Result Pmm
default_init_memmap base n s =
    if ltb 0 n then add_block s base n (init_pages n base s.pages) else panic

-- The search for the first block of `n` pages or more.
unfoldable pub first_fit : (ℕ → Page) → ℕ → List ℕ → Option ℕ
first_fit pages n [] = none
first_fit pages n (p ∷ list) =
    let rest = first_fit pages n list in if leb n (pages p).property then some p else rest

-- The links after `page` is taken out and `new` put in at its place.
unfoldable pub relink : ℕ → List ℕ → List ℕ → List ℕ
relink page new [] = []
relink page new (p ∷ list) =
    let rest = relink page new list in if p == page then new ++ list else p ∷ rest

-- What is left of the block of `page`.
abbrev pub remainder : (ℕ → Page) → ℕ → ℕ → List ℕ
remainder pages page n = if ltb n (pages page).property then (page + n) ∷ [] else []

abbrev pub split_block : (ℕ → Page) → ℕ → ℕ → ℕ → Page
split_block pages page n =
    if ltb n (pages page).property
    then set_page pages (page + n)
        (record (pages (page + n)) { property = (pages page).property - n; is_head = true })
    else pages

-- `ClearPageProperty`.
abbrev pub clear_head : (ℕ → Page) → ℕ → ℕ → Page
clear_head pages page = set_page pages page (record (pages page) { is_head = false })

abbrev pub take_block : Pmm → ℕ → Option ℕ → Result (Option ℕ × Pmm)
take_block s n none = returned (none, s)
take_block s n (some page) = returned (
  some page,
  record {
    pages = clear_head (split_block s.pages page n) page;
    free_list = relink page (remainder s.pages page n) s.free_list;
    nr_free = s.nr_free - n;
  },
)

-- The result is the first page, or none for NULL.
unfoldable pub default_alloc_pages : ℕ → Pmm → Result (Option ℕ × Pmm)
default_alloc_pages n s =
    if ltb 0 n
    then (if ltb s.nr_free n
        then returned (none, s)
        else take_block s n (first_fit s.pages n s.free_list))
    else panic

-- The loop of `default_free_pages` over the `left` pages from `p` on.
unfoldable pub release_pages : ℕ → ℕ → (ℕ → Page) → Result (ℕ → Page)
release_pages zero p pages = returned pages
release_pages (suc left) p pages =
    let rest =
      release_pages left (suc p)
        (set_page pages p (record (pages p) { ref = 0; reserved = false; is_head = false })) in
    if not (pages p).reserved && not (pages p).is_head then rest else panic

abbrev pub grow : (ℕ → Page) → ℕ → ℕ → ℕ → Page
grow pages p n =
    set_page pages p (record (pages p) { property = ((pages p).property + n) % 2 ^ 32 })

abbrev pub kept : ℕ → ((ℕ → Page) × ℕ) × List ℕ → ((ℕ → Page) × ℕ) × List ℕ
kept p (merged, list) = (merged, p ∷ list)

-- The loop that joins the block at `base` with its neighbours: the pages and the first page of the
-- joined block, and the links of the blocks that are left.
unfoldable pub merge : (ℕ → Page) → ℕ → List ℕ → ((ℕ → Page) × ℕ) × List ℕ
merge pages base [] = ((pages, base), [])
merge pages base (p ∷ list) =
    let above = merge (clear_head (grow pages base (pages p).property) p) base list in
    let below = merge (clear_head (grow pages p (pages base).property) base) p list in
    let apart = kept p (merge pages base list) in
    if base + (pages base).property == p
    then above
    else if p + (pages p).property == base
    then below
    else apart

abbrev pub free_block : Pmm → ℕ → ℕ → Result (ℕ → Page) → Result Pmm
free_block s base n (returned pages) =
    let joined =
      merge (set_page pages base (record (pages base) { property = n; is_head = true })) base
        s.free_list in
    with_free_list (record s { pages = joined.0.0; nr_free = (s.nr_free + n) % 2 ^ 32 })
      (default_list_add joined.0.0 joined.0.1 joined.1)
free_block s base n (failed code) = failed code
free_block s base n panic = panic

unfoldable pub default_free_pages : ℕ → ℕ → Pmm → Result Pmm
default_free_pages base n s =
    if ltb 0 n then free_block s base n (release_pages n base s.pages) else panic

unfoldable pub default_nr_free_pages : Pmm → ℕ
default_nr_free_pages s = s.nr_free
