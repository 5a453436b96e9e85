-- ===== src/Kernel/FirstFit/Init.antt =====
-- `default_init_memmap` of ucore_OS/kern/mm/default_pmm.c: a range of reserved pages becomes free.
use mips32_cpu_emulator.Prelude.{
  ℕ, ◌+◌, ◌%◌, ◌^◌, ◌≤◌, ◌<◌, true, false, List, ◌≡◌, ◌⊎◌, inl, inr, ◌∙◌, ap, ltb, ltb→lt,
  Bool-cases, arith,
}
use mips32_cpu_emulator.Kernel.Result.{Result, returned, panic}
use mips32_cpu_emulator.Kernel.FirstFit.{
  Page, Pmm, set_page, default_init_memmap, with_free_list, add_block,
}
use mips32_cpu_emulator.Kernel.FirstFit.Blocks.{Free, IsPmm, set_page_same, set_page_other}
use mips32_cpu_emulator.Kernel.FirstFit.Add.{Adds, added, clash, default_list_add-Adds}
use mips32_cpu_emulator.Kernel.FirstFit.Range.{
  BlocksFrom-outside, Initialised, cleared, not_reserved, init_pages-Initialised,
}

-- What `default_init_memmap` gives on each branch.
pub data Inits (base n : ℕ) (s : Pmm) : Result Pmm → Type 0 where
  initialised :
      {s' : Pmm}
      → 0 < n
      → ((q : ℕ) → base ≤ q → q < base + n → (s.pages q).reserved ≡ true)
      → IsPmm s'
      → s'.nr_free ≡ s.nr_free + n
      → ((a : ℕ)
          → ((base ≤ a) × (a < base + n)) ⊎ Free s.pages s.free_list a
          → Free s'.pages s'.free_list a)
      → ((a : ℕ)
          → Free s'.pages s'.free_list a
          → ((base ≤ a) × (a < base + n)) ⊎ Free s.pages s.free_list a)
      → Inits base n s (returned s')
  no_pages : n ≡ 0 → Inits base n s panic
  page_in_use :
      {q : ℕ} → base ≤ q → q < base + n → (s.pages q).reserved ≡ false → Inits base n s panic

module _ (base n : ℕ) (s : Pmm) (some_pages : 0 < n) (well : IsPmm s)
    (vacant : (a : ℕ) → base ≤ a → a < base + n → Free s.pages s.free_list a → ⊥)
    (fits : s.nr_free + n < 2 ^ 32) where
  Inits-Adds :
      (pages' : ℕ → Page) (r : Result (List ℕ))
      → ((q : ℕ) → base ≤ q → q < base + n → (s.pages q).reserved ≡ true)
      → ((q : ℕ) → (q < base) ⊎ (base + n ≤ q) → pages' q ≡ s.pages q)
      → (pages' base).property ≡ n
      → Adds pages' 0 base s.free_list r
      → Inits base n s
          (with_free_list (record s { pages = pages'; nr_free = (s.nr_free + n) % 2 ^ 32 }) r)
  Inits-Adds pages' _ reserved outside size (clash {a = a} inside free) =
      let old =
        BlocksFrom-outside s.pages pages' base (base + n) outside 0 s.free_list well.blocks
          vacant in
      absurd (vacant a inside.0 (omega (arith, inside.1)) (old.3 a free))
  Inits-Adds pages' _ reserved outside size (added blocks counted into out_of) =
      let old =
        BlocksFrom-outside s.pages pages' base (base + n) outside 0 s.free_list well.blocks
          vacant in
      initialised some_pages reserved
        (record { blocks = blocks; counted = omega (arith, well.counted, old.1) }) (omega arith)
        (λ a free. into a (elim free [
          | inl new ↦ inl (new.0, omega (arith, new.1))
          | inr kept ↦ inr (old.2 a kept)
        ]))
        (λ a free. elim (out_of a free) [
          | inl new ↦ inl (new.0, omega (arith, new.1))
          | inr kept ↦ inr (old.3 a kept)
        ])

  Inits-Initialised :
      (r : Result (ℕ → Page)) → Initialised s.pages n base r → Inits base n s (add_block s base n r)
  Inits-Initialised _ (not_reserved from below unset) = page_in_use from below unset
  Inits-Initialised _ (cleared {pages' = pages'} reserved outside) =
      let head = record (pages' base) { property = n; is_head = true } in
      let pages'' = set_page pages' base head in
      let at_base : pages'' base ≡ head = set_page_same pages' base head in
      let size : (pages'' base).property ≡ n = ap (λ (t : Page). t.property) at_base in
      let outside' : (q : ℕ) → (q < base) ⊎ (base + n ≤ q) → pages'' q ≡ s.pages q = λ q away.
        set_page_other pages' base q head
          (λ e. elim away [ inl under ↦ absurd (omega arith) | inr over ↦ absurd (omega arith) ])
        ∙ outside q away in
      let old =
        BlocksFrom-outside s.pages pages'' base (base + n) outside' 0 s.free_list well.blocks
          vacant in
      Inits-Adds pages'' _ reserved outside' size (
        default_list_add-Adds pages'' base (omega arith) (ap (λ (t : Page). t.is_head) at_base) 0
          s.free_list (omega arith) old.0)

-- `default_init_memmap` on a well-formed allocator, for a range of which no page is free and a count
-- that stays below 2 ^ 32. It panics exactly for an empty range or one with a page that is not
-- reserved. Otherwise the pages of the range become free and no other page does, the count goes up by
-- `n`, and the allocator stays well formed: no assert about the order of blocks fails.
pub default_init_memmap-Inits :
    (base n : ℕ) (s : Pmm)
    → IsPmm s
    → ((a : ℕ) → base ≤ a → a < base + n → Free s.pages s.free_list a → ⊥)
    → s.nr_free + n < 2 ^ 32
    → Inits base n s (default_init_memmap base n s)
unfolding default_init_memmap
default_init_memmap-Inits base n s well vacant fits = elim (Bool-cases (ltb 0 n)) [
  | inl h ↦ rw h (
      Inits-Initialised base n s (ltb→lt 0 n h) well vacant fits _
        (init_pages-Initialised n base s.pages))
  | inr h ↦ rw h (no_pages (ground arith))
]
