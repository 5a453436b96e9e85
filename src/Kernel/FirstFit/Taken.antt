-- ===== src/Kernel/FirstFit/Taken.antt =====
-- What unlinking the first fit and linking its remainder does to the set of free pages:
-- `default_alloc_pages` of ucore_OS/kern/mm/default_pmm.c.
use mips32_cpu_emulator.Prelude.{
  ℕ, ◌+◌, ◌-◌, ◌≤◌, ◌<◌, true, false, Option, some, List, [], ◌∷◌, ◌≡◌, ◌≢◌, ◌⊎◌, inl, inr, refl,
  sym, ◌∙◌, ap, ltb, ltb→lt, lt→ltb, leb, leb→le, ◌==◌, ==_iff, Bool-cases, arith, tests, subst,
}
use mips32_cpu_emulator.Kernel.FirstFit.{
  Page, first_fit, relink, remainder, split_block, clear_head,
}
use mips32_cpu_emulator.Kernel.FirstFit.Blocks.{
  BlocksFrom, total, Free, set_page_same, set_page_other, BlocksFrom-agree, total_agree, Free-agree,
  Free-from, BlocksFrom-lower,
}

-- `list'` over `pages'` is `list` over `pages` without the `n` pages from `page` on.
pub record Taken (pages pages' : ℕ → Page) (n page low : ℕ) (list list' : List ℕ) : Type 0 where
  pub above_low : low ≤ page
  pub were_free : (a : ℕ) → page ≤ a → a < page + n → Free pages list a
  pub blocks : BlocksFrom pages' low list'
  pub counted : total pages' list' + n ≡ total pages list
  pub kept : (a : ℕ) → Free pages list a → (a < page) ⊎ (page + n ≤ a) → Free pages' list' a
  pub only_kept : (a : ℕ) → Free pages' list' a → Free pages list a × ((a < page) ⊎ (page + n ≤ a))

pub some_same : {a b : ℕ} → some a ≡ some b → a ≡ b
some_same e = cc

module _ (pages : ℕ → Page) (page n : ℕ) (some_pages : 0 < n) where
  unfoldable pub after : ℕ → Page
  after = clear_head (split_block pages page n) page

  split_other : (q : ℕ) → q ≢ page + n → split_block pages page n q ≡ pages q
  split_other q apart = elim (Bool-cases (ltb n (pages page).property)) [
    | inl h ↦ rw h (set_page_other pages (page + n) q _ (λ e. apart (sym e)))
    | inr h ↦ rw h refl
  ]

  pub after_other : (q : ℕ) → q ≢ page → q ≢ page + n → after q ≡ pages q
  unfolding after
  after_other q not_page not_rest =
      set_page_other (split_block pages page n) page q _ (λ e. not_page (sym e))
      ∙ split_other q not_rest

  after_rest :
      n < (pages page).property
      → after (page + n)
        ≡ record (pages (page + n)) { property = (pages page).property - n; is_head = true }
  unfolding after
  after_rest more =
      set_page_other (split_block pages page n) page (page + n) _ (λ e. absurd (omega arith))
      ∙ rw (lt→ltb n (pages page).property more) (set_page_same pages (page + n) _)

  after_whole : n ≡ (pages page).property → (q : ℕ) → q ≢ page → after q ≡ pages q
  unfolding after
  after_whole exact q not_page =
      let test : ltb n (pages page).property ≡ false = grind tests in
      set_page_other (split_block pages page n) page q _ (λ e. not_page (sym e)) ∙ rw test refl

  -- The block of `page` stands first.
  Taken-whole :
      (low : ℕ) (list : List ℕ)
      → BlocksFrom pages low (page ∷ list)
      → n ≡ (pages page).property
      → Taken pages after n page low (page ∷ list) list
  Taken-whole low list (from, _, head, above) exact =
      let same : (q : ℕ) → page + (pages page).property ≤ q → after q ≡ pages q =
        λ q le. after_whole exact q (λ e. absurd (omega arith)) in
      let end = page + (pages page).property in
      let blocks' = BlocksFrom-agree pages after end list same above in
      record {
        above_low = from;
        were_free = λ a le lt. inl (le, omega arith);
        blocks = BlocksFrom-lower after end low list (omega arith) blocks';
        counted = omega (arith, total_agree pages after end list same above);
        kept = λ a free outside. elim free [
          | inl inside ↦ absurd (ground (arith, inside.0, inside.1))
          | inr later ↦ Free-agree pages after end list a same above later
        ];
        only_kept = λ a free. (
          inr (Free-agree after pages end list a (λ q le. sym (same q le)) blocks' free),
          inr (omega (arith, Free-from after end list a blocks' free)),
        );
      }

  Taken-part :
      (low : ℕ) (list : List ℕ)
      → BlocksFrom pages low (page ∷ list)
      → n < (pages page).property
      → Taken pages after n page low (page ∷ list) ((page + n) ∷ list)
  Taken-part low list (from, _, head, above) more =
      let same : (q : ℕ) → page + (pages page).property ≤ q → after q ≡ pages q =
        λ q le. after_other q (λ e. absurd (omega arith)) (λ e. absurd (omega arith)) in
      let end = page + (pages page).property in
      let blocks' = BlocksFrom-agree pages after end list same above in
      let rest = after_rest more in
      let size : (after (page + n)).property ≡ (pages page).property - n =
        ap (λ (t : Page). t.property) rest in
      let rest_head : (after (page + n)).is_head ≡ true = ap (λ (t : Page). t.is_head) rest in
      let joins : page + n + (after (page + n)).property ≡ end = omega arith in
      record {
        above_low = from;
        were_free = λ a le lt. inl (le, omega arith);
        blocks = (
          omega arith,
          omega arith,
          rest_head,
          subst (λ (t : ℕ). BlocksFrom after t list) (sym joins) blocks',
        );
        counted = omega (arith, total_agree pages after end list same above);
        kept = λ a free outside. elim free [
          | inl inside ↦ inl (ground (arith, inside.0), omega (arith, inside.1))
          | inr later ↦ inr (Free-agree pages after end list a same above later)
        ];
        only_kept = λ a free. elim free [
          | inl inside ↦ (inl (omega (arith, inside.0), omega (arith, inside.1)), inr inside.0)
          | inr later ↦ (
            inr (Free-agree after pages end list a (λ q le. sym (same q le)) blocks' later),
            inr (omega (arith, Free-from after end list a blocks' later)),
          )
        ];
      }

  Taken-further :
      (low p : ℕ) (list list' : List ℕ)
      → low ≤ p
      → 0 < (pages p).property
      → (pages p).is_head ≡ true
      → BlocksFrom pages (p + (pages p).property) list
      → Taken pages after n page (p + (pages p).property) list list'
      → Taken pages after n page low (p ∷ list) (p ∷ list')
  Taken-further low p list list' from nonempty head above taken =
      let later : p + (pages p).property ≤ page = taken.above_low in
      let same : after p ≡ pages p =
        after_other p (λ e. absurd (omega arith)) (λ e. absurd (omega arith)) in
      let size : (after p).property ≡ (pages p).property = ap (λ (t : Page). t.property) same in
      record {
        above_low = omega arith;
        were_free = λ a le lt. inr (taken.were_free a le lt);
        blocks = rw same (from, nonempty, head, taken.blocks);
        counted = omega (arith, taken.counted);
        kept = λ a free outside. elim free [
          | inl inside ↦ inl (inside.0, omega (arith, inside.1))
          | inr later ↦ inr (taken.kept a later outside)
        ];
        only_kept = λ a free. elim free [
          | inl inside ↦ (inl (inside.0, omega (arith, inside.1)), inl (omega (arith, inside.1)))
          | inr later ↦ let old = taken.only_kept a later in (inr old.0, old.1)
        ];
      }

  Taken-first :
      (low : ℕ) (list : List ℕ)
      → BlocksFrom pages low (page ∷ list)
      → n ≤ (pages page).property
      → Taken pages after n page low
          (page ∷ list)
          (relink page (remainder pages page n) (page ∷ list))
  unfolding relink
  Taken-first low list blocks fits =
      let found : (page == page) ≡ true = (==_iff page page).1 refl in
      elim (Bool-cases (ltb n (pages page).property)) [
        | inl more ↦ rw (found, more) (Taken-part low list blocks (ltb→lt _ _ more))
        | inr exact ↦ rw (found, exact) (Taken-whole low list blocks (ground arith))
      ]

  pub first_fit-Taken :
      (low : ℕ) (list : List ℕ)
      → BlocksFrom pages low list
      → first_fit pages n list ≡ some page
      → Taken pages after n page low list (relink page (remainder pages page n) list)
  unfolding first_fit relink
  first_fit-Taken low [] blocks found = absurd cc
  first_fit-Taken low (p ∷ list) (from, nonempty, head, above) found =
      elim (Bool-cases (leb n (pages p).property)) [
        | inl fits ↦
            let same : p ≡ page =
              some_same (subst (λ (o : Option ℕ). o ≡ some page) (rw fits refl) found) in
            subst
              (λ (q : ℕ).
                BlocksFrom pages low (q ∷ list)
                → n ≤ (pages q).property
                → Taken pages after n page low (q ∷ list)
                    (relink page (remainder pages page n) (q ∷ list)))
              (sym same) (Taken-first low list) (from, nonempty, head, above) (leb→le _ _ fits)
        | inr short ↦
            let taken =
              first_fit-Taken (p + (pages p).property) list above
                (subst (λ (o : Option ℕ). o ≡ some page) (rw short refl) found) in
            let apart : (p == page) ≡ false = grind (tests, taken.above_low) in
            rw apart (Taken-further low p list _ from nonempty head above taken)
      ]
