-- ===== src/Kernel/FirstFit/Add.antt =====
-- `default_list_add` of ucore_OS/kern/mm/default_pmm.c: a block enters the sorted list.
use mips32_cpu_emulator.Prelude.{
  ℕ, ◌+◌, ◌≤◌, ◌<◌, true, List, [], ◌∷◌, ◌≡◌, ◌⊎◌, inl, inr, ltb, leb, leb→le, ◌==◌, ==_iff,
  Bool-cases, arith,
}
use mips32_cpu_emulator.Kernel.Result.{Result, returned, panic, linked}
use mips32_cpu_emulator.Kernel.FirstFit.{Page, default_list_add}
use mips32_cpu_emulator.Kernel.FirstFit.Blocks.{BlocksFrom, total, Free}

abbrev pub InBlock : (ℕ → Page) → ℕ → ℕ → Type 0
InBlock pages p a = (p ≤ a) × (a < p + (pages p).property)

pub data Adds (pages : ℕ → Page) (low base : ℕ) (list : List ℕ) : Result (List ℕ) → Type 0 where
  added :
      {list' : List ℕ}
      → BlocksFrom pages low list'
      → total pages list' ≡ total pages list + (pages base).property
      → ((a : ℕ) → InBlock pages base a ⊎ Free pages list a → Free pages list' a)
      → ((a : ℕ) → Free pages list' a → InBlock pages base a ⊎ Free pages list a)
      → Adds pages low base list (returned list')
  clash : {a : ℕ} → InBlock pages base a → Free pages list a → Adds pages low base list panic

module _ (pages : ℕ → Page) (base : ℕ) (nonempty : 0 < (pages base).property)
    (marked : (pages base).is_head ≡ true) where
  Adds-front :
      (low : ℕ) (list : List ℕ)
      → low ≤ base
      → BlocksFrom pages (base + (pages base).property) list
      → Adds pages low base list (returned (base ∷ list))
  Adds-front low list from above =
      added (from, nonempty, marked, above) (omega arith) (λ a free. free) (λ a free. free)

  Adds-linked :
      (low p : ℕ) (list : List ℕ) (r : Result (List ℕ))
      → low ≤ p
      → 0 < (pages p).property
      → (pages p).is_head ≡ true
      → Adds pages (p + (pages p).property) base list r
      → Adds pages low base (p ∷ list) (linked p r)
  Adds-linked low p list _ from some_pages head (clash inside free) = clash inside (inr free)
  Adds-linked low p list _ from some_pages head (added {list' = list'} blocks counted into out_of) =
      added {list' = p ∷ list'} (from, some_pages, head, blocks) (omega arith)
        (λ a free. elim free [
          | inl new ↦ inr (into a (inl new))
          | inr old ↦ elim old [ inl here ↦ inl here | inr later ↦ inr (into a (inr later)) ]
        ])
        (λ a free. elim free [
          | inl here ↦ inr (inl here)
          | inr later ↦ elim (out_of a later) [ inl new ↦ inl new | inr old ↦ inr (inr old) ]
        ])

  pub default_list_add-Adds :
      (low : ℕ) (list : List ℕ)
      → low ≤ base
      → BlocksFrom pages low list
      → Adds pages low base list (default_list_add pages base list)
  unfolding default_list_add
  default_list_add-Adds low [] low_ok blocks = Adds-front low [] low_ok tt
  default_list_add-Adds low (p ∷ list) low_ok (from, some_pages, head, above) =
      elim (Bool-cases (base == p)) [
        | inl same ↦
            let e : base ≡ p = (==_iff _ _).0 same in
            rw same (clash {a = base} (omega arith, omega arith) (inl (omega arith, omega arith)))
        | inr apart ↦ elim (Bool-cases (ltb base p)) [
          | inl before ↦ elim (Bool-cases (leb (base + (pages base).property) p)) [
            | inl fits ↦
                rw (apart, before, fits)
                  (Adds-front low (p ∷ list) low_ok (leb→le _ _ fits, some_pages, head, above))
            | inr over ↦
                rw (apart, before, over)
                  (clash {a = p} (ground arith, ground arith) (inl (omega arith, omega arith)))
          ]
          | inr behind ↦ elim (Bool-cases (leb (p + (pages p).property) base)) [
            | inl fits ↦
                rw (apart, behind, fits)
                  (Adds-linked low p list _ from some_pages head
                    (default_list_add-Adds (p + (pages p).property) list (leb→le _ _ fits) above))
            | inr over ↦
                rw (apart, behind, over)
                  (clash {a = base} (omega arith, omega arith) (inl (ground arith, ground arith)))
          ]
        ]
      ]
