-- ===== src/Kernel/FirstFit/Range.antt =====
-- Ranges of pages in ucore_OS/kern/mm/default_pmm.c: blocks outside a range that is written, and the
-- loop of `default_init_memmap` that writes one.
use mips32_cpu_emulator.Prelude.{
  ℕ, zero, suc, ◌+◌, ◌≤◌, ◌<◌, true, false, List, [], ◌∷◌, ◌≡◌, ◌⊎◌, inl, inr, refl, sym, ◌∙◌, ap,
  subst, Bool-cases, arith,
}
use native.Mathlib.Decide.{dec_lt}
use mips32_cpu_emulator.Kernel.Result.{Result, returned, panic}
use mips32_cpu_emulator.Kernel.FirstFit.{Page, set_page, init_pages}
use mips32_cpu_emulator.Kernel.FirstFit.Blocks.{BlocksFrom, total, Free, set_page_other}

-- Pages that are the same outside a range without free pages make the same blocks.
module _ (pages pages' : ℕ → Page) (first last : ℕ)
    (outside : (q : ℕ) → (q < first) ⊎ (last ≤ q) → pages' q ≡ pages q) where
  same_head :
      (list : List ℕ)
      → ((a : ℕ) → first ≤ a → a < last → Free pages list a → ⊥)
      → (p : ℕ) → Free pages list p
      → pages' p ≡ pages p
  same_head list vacant p free = elim (dec_lt p first) [
    | yes h ↦ outside p (inl h)
    | no h ↦ elim (dec_lt p last) [
      | yes h' ↦ absurd (vacant p (omega arith) h' free)
      | no h' ↦ outside p (inr (omega arith))
    ]
  ]

  pub BlocksFrom-outside :
      (low : ℕ) (list : List ℕ)
      → BlocksFrom pages low list
      → ((a : ℕ) → first ≤ a → a < last → Free pages list a → ⊥)
      → BlocksFrom pages' low list
        × (total pages' list ≡ total pages list)
        × ((a : ℕ) → Free pages list a → Free pages' list a)
        × ((a : ℕ) → Free pages' list a → Free pages list a)
  BlocksFrom-outside low [] blocks vacant = (tt, refl, (λ a free. free), λ a free. free)
  BlocksFrom-outside low (p ∷ list) (from, some_pages, head, above) vacant =
      let same : pages' p ≡ pages p =
        same_head (p ∷ list) vacant p (inl (omega arith, omega arith)) in
      let size : (pages' p).property ≡ (pages p).property = ap (λ (t : Page). t.property) same in
      let rest =
        BlocksFrom-outside (p + (pages p).property) list above
          (λ a le lt free. vacant a le lt (inr free)) in
      (
        rw same (from, some_pages, head, rest.0),
        omega (arith, rest.1),
        (λ a free. elim free [
          | inl here ↦ inl (here.0, omega (arith, here.1))
          | inr later ↦ inr (rest.2 a later)
        ]),
        λ a free. elim free [
          | inl here ↦ inl (here.0, omega (arith, here.1))
          | inr later ↦ inr (rest.3 a later)
        ],
      )

-- The pages after the loop: outside the range as before.
pub data Initialised (pages : ℕ → Page) (left p : ℕ) : Result (ℕ → Page) → Type 0 where
  cleared :
      {pages' : ℕ → Page}
      → ((q : ℕ) → p ≤ q → q < p + left → (pages q).reserved ≡ true)
      → ((q : ℕ) → (q < p) ⊎ (p + left ≤ q) → pages' q ≡ pages q)
      → Initialised pages left p (returned pages')
  not_reserved :
      {q : ℕ} → p ≤ q → q < p + left → (pages q).reserved ≡ false → Initialised pages left p panic

Initialised-further :
    (pages : ℕ → Page) (left p : ℕ) (page : Page) (r : Result (ℕ → Page))
    → (pages p).reserved ≡ true
    → Initialised (set_page pages p page) left (suc p) r
    → Initialised pages (suc left) p r
Initialised-further pages left p page _ first (not_reserved {q = q} from below unset) =
    not_reserved (omega arith) (omega arith) (
      ap (λ (t : Page). t.reserved)
        (sym (set_page_other pages p q page (λ e. absurd (omega arith))))
      ∙ unset)
Initialised-further pages left p page _ first (cleared rest outside) =
    cleared
      (λ q from below. elim (dec_lt p q) [
        | yes h ↦
            ap (λ (t : Page). t.reserved)
              (sym (set_page_other pages p q page (λ e. absurd (omega arith))))
            ∙ rest q h (omega arith)
        | no h ↦
            let same : p ≡ q = omega arith in
            subst (λ (t : ℕ). (pages t).reserved ≡ true) same first
      ])
      (λ q away.
        outside q (elim away [ inl under ↦ inl (omega arith) | inr over ↦ inr (omega arith) ])
        ∙ set_page_other pages p q page
            (λ e. elim away [ inl under ↦ absurd (omega arith) | inr over ↦ absurd (omega arith) ]))

pub init_pages-Initialised :
    (left p : ℕ) (pages : ℕ → Page) → Initialised pages left p (init_pages left p pages)
unfolding init_pages
init_pages-Initialised zero p pages =
    cleared (λ q from below. absurd (omega arith)) (λ q away. refl)
init_pages-Initialised (suc left) p pages = elim (Bool-cases (pages p).reserved) [
  | inl h ↦ rw h (
      Initialised-further pages left p _ _ h
        (init_pages-Initialised left (suc p) (set_page pages p _)))
  | inr h ↦ rw h (not_reserved {q = p} (omega arith) (omega arith) h)
]
