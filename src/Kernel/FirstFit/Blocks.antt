-- ===== src/Kernel/FirstFit/Blocks.antt =====
-- The free blocks of ucore_OS/kern/mm/default_pmm.c as a set of free pages.
use mips32_cpu_emulator.Prelude.{
  ℕ, ◌+◌, ◌≤◌, ◌<◌, true, List, [], ◌∷◌, ◌≡◌, ◌≢◌, ◌⊎◌, inl, inr, refl, ◌==◌, ==_iff, Bool-cases,
  if◌then◌else◌, ap, ap₂, arith,
}
use mips32_cpu_emulator.Kernel.FirstFit.{Page, Pmm, set_page}

-- The blocks of a list lie one behind the other, from `low` on, and none is empty.
abbrev pub BlocksFrom : (ℕ → Page) → ℕ → List ℕ → Type 0
BlocksFrom pages low [] = Unit {0}
BlocksFrom pages low (p ∷ list) =
    (low ≤ p)
    × (0 < (pages p).property)
    × ((pages p).is_head ≡ true)
    × BlocksFrom pages (p + (pages p).property) list

abbrev pub total : (ℕ → Page) → List ℕ → ℕ
total pages [] = 0
total pages (p ∷ list) = (pages p).property + total pages list

-- The page `a` lies in a free block.
abbrev pub Free : (ℕ → Page) → List ℕ → ℕ → Type 0
Free pages [] a = ⊥
Free pages (p ∷ list) a = ((p ≤ a) × (a < p + (pages p).property)) ⊎ Free pages list a

pub record IsPmm (s : Pmm) : Type 0 where
  pub blocks : BlocksFrom s.pages 0 s.free_list
  pub counted : s.nr_free ≡ total s.pages s.free_list

pub set_page_same : (pages : ℕ → Page) (p : ℕ) (page : Page) → set_page pages p page p ≡ page
set_page_same pages p page = ap (λ t. if t then page else pages p) ((==_iff p p).1 refl)

pub set_page_other :
    (pages : ℕ → Page) (p q : ℕ) (page : Page) → p ≢ q → set_page pages p page q ≡ pages q
set_page_other pages p q page apart = elim (Bool-cases (p == q)) [
  | inl h ↦ absurd (apart ((==_iff p q).0 h))
  | inr h ↦ ap (λ t. if t then page else pages q) h
]

-- Pages from `low` on that are the same make the same blocks.
pub BlocksFrom-agree :
    (pages pages' : ℕ → Page) (low : ℕ) (list : List ℕ)
    → ((q : ℕ) → low ≤ q → pages' q ≡ pages q)
    → BlocksFrom pages low list
    → BlocksFrom pages' low list
BlocksFrom-agree pages pages' low [] same blocks = tt
BlocksFrom-agree pages pages' low (p ∷ list) same (from, some_pages, head, above) =
    let rest =
      BlocksFrom-agree pages pages' (p + (pages p).property) list (λ q le. same q (omega arith))
        above in
    rw (same p from) (from, some_pages, head, rest)

pub total_agree :
    (pages pages' : ℕ → Page) (low : ℕ) (list : List ℕ)
    → ((q : ℕ) → low ≤ q → pages' q ≡ pages q)
    → BlocksFrom pages low list
    → total pages' list ≡ total pages list
total_agree pages pages' low [] same blocks = refl
total_agree pages pages' low (p ∷ list) same (from, some_pages, head, above) =
    let rest =
      total_agree pages pages' (p + (pages p).property) list (λ q le. same q (omega arith)) above in
    ap₂ (λ (x y : ℕ). x + y) (ap (λ (page : Page). page.property) (same p from)) rest

pub Free-agree :
    (pages pages' : ℕ → Page) (low : ℕ) (list : List ℕ) (a : ℕ)
    → ((q : ℕ) → low ≤ q → pages' q ≡ pages q)
    → BlocksFrom pages low list
    → Free pages list a
    → Free pages' list a
Free-agree pages pages' low (p ∷ list) a same (from, some_pages, head, above) (inl (le, lt)) =
    rw (same p from) (inl (le, lt))
Free-agree pages pages' low (p ∷ list) a same (from, some_pages, head, above) (inr free) = inr (
    Free-agree pages pages' (p + (pages p).property) list a (λ q le. same q (omega arith)) above
      free)
Free-agree pages pages' low [] a same blocks free = elim free [ ]

-- A free page lies above `low`.
pub Free-from :
    (pages : ℕ → Page) (low : ℕ) (list : List ℕ) (a : ℕ)
    → BlocksFrom pages low list
    → Free pages list a
    → low ≤ a
Free-from pages low [] a blocks free = elim free [ ]
Free-from pages low (p ∷ list) a (from, _, _, above) (inl (le, lt)) = omega arith
Free-from pages low (p ∷ list) a (from, _, _, above) (inr free) =
    omega (arith, Free-from pages (p + (pages p).property) list a above free)

pub BlocksFrom-lower :
    (pages : ℕ → Page) (low low' : ℕ) (list : List ℕ)
    → low' ≤ low
    → BlocksFrom pages low list
    → BlocksFrom pages low' list
BlocksFrom-lower pages low low' [] le blocks = tt
BlocksFrom-lower pages low low' (p ∷ list) le (from, some_pages, head, above) =
    (omega arith, some_pages, head, above)
