-- ===== src/Kernel/Vma/Find.antt =====
-- `find_vma` of ucore_OS/kern/mm/vmm.c: the cache does not change what is found.
use mips32_cpu_emulator.Prelude.{
  ℕ, true, false, Option, some, none, List, [], ◌∷◌, ◌≡◌, inl, inr, refl, sym, subst, arith,
  Bool-cases,
}
use mips32_cpu_emulator.Kernel.Vma.{Vma, Mm, contains, scan, hit, find_vma, with_cache}
use mips32_cpu_emulator.Kernel.Vma.Areas.{
  AreasFrom, Has, here, further, IsMm, Cached, InArea, contains-InArea, InArea-contains,
  AreasFrom-Has,
}

-- The area of a list that an address lies in, or none.
pub data Located (list : List Vma) (addr : ℕ) : Option Vma → Type 0 where
  at : {vma : Vma} → Has vma list → InArea vma addr → Located list addr (some vma)
  nowhere : ((vma : Vma) → Has vma list → InArea vma addr → ⊥) → Located list addr none

Located-further :
    {list : List Vma} {addr : ℕ} {o : Option Vma} (vma : Vma)
    → contains vma addr ≡ false
    → Located list addr o
    → Located (vma ∷ list) addr o
Located-further vma h (at has inside) = at (further has) inside
Located-further {list} {addr} vma h (nowhere no_area) = nowhere (beyond vma h)
  where
    beyond :
        (first : Vma)
        → contains first addr ≡ false
        → (other : Vma) → Has other (first ∷ list)
        → InArea other addr
        → ⊥
    beyond _ h other here inside =
        let both : contains other addr ≡ true = InArea-contains other addr inside in absurd cc
    beyond _ h other (further has) inside = no_area other has inside

pub scan-Located : (list : List Vma) (addr : ℕ) → Located list addr (scan list addr)
unfolding scan
scan-Located [] addr = nowhere (λ vma has inside. elim has [ ])
scan-Located (vma ∷ list) addr = elim (Bool-cases (contains vma addr)) [
  | inl h ↦ rw h (at here (contains-InArea vma addr h))
  | inr h ↦ rw h (Located-further vma h (scan-Located list addr))
]

-- Areas are apart, so there is one at most.
pub scan_unique :
    (low : ℕ) (list : List Vma) (addr : ℕ) (vma : Vma)
    → AreasFrom low list
    → Has vma list
    → InArea vma addr
    → scan list addr ≡ some vma
unfolding scan
scan_unique low [] addr vma sorted has inside = elim has [ ]
scan_unique low (_ ∷ list) addr vma sorted here inside = rw (InArea-contains vma addr inside) refl
scan_unique low (other ∷ list) addr vma (from, area, above) (further has) inside =
    elim (Bool-cases (contains other addr)) [
      | inl h ↦
          let within = contains-InArea other addr h in
          let later = AreasFrom-Has other.vm_end list vma above has in
          absurd (omega (arith, within.1, later.0, inside.0))
      | inr h ↦ rw h (scan_unique other.vm_end list addr vma above has inside)
    ]

hit-scan :
    (list : List Vma) (cache : Option Vma) (addr : ℕ)
    → AreasFrom 0 list
    → Cached cache list
    → hit cache addr ≡ true
    → cache ≡ scan list addr
hit-scan list none addr sorted cached h = absurd cc
hit-scan list (some vma) addr sorted cached h =
    sym (scan_unique 0 list addr vma sorted cached (contains-InArea vma addr h))

found_area : (mm : Mm) (addr : ℕ) → IsMm mm → (find_vma mm addr).0 ≡ scan mm.mmap_list addr
unfolding find_vma
found_area mm addr well = elim (Bool-cases (hit mm.mmap_cache addr)) [
  | inl h ↦ rw h (hit-scan mm.mmap_list mm.mmap_cache addr well.sorted well.cached h)
  | inr h ↦ rw h refl
]

-- What a search promises about its result and the address space that it leaves.
pub record Finds (mm : Mm) (addr : ℕ) (result : Option Vma × Mm) : Type 0 where
  pub located : Located mm.mmap_list addr result.0
  pub as_scanned : result.0 ≡ scan mm.mmap_list addr
  pub well_formed : IsMm result.1
  pub list_kept : result.1.mmap_list ≡ mm.mmap_list
  pub count_kept : result.1.map_count ≡ mm.map_count

Finds-found :
    (mm : Mm) (addr : ℕ) (o : Option Vma)
    → IsMm mm
    → Located mm.mmap_list addr o
    → o ≡ scan mm.mmap_list addr
    → Finds mm addr (o, with_cache mm o)
Finds-found mm addr (some vma) well (at has inside) same = record {
  located = at has inside;
  as_scanned = same;
  well_formed = record { sorted = well.sorted; cached = has; counted = well.counted };
  list_kept = refl;
  count_kept = refl;
}
Finds-found mm addr none well (nowhere no_area) same = record {
  located = nowhere no_area;
  as_scanned = same;
  well_formed = well;
  list_kept = refl;
  count_kept = refl;
}

-- On a well-formed address space `find_vma` finds the area that an address lies in, exactly as a
-- search of the whole list does, whatever area is cached. It changes nothing but the cache, and keeps
-- the address space well formed.
pub find_vma-Finds : (mm : Mm) (addr : ℕ) → IsMm mm → Finds mm addr (find_vma mm addr)
unfolding find_vma
find_vma-Finds mm addr well =
    let same = found_area mm addr well in
    Finds-found mm addr (find_vma mm addr).0 well
      (subst (Located mm.mmap_list addr) (sym same) (scan-Located mm.mmap_list addr)) same
