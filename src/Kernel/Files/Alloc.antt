-- ===== src/Kernel/Files/Alloc.antt =====
-- The allocation of an entry: `fd_array_alloc` of ucore_OS/kern/fs/file.c, between two calls.
use mips32_cpu_emulator.Prelude.{
  ℕ, ◌<◌, true, false, Option, some, none, ltb, ◌≡◌, ◌⊎◌, inl, inr, refl, arith, Bool-cases, lt→ltb,
}
use mips32_cpu_emulator.Prelude.Int.{ℤ}
use mips32_cpu_emulator.Kernel.Result.{e_inval, e_busy, e_max_open}
use mips32_cpu_emulator.Kernel.Files.{
  Status, fd_none, fd_init, fd_opened, fd_closed, Files, Ret, ok, error, Vfs, is_none, nentry,
  testfd, index_of, is_no_fd,
}
use mips32_cpu_emulator.Kernel.Files.Monad.{M, continue, set_file}
use mips32_cpu_emulator.Kernel.Files.Entry.{
  get_fd_array, alloc_found, alloc_first, fd_array_alloc, find_free,
}
use mips32_cpu_emulator.Kernel.Files.Calls.{no_fd}
use mips32_cpu_emulator.Kernel.Files.Sets.{Gives, unused_test}
use mips32_cpu_emulator.Kernel.Files.Table.{
  IsFree, Resting, free, in_use, IsFiles, FreeFound, found, full, find_free_lem, IsFd, index-inside,
}

pub Option-cases : {A : Type 0} (o : Option A) → (o ≡ none) ⊎ ((a : A) × (o ≡ some a))
Option-cases none = inl refl
Option-cases (some a) = inr (a, refl)

pub Ret-cases : (r : Ret) → ((value : ℕ) × (r ≡ ok value)) ⊎ ((code : ℕ) × (r ≡ error code))
Ret-cases (ok value) = inl (value, refl)
Ret-cases (error code) = inr (code, refl)

none_status : (status : Status) → is_none status ≡ true → status ≡ fd_none
none_status fd_none hit = refl
none_status fd_init hit = cc
none_status fd_opened hit = cc
none_status fd_closed hit = cc

-- A free entry of the table.
pub record IsFreeAt {V : Type 0} (s : Files V) (i : ℕ) : Type 0 where
  pub inside : i < nentry
  pub entry : IsFree (s.fd_array i)

pub free_at :
    {V : Type 0} (s : Files V) (i : ℕ)
    → IsFiles s
    → i < nentry
    → is_none (s.fd_array i).status ≡ true
    → IsFreeAt s i
free_at s i good inside hit = record {
  inside = inside;
  entry = elim (good.resting i inside) [
    | free is_free ↦ is_free
    | in_use is_open ↦ absurd (cc (hit, is_open.opened))
  ];
}

-- Every entry of the table is in use.
abbrev pub IsFull : {V : Type 0} → Files V → Type 0
IsFull s = (j : ℕ) → j < nentry → is_none (s.fd_array j).status ≡ false

-- The lowest free entry.
pub record IsLowestFree {V : Type 0} (s : Files V) (i : ℕ) : Type 0 where
  pub free_entry : IsFreeAt s i
  pub lowest : (j : ℕ) → j < i → is_none (s.fd_array j).status ≡ false

-- The table with entry `i` allocated.
abbrev pub allocated : {V : Type 0} → Files V → ℕ → Files V
allocated s i = set_file s i (record (s.fd_array i) { status = fd_init; node = none })

module _ {V B : Type 0} (ops : Vfs V) {Q : B → Files V → Type 0} where
  pub alloc_found-continue :
      (start : Files V) (i : ℕ) (k : Ret → M V B)
      → IsFreeAt start i
      → Gives Q (k (ok i) (allocated start i))
      → Gives Q (continue (alloc_found ops i start) k)
  unfolding alloc_found
  alloc_found-continue start i k is_free after =
      rw (unused_test (start.fd_array i).open_count is_free.entry.unused) after

  alloc_first-continue :
      (start : Files V) (k : Ret → M V B) (result : Option ℕ)
      → IsFiles start
      → FreeFound start.fd_array 0 nentry result
      → ((i : ℕ) → IsLowestFree start i → Gives Q (k (ok i) (allocated start i)))
      → (IsFull start → Gives Q (k (error e_max_open) start))
      → Gives Q (continue (alloc_first ops result start) k)
  alloc_first-continue start k none good (full all) when_free when_full =
      when_full λ j inside. all j (omega arith) inside
  alloc_first-continue start k (some i) good (found after inside hit lower) when_free when_full =
      let is_free = free_at start i good inside hit in
      alloc_found-continue start i k is_free (
        when_free i
          (record { free_entry = is_free; lowest = λ j below. lower j (omega arith) below }))

  -- What follows an allocation of any entry.
  pub alloc_any-continue :
      (start : Files V) (k : Ret → M V B)
      → IsFiles start
      → ((i : ℕ) → IsLowestFree start i → Gives Q (k (ok i) (allocated start i)))
      → (IsFull start → Gives Q (k (error e_max_open) start))
      → Gives Q (continue (fd_array_alloc ops no_fd start) k)
  unfolding fd_array_alloc get_fd_array
  alloc_any-continue start k good when_free when_full =
      let counted : ltb 0 start.files_count ≡ true = lt→ltb _ _ good.referenced in
      rw counted (
        alloc_first-continue start k (find_free nentry 0 start.fd_array) good
          (find_free_lem nentry 0 start.fd_array) when_free when_full)

-- Which entry an allocation takes: the lowest free one, or the one that is named.
pub data Chosen {V : Type 0} (start : Files V) (fd : ℤ) : ℕ → Type 0 where
  lowest : {i : ℕ} → is_no_fd fd ≡ true → IsLowestFree start i → Chosen start fd i
  named : testfd fd ≡ true → Chosen start fd (index_of fd)

-- Why an allocation fails, with its code.
pub data NotAllocated {V : Type 0} (start : Files V) (fd : ℤ) : ℕ → Type 0 where
  none_left : is_no_fd fd ≡ true → IsFull start → NotAllocated start fd e_max_open
  bad_number : is_no_fd fd ≡ false → testfd fd ≡ false → NotAllocated start fd e_inval
  taken : {node : ℕ} → IsFd start fd node → NotAllocated start fd e_busy

module _ {V B : Type 0} (ops : Vfs V) {Q : B → Files V → Type 0} (start : Files V) (fd : ℤ)
    (k : Ret → M V B) (good : IsFiles start)
    (when_free : (i : ℕ)
      → IsFreeAt start i
      → Chosen start fd i
      → Gives Q (k (ok i) (allocated start i)))
    (when_not : (code : ℕ) → NotAllocated start fd code → Gives Q (k (error code) start)) where
  at_entry :
      is_no_fd fd ≡ false
      → testfd fd ≡ true
      → Resting (start.fd_array (index_of fd))
      → Gives Q (continue (fd_array_alloc ops fd start) k)
  unfolding fd_array_alloc get_fd_array
  at_entry not_any valid (free is_free) =
      let counted : ltb 0 start.files_count ≡ true = lt→ltb _ _ good.referenced in
      let entry : IsFreeAt start (index_of fd) = record {
        inside = index-inside fd valid;
        entry = is_free;
      } in
      rw (counted, not_any, valid, is_free.unopened)
        (alloc_found-continue ops start (index_of fd) k entry
          (when_free (index_of fd) entry (named valid)))
  at_entry not_any valid (in_use is_open) =
      let counted : ltb 0 start.files_count ≡ true = lt→ltb _ _ good.referenced in
      rw (counted, not_any, valid, is_open.opened)
        (when_not e_busy
          (taken (record { valid = valid; inside = index-inside fd valid; is_open = is_open })))

  -- What follows an allocation of the entry that `fd` names.
  pub fd_array_alloc-continue : Gives Q (continue (fd_array_alloc ops fd start) k)
  unfolding fd_array_alloc get_fd_array
  fd_array_alloc-continue =
      let counted : ltb 0 start.files_count ≡ true = lt→ltb _ _ good.referenced in
      elim (Bool-cases (is_no_fd fd)) [
        | inl any ↦
            rw (counted, any)
              (alloc_first-continue ops start k (find_free nentry 0 start.fd_array) good
                (find_free_lem nentry 0 start.fd_array)
                (λ i first. when_free i first.free_entry (lowest any first))
                (λ all. when_not e_max_open (none_left any all)))
        | inr not_any ↦ elim (Bool-cases (testfd fd)) [
          | inl valid ↦ at_entry not_any valid (good.resting (index_of fd) (index-inside fd valid))
          | inr invalid ↦
              rw (counted, not_any, invalid) (when_not e_inval (bad_number not_any invalid))
        ]
      ]
