-- ===== src/Kernel/Files/Table.antt =====
-- The table of files between two calls of ucore_OS/kern/fs/file.c, the search for a free entry, and the
-- look-up of a descriptor.
use mips32_cpu_emulator.Prelude.{
  ℕ, zero, suc, ◌+◌, ◌<◌, ◌≤◌, true, false, Option, some, none, ltb, ◌==◌, ==_iff, ◌≡◌, inl, inr,
  refl, ap, sym, subst, ◌∙◌, arith, Bool-cases, lt→ltb,
}
use mips32_cpu_emulator.Prelude.Int.{ℤ, pos, negsuc}
use mips32_cpu_emulator.Kernel.Result.{e_inval}
use mips32_cpu_emulator.Kernel.Files.{
  fd_none, File, Files, Ret, ok, error, Vfs, is_none, nentry, testfd, index_of,
}
use mips32_cpu_emulator.Kernel.Files.Monad.{M, continue}
use mips32_cpu_emulator.Kernel.Files.Entry.{find_free, get_fd_array}
use mips32_cpu_emulator.Kernel.Files.Calls.{fd2file}
use mips32_cpu_emulator.Kernel.Files.Sets.{Gives, Sets}
use mips32_cpu_emulator.Kernel.Files.Steps.{IsOpen, Holds}

pub record IsFree (file : File) : Type 0 where
  pub unopened : file.status ≡ fd_none
  pub unused : file.open_count ≡ 0

-- Between two calls an entry is free, or open with one reference.
pub data Resting (file : File) : Type 0 where
  free : IsFree file → Resting file
  in_use : {node : ℕ} → IsOpen file node → Resting file

-- A table that is well formed between two calls.
pub record IsFiles {V : Type 0} (s : Files V) : Type 0 where
  pub referenced : 0 < s.files_count
  pub numbered : (i : ℕ) → i < nentry → (s.fd_array i).fd ≡ i
  pub resting : (i : ℕ) → i < nentry → Resting (s.fd_array i)

module _ {V : Type 0} {start s : Files V} where
  pub Sets-IsFiles :
      {i : ℕ} {file : File}
      → IsFiles start
      → Sets start s i file
      → file.fd ≡ (start.fd_array i).fd
      → Resting file
      → IsFiles s
  Sets-IsFiles {i} {file} good sets same_fd rests = record {
    referenced = subst (λ (t : ℕ). 0 < t) (sym sets.count_kept) good.referenced;
    numbered = λ j inside. elim (Bool-cases (j == i)) [
      | inl at ↦
          let same : j ≡ i = ground arith in
          ap (λ t. (s.fd_array t).fd) same
          ∙ ap (λ (f : File). f.fd) sets.entry
          ∙ same_fd
          ∙ ap (λ t. (start.fd_array t).fd) (sym same)
          ∙ good.numbered j inside
      | inr off ↦ ap (λ (f : File). f.fd) (sets.others j (ground arith)) ∙ good.numbered j inside
    ];
    resting = λ j inside. elim (Bool-cases (j == i)) [
      | inl at ↦
          let same : j ≡ i = ground arith in
          subst (λ (t : ℕ). Resting (s.fd_array t)) (sym same)
            (subst Resting (sym sets.entry) rests)
      | inr off ↦ subst Resting (sym (sets.others j (ground arith))) (good.resting j inside)
    ];
  }

  -- After a call that held the file at `i`, the table is well formed.
  pub Holds-IsFiles :
      {i node : ℕ} → IsFiles start → IsOpen (start.fd_array i) node → Holds start i 1 s → IsFiles s
  Holds-IsFiles good is_open held =
      Sets-IsFiles good held.sets refl
        (in_use (record { opened = is_open.opened; once = refl; with_node = is_open.with_node }))

-- The lowest free entry from `from` to below `to`.
pub data FreeFound (files : ℕ → File) (from to : ℕ) : Option ℕ → Type 0 where
  found :
      {i : ℕ}
      → from ≤ i
      → i < to
      → is_none (files i).status ≡ true
      → ((j : ℕ) → from ≤ j → j < i → is_none (files j).status ≡ false)
      → FreeFound files from to (some i)
  full :
      ((j : ℕ) → from ≤ j → j < to → is_none (files j).status ≡ false)
      → FreeFound files from to none

found_later :
    (files : ℕ → File) (from to : ℕ) (result : Option ℕ)
    → is_none (files from).status ≡ false
    → FreeFound files (suc from) to result
    → FreeFound files from to result
found_later files from to (some i) taken (found after inside free_entry lower) =
    found (omega arith) inside free_entry λ j from_on below. elim (Bool-cases (j == from)) [
      | inl at ↦
          let same : j ≡ from = ground arith in
          subst (λ (t : ℕ). is_none (files t).status ≡ false) (sym same) taken
      | inr off ↦ lower j (ground arith) below
    ]
found_later files from to none taken (full all) = full λ j from_on below.
    elim (Bool-cases (j == from)) [
      | inl at ↦
          let same : j ≡ from = ground arith in
          subst (λ (t : ℕ). is_none (files t).status ≡ false) (sym same) taken
      | inr off ↦ all j (ground arith) below
    ]

pub find_free_lem :
    (left fd : ℕ) (files : ℕ → File) → FreeFound files fd (fd + left) (find_free left fd files)
unfolding find_free
find_free_lem zero fd files = full λ j after below. absurd (omega arith)
find_free_lem (suc left) fd files = elim (Bool-cases (is_none (files fd).status)) [
  | inl hit ↦ rw hit (found (omega arith) (omega arith) hit λ j after below. absurd (omega arith))
  | inr miss ↦ rw miss (
      found_later files fd (fd + suc left) (find_free left (suc fd) files) miss (
        subst (λ (to : ℕ). FreeFound files (suc fd) to (find_free left (suc fd) files))
          (omega arith) (find_free_lem left (suc fd) files)))
]

-- A descriptor of an open file.
pub record IsFd {V : Type 0} (s : Files V) (fd : ℤ) (node : ℕ) : Type 0 where
  pub valid : testfd fd ≡ true
  pub inside : index_of fd < nentry
  pub is_open : IsOpen (s.fd_array (index_of fd)) node

-- A descriptor that is out of range, or of an entry that is free.
pub data IsBadFd {V : Type 0} (s : Files V) (fd : ℤ) : Type 0 where
  out_of_range : testfd fd ≡ false → IsBadFd s fd
  not_open : IsFree (s.fd_array (index_of fd)) → IsBadFd s fd

pub index-inside : (fd : ℤ) → testfd fd ≡ true → index_of fd < nentry
index-inside (pos n) valid = ground arith
index-inside (negsuc n) valid = cc

module _ {V B : Type 0} (ops : Vfs V) {Q : B → Files V → Type 0} where
  -- What follows a look-up, for a good and for a bad descriptor.
  pub fd2file-continue :
      (start : Files V) (fd : ℤ) (k : Ret → M V B)
      → IsFiles start
      → ((node : ℕ) → IsFd start fd node → Gives Q (k (ok (index_of fd)) start))
      → (IsBadFd start fd → Gives Q (k (error e_inval) start))
      → Gives Q (continue (fd2file ops fd start) k)
  unfolding fd2file get_fd_array
  fd2file-continue start fd k good when_open when_bad = elim (Bool-cases (testfd fd)) [
    | inl valid ↦
        let inside = index-inside fd valid in
        let counted : ltb 0 start.files_count ≡ true = lt→ltb _ _ good.referenced in
        let named : ((start.fd_array (index_of fd)).fd == index_of fd) ≡ true =
          (==_iff _ _).1 (good.numbered (index_of fd) inside) in
        elim (good.resting (index_of fd) inside) [
          | free is_free ↦ rw (valid, counted, is_free.unopened) (when_bad (not_open is_free))
          | in_use {node} is_open ↦
              rw (valid, counted, is_open.opened, named)
                (when_open node (record { valid = valid; inside = inside; is_open = is_open }))
        ]
    | inr invalid ↦ rw invalid (when_bad (out_of_range invalid))
  ]
