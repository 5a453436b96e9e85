-- ===== src/Kernel/Files/Sets.antt =====
-- Changes of one entry of the table of files of ucore_OS/kern/fs/file.c, and calls that return.
use mips32_cpu_emulator.Prelude.{
  ℕ, true, false, Option, some, ◌==◌, ==_iff, if◌then◌else◌, ◌≡◌, ◌≢◌, refl, ap, ◌∙◌, arith,
}
use mips32_cpu_emulator.Kernel.Result.{Result, returned}
use mips32_cpu_emulator.Kernel.Files.{File, Files}
use mips32_cpu_emulator.Kernel.Files.Monad.{M, continue, set_file, node_of}

-- A call that returns, with a result and a table that satisfy `P`.
pub data Gives {V A : Type 0} (P : A → Files V → Type 0) : Result (A × Files V) → Type 0 where
  gives : {a : A} {s : Files V} → P a s → Gives P (returned (a, s))

module _ {V A : Type 0} {P : A → Files V → Type 0} where
  pub Gives-continue :
      {B : Type 0} {Q : B → Files V → Type 0} {r : Result (A × Files V)} {k : A → M V B}
      → Gives P r
      → ((a : A) (s : Files V) → P a s → Gives Q (k a s))
      → Gives Q (continue r k)
  Gives-continue (gives {a} {s} h) k = k a s h

  pub Gives-mono :
      {Q : A → Files V → Type 0} {r : Result (A × Files V)}
      → Gives P r
      → ((a : A) (s : Files V) → P a s → Q a s)
      → Gives Q r
  Gives-mono (gives {a} {s} h) f = gives (f a s h)

-- `s` is `start` with `file` at index `i`, whatever the file systems did.
pub record Sets {V : Type 0} (start s : Files V) (i : ℕ) (file : File) : Type 0 where
  pub entry : s.fd_array i ≡ file
  pub others : (j : ℕ) → j ≢ i → s.fd_array j ≡ start.fd_array j
  pub count_kept : s.files_count ≡ start.files_count

module _ {V : Type 0} {start : Files V} where
  pub Sets-refl : (i : ℕ) → Sets start start i (start.fd_array i)
  Sets-refl i = record { entry = refl; others = λ j apart. refl; count_kept = refl }

  pub Sets-set_file :
      {s : Files V} {i : ℕ} {old : File} (file : File)
      → Sets start s i old
      → Sets start (set_file s i file) i file
  Sets-set_file {s} {i} file sets = record {
    entry =
        let same : (i == i) ≡ true = (==_iff i i).1 refl in
        ap (λ t. if t then file else s.fd_array i) same;
    others = λ j apart.
        let other : (i == j) ≡ false = ground arith in
        ap (λ t. if t then file else s.fd_array j) other ∙ sets.others j apart;
    count_kept = sets.count_kept;
  }

  pub Sets-update :
      {s : Files V} {i : ℕ} {file : File} (change : File → File)
      → Sets start s i file
      → Sets start (set_file s i (change (s.fd_array i))) i (change file)
  Sets-update {s} {i} change sets =
      let set = Sets-set_file (change (s.fd_array i)) sets in
      record {
        entry = set.entry ∙ ap change sets.entry;
        others = set.others;
        count_kept = set.count_kept;
      }

  pub Sets-same :
      {s : Files V} {i : ℕ} {file file' : File}
      → Sets start s i file
      → file ≡ file'
      → Sets start s i file'
  Sets-same sets same = record {
    entry = sets.entry ∙ same;
    others = sets.others;
    count_kept = sets.count_kept;
  }

  pub Sets-vfs :
      {s : Files V} {i : ℕ} {file : File} (vfs : V)
      → Sets start s i file
      → Sets start (record s { vfs = vfs }) i file
  Sets-vfs vfs sets = record {
    entry = sets.entry;
    others = sets.others;
    count_kept = sets.count_kept;
  }

pub node_of_lem :
    {V : Type 0} (s : Files V) (inode : Option ℕ) (node : ℕ)
    → inode ≡ some node
    → node_of inode s ≡ returned (node, s)
node_of_lem s inode node same = rw same refl

pub unused_test : (count : ℕ) → count ≡ 0 → (count == 0) ≡ true
unused_test count unused = rw unused refl
