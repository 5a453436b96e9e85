-- ===== src/Kernel/Files/Process.antt =====
-- The table of files in the life of a process: `files_destroy` and `files_closeall` of
-- ucore_OS/kern/fs/fs.c. `files_create` makes the table of `Init`.
use mips32_cpu_emulator.Prelude.{
  ℕ, zero, suc, ◌+◌, ◌-◌, ◌<◌, ◌≤◌, true, ltb, ◌==◌, ◌≡◌, ◌⊎◌, inl, inr, refl, ap, sym, subst, ◌∙◌,
  arith, Bool-cases, lt→ltb, if◌then◌else◌,
}
use mips32_cpu_emulator.Kernel.Files.{File, Files, Vfs, nentry, is_none, is_opened}
use mips32_cpu_emulator.Kernel.Files.Monad.{M, ◌>>=◌, ◌>>◌, pure, assert, file_of, call_void}
use mips32_cpu_emulator.Kernel.Files.Entry.{fd_array_close, get_fd_array}
use mips32_cpu_emulator.Kernel.Files.Sets.{
  Gives, gives, Gives-continue, Gives-mono, Sets, Sets-refl, unused_test,
}
use mips32_cpu_emulator.Kernel.Files.Lifecycle.{fd_array_close-Sets}
use mips32_cpu_emulator.Kernel.Files.Table.{IsFree, Resting, free, in_use, IsFiles}

module _ {V : Type 0} (ops : Vfs V) where
  -- The step of both loops.
  abbrev pub close_open : ℕ → M V (Unit {0})
  close_open i =
      file_of i >>= λ file. if is_opened file.status then fd_array_close ops i else pure tt

  -- The loop of `files_destroy`, with `left` entries to go from `i` on.
  unfoldable pub destroy_from : ℕ → ℕ → M V (Unit {0})
  destroy_from zero i = pure tt
  destroy_from (suc left) i =
      close_open i
      >> (file_of i >>= λ file. assert (is_none file.status) >> destroy_from left (suc i))

  unfoldable pub closeall_from : ℕ → ℕ → M V (Unit {0})
  closeall_from zero i = pure tt
  closeall_from (suc left) i = close_open i >> closeall_from left (suc i)

  -- `release` is `vop_ref_dec` of the working directory, where there is one.
  unfoldable pub files_destroy : (V → V) → M V (Unit {0})
  files_destroy release s =
      (assert (s.files_count == 0) >> (call_void release >> destroy_from nentry 0)) s

  unfoldable pub files_closeall : M V (Unit {0})
  files_closeall = get_fd_array ops >> closeall_from (nentry - 2) 2

-- `s` is `start` with the entries of the range from `from` to below `to` free, and the others as they
-- were.
pub record Closed {V : Type 0} (start : Files V) (from to : ℕ) (s : Files V) : Type 0 where
  pub are_free : (j : ℕ) → from ≤ j → j < to → IsFree (s.fd_array j)
  pub others : (j : ℕ) → (j < from) ⊎ (to ≤ j) → s.fd_array j ≡ start.fd_array j
  pub same_fd : (j : ℕ) → (s.fd_array j).fd ≡ (start.fd_array j).fd
  pub count_kept : s.files_count ≡ start.files_count

module _ {V : Type 0} (start : Files V) (from : ℕ) where
  -- One more entry that is free.
  Closed-suc :
      (to : ℕ) (s s' : Files V) (file : File)
      → from ≤ to
      → Closed start from to s
      → Sets s s' to file
      → IsFree file
      → file.fd ≡ (s.fd_array to).fd
      → Closed start from (suc to) s'
  Closed-suc to s s' file ordered closed sets is_free same_fd = record {
    are_free = λ j after below. elim (Bool-cases (j == to)) [
      | inl at ↦
          let same : j ≡ to = ground arith in
          subst (λ (t : ℕ). IsFree (s'.fd_array t)) (sym same)
            (subst IsFree (sym sets.entry) is_free)
      | inr off ↦
          subst IsFree (sym (sets.others j (ground arith))) (closed.are_free j after (ground arith))
    ];
    others = λ j outside.
        sets.others j (omega (arith, outside, ordered)) ∙ closed.others j (omega (arith, outside));
    same_fd = λ j. elim (Bool-cases (j == to)) [
      | inl at ↦
          let same : j ≡ to = ground arith in
          subst (λ (t : ℕ). (s'.fd_array t).fd ≡ (start.fd_array t).fd) (sym same)
            (ap (λ (f : File). f.fd) sets.entry ∙ same_fd ∙ closed.same_fd to)
      | inr off ↦ ap (λ (f : File). f.fd) (sets.others j (ground arith)) ∙ closed.same_fd j
    ];
    count_kept = sets.count_kept ∙ closed.count_kept;
  }

  Closed-refl : Closed start from from start
  Closed-refl = record {
    are_free = λ j after below. absurd (omega arith);
    others = λ j outside. refl;
    same_fd = λ j. refl;
    count_kept = refl;
  }

module _ {V : Type 0} (ops : Vfs V) (start : Files V) (from : ℕ) where
  close_open-Closed :
      (to : ℕ) (s : Files V)
      → from ≤ to
      → Resting (start.fd_array to)
      → Closed start from to s
      → Gives (λ _ s'. Closed start from (suc to) s') (close_open ops to s)
  close_open-Closed to s ordered (free is_free) closed =
      let same = closed.others to (inr (omega arith)) in
      rw (same, is_free.unopened)
        (gives (
          Closed-suc start from to s s (s.fd_array to) ordered closed (Sets-refl to)
            (subst IsFree (sym same) is_free) refl))
  close_open-Closed to s ordered (in_use {node} is_open) closed =
      let same = closed.others to (inr (omega arith)) in
      let opened : is_opened (s.fd_array to).status ≡ true =
        ap (λ (f : File). is_opened f.status) same ∙ ap is_opened is_open.opened in
      let once : (s.fd_array to).open_count ≡ 1 =
        ap (λ (f : File). f.open_count) same ∙ is_open.once in
      rw opened (
        Gives-mono
          (fd_array_close-Sets ops s s to (s.fd_array to) node (Sets-refl to) opened once
            (ap (λ (f : File). f.node) same ∙ is_open.with_node))
          (λ _ s' (sets, _).
            Closed-suc start from to s s' _ ordered closed sets
              (record { unopened = refl; unused = omega (arith, once) }) refl))

  closeall_from-Closed :
      (left i : ℕ) (s : Files V)
      → from ≤ i
      → ((j : ℕ) → j < i + left → Resting (start.fd_array j))
      → Closed start from i s
      → Gives (λ _ s'. Closed start from (i + left) s') (closeall_from ops left i s)
  unfolding closeall_from
  closeall_from-Closed zero i s ordered rest closed =
      gives (subst (λ (to : ℕ). Closed start from to s) (omega arith) closed)
  closeall_from-Closed (suc left) i s ordered rest closed =
      Gives-continue (close_open-Closed i s ordered (rest i (omega arith)) closed) λ _ s' closed'.
        Gives-mono
          (closeall_from-Closed left (suc i) s' (omega arith) (λ j below. rest j (omega arith))
            closed')
          (λ _ s'' closed''. subst (λ (to : ℕ). Closed start from to s'') (omega arith) closed'')

  destroy_from-Closed :
      (left i : ℕ) (s : Files V)
      → from ≤ i
      → ((j : ℕ) → j < i + left → Resting (start.fd_array j))
      → Closed start from i s
      → Gives (λ _ s'. Closed start from (i + left) s') (destroy_from ops left i s)
  unfolding destroy_from
  destroy_from-Closed zero i s ordered rest closed =
      gives (subst (λ (to : ℕ). Closed start from to s) (omega arith) closed)
  destroy_from-Closed (suc left) i s ordered rest closed =
      Gives-continue (close_open-Closed i s ordered (rest i (omega arith)) closed) λ _ s' closed'.
        rw (closed'.are_free i ordered (omega arith)).unopened (
          Gives-mono
            (destroy_from-Closed left (suc i) s' (omega arith) (λ j below. rest j (omega arith))
              closed')
            (λ _ s'' closed''. subst (λ (to : ℕ). Closed start from to s'') (omega arith) closed''))

module _ {V : Type 0} (ops : Vfs V) (start : Files V) where
  -- `files_closeall` on a well-formed table returns; the entries from 2 on are free, and 0 and 1
  -- as they were.
  pub files_closeall-Closed :
      IsFiles start → Gives (λ _ s. Closed start 2 nentry s) (files_closeall ops start)
  unfolding files_closeall get_fd_array
  files_closeall-Closed good =
      let counted : ltb 0 start.files_count ≡ true = lt→ltb _ _ good.referenced in
      rw counted (
        closeall_from-Closed ops start 2 (nentry - 2) 2 start (omega arith) good.resting
          (Closed-refl start 2))

  -- `files_destroy` of a table without a reference, whose entries are free or open with one
  -- reference, returns with all entries free.
  pub files_destroy-Closed :
      (release : V → V)
      → start.files_count ≡ 0
      → ((i : ℕ) → i < nentry → Resting (start.fd_array i))
      → Gives (λ _ s. Closed start 0 nentry s) (files_destroy ops release start)
  unfolding files_destroy
  files_destroy-Closed release unreferenced rest = rw (unused_test start.files_count unreferenced) (
      destroy_from-Closed ops start 0 nentry 0 (record start { vfs = release start.vfs })
        (omega arith) rest
        (record {
          are_free = λ j after below. absurd (omega arith);
          others = λ j outside. refl;
          same_fd = λ j. refl;
          count_kept = refl;
        }))
