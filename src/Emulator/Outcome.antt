-- ===== src/Emulator/Outcome.antt =====
-- The result of an operation that takes `bool& exception`: src/cpu.h, src/mmu.h. Every caller there
-- returns as soon as the flag is set, so a raised exception ends the operation.
use mips32_cpu_emulator.Prelude.{Bool, true, false, if◌then◌else◌}

-- `done`: a normal return. `raised`: a return with `exception` set. `undefined`: the C++ standard
-- leaves the behaviour open, as for an array index out of range or a read that fails.
pub data Outcome (S A : Type 0) : Type 0 where
  done : A → S → Outcome S A
  raised : S → Outcome S A
  undefined : Outcome S A

abbrev pub Exec : Type 0 → Type 0 → Type 0
Exec S A = S → Outcome S A

abbrev pub bind : {S A B : Type 0} → Outcome S A → (A → Exec S B) → Outcome S B
bind (done a s) f = f a s
bind (raised s) f = raised s
bind undefined f = undefined

infixl 5 ◌>>=◌ ◌>>◌
abbrev pub ◌>>=◌ : {S A B : Type 0} → Exec S A → (A → Exec S B) → Exec S B
◌>>=◌ m f s = bind (m s) f

abbrev pub ◌>>◌ : {S B : Type 0} → Exec S (Unit {0}) → Exec S B → Exec S B
m >> k = m >>= λ _. k

-- What a normal return satisfies, and what a raised one does. Undefined behaviour satisfies all.
pub data Ensures {S A : Type 0} (P : A → S → Type 0) (Q : S → Type 0) : Outcome S A → Type 0 where
  on_done : {a : A} {s : S} → P a s → Ensures P Q (done a s)
  on_raised : {s : S} → Q s → Ensures P Q (raised s)
  on_undefined : Ensures P Q undefined

module _ {S A : Type 0} {P : A → S → Type 0} {Q : S → Type 0} where
  pub Ensures-bind :
      {B : Type 0} {P' : B → S → Type 0} {o : Outcome S A} {f : A → Exec S B}
      → Ensures P Q o
      → ((a : A) (s : S) → P a s → Ensures P' Q (f a s))
      → Ensures P' Q (bind o f)
  Ensures-bind (on_done {a} {s} h) k = k a s h
  Ensures-bind (on_raised h) k = on_raised h
  Ensures-bind on_undefined k = on_undefined

  -- Both branches of a test.
  pub Ensures-if :
      (b : Bool) {o o' : Outcome S A}
      → Ensures P Q o
      → Ensures P Q o'
      → Ensures P Q (if b then o else o')
  Ensures-if true h k = h
  Ensures-if false h k = k

  pub Ensures-mono :
      {P' : A → S → Type 0} {Q' : S → Type 0} {o : Outcome S A}
      → ((a : A) (s : S) → P a s → P' a s)
      → ((s : S) → Q s → Q' s)
      → Ensures P Q o
      → Ensures P' Q' o
  Ensures-mono f g (on_done {a} {s} h) = on_done (f a s h)
  Ensures-mono f g (on_raised {s} h) = on_raised (g s h)
  Ensures-mono f g on_undefined = on_undefined

  pub Ensures-done : {a : A} {s : S} → Ensures P Q (done a s) → P a s
  Ensures-done (on_done h) = h

  pub Ensures-raised : {s : S} → Ensures P Q (raised s) → Q s
  Ensures-raised (on_raised h) = h
