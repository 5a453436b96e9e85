-- ===== src/Libs/Strings/Compare.antt =====
-- `strcmp` of ucore_OS/libs/string.c: the order of the first characters that differ.
use mips32_cpu_emulator.Prelude.{
  ℕ, zero, suc, ◌+◌, ◌≤◌, ◌<◌, some, ◌==◌, ==_iff, ◌≡◌, ◌≢◌, ◌⊎◌, ◌↔◌, inl, inr, refl, subst, sym,
  ap, ◌∙◌, arith, Bool-cases,
}
use native.Mathlib.Decide.{dec_lt}
use mips32_cpu_emulator.Prelude.Int.{ℤ, pos, sub_ℕ}
use mips32_cpu_emulator.Libs.Memory.{Memory}
use mips32_cpu_emulator.Libs.Strings.{strcmp}
use mips32_cpu_emulator.Libs.Strings.Length.{IsString, IsString-tail, IsString-nul, IsString-more}

-- The strings agree up to place `k`, and there they differ or both end.
pub record Differ (mem : Memory) (s1 s2 k : ℕ) : Type 0 where
  pub same : (i : ℕ) → i < k → mem (s1 + i) ≡ mem (s2 + i)
  pub inside : (i : ℕ) → i < k → mem (s1 + i) ≢ 0
  pub stop : (mem (s1 + k) ≢ mem (s2 + k)) ⊎ (mem (s1 + k) ≡ 0)

pred_of : (i : ℕ) → (i ≡ 0) ⊎ ((j : ℕ) × (i ≡ suc j))
pred_of zero = inl refl
pred_of (suc j) = inr (j, refl)

first_place : (s : ℕ) → s + 0 ≡ s
first_place s = omega arith

next_place : (s j : ℕ) → s + suc j ≡ suc s + j
next_place s j = omega arith

Differ-start : (mem : Memory) (s1 s2 : ℕ) → (mem s1 ≢ mem s2) ⊎ (mem s1 ≡ 0) → Differ mem s1 s2 0
Differ-start mem s1 s2 stop = record {
  same = λ i below. absurd (omega arith);
  inside = λ i below. absurd (omega arith);
  stop = rw (first_place s1, first_place s2) stop;
}

Differ-further :
    (mem : Memory) (s1 s2 k : ℕ)
    → mem s1 ≡ mem s2
    → mem s1 ≢ 0
    → Differ mem (suc s1) (suc s2) k
    → Differ mem s1 s2 (suc k)
Differ-further mem s1 s2 k first some_character later = record {
  same = λ i below. elim (pred_of i) [
    | inl start ↦ rw (start, first_place s1, first_place s2) first
    | inr (j, next) ↦ rw (next, next_place s1 j, next_place s2 j) (later.same j (omega arith))
  ];
  inside = λ i below. elim (pred_of i) [
    | inl start ↦ rw (start, first_place s1) some_character
    | inr (j, next) ↦ rw (next, next_place s1 j) (later.inside j (omega arith))
  ];
  stop = rw (next_place s1 k, next_place s2 k) later.stop;
}

-- A string compared from its start: the place where it stops is within the first string.
strcmp-Differ :
    (bound : ℕ) (mem : Memory) (s1 s2 len : ℕ)
    → IsString mem s1 len
    → len < bound
    → (k : ℕ) × (k ≤ len)
      × Differ mem s1 s2 k
      × (strcmp bound mem s1 s2 ≡ some (sub_ℕ (mem (s1 + k)) (mem (s2 + k))))
unfolding strcmp
strcmp-Differ zero mem s1 s2 len str enough = absurd (omega arith)
strcmp-Differ (suc bound) mem s1 s2 zero str enough =
    let nul : mem s1 ≡ 0 = (==_iff _ _).0 (IsString-nul mem s1 str) in
    (
      0,
      omega arith,
      Differ-start mem s1 s2 (inr nul),
      rw (IsString-nul mem s1 str, first_place s1, first_place s2) refl,
    )
strcmp-Differ (suc bound) mem s1 s2 (suc len) str enough = elim (Bool-cases (mem s1 == mem s2)) [
  | inl h ↦
      let (k, within, differ, returned) =
        strcmp-Differ bound mem (suc s1) (suc s2) len (IsString-tail mem s1 len str)
          (omega arith) in
      let more = IsString-more mem s1 len str in
      (
        suc k,
        omega arith,
        Differ-further mem s1 s2 k ((==_iff _ _).0 h) (λ e. absurd (ground arith)) differ,
        rw (more, h, next_place s1 k, next_place s2 k) returned,
      )
  | inr h ↦ (
    0,
    omega arith,
    Differ-start mem s1 s2 (inl (λ e. absurd (ground arith))),
    rw (h, first_place s1, first_place s2) (ground arith),
  )
]

some_same : {a b : ℤ} → some a ≡ some b → a ≡ b
some_same e = cc

sub_ℕ_zero : (x y : ℕ) → sub_ℕ x y ≡ pos 0 → x ≡ y
sub_ℕ_zero x y h = ground arith

sub_ℕ_same : (x y : ℕ) → x ≡ y → sub_ℕ x y ≡ pos 0
sub_ℕ_same x y h = ground arith

abbrev pub SameString : Memory → ℕ → ℕ → ℕ → ℕ → Type 0
SameString mem s1 len1 s2 len2 = (len1 ≡ len2) × ((i : ℕ) → i < len1 → mem (s1 + i) ≡ mem (s2 + i))

module _ (mem : Memory) (s1 s2 len1 len2 k : ℕ) (str1 : IsString mem s1 len1)
    (str2 : IsString mem s2 len2) (within : k ≤ len1) (differ : Differ mem s1 s2 k) where
  SameString-stop : mem (s1 + k) ≡ mem (s2 + k) → SameString mem s1 len1 s2 len2
  SameString-stop agree =
      let nul1 : mem (s1 + k) ≡ 0 = elim differ.stop [
        | inl apart ↦ absurd (apart agree)
        | inr nul ↦ nul
      ] in
      let last1 : k ≡ len1 = elim (dec_lt k len1) [
        | yes h ↦ absurd (str1.characters k h nul1)
        | no h ↦ omega arith
      ] in
      let last2 : k ≡ len2 = elim (dec_lt k len2) [
        | yes h ↦ absurd (str2.characters k h (omega arith))
        | no h ↦ elim (dec_lt len2 k) [
          | yes h' ↦ absurd (differ.inside len2 h' (omega (arith, differ.same len2 h', str2.ends)))
          | no h' ↦ omega arith
        ]
      ] in
      (omega arith, λ i below. differ.same i (omega arith))

  stop-SameString : SameString mem s1 len1 s2 len2 → mem (s1 + k) ≡ mem (s2 + k)
  stop-SameString (lengths, characters) = elim (dec_lt k len1) [
    | yes h ↦ characters k h
    | no h ↦
        let last : k ≡ len1 = omega arith in
        let nul2 : mem (s2 + len1) ≡ 0 =
          subst (λ (t : ℕ). mem (s2 + t) ≡ 0) (sym lengths) str2.ends in
        rw last (omega (arith, str1.ends))
  ]

-- `strcmp` of two strings ends before the first of them does. The result is the difference of the
-- characters at a place up to which the strings agree, and where they differ or both end; it is 0
-- exactly for equal strings.
pub strcmp_lem :
    (bound : ℕ) (mem : Memory) (s1 s2 len1 len2 : ℕ)
    → IsString mem s1 len1
    → IsString mem s2 len2
    → len1 < bound
    → (k : ℕ) × Differ mem s1 s2 k
      × (strcmp bound mem s1 s2 ≡ some (sub_ℕ (mem (s1 + k)) (mem (s2 + k))))
      × ((strcmp bound mem s1 s2 ≡ some (pos 0)) ↔ SameString mem s1 len1 s2 len2)
strcmp_lem bound mem s1 s2 len1 len2 str1 str2 enough =
    let (k, within, differ, returned) = strcmp-Differ bound mem s1 s2 len1 str1 enough in
    (
      k,
      differ,
      returned,
      (
        (λ zero_result.
            SameString-stop mem s1 s2 len1 len2 k str1 str2 within differ
              (sub_ℕ_zero _ _ (some_same (sym returned ∙ zero_result)))),
        (λ same.
            returned
            ∙ ap some (
                sub_ℕ_same _ _
                  (stop-SameString mem s1 s2 len1 len2 k str1 str2 within differ same))),
      ),
    )
