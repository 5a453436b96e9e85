-- ===== src/Emulator/Cpu/Decode/Rule.antt =====
-- A rule for the dispatch of src/cpu.cc: what every instruction satisfies, `instruction_decode` does.
use mips32_cpu_emulator.Prelude.{ℕ, List, [], ◌∷◌, ◌==◌, Bool-cases, inl, inr}
use mips32_cpu_emulator.Emulator.Outcome.{Outcome}
use mips32_cpu_emulator.Emulator.Cpu.{Cpu, main_opcode, sub_opcode, rs, rt}
use mips32_cpu_emulator.Emulator.Cpu.Instructions
use mips32_cpu_emulator.Emulator.Cpu.Instructions.{Instruction}
use mips32_cpu_emulator.Emulator.Cpu.Decode.{
  switch, reserved, special_cases, regimm_cases, move_cases, cop0_cases, main_cases, decode_special,
  decode_regimm, decode_move, decode_cop0, instruction_decode,
}

abbrev pub All {ℓ} : {A : Type ℓ} → (A → Type 0) → List A → Type 0
All P [] = Unit
All P (x ∷ xs) = P x × All P xs

-- The list of proofs that `All` asks for.
infixr 3 ◌&◌
abbrev pub ◌&◌ : {A B : Type 0} → A → B → A × B
a & b = (a, b)

pub switch-All {ℓ} :
    {A : Type ℓ} (P : A → Type 0) (x : ℕ) (cases : List (ℕ × A)) (otherwise : A)
    → All (λ k. P k.1) cases
    → P otherwise
    → P (switch x cases otherwise)
unfolding switch
switch-All P x [] otherwise h d = d
switch-All P x ((label, body) ∷ cases) otherwise h d = elim (Bool-cases (label == x)) [
  | inl same ↦ rw same h.0
  | inr other ↦ rw other (switch-All P x cases otherwise h.1 d)
]

pub All-map {ℓ} :
    {A : Type ℓ} (P R : A → Type 0) (xs : List A) → ((x : A) → P x → R x) → All P xs → All R xs
All-map P R [] f h = tt
All-map P R (x ∷ xs) f h = (f x h.0, All-map P R xs f h.1)

-- The instructions that the primary opcode selects.
abbrev pub primary : List Instruction
primary =
    Instructions.exe_j ∷ Instructions.exe_jal ∷ Instructions.exe_beq ∷ Instructions.exe_bne
    ∷ Instructions.exe_blez ∷ Instructions.exe_bgtz ∷ Instructions.exe_addiu ∷ Instructions.exe_slti
    ∷ Instructions.exe_sltiu ∷ Instructions.exe_andi ∷ Instructions.exe_ori ∷ Instructions.exe_xori
    ∷ Instructions.exe_lui ∷ Instructions.exe_lb ∷ Instructions.exe_lw ∷ Instructions.exe_lbu
    ∷ Instructions.exe_lhu ∷ Instructions.exe_sb ∷ Instructions.exe_sw ∷ Instructions.exe_cache ∷ []

abbrev pub privileged : List Instruction
privileged =
    Instructions.exe_mfc0 ∷ Instructions.exe_mtc0 ∷ Instructions.exe_tlbwi ∷ Instructions.exe_eret
    ∷ []

abbrev pub regimm : List Instruction
regimm = Instructions.exe_bltz ∷ Instructions.exe_bgez ∷ []

module _ (Q : Cpu → Outcome Cpu (Unit {0}) → Type 0) where
  -- `e` satisfies `Q` from every state.
  abbrev pub Holds : Instruction → Type 0
  Holds e = (c : Cpu) → Q c (e c)

  abbrev At : Cpu → Instruction → Type 0
  At c e = Q c (e c)

  module _ (h_reserved : Holds reserved) where
    pub special-Holds : All (λ k. Holds k.1) special_cases → Holds decode_special
    unfolding decode_special
    special-Holds h c =
        switch-All (At c) (sub_opcode c) special_cases reserved
          (All-map (λ k. Holds k.1) (λ k. At c k.1) special_cases (λ k f. f c) h) (h_reserved c)

    regimm-Holds : All Holds regimm → Holds decode_regimm
    unfolding decode_regimm
    regimm-Holds (bltz, (bgez, _)) c =
        switch-All (At c) (rt c) regimm_cases reserved (bltz c & bgez c & tt) (h_reserved c)

    cop0-Holds : All Holds privileged → Holds decode_cop0
    unfolding decode_cop0 decode_move
    cop0-Holds (mfc0, (mtc0, (tlbwi, (eret, _)))) c =
        switch-All (At c) (sub_opcode c) cop0_cases reserved (move & tlbwi c & eret c & tt)
          (h_reserved c)
      where
        move : At c decode_move
        move = switch-All (At c) (rs c) move_cases reserved (mfc0 c & mtc0 c & tt) (h_reserved c)

    main-Holds :
        Holds decode_special
        → Holds decode_regimm
        → Holds decode_cop0
        → All Holds primary
        → Holds instruction_decode
    unfolding instruction_decode
    main-Holds special regi cop
          (
            j,
            (
              jal,
              (
                beq,
                (
                  bne,
                  (
                    blez,
                    (
                      bgtz,
                      (
                        addiu,
                        (
                          slti,
                          (
                            sltiu,
                            (
                              andi,
                              (
                                ori,
                                (xori, (lui, (lb, (lw, (lbu, (lhu, (sb, (sw, (cache, _))))))))),
                              ),
                            ),
                          ),
                        ),
                      ),
                    ),
                  ),
                ),
              ),
            ),
          )
          c =
        switch-All (At c) (main_opcode c) main_cases reserved
          (special c
            & regi c
            & j c
            & jal c
            & beq c
            & bne c
            & blez c
            & bgtz c
            & addiu c
            & slti c
            & sltiu c
            & andi c
            & ori c
            & xori c
            & lui c
            & cop c
            & lb c
            & lw c
            & lbu c
            & lhu c
            & sb c
            & sw c
            & cache c
            & tt)
          (h_reserved c)

    pub instruction_decode-Holds :
        All (λ k. Holds k.1) special_cases
        → All Holds regimm
        → All Holds privileged
        → All Holds primary
        → Holds instruction_decode
    instruction_decode-Holds s r p h =
        main-Holds (special-Holds s) (regimm-Holds r) (cop0-Holds p) h
