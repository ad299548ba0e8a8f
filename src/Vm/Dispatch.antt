-- ===== src/Vm/Dispatch.antt =====
-- The switch of c/scheme48vm.c on the byte at the code pointer, for the opcodes of arithmetic.
pub mod Types
pub mod Reject
use kali_scheme.Prelude.{
  ℕ, Bool, true, false, Option, none, some, List, [], ◌∷◌, ◌==◌, if◌then◌else◌,
}
use kali_scheme.Vm.Arith.{
  Verdict, add, subtract, multiply, quotient, remainder, equal, less, greater, at_most, at_least,
  two_reals, exact, denominator, imag_part, itself, change_exactness, transcendental, angle,
  magnitude_instruction, bitwise_not,
}
use kali_scheme.Vm.Arith.Bits.{bitwise_and, bitwise_ior, bitwise_xor, arithmetic_shift}
use kali_scheme.Vm.Arith.Ratio.{divide}
use kali_scheme.Vm.Raise.{Registers, Step, binary_instruction, unary_instruction}

-- The case with an opcode, of a list of cases.
unfoldable pub case_of {ℓ} : {A : Type ℓ} → ℕ → List (ℕ × A) → Option A
case_of opcode [] = none
case_of opcode ((c, a) ∷ cases) = if opcode == c then some a else case_of opcode cases

abbrev pub binary_cases : List (ℕ × (ℕ → ℕ → Verdict))
binary_cases =
    (52, add)
    ∷ (53, multiply)
    ∷ (54, subtract)
    ∷ (55, divide)
    ∷ (56, equal)
    ∷ (57, less)
    ∷ (58, greater)
    ∷ (59, at_most)
    ∷ (60, at_least)
    ∷ (61, quotient)
    ∷ (62, remainder)
    ∷ (78, two_reals)
    ∷ (79, two_reals)
    ∷ (80, two_reals)
    ∷ (82, bitwise_and)
    ∷ (83, bitwise_ior)
    ∷ (84, bitwise_xor)
    ∷ (85, arithmetic_shift)
    ∷ []

abbrev pub unary_cases : List (ℕ × (ℕ → Verdict))
unary_cases =
    (49, exact)
    ∷ (50, change_exactness)
    ∷ (51, change_exactness)
    ∷ (63, itself)
    ∷ (64, itself)
    ∷ (65, denominator)
    ∷ (66, itself)
    ∷ (67, imag_part)
    ∷ (68, transcendental)
    ∷ (69, transcendental)
    ∷ (70, transcendental)
    ∷ (71, transcendental)
    ∷ (72, transcendental)
    ∷ (73, transcendental)
    ∷ (74, transcendental)
    ∷ (75, transcendental)
    ∷ (76, angle)
    ∷ (77, magnitude_instruction)
    ∷ (81, bitwise_not)
    ∷ []

-- One instruction, if it is one of these.
unfoldable pub arithmetic_step : ℕ → Registers → Option Step
arithmetic_step k r =
    let opcode = r.memory r.code_pointer in
    elim (case_of opcode binary_cases) [
      | some op ↦ some (binary_instruction k op r)
      | none ↦ elim (case_of opcode unary_cases) [
        | some op ↦ some (unary_instruction k op r)
        | none ↦ none
      ]
    ]
