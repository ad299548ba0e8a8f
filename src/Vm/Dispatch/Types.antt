-- ===== src/Vm/Dispatch/Types.antt =====
-- What the instructions of c/scheme48vm.c for arithmetic do with an argument that is no fixnum.
use kali_scheme.Prelude.{
  ℕ, ◌≡◌, true, false, Option, none, some, List, [], ◌∷◌, ◌==◌, if◌then◌else◌, refl,
}
use kali_scheme.Vm.Fixnum.{is_fixnum, both_fixnums}
use kali_scheme.Vm.Arith.{
  Verdict, wrong_type, add, subtract, multiply, quotient, remainder, equal, less, greater, at_most,
  at_least, two_reals, exact, denominator, imag_part, itself, change_exactness, transcendental,
  angle, magnitude_instruction, bitwise_not,
}
use kali_scheme.Vm.Arith.Bits.{bitwise_and, bitwise_ior, bitwise_xor, arithmetic_shift}
use kali_scheme.Vm.Arith.Ratio.{divide}
use kali_scheme.Vm.Dispatch.{case_of, binary_cases, unary_cases}

abbrev All {ℓ κ} : {A : Type ℓ} → (A → Type κ) → List (ℕ × A) → Type κ
All P [] = Unit
All P ((c, a) ∷ cases) = P a × All P cases

abbrev pub Found {ℓ κ} : {A : Type ℓ} → (A → Type κ) → Option A → Type κ
Found P none = Unit
Found P (some a) = P a

case_of-Found {ℓ κ} :
    {A : Type ℓ} (P : A → Type κ) (opcode : ℕ) (cases : List (ℕ × A))
    → All P cases
    → Found P (case_of opcode cases)
unfolding case_of
case_of-Found P opcode [] all = tt
case_of-Found P opcode ((c, a) ∷ cases) (p, all) =
    elim (opcode == c) as (λ b. Found P (if b then some a else case_of opcode cases)) [
      | true ↦ p
      | false ↦ case_of-Found P opcode cases all
    ]

-- An operation with the exception 5 for arguments that are not all fixnums.
abbrev pub RejectsTwo : (ℕ → ℕ → Verdict) → Type 0
RejectsTwo op = (a x : ℕ) → both_fixnums a x ≡ false → op a x ≡ wrong_type

abbrev pub RejectsOne : (ℕ → Verdict) → Type 0
RejectsOne op = (x : ℕ) → is_fixnum x ≡ false → op x ≡ wrong_type

module _ (a x : ℕ) (e : both_fixnums a x ≡ false) where
  add-rejects : add a x ≡ wrong_type
  unfolding add
  add-rejects = rw e refl

  multiply-rejects : multiply a x ≡ wrong_type
  unfolding multiply
  multiply-rejects = rw e refl

  subtract-rejects : subtract a x ≡ wrong_type
  unfolding subtract
  subtract-rejects = rw e refl

  divide-rejects : divide a x ≡ wrong_type
  unfolding divide
  divide-rejects = rw e refl

  equal-rejects : equal a x ≡ wrong_type
  unfolding equal
  equal-rejects = rw e refl

  less-rejects : less a x ≡ wrong_type
  unfolding less
  less-rejects = rw e refl

  greater-rejects : greater a x ≡ wrong_type
  unfolding greater
  greater-rejects = rw e refl

  at_most-rejects : at_most a x ≡ wrong_type
  unfolding at_most
  at_most-rejects = rw e refl

  at_least-rejects : at_least a x ≡ wrong_type
  unfolding at_least
  at_least-rejects = rw e refl

  quotient-rejects : quotient a x ≡ wrong_type
  unfolding quotient
  quotient-rejects = rw e refl

  remainder-rejects : remainder a x ≡ wrong_type
  unfolding remainder
  remainder-rejects = rw e refl

  two_reals-rejects : two_reals a x ≡ wrong_type
  unfolding two_reals
  two_reals-rejects = rw e refl

  bitwise_and-rejects : bitwise_and a x ≡ wrong_type
  unfolding bitwise_and
  bitwise_and-rejects = rw e refl

  bitwise_ior-rejects : bitwise_ior a x ≡ wrong_type
  unfolding bitwise_ior
  bitwise_ior-rejects = rw e refl

  bitwise_xor-rejects : bitwise_xor a x ≡ wrong_type
  unfolding bitwise_xor
  bitwise_xor-rejects = rw e refl

  arithmetic_shift-rejects : arithmetic_shift a x ≡ wrong_type
  unfolding arithmetic_shift
  arithmetic_shift-rejects = rw e refl

module _ (x : ℕ) (e : is_fixnum x ≡ false) where
  exact-rejects : exact x ≡ wrong_type
  unfolding exact
  exact-rejects = rw e refl

  change_exactness-rejects : change_exactness x ≡ wrong_type
  unfolding change_exactness
  change_exactness-rejects = rw e refl

  itself-rejects : itself x ≡ wrong_type
  unfolding itself
  itself-rejects = rw e refl

  denominator-rejects : denominator x ≡ wrong_type
  unfolding denominator
  denominator-rejects = rw e refl

  imag_part-rejects : imag_part x ≡ wrong_type
  unfolding imag_part
  imag_part-rejects = rw e refl

  transcendental-rejects : transcendental x ≡ wrong_type
  unfolding transcendental
  transcendental-rejects = rw e refl

  angle-rejects : angle x ≡ wrong_type
  unfolding angle
  angle-rejects = rw e refl

  magnitude_instruction-rejects : magnitude_instruction x ≡ wrong_type
  unfolding magnitude_instruction
  magnitude_instruction-rejects = rw e refl

  bitwise_not-rejects : bitwise_not x ≡ wrong_type
  unfolding bitwise_not
  bitwise_not-rejects = rw e refl

binary-RejectsTwo : All RejectsTwo binary_cases
binary-RejectsTwo = (
  add-rejects,
  (
    multiply-rejects,
    (
      subtract-rejects,
      (
        divide-rejects,
        (
          equal-rejects,
          (
            less-rejects,
            (
              greater-rejects,
              (
                at_most-rejects,
                (
                  at_least-rejects,
                  (
                    quotient-rejects,
                    (
                      remainder-rejects,
                      (
                        two_reals-rejects,
                        (
                          two_reals-rejects,
                          (
                            two_reals-rejects,
                            (
                              bitwise_and-rejects,
                              (
                                bitwise_ior-rejects,
                                (bitwise_xor-rejects, (arithmetic_shift-rejects, tt)),
                              ),
                            ),
                          ),
                        ),
                      ),
                    ),
                  ),
                ),
              ),
            ),
          ),
        ),
      ),
    ),
  ),
)

unary-RejectsOne : All RejectsOne unary_cases
unary-RejectsOne = (
  exact-rejects,
  (
    change_exactness-rejects,
    (
      change_exactness-rejects,
      (
        itself-rejects,
        (
          itself-rejects,
          (
            denominator-rejects,
            (
              itself-rejects,
              (
                imag_part-rejects,
                (
                  transcendental-rejects,
                  (
                    transcendental-rejects,
                    (
                      transcendental-rejects,
                      (
                        transcendental-rejects,
                        (
                          transcendental-rejects,
                          (
                            transcendental-rejects,
                            (
                              transcendental-rejects,
                              (
                                transcendental-rejects,
                                (
                                  angle-rejects,
                                  (magnitude_instruction-rejects, (bitwise_not-rejects, tt)),
                                ),
                              ),
                            ),
                          ),
                        ),
                      ),
                    ),
                  ),
                ),
              ),
            ),
          ),
        ),
      ),
    ),
  ),
)

-- Each of the instructions for arithmetic answers that an argument has the wrong type, whichever its
-- opcode is, where an argument is no fixnum.
pub case_of-Rejects :
    (opcode : ℕ)
    → Found RejectsTwo (case_of opcode binary_cases) × Found RejectsOne (case_of opcode unary_cases)
case_of-Rejects opcode = (
  case_of-Found RejectsTwo opcode binary_cases binary-RejectsTwo,
  case_of-Found RejectsOne opcode unary_cases unary-RejectsOne,
)
