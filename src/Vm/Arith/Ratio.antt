-- ===== src/Vm/Arith/Ratio.antt =====
-- The instruction of c/scheme48vm.c for the ratio of fixnums, and what it computes.
use native.Mathlib.Nat.{mod-lt, div-le_self}
use kali_scheme.Prelude.{
  ℕ, zero, suc, ◌/◌, ◌%◌, ◌^◌, ◌<◌, ◌≡◌, ◌≢◌, ◌∙◌, ap, sym, refl, ◌⊎◌, inl, inr, Bool, true, false,
  Bool-cases, arith, ◌==◌, if◌then◌else◌,
}
use kali_scheme.Prelude.Int.{ℤ, pos, negsuc, sub_ℕ}
use kali_scheme.Vm.Fixnum.{
  IsFixnum, both_fixnums, extract_fixnum, enter_fixnum, extract-enter, enter-both_fixnums,
}
use kali_scheme.Vm.Arith.{
  Verdict, value, arithmetic_overflow, wrong_type, is_negative, abs_ℤ, quotient_sign, quotient,
  remainder,
}
use kali_scheme.Vm.Arith.Sums.{Exact, fixnum-abs_ℤ}
use kali_scheme.Vm.Arith.Division.{
  with_sign, truncated, left_over, enter-nonzero, quotient_sign-Exact, nonzero-abs_ℤ, sub_zero,
  Divided, quotient-remainder-Divided,
}

-- The end of opcode 55, for a quotient `q` and the remainder of the magnitudes: L8949 and L8953.
unfoldable pub divide_rest : (a : ℤ) (c q : ℕ) → Verdict
divide_rest a c q =
    if 0 == enter_fixnum (if is_negative a then sub_ℕ 0 c else pos c)
    then value q
    else arithmetic_overflow

-- The quotient is that of opcode 61, at the labels L8912, L8915 and L8916.
unfoldable pub divide_whole : (a b : ℤ) → Verdict → Verdict
unfolding divide_rest
divide_whole a b (value q) = divide_rest a (abs_ℤ a % abs_ℤ b) q
divide_whole a b arithmetic_overflow = arithmetic_overflow
divide_whole a b wrong_type = wrong_type

-- Opcode 55.
unfoldable pub divide : (arg2 x : ℕ) → Verdict
unfolding quotient_sign divide_whole
divide arg2 x =
    if both_fixnums arg2 x
    then (if 0 == x
        then arithmetic_overflow
        else (let a = extract_fixnum arg2 in
            let b = extract_fixnum x in divide_whole a b (quotient_sign a b (abs_ℤ a / abs_ℤ b))))
    else wrong_type

-- The descriptor of a remainder is 0 just for the remainder 0.
rest_zero : (s : Bool) (c : ℕ) → c < 2 ^ 29 → (0 == enter_fixnum (with_sign s c)) ≡ (c == 0)
unfolding enter_fixnum
rest_zero true zero h = ground arith
rest_zero true (suc c) h = ground (arith, h)
rest_zero false c h = ground (arith, h)

-- The quotient where nothing is left over, and an overflow where something is.
abbrev pub ExactRatio : (x y : ℤ) → Verdict → Type 0
ExactRatio x y r =
    ((left_over x y ≡ pos 0) × Exact (truncated x y) r)
    ⊎ ((left_over x y ≢ pos 0) × (r ≡ arithmetic_overflow))

-- Where the remainder is 0 the quotient is the answer, and otherwise there is none.
module _ (x y : ℤ) (c : ℕ) (small : c < 2 ^ 29) where
  whole-Exact :
      (q : ℤ) (r : Verdict)
      → c ≡ 0
      → abs_ℤ x % abs_ℤ y ≡ c
      → Exact q r
      → Exact q (divide_whole x y r)
  unfolding divide_whole divide_rest
  whole-Exact q r e at (inl (h, v)) =
      let none_left : (0 == enter_fixnum (with_sign (is_negative x) (abs_ℤ x % abs_ℤ y))) ≡ true =
        ap (λ (n : ℕ). 0 == enter_fixnum (with_sign (is_negative x) n)) at
        ∙ rest_zero (is_negative x) c small
        ∙ ground (arith, e) in
      inl (
        h,
        ap (divide_whole x y) v
            ∙ ap (λ (b : Bool). if b then value (enter_fixnum q) else arithmetic_overflow)
                none_left,
      )
  whole-Exact q r e at (inr (h, v)) = inr (h, ap (divide_whole x y) v)

  part-overflow :
      (q : ℤ) (r : Verdict)
      → (c == 0) ≡ false
      → abs_ℤ x % abs_ℤ y ≡ c
      → Exact q r
      → divide_whole x y r ≡ arithmetic_overflow
  unfolding divide_whole divide_rest
  part-overflow q r e at (inl (h, v)) =
      let some_left : (0 == enter_fixnum (with_sign (is_negative x) (abs_ℤ x % abs_ℤ y))) ≡ false =
        ap (λ (n : ℕ). 0 == enter_fixnum (with_sign (is_negative x) n)) at
        ∙ rest_zero (is_negative x) c small
        ∙ e in
      ap (divide_whole x y) v
      ∙ ap (λ (b : Bool). if b then value (enter_fixnum q) else arithmetic_overflow) some_left
  part-overflow q r e at (inr (h, v)) = ap (divide_whole x y) v

left_zero : (s : Bool) (c : ℕ) → c ≡ 0 → with_sign s c ≡ pos 0
left_zero true c e = ap (sub_ℕ 0) e
left_zero false c e = ap pos e

left_nonzero : (s : Bool) (c : ℕ) → (c == 0) ≡ false → with_sign s c ≢ pos 0
left_nonzero true zero e h = cc e
left_nonzero true (suc c) e h = let no : negsuc c ≡ pos 0 = sym (sub_zero c) ∙ h in cc no
left_nonzero false c e h = let no : c ≡ 0 = ap abs_ℤ h in ground (arith, e, no)

-- The ratio of a fixnum and a fixnum other than zero.
divide-ExactRatio :
    (x y : ℤ)
    → IsFixnum x
    → IsFixnum y
    → y ≢ pos 0
    → ExactRatio x y (divide (enter_fixnum x) (enter_fixnum y))
unfolding divide
divide-ExactRatio x y hx hy n =
    let c : ℕ = abs_ℤ x % abs_ℤ y in
    let positive : 0 < abs_ℤ y = nonzero-abs_ℤ y n in
    let less : c < abs_ℤ y = mod-lt (abs_ℤ x) positive in
    let small : c < 2 ^ 29 = omega (arith, less, fixnum-abs_ℤ y hy) in
    let q : Verdict = quotient_sign x y (abs_ℤ x / abs_ℤ y) in
    let exact : Exact (truncated x y) q =
      quotient_sign-Exact x y (abs_ℤ x / abs_ℤ y)
        (let p = div-le_self (abs_ℤ x) (abs_ℤ y) in omega (arith, p, fixnum-abs_ℤ x hx)) in
    let ratio : ExactRatio x y (divide_whole x y q) = elim (Bool-cases (c == 0)) [
      | inl e ↦
          let zero_left : c ≡ 0 = ground (arith, e) in
          inl (
            left_zero (is_negative x) c zero_left,
            whole-Exact x y c small (truncated x y) q zero_left refl exact,
          )
      | inr e ↦ inr (
        left_nonzero (is_negative x) c e,
        part-overflow x y c small (truncated x y) q e refl exact,
      )
    ] in
    rw (enter-both_fixnums x y, enter-nonzero y hy n, extract-enter x hx, extract-enter y hy) ratio

-- For a fixnum and a fixnum other than zero there are a quotient and a remainder: the quotient times
-- the divisor and the remainder make the dividend, the remainder is smaller than the divisor and is
-- negative only if the dividend is. Opcode 61 answers with the fixnum of the quotient, or with the
-- arithmetic overflow if it is no fixnum, and opcode 62 with the fixnum of the remainder. Opcode 55
-- answers as opcode 61 does where the remainder is 0, and with the overflow where it is not.
pub quotient-remainder-divide :
    (x y : ℤ)
    → IsFixnum x
    → IsFixnum y
    → y ≢ pos 0
    → Divided x y
        (quotient (enter_fixnum x) (enter_fixnum y))
        (remainder (enter_fixnum x) (enter_fixnum y))
      × ExactRatio x y (divide (enter_fixnum x) (enter_fixnum y))
quotient-remainder-divide x y hx hy n =
    (quotient-remainder-Divided x y hx hy n, divide-ExactRatio x y hx hy n)
