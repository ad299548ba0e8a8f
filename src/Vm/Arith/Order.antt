-- ===== src/Vm/Arith/Order.antt =====
-- What the instructions of c/scheme48vm.c that compare fixnums, and those for the magnitude and the
-- complement of one, answer.
use kali_scheme.Prelude.{
  ◌-◌, ◌*◌, ◌^◌, ◌≤◌, ◌<◌, ◌≡◌, ap, sym, refl, ◌⊎◌, inl, inr, Bool-cases, arith, ltb, ◌==◌,
  if◌then◌else◌,
}
use kali_scheme.Prelude.Int.{ℤ, pos, negsuc, ltb_ℤ, leb_ℤ, eqb_ℤ}
use kali_scheme.Image.Header.{as_long}
use kali_scheme.Vm.Fixnum.{
  IsFixnum, enter_fixnum, extract-enter, enter-is_fixnum, enter-both_fixnums, least_fixnum,
}
use kali_scheme.Vm.Arith.{
  value, arithmetic_overflow, schtrue, schfalse, enter_boolean, abs_ℤ, equal, less, greater,
  at_most, at_least, magnitude_instruction, complement, bitwise_not,
}

-- The descriptors of fixnums are in the order of the fixnums.
order :
    (x y : ℤ)
    → IsFixnum x
    → IsFixnum y
    → ltb_ℤ (as_long (enter_fixnum x)) (as_long (enter_fixnum y)) ≡ ltb_ℤ x y
unfolding enter_fixnum
order (pos a) (pos b) hx hy = ground (arith, hx, hy)
order (pos a) (negsuc b) hx hy = ground (arith, hx, hy)
order (negsuc a) (pos b) hx hy = ground (arith, hx, hy)
order (negsuc a) (negsuc b) hx hy = ground (arith, hx, hy)

same : (x y : ℤ) → IsFixnum x → IsFixnum y → (enter_fixnum x == enter_fixnum y) ≡ eqb_ℤ x y
unfolding enter_fixnum
same (pos a) (pos b) hx hy = ground (arith, hx, hy)
same (pos a) (negsuc b) hx hy = ground (arith, hx, hy)
same (negsuc a) (pos b) hx hy = ground (arith, hx, hy)
same (negsuc a) (negsuc b) hx hy = ground (arith, hx, hy)

not_less : (x y : ℤ) → enter_boolean (leb_ℤ x y) ≡ (if ltb_ℤ y x then schfalse else schtrue)
not_less (pos a) (pos b) = ground arith
not_less (pos a) (negsuc b) = ground arith
not_less (negsuc a) (pos b) = ground arith
not_less (negsuc a) (negsuc b) = ground arith

-- The answers of the five comparisons.
pub record Compared (x y : ℤ) : Type 0 where
  pub equal_answer : equal (enter_fixnum x) (enter_fixnum y) ≡ value (enter_boolean (eqb_ℤ x y))
  pub less_answer : less (enter_fixnum x) (enter_fixnum y) ≡ value (enter_boolean (ltb_ℤ x y))
  pub greater_answer : greater (enter_fixnum x) (enter_fixnum y) ≡ value (enter_boolean (ltb_ℤ y x))
  pub at_most_answer : at_most (enter_fixnum x) (enter_fixnum y) ≡ value (enter_boolean (leb_ℤ x y))
  pub at_least_answer :
      at_least (enter_fixnum x) (enter_fixnum y) ≡ value (enter_boolean (leb_ℤ y x))

-- The five comparisons of descriptors answer for two fixnums with the truth of the comparison of the
-- integers.
pub comparisons-Compared : (x y : ℤ) → IsFixnum x → IsFixnum y → Compared x y
unfolding equal less greater at_most at_least
comparisons-Compared x y hx hy =
    let both = enter-both_fixnums x y in
    record {
      equal_answer = rw (both, same x y hx hy) refl;
      less_answer = rw (both, order x y hx hy) refl;
      greater_answer = rw (both, order y x hy hx) refl;
      at_most_answer = rw (both, order y x hy hx) (ap value (sym (not_less x y)));
      at_least_answer = rw (both, order x y hx hy) (ap value (sym (not_less y x)));
    }

-- The instruction for the magnitude takes the descriptor of a fixnum for an integer: its answer for
-- a fixnum with a magnitude under 2 ^ 27 is the fixnum of four times the magnitude, and for a
-- greater one an overflow, or 0 for the least fixnum.
pub magnitude_instruction-four_times :
    (x : ℤ)
    → IsFixnum x
    → (abs_ℤ x < 2 ^ 27)
        × (magnitude_instruction (enter_fixnum x) ≡ value (enter_fixnum (pos (abs_ℤ x * 4))))
      ⊎ ((2 ^ 27 ≤ abs_ℤ x)
          × (magnitude_instruction (enter_fixnum x)
              ≡ (if eqb_ℤ x least_fixnum then value 0 else arithmetic_overflow)))
unfolding magnitude_instruction enter_fixnum
magnitude_instruction-four_times (pos n) h = elim (Bool-cases (ltb n (2 ^ 27))) [
  | inl e ↦ inl (ground (arith, e), ground (arith, e, h))
  | inr e ↦ inr (ground (arith, e), ground (arith, e, h))
]
magnitude_instruction-four_times (negsuc n) h = elim (Bool-cases (ltb n (2 ^ 27 - 1))) [
  | inl e ↦ inl (ground (arith, e), ground (arith, e, h))
  | inr e ↦ inr (ground (arith, e), ground (arith, e, h))
]

-- The complement of a fixnum `x` is the fixnum of -1 - x, and the complement of that is `x` again.
pub bitwise_not-twice :
    (x : ℤ)
    → IsFixnum x
    → (bitwise_not (enter_fixnum x) ≡ value (enter_fixnum (complement x)))
      × (bitwise_not (enter_fixnum (complement x)) ≡ value (enter_fixnum x))
unfolding bitwise_not
bitwise_not-twice (pos n) h = (
  rw (enter-is_fixnum (pos n), extract-enter (pos n) h) refl,
  rw (enter-is_fixnum (negsuc n), extract-enter (negsuc n) h) refl,
)
bitwise_not-twice (negsuc n) h = (
  rw (enter-is_fixnum (negsuc n), extract-enter (negsuc n) h) refl,
  rw (enter-is_fixnum (pos n), extract-enter (pos n) h) refl,
)
