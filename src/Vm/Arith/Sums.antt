-- ===== src/Vm/Arith/Sums.antt =====
-- What the instructions of c/scheme48vm.c for sums and differences of fixnums compute.
use kali_scheme.Prelude.{◌^◌, ◌≤◌, ◌≡◌, ◌⊎◌, inl, inr, Bool-cases, arith, ltb}
use kali_scheme.Prelude.Int.{ℤ, pos, negsuc, ◌+ℤ◌, ◌-ℤ◌}
use kali_scheme.Vm.Fixnum.{IsFixnum, enter_fixnum, extract-enter, enter-both_fixnums}
use kali_scheme.Vm.Arith.{Verdict, value, arithmetic_overflow, checked, abs_ℤ, add, subtract}

pub fixnum-abs_ℤ : (x : ℤ) → IsFixnum x → abs_ℤ x ≤ 2 ^ 29
fixnum-abs_ℤ (pos n) h = omega (arith, h)
fixnum-abs_ℤ (negsuc n) h = omega (arith, h)

-- The answer is the fixnum of `z`, or the overflow where there is none.
abbrev pub Exact : ℤ → Verdict → Type 0
Exact z a =
    (IsFixnum z × (a ≡ value (enter_fixnum z))) ⊎ ((¬ IsFixnum z) × (a ≡ arithmetic_overflow))

checked-Exact : (z : ℤ) → Exact z (checked z)
checked-Exact (pos n) = elim (Bool-cases (ltb n (2 ^ 29))) [
  | inl e ↦ inl (ground (arith, e), ground (arith, e))
  | inr e ↦ inr ((λ h. ground (arith, e, h)), ground (arith, e))
]
checked-Exact (negsuc n) = elim (Bool-cases (ltb n (2 ^ 29))) [
  | inl e ↦ inl (ground (arith, e), ground (arith, e))
  | inr e ↦ inr ((λ h. ground (arith, e, h)), ground (arith, e))
]

-- The sum and the difference of two fixnums: the fixnum of the exact result, or the arithmetic
-- overflow if the result is no fixnum.
pub add-subtract-Exact :
    (x y : ℤ)
    → IsFixnum x
    → IsFixnum y
    → Exact (x +ℤ y) (add (enter_fixnum x) (enter_fixnum y))
      × Exact (x -ℤ y) (subtract (enter_fixnum x) (enter_fixnum y))
unfolding add subtract
add-subtract-Exact x y hx hy = (
  rw (enter-both_fixnums x y, extract-enter x hx, extract-enter y hy) (checked-Exact (x +ℤ y)),
  rw (enter-both_fixnums x y, extract-enter x hx, extract-enter y hy) (checked-Exact (x -ℤ y)),
)
