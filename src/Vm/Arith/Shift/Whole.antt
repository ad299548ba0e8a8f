-- ===== src/Vm/Arith/Shift/Whole.antt =====
-- What the instruction of c/scheme48vm.c for shifts answers, for every count.
use native.Mathlib.Nat.{pow-le-pow_right, one-le-pow, mul_comm, mul-le-mul_left, div-eq_of_lt}
use kali_scheme.Prelude.{
  ℕ, zero, suc, ◌-◌, ◌*◌, ◌/◌, ◌%◌, ◌^◌, ◌≤◌, ◌<◌, ◌≡◌, ◌∙◌, ap, sym, subst, refl, ◌⊎◌, inl, inr,
  true, false, Bool-cases, arith, ltb, leb, ◌==◌, if◌then◌else◌,
}
use kali_scheme.Prelude.Int.{ℤ, pos, negsuc}
use kali_scheme.Image.Header.{as_long}
use kali_scheme.Vm.Fixnum.{
  IsFixnum, extract_fixnum, enter_fixnum, extract-enter, enter-both_fixnums,
}
use kali_scheme.Vm.Arith.{Verdict, value}
use kali_scheme.Vm.Arith.Bits.{shift_right, shift_left, shift_checked, shift_by, arithmetic_shift}
use kali_scheme.Vm.Arith.Sums.{Exact}
use kali_scheme.Vm.Arith.Shift.{
  shifted_up, shifted_down, low_bits, low_bits_minus, pos-back, negsuc-not, left-pos, left-negsuc,
}

power-positive : (y : ℕ) → 0 < 2 ^ y
power-positive y = let p : 1 ≤ 2 ^ y = one-le-pow y 2 (omega arith) in omega (arith, p)

power-short : (y : ℕ) → leb 32 y ≡ false → (2 ^ y ≤ 2 ^ 30) ⊎ (2 ^ y ≡ 2 ^ 31)
power-short y short = elim (Bool-cases (leb y 30)) [
  | inl e ↦
      let le : y ≤ 30 = ground (arith, e) in
      let p : 2 ^ y ≤ 2 ^ 30 = pow-le-pow_right (omega arith) le in inl p
  | inr e ↦ let last : y ≡ 31 = ground (arith, e, short) in inr (ap (λ (n : ℕ). 2 ^ n) last)
]

power-long : (y : ℕ) → leb 32 y ≡ true → 2 ^ 32 ≤ 2 ^ y
power-long y long = let le : 32 ≤ y = ground (arith, long) in pow-le-pow_right (omega arith) le

abbrev taken : ℤ → ℕ → ℤ
taken v y = extract_fixnum (enter_fixnum (shift_left v y))

taken-pos :
    (n y : ℕ)
    → leb 32 y ≡ false
    → taken (pos n) y ≡ (
        if ltb (2 ^ y * n % 2 ^ 30) (2 ^ 29)
        then pos (2 ^ y * n % 2 ^ 30)
        else negsuc (2 ^ 30 - 1 - 2 ^ y * n % 2 ^ 30))
unfolding shift_left
taken-pos n y short = rw short (
    ap (λ (t : ℕ). extract_fixnum (enter_fixnum (as_long (t % 2 ^ 32)))) (mul_comm n (2 ^ y))
    ∙ low_bits (2 ^ y * n))

taken-negsuc :
    (n y : ℕ)
    → leb 32 y ≡ false
    → taken (negsuc n) y ≡ (
        if 2 ^ y * suc n % 2 ^ 30 == 0
        then pos 0
        else (if ltb (2 ^ 29) (2 ^ y * suc n % 2 ^ 30)
            then pos (2 ^ 30 - 2 ^ y * suc n % 2 ^ 30)
            else negsuc (2 ^ y * suc n % 2 ^ 30 - 1)))
unfolding shift_left
taken-negsuc n y short = rw short (
    ap (λ (t : ℕ). extract_fixnum (enter_fixnum (as_long ((2 ^ 32 - t % 2 ^ 32) % 2 ^ 32))))
      (mul_comm (suc n) (2 ^ y))
    ∙ low_bits_minus (2 ^ y * suc n))

taken-long : (v : ℤ) (y : ℕ) → leb 32 y ≡ true → taken v y ≡ pos 0
unfolding shift_left extract_fixnum enter_fixnum
taken-long (pos n) y long = rw long refl
taken-long (negsuc n) y long = rw long refl

right-long : (y : ℕ) → leb 32 y ≡ true → shift_right (pos 0) y ≡ pos 0
unfolding shift_right
right-long y long = rw long refl

up-Exact : (v : ℤ) (y : ℕ) → Exact (shifted_up v y) (shift_checked v (taken v y) y)
up-Exact v y = elim (Bool-cases (leb 32 y)) [
  | inl long ↦
      subst (λ r. Exact (shifted_up v y) (shift_checked v r y)) (sym (taken-long v y long))
        (far v long)
  | inr short ↦ near v short
]
  where
    far : (v : ℤ) → leb 32 y ≡ true → Exact (shifted_up v y) (shift_checked v (pos 0) y)
    far (pos zero) long = inl (
      omega arith,
      pos-back 0 (pos 0) y 0 (right-long y long) refl
          ∙ ap (λ (n : ℕ). value (enter_fixnum (pos n))) (omega arith),
    )
    far (pos (suc n)) long =
        let big : 2 ^ y * 1 ≤ 2 ^ y * suc n = mul-le-mul_left (2 ^ y) (omega arith) in
        inr (
          (λ h. omega (arith, h, big, power-long y long)),
          pos-back (suc n) (pos 0) y 0 (right-long y long) refl ∙ ground arith,
        )
    far (negsuc n) long =
        let big : 2 ^ y * 1 ≤ 2 ^ y * suc n = mul-le-mul_left (2 ^ y) (omega arith) in
        inr (
          (λ h. omega (arith, h, big, power-long y long)),
          negsuc-not n (pos 0) y 0 (right-long y long),
        )

    near : (v : ℤ) → leb 32 y ≡ false → Exact (shifted_up v y) (shift_checked v (taken v y) y)
    near (pos n) short =
        subst (λ r. Exact (shifted_up (pos n) y) (shift_checked (pos n) r y))
          (sym (taken-pos n y short))
          (left-pos n y short (2 ^ y) refl (power-positive y) (2 ^ y * n % 2 ^ 30) refl)
    near (negsuc n) short =
        subst (λ r. Exact (shifted_up (negsuc n) y) (shift_checked (negsuc n) r y))
          (sym (taken-negsuc n y short))
          (left-negsuc n y short (2 ^ y) refl (power-positive y) (2 ^ y * suc n % 2 ^ 30) refl
            (power-short y short))

down-same : (v : ℤ) (y : ℕ) → IsFixnum v → shift_right v y ≡ shifted_down v y
unfolding shift_right
down-same v y h = elim (Bool-cases (leb 32 y)) [
  | inl long ↦ far v h long
  | inr short ↦ near v short
]
  where
    none : (n : ℕ) → n < 2 ^ 29 → leb 32 y ≡ true → n / 2 ^ y ≡ 0
    none n h long = div-eq_of_lt (omega (arith, h, power-long y long))

    far : (v : ℤ) → IsFixnum v → leb 32 y ≡ true → shift_right v y ≡ shifted_down v y
    far (pos n) h long = rw long (ap pos (sym (none n h long)))
    far (negsuc n) h long = rw long (ap negsuc (sym (none n h long)))

    near : (v : ℤ) → leb 32 y ≡ false → shift_right v y ≡ shifted_down v y
    near (pos n) short = rw short refl
    near (negsuc n) short = rw short refl

-- What a shift by a count answers.
abbrev pub Shifted : (v count : ℤ) → Verdict → Type 0
Shifted v (pos y) r = Exact (shifted_up v y) r
Shifted v (negsuc y) r = r ≡ value (enter_fixnum (shifted_down v (suc y)))

-- The shift of a fixnum by a fixnum: to the left, the fixnum of the product with the power of two,
-- or the arithmetic overflow if it is no fixnum; to the right, the fixnum of the quotient by the
-- power of two, rounded down; for counts over the width of a word as well.
pub arithmetic_shift-Shifted :
    (v count : ℤ)
    → IsFixnum v
    → IsFixnum count
    → Shifted v count (arithmetic_shift (enter_fixnum v) (enter_fixnum count))
unfolding arithmetic_shift shift_by
arithmetic_shift-Shifted v (pos y) hv hc =
    rw (enter-both_fixnums v (pos y), extract-enter v hv, extract-enter (pos y) hc) (up-Exact v y)
arithmetic_shift-Shifted v (negsuc y) hv hc =
    rw (enter-both_fixnums v (negsuc y), extract-enter v hv, extract-enter (negsuc y) hc)
      (ap (λ z. value (enter_fixnum z)) (down-same v (suc y) hv))
