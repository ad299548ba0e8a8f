-- ===== src/Vm/Arith/Shift.antt =====
-- What the instruction of c/scheme48vm.c for shifts computes in a word of 32 bits.
pub mod Whole
use native.Mathlib.Nat.{
  pow-le-pow_right, one-le-pow, mul_comm, mul-le-mul_left, mul-div-le, lt-mul-div-succ,
  div-eq_of_lt,
}
use kali_scheme.Prelude.{
  ℕ, zero, suc, ◌+◌, ◌-◌, ◌*◌, ◌/◌, ◌%◌, ◌^◌, ◌≤◌, ◌<◌, ◌≡◌, ◌≢◌, ◌∙◌, ap, sym, subst, refl, ◌⊎◌,
  inl, inr, Bool, true, false, Bool-cases, ==→≡, arith, ltb, leb, ◌==◌, if◌then◌else◌,
}
use kali_scheme.Prelude.Int.{ℤ, pos, negsuc, sub_ℕ, eqb_ℤ}
use kali_scheme.Image.Header.{as_long}
use kali_scheme.Vm.Fixnum.{
  IsFixnum, extract_fixnum, enter_fixnum, extract-enter, enter-both_fixnums,
}
use kali_scheme.Vm.Arith.{Verdict, value, arithmetic_overflow, is_negative}
use kali_scheme.Vm.Arith.Bits.{shift_right, shift_left, shift_checked, shift_by, arithmetic_shift}
use kali_scheme.Vm.Arith.Sums.{Exact}

-- The product with a power of two, and the quotient that is rounded down.
abbrev pub shifted_up : ℤ → ℕ → ℤ
shifted_up (pos n) y = pos (2 ^ y * n)
shifted_up (negsuc n) y = negsuc (2 ^ y * suc n - 1)

abbrev pub shifted_down : ℤ → ℕ → ℤ
shifted_down (pos n) y = pos (n / 2 ^ y)
shifted_down (negsuc n) y = negsuc (n / 2 ^ y)

-- The 30 low bits of a product, as the code takes them.
pub low_bits :
    (t : ℕ)
    → extract_fixnum (enter_fixnum (as_long (t % 2 ^ 32)))
      ≡ (if ltb (t % 2 ^ 30) (2 ^ 29) then pos (t % 2 ^ 30) else negsuc (2 ^ 30 - 1 - t % 2 ^ 30))
unfolding extract_fixnum enter_fixnum
low_bits t = ground arith

pub low_bits_minus :
    (t : ℕ)
    → extract_fixnum (enter_fixnum (as_long ((2 ^ 32 - t % 2 ^ 32) % 2 ^ 32))) ≡ (
        if t % 2 ^ 30 == 0
        then pos 0
        else (if ltb (2 ^ 29) (t % 2 ^ 30)
            then pos (2 ^ 30 - t % 2 ^ 30)
            else negsuc (t % 2 ^ 30 - 1)))
unfolding extract_fixnum enter_fixnum
low_bits_minus t = ground arith

div_between : (p a n : ℕ) → 0 < p → p * a ≤ n → n < p * suc a → n / p ≡ a
div_between p a n h low high = elim (Bool-cases (ltb (n / p) a)) [
  | inl e ↦
      let up : p * (n / p + 1) ≤ p * a = mul-le-mul_left p (ground (arith, e)) in
      absurd (omega (arith, up, low, lt-mul-div-succ n h))
  | inr e ↦ elim (Bool-cases (ltb a (n / p))) [
    | inl f ↦
        let up : p * suc a ≤ p * (n / p) = mul-le-mul_left p (ground (arith, f)) in
        absurd (omega (arith, up, high, mul-div-le n p))
    | inr f ↦ ground (arith, e, f)
  ]
]

right-pos : (n y : ℕ) → leb 32 y ≡ false → shift_right (pos n) y ≡ pos (n / 2 ^ y)
unfolding shift_right
right-pos n y e = rw e refl

right-negsuc : (n y : ℕ) → leb 32 y ≡ false → shift_right (negsuc n) y ≡ negsuc (n / 2 ^ y)
unfolding shift_right
right-negsuc n y e = rw e refl

-- The tests on a result, by what the shift to the right gives back.
module _ (a : ℕ) (result : ℤ) (y : ℕ) where
  pub pos-back :
      (q : ℕ)
      → shift_right result y ≡ pos q
      → is_negative result ≡ false
      → shift_checked (pos a) result y
        ≡ (if a == q then value (enter_fixnum result) else arithmetic_overflow)
  unfolding shift_checked
  pos-back q e s = rw (e, s) (ground arith)

  pos-not :
      (q : ℕ)
      → shift_right result y ≡ negsuc q
      → shift_checked (pos a) result y ≡ arithmetic_overflow
  unfolding shift_checked
  pos-not q e = rw e (ground arith)

  negsuc-back :
      (q : ℕ)
      → shift_right result y ≡ negsuc q
      → is_negative result ≡ true
      → shift_checked (negsuc a) result y
        ≡ (if a == q then value (enter_fixnum result) else arithmetic_overflow)
  unfolding shift_checked
  negsuc-back q e s = rw (e, s) (ground arith)

  pub negsuc-not :
      (q : ℕ)
      → shift_right result y ≡ pos q
      → shift_checked (negsuc a) result y ≡ arithmetic_overflow
  unfolding shift_checked
  negsuc-not q e = rw e (ground arith)

module _ (a y : ℕ) (short : leb 32 y ≡ false) (p : ℕ) (power : 2 ^ y ≡ p) (positive : 0 < p) where
  pub left-pos :
      (t : ℕ)
      → t ≡ p * a % 2 ^ 30
      → Exact
          (pos (p * a))
          (shift_checked (pos a) (if ltb t (2 ^ 29) then pos t else negsuc (2 ^ 30 - 1 - t)) y)
  left-pos t at = elim (Bool-cases (ltb t (2 ^ 29))) [
    | inr e ↦
        let answer =
          pos-not a (negsuc (2 ^ 30 - 1 - t)) y _ (right-negsuc (2 ^ 30 - 1 - t) y short) in
        inr ((λ h. ground (arith, e, h, at)), rw e answer)
    | inl e ↦
        let back : shift_right (pos t) y ≡ pos (t / p) =
          right-pos t y short ∙ ap (λ (d : ℕ). pos (t / d)) power in
        let answer = pos-back a (pos t) y (t / p) back refl in
        elim (Bool-cases (a == t / p)) [
          | inl f ↦
              let down : p * (t / p) ≤ t = mul-div-le t p in
              let same : p * a ≡ p * (t / p) = ap (λ (n : ℕ). p * n) (==→≡ a (t / p) f) in
              let whole : p * a ≡ t = omega (arith, down, same, at) in
              inl (
                ground (arith, e, whole),
                rw (e, answer, f) (ap (λ (n : ℕ). value (enter_fixnum (pos n))) (sym whole)),
              )
          | inr f ↦
              let other : p * a ≢ t = λ w.
                let q : t / p ≡ a =
                  div_between p a t positive (omega (arith, w)) (
                    let r : p * suc a ≡ p * a + p = grind arith in omega (arith, w, r, positive)) in
                ground (arith, f, q) in
              inr ((λ h. other (omega (arith, h, at))), rw (e, answer, f) refl)
        ]
  ]

  pub left-negsuc :
      (t : ℕ)
      → t ≡ p * suc a % 2 ^ 30
      → (p ≤ 2 ^ 30) ⊎ (p ≡ 2 ^ 31)
      → Exact (negsuc (p * suc a - 1)) (
          shift_checked
            (negsuc a)
            (if t == 0
              then pos 0
              else (if ltb (2 ^ 29) t then pos (2 ^ 30 - t) else negsuc (t - 1)))
            y)
  left-negsuc t at bound =
      let product : p * suc a ≡ p * a + p = grind arith in
      elim (Bool-cases (t == 0)) [
        | inl e ↦
            let answer = negsuc-not a (pos 0) y _ (right-pos 0 y short) in
            inr ((λ h. ground (arith, e, h, at, product, positive)), rw (e, answer) refl)
        | inr e ↦ elim (Bool-cases (ltb (2 ^ 29) t)) [
          | inl f ↦
              let answer = negsuc-not a (pos (2 ^ 30 - t)) y _ (right-pos (2 ^ 30 - t) y short) in
              inr ((λ h. ground (arith, f, h, at)), rw (e, f, answer) refl)
          | inr f ↦
              let some_bits : 0 < t = ground (arith, e) in
              let few : t ≤ 2 ^ 29 = ground (arith, f) in
              let back : shift_right (negsuc (t - 1)) y ≡ negsuc ((t - 1) / p) =
                right-negsuc (t - 1) y short ∙ ap (λ (d : ℕ). negsuc ((t - 1) / d)) power in
              let answer = negsuc-back a (negsuc (t - 1)) y ((t - 1) / p) back refl in
              elim (Bool-cases (a == (t - 1) / p)) [
                | inl g ↦
                    let down : p * ((t - 1) / p) ≤ t - 1 = mul-div-le (t - 1) p in
                    let same : p * a ≡ p * ((t - 1) / p) =
                      ap (λ (n : ℕ). p * n) (==→≡ a ((t - 1) / p) g) in
                    let whole : p * suc a ≡ t =
                      near t at some_bits (omega (arith, down, same, product)) bound in
                    inl (
                      omega (arith, few, whole, some_bits),
                      rw (e, f, answer, g)
                          (ap (λ (n : ℕ). value (enter_fixnum (negsuc (n - 1)))) (sym whole)),
                    )
                | inr g ↦
                    let other : p * suc a ≢ t = λ w.
                      let q : (t - 1) / p ≡ a =
                        div_between p a (t - 1) positive (omega (arith, w, product, positive))
                          (omega (arith, w, some_bits)) in
                      ground (arith, g, q) in
                    inr ((λ h. other (omega (arith, h, at))), rw (e, f, answer, g) refl)
              ]
        ]
      ]
    where
      -- The bits that are left determine the product: it is at most `p` above them.
      near :
          (t : ℕ)
          → t ≡ p * suc a % 2 ^ 30
          → 0 < t
          → p * suc a < t + p
          → (p ≤ 2 ^ 30) ⊎ (p ≡ 2 ^ 31)
          → p * suc a ≡ t
      near t at some_bits close (inl small) = omega (arith, at, close, small)
      near t at some_bits close (inr big) =
          let even : p * suc a ≡ 2 ^ 31 * suc a = ap (λ (d : ℕ). d * suc a) big in
          absurd (omega (arith, at, some_bits, even))
