-- ===== src/Vm/Arith/Halves.antt =====
-- The product of two fixnums by opcode 53 of c/scheme48vm.c: from halves of 16 bits to the whole.
use native.Mathlib.Nat.{mul-le-mul}
use kali_scheme.Prelude.{
  ℕ, ◌+◌, ◌*◌, ◌/◌, ◌%◌, ◌^◌, ◌≤◌, ◌<◌, ◌≡◌, ◌∙◌, ap, sym, subst, ◌⊎◌, inl, inr, Bool, false,
  Bool-cases, arith, ltb, ◌&&◌, if◌then◌else◌,
}
use kali_scheme.Prelude.Int.{ℤ}
use kali_scheme.Image.Header.{as_long}
use kali_scheme.Vm.Fixnum.{IsFixnum, enter_fixnum, extract-enter, enter-both_fixnums}
use kali_scheme.Vm.Arith.{
  Verdict, arithmetic_overflow, abs_ℤ, multiply_parts, multiply_halves, multiply,
}
use kali_scheme.Vm.Arith.Sums.{fixnum-abs_ℤ}
use kali_scheme.Vm.Arith.Product.{ExactProduct, parts-ExactProduct}

one_half : (la lb h : ℕ) → la * lb + la * h * 65536 ≡ la * (h * 65536 + lb)
one_half la lb h = grind arith

both_high : (a b : ℕ) → 65536 ≤ a → 65536 ≤ b → 2 ^ 29 ≤ a * b
both_high a b ha hb = let p : 65536 * 65536 ≤ a * b = mul-le-mul ha hb in omega (arith, p)

halves_low : (a b : ℕ) → a % 2 ^ 16 * (b % 2 ^ 16) < 2 ^ 32
halves_low a b =
    let u : a % 2 ^ 16 ≤ 65535 = omega arith in
    let v : b % 2 ^ 16 ≤ 65535 = omega arith in
    let p : a % 2 ^ 16 * (b % 2 ^ 16) ≤ 65535 * 65535 = mul-le-mul u v in omega (arith, p)

halves_whole :
    (a b : ℕ)
    → a ≤ 2 ^ 29
    → b ≤ 2 ^ 29
    → (a / 2 ^ 16 % 2 ^ 16 ≡ 0) ⊎ (b / 2 ^ 16 % 2 ^ 16 ≡ 0)
    → a % 2 ^ 16 * (b % 2 ^ 16)
        + (a % 2 ^ 16 * (b / 2 ^ 16 % 2 ^ 16) + b % 2 ^ 16 * (a / 2 ^ 16 % 2 ^ 16)) * 65536
      ≡ a * b
halves_whole a b la lb (inl h) =
    let parts : b / 2 ^ 16 % 2 ^ 16 * 65536 + b % 2 ^ 16 ≡ b = omega (arith, lb) in
    let low : a % 2 ^ 16 ≡ a = omega (arith, la, h) in
    let p = one_half (a % 2 ^ 16) (b % 2 ^ 16) (b / 2 ^ 16 % 2 ^ 16) in
    let q : b % 2 ^ 16 * (a / 2 ^ 16 % 2 ^ 16) ≡ b % 2 ^ 16 * 0 =
      ap (λ (t : ℕ). b % 2 ^ 16 * t) h in
    let r : a % 2 ^ 16 * (b / 2 ^ 16 % 2 ^ 16 * 65536 + b % 2 ^ 16) ≡ a * b =
      ap (λ (t : ℕ). a % 2 ^ 16 * t) parts ∙ ap (λ (t : ℕ). t * b) low in
    omega (arith, p, q, r)
halves_whole a b la lb (inr h) =
    let parts : a / 2 ^ 16 % 2 ^ 16 * 65536 + a % 2 ^ 16 ≡ a = omega (arith, la) in
    let low : b % 2 ^ 16 ≡ b = omega (arith, lb, h) in
    let p = one_half (b % 2 ^ 16) (a % 2 ^ 16) (a / 2 ^ 16 % 2 ^ 16) in
    let q : a % 2 ^ 16 * (b / 2 ^ 16 % 2 ^ 16) ≡ a % 2 ^ 16 * 0 =
      ap (λ (t : ℕ). a % 2 ^ 16 * t) h in
    let r : b % 2 ^ 16 * (a / 2 ^ 16 % 2 ^ 16 * 65536 + a % 2 ^ 16) ≡ b * a =
      ap (λ (t : ℕ). b % 2 ^ 16 * t) parts ∙ ap (λ (t : ℕ). t * a) low in
    let s : b * a ≡ a * b = grind arith in
    let t : b % 2 ^ 16 * (a % 2 ^ 16) ≡ a % 2 ^ 16 * (b % 2 ^ 16) = grind arith in
    omega (arith, p, q, r, s, t)

halves-ExactProduct : (x y : ℤ) → IsFixnum x → IsFixnum y → ExactProduct x y (multiply_halves x y)
unfolding multiply_halves
halves-ExactProduct x y hx hy =
    let a : ℕ = abs_ℤ x in
    let b : ℕ = abs_ℤ y in
    let la : a ≤ 2 ^ 29 = fixnum-abs_ℤ x hx in
    let lb : b ≤ 2 ^ 29 = fixnum-abs_ℤ y hy in
    let lo : ℕ = a % 2 ^ 16 * (b % 2 ^ 16) in
    let mid : ℕ = a % 2 ^ 16 * (b / 2 ^ 16 % 2 ^ 16) + b % 2 ^ 16 * (a / 2 ^ 16 % 2 ^ 16) in
    let both : Bool = ltb 0 (a / 2 ^ 16 % 2 ^ 16) && ltb 0 (b / 2 ^ 16 % 2 ^ 16) in
    let end : Verdict =
      multiply_parts x y (as_long (lo % 2 ^ 32)) mid (as_long ((lo + mid * 2 ^ 16) % 2 ^ 32)) in
    elim (Bool-cases both) [
      | inl e ↦
          subst (λ (t : Bool). ExactProduct x y (if t then arithmetic_overflow else end)) (sym e)
            (inr (both_high a b (ground (arith, e)) (ground (arith, e)), λ i. arithmetic_overflow))
      | inr e ↦
          subst (λ (t : Bool). ExactProduct x y (if t then arithmetic_overflow else end)) (sym e)
            (parts-ExactProduct x y lo mid
              (halves_whole a b la lb (one_low (a / 2 ^ 16 % 2 ^ 16) (b / 2 ^ 16 % 2 ^ 16) e))
              (halves_low a b))
    ]
  where
    one_low : (a b : ℕ) → (ltb 0 a && ltb 0 b) ≡ false → (a ≡ 0) ⊎ (b ≡ 0)
    one_low a b e = ground (arith, e)

-- The product of two fixnums: the fixnum of the exact product, or the arithmetic overflow, which is
-- raised only where the product of the magnitudes is 2 ^ 29 or more.
pub multiply-ExactProduct :
    (x y : ℤ)
    → IsFixnum x
    → IsFixnum y
    → ExactProduct x y (multiply (enter_fixnum x) (enter_fixnum y))
unfolding multiply
multiply-ExactProduct x y hx hy =
    rw (enter-both_fixnums x y, extract-enter x hx, extract-enter y hy)
      (halves-ExactProduct x y hx hy)
