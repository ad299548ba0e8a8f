-- ===== src/Vm/Arith/Division.antt =====
-- What the instructions of c/scheme48vm.c for the quotient and the remainder of fixnums compute.
use native.Mathlib.Nat.{mod-add-div', mod-lt, div-le_self}
use kali_scheme.Prelude.{
  ℕ, zero, suc, ◌+◌, ◌*◌, ◌/◌, ◌%◌, ◌^◌, ◌≤◌, ◌<◌, ◌≡◌, ◌≢◌, ◌∙◌, ap, sym, subst, refl, inl, inr,
  Bool, true, false, Bool-cases, arith, ltb, ◌==◌, if◌then◌else◌,
}
use kali_scheme.Prelude.Int.{ℤ, pos, negsuc, sub_ℕ, ◌+ℤ◌}
use kali_scheme.Vm.Fixnum.{IsFixnum, enter_fixnum, extract-enter, enter-both_fixnums}
use kali_scheme.Vm.Arith.{
  Verdict, value, arithmetic_overflow, is_negative, abs_ℤ, quotient_sign, quotient, remainder_sign,
  remainder,
}
use kali_scheme.Vm.Arith.Sums.{Exact, fixnum-abs_ℤ}
use kali_scheme.Vm.Arith.Product.{times}

abbrev pub with_sign : Bool → ℕ → ℤ
with_sign minus n = if minus then sub_ℕ 0 n else pos n

abbrev pub opposite : ℤ → ℤ → Bool
opposite (pos a) y = is_negative y
opposite (negsuc a) (pos b) = true
opposite (negsuc a) (negsuc b) = false

-- The quotient that is rounded toward zero, and the remainder with the sign of the dividend.
abbrev pub truncated : ℤ → ℤ → ℤ
truncated x y = with_sign (opposite x y) (abs_ℤ x / abs_ℤ y)

abbrev pub left_over : ℤ → ℤ → ℤ
left_over x y = with_sign (is_negative x) (abs_ℤ x % abs_ℤ y)

abs_ℤ-with_sign : (s : Bool) (n : ℕ) → abs_ℤ (with_sign s n) ≡ n
abs_ℤ-with_sign true zero = refl
abs_ℤ-with_sign true (suc n) = ground arith
abs_ℤ-with_sign false n = refl

sign_signed : (s : Bool) (n : ℕ) → is_negative (with_sign s n) ≡ true → s ≡ true
sign_signed true n h = refl
sign_signed false n h = h

pub sub_zero : (n : ℕ) → sub_ℕ 0 (suc n) ≡ negsuc n
sub_zero n = ground arith

times-with_sign :
    (x y : ℤ) (q : ℕ)
    → times (with_sign (opposite x y) q) y ≡ with_sign (is_negative x) (q * abs_ℤ y)
times-with_sign (pos a) (pos b) q = refl
times-with_sign (pos a) (negsuc b) zero = ground arith
times-with_sign (pos a) (negsuc b) (suc q) = ap (λ z. times z (negsuc b)) (sub_zero q)
times-with_sign (negsuc a) (pos b) zero = ground arith
times-with_sign (negsuc a) (pos b) (suc q) = ap (λ z. times z (pos b)) (sub_zero q)
times-with_sign (negsuc a) (negsuc b) q = refl

with_sign-add : (s : Bool) (a b : ℕ) → with_sign s a +ℤ with_sign s b ≡ with_sign s (a + b)
with_sign-add true zero zero = ground arith
with_sign-add true zero (suc b) = ground arith
with_sign-add true (suc a) zero = ground arith
with_sign-add true (suc a) (suc b) = ground arith
with_sign-add false a b = ground arith

with_sign-abs_ℤ : (x : ℤ) → with_sign (is_negative x) (abs_ℤ x) ≡ x
with_sign-abs_ℤ (pos n) = refl
with_sign-abs_ℤ (negsuc n) = sub_zero n

-- The quotient times the divisor, with the remainder, is the dividend.
whole : (x y : ℤ) → times (truncated x y) y +ℤ left_over x y ≡ x
whole x y =
    ap (λ z. z +ℤ left_over x y) (times-with_sign x y (abs_ℤ x / abs_ℤ y))
    ∙ with_sign-add (is_negative x) (abs_ℤ x / abs_ℤ y * abs_ℤ y) (abs_ℤ x % abs_ℤ y)
    ∙ ap (with_sign (is_negative x)) (let e = mod-add-div' (abs_ℤ x) (abs_ℤ y) in omega (arith, e))
    ∙ with_sign-abs_ℤ x

pub enter-nonzero : (y : ℤ) → IsFixnum y → y ≢ pos 0 → (0 == enter_fixnum y) ≡ false
unfolding enter_fixnum
enter-nonzero (pos zero) h n = absurd (n refl)
enter-nonzero (pos (suc m)) h n = ground (arith, h)
enter-nonzero (negsuc m) h n = ground (arith, h)

pub nonzero-abs_ℤ : (y : ℤ) → y ≢ pos 0 → 0 < abs_ℤ y
nonzero-abs_ℤ (pos zero) n = absurd (n refl)
nonzero-abs_ℤ (pos (suc m)) n = omega arith
nonzero-abs_ℤ (negsuc m) n = omega arith

plus-Exact :
    (c : ℕ)
    → Exact (pos c) (if ltb 536870911 c then arithmetic_overflow else value (enter_fixnum (pos c)))
plus-Exact c = elim (Bool-cases (ltb c (2 ^ 29))) [
  | inl e ↦ inl (ground (arith, e), ground (arith, e))
  | inr e ↦ inr ((λ h. ground (arith, e, h)), ground (arith, e))
]

minus-Exact : (c : ℕ) → c ≤ 2 ^ 29 → Exact (sub_ℕ 0 c) (value (enter_fixnum (sub_ℕ 0 c)))
minus-Exact zero h = inl (omega arith, refl)
minus-Exact (suc c) h = inl (subst IsFixnum (sym (sub_zero c)) (omega (arith, h)), refl)

pub quotient_sign-Exact :
    (x y : ℤ) (c : ℕ) → c ≤ 2 ^ 29 → Exact (with_sign (opposite x y) c) (quotient_sign x y c)
unfolding quotient_sign
quotient_sign-Exact (pos a) (pos b) c h = plus-Exact c
quotient_sign-Exact (pos a) (negsuc b) c h = minus-Exact c h
quotient_sign-Exact (negsuc a) (pos b) c h = minus-Exact c h
quotient_sign-Exact (negsuc a) (negsuc b) c h = plus-Exact c

-- What the two instructions say about a dividend and a divisor.
pub record Divided (x y : ℤ) (q r : Verdict) : Type 0 where
  pub quotient_is : ℤ
  pub remainder_is : ℤ
  pub quotient_answer : Exact quotient_is q
  pub remainder_answer : r ≡ value (enter_fixnum remainder_is)
  pub divides : times quotient_is y +ℤ remainder_is ≡ x
  pub smaller : abs_ℤ remainder_is < abs_ℤ y
  pub sign : is_negative remainder_is ≡ true → is_negative x ≡ true

-- The two instructions on a fixnum and a fixnum other than zero.
pub quotient-remainder-Divided :
    (x y : ℤ)
    → IsFixnum x
    → IsFixnum y
    → y ≢ pos 0
    → Divided x y
        (quotient (enter_fixnum x) (enter_fixnum y))
        (remainder (enter_fixnum x) (enter_fixnum y))
unfolding quotient remainder remainder_sign
quotient-remainder-Divided x y hx hy n =
    let b : 0 < abs_ℤ y = nonzero-abs_ℤ y n in
    let a : abs_ℤ x ≤ 2 ^ 29 = fixnum-abs_ℤ x hx in
    let c : abs_ℤ x / abs_ℤ y ≤ abs_ℤ x = div-le_self (abs_ℤ x) (abs_ℤ y) in
    record {
      quotient_is = truncated x y;
      remainder_is = left_over x y;
      quotient_answer =
          rw (enter-both_fixnums x y, enter-nonzero y hy n, extract-enter x hx, extract-enter y hy)
            (quotient_sign-Exact x y (abs_ℤ x / abs_ℤ y) (omega (arith, a, c)));
      remainder_answer =
          rw (enter-both_fixnums x y, enter-nonzero y hy n, extract-enter x hx, extract-enter y hy)
            refl;
      divides = whole x y;
      smaller =
          subst (λ (m : ℕ). m < abs_ℤ y) (sym (abs_ℤ-with_sign (is_negative x) (abs_ℤ x % abs_ℤ y)))
            (mod-lt (abs_ℤ x) b);
      sign = sign_signed (is_negative x) (abs_ℤ x % abs_ℤ y);
    }
