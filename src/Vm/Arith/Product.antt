-- ===== src/Vm/Arith/Product.antt =====
-- The product of two fixnums, by halves of 16 bits.
use kali_scheme.Prelude.{
  ℕ, zero, suc, ◌+◌, ◌*◌, ◌%◌, ◌^◌, ◌≤◌, ◌<◌, ◌≡◌, sym, subst, refl, ◌⊎◌, inl, inr, Bool, true,
  false, Bool-cases, arith, ltb, if◌then◌else◌,
}
use kali_scheme.Prelude.Int.{ℤ, pos, negsuc, sub_ℕ, ltb_ℤ}
use kali_scheme.Image.Header.{as_long}
use kali_scheme.Vm.Fixnum.{IsFixnum, enter_fixnum, greatest_fixnum}
use kali_scheme.Vm.Arith.{
  Verdict, value, arithmetic_overflow, is_negative, abs_ℤ, multiply_positive, multiply_negative,
  multiply_parts,
}

-- The product of two integers.
abbrev pub times : ℤ → ℤ → ℤ
times x y =
    let p = abs_ℤ x * abs_ℤ y in
    if is_negative x
    then (if is_negative y then pos p else sub_ℕ 0 p)
    else (if is_negative y then sub_ℕ 0 p else pos p)

-- The fixnum of the exact product, or the overflow, for a product of magnitudes from 2 ^ 29 on.
abbrev pub ExactProduct : (x y : ℤ) → Verdict → Type 0
ExactProduct x y r =
    (IsFixnum (times x y) × (r ≡ value (enter_fixnum (times x y))))
    ⊎ ((2 ^ 29 ≤ abs_ℤ x * abs_ℤ y) × (r ≡ arithmetic_overflow))

abbrev Signed : (minus : Bool) (p : ℕ) → Verdict → Type 0
Signed minus p r =
    let z = if minus then sub_ℕ 0 p else pos p in
    (IsFixnum z × (r ≡ value (enter_fixnum z))) ⊎ ((2 ^ 29 ≤ p) × (r ≡ arithmetic_overflow))

positive-Signed : (p : ℕ) → p < 2 ^ 31 → Signed false p (multiply_positive (pos p))
unfolding multiply_positive
positive-Signed p h = elim (Bool-cases (ltb p (2 ^ 29))) [
  | inl e ↦ inl (ground (arith, e), ground (arith, e))
  | inr e ↦ inr (ground (arith, e), ground (arith, e))
]

negative-Signed : (p : ℕ) → p < 2 ^ 31 → Signed true p (multiply_negative (pos p))
unfolding multiply_negative
negative-Signed zero h = inl (omega arith, λ i. value (enter_fixnum (pos 0)))
negative-Signed (suc p) h = elim (Bool-cases (ltb p (2 ^ 29))) [
  | inl e ↦ inl (ground (arith, e), ground (arith, e))
  | inr e ↦ inr (ground (arith, e), ground (arith, e))
]

-- The tests on the parts, where they let a product through and where they do not.
module _ (a b : ℤ) (lo mid : ℕ) (c : ℤ) where
  low_part : lo < 2 ^ 32 → 2 ^ 29 ≤ lo → multiply_parts a b (as_long lo) mid c ≡ arithmetic_overflow
  unfolding multiply_parts
  low_part h g = elim (Bool-cases (ltb lo (2 ^ 31))) [
    | inl e ↦
        let big : ltb_ℤ greatest_fixnum (as_long lo) ≡ true = ground (arith, e, g) in
        rw (big, multiply_parts) (λ i. arithmetic_overflow)
    | inr e ↦
        let small : ltb_ℤ greatest_fixnum (as_long lo) ≡ false = ground (arith, e, h) in
        let minus : is_negative (as_long lo) ≡ true = ground (arith, e, h) in
        rw (small, minus, multiply_parts) (λ i. arithmetic_overflow)
  ]

  mid_part : lo < 2 ^ 29 → 8192 < mid → multiply_parts a b (as_long lo) mid c ≡ arithmetic_overflow
  unfolding multiply_parts
  mid_part h g =
      let small : ltb_ℤ greatest_fixnum (as_long lo) ≡ false = ground (arith, h) in
      let plus : is_negative (as_long lo) ≡ false = ground (arith, h) in
      let big : ltb 8192 mid ≡ true = ground (arith, g) in
      rw (small, plus, big, multiply_parts) (λ i. arithmetic_overflow)

  passed :
      lo < 2 ^ 29
      → mid ≤ 8192
      → multiply_parts a b (as_long lo) mid c ≡ (
          if is_negative a
          then (if is_negative b then multiply_positive c else multiply_negative c)
          else (if is_negative b then multiply_negative c else multiply_positive c))
  unfolding multiply_parts
  passed h g =
      let small : ltb_ℤ greatest_fixnum (as_long lo) ≡ false = ground (arith, h) in
      let plus : is_negative (as_long lo) ≡ false = ground (arith, h) in
      let fits : ltb 8192 mid ≡ false = ground (arith, g) in
      rw (small, plus, fits, multiply_parts) refl

by_signs :
    (x y : ℤ) (p : ℕ) (r s : Verdict)
    → p ≡ abs_ℤ x * abs_ℤ y
    → Signed false p r
    → Signed true p s
    → ExactProduct x y (
        if is_negative x
        then (if is_negative y then r else s)
        else (if is_negative y then s else r))
by_signs (pos x) (pos y) p r s e hr hs = subst (λ p. Signed false p r) e hr
by_signs (pos x) (negsuc y) p r s e hr hs = subst (λ p. Signed true p s) e hs
by_signs (negsuc x) (pos y) p r s e hr hs = subst (λ p. Signed true p s) e hs
by_signs (negsuc x) (negsuc y) p r s e hr hs = subst (λ p. Signed false p r) e hr

pub parts-ExactProduct :
    (x y : ℤ) (lo mid : ℕ)
    → lo + mid * 65536 ≡ abs_ℤ x * abs_ℤ y
    → lo < 2 ^ 32
    → ExactProduct x y
        (multiply_parts x y (as_long (lo % 2 ^ 32)) mid (as_long ((lo + mid * 2 ^ 16) % 2 ^ 32)))
parts-ExactProduct x y lo mid e h =
    let same : lo % 2 ^ 32 ≡ lo = omega (arith, h) in
    let c : ℤ = as_long ((lo + mid * 2 ^ 16) % 2 ^ 32) in
    subst (λ (l : ℕ). ExactProduct x y (multiply_parts x y (as_long l) mid c)) (sym same)
      (elim (Bool-cases (ltb lo (2 ^ 29))) [
        | inr big ↦
            let b : 2 ^ 29 ≤ lo = ground (arith, big) in
            inr (omega (arith, e, b), low_part x y lo mid c h b)
        | inl small ↦
            let l : lo < 2 ^ 29 = ground (arith, small) in
            elim (Bool-cases (ltb 8192 mid)) [
              | inl big ↦
                  let b : 8192 < mid = ground (arith, big) in
                  inr (omega (arith, e, b), mid_part x y lo mid c l b)
              | inr fits ↦
                  let f : mid ≤ 8192 = ground (arith, fits) in
                  let whole : c ≡ pos (lo + mid * 65536) = ground (arith, l, f) in
                  let p : ℕ = lo + mid * 65536 in
                  subst (ExactProduct x y) (sym (passed x y lo mid c l f)) (
                    by_signs x y p (multiply_positive c) (multiply_negative c) e
                      (subst (λ c. Signed false p (multiply_positive c)) (sym whole)
                        (positive-Signed p (omega (arith, l, f))))
                      (subst (λ c. Signed true p (multiply_negative c)) (sym whole)
                        (negative-Signed p (omega (arith, l, f)))))
            ]
      ])
