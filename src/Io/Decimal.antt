-- ===== src/Io/Decimal.antt =====
-- Decimal texts: what c/unix/io.c writes for a number, and the value of digits.
use native.Mathlib.Nat.{pow-suc}
use kali_scheme.Prelude.{
  ℕ, zero, suc, ◌+◌, ◌-◌, ◌*◌, ◌/◌, ◌%◌, ◌^◌, ◌<◌, ◌≡◌, ◌≢◌, refl, true, false, inl, inr, List, [],
  ◌∷◌, ◌++◌, arith, ◌==◌, if◌then◌else◌, Bool-cases,
}
use kali_scheme.Prelude.Int.{ℤ, pos, negsuc}
use kali_scheme.Io.Reader.{is_digit}

-- The digits of a number, none for 0; the first argument bounds how many.
unfoldable pub digits : ℕ → ℕ → List ℕ
digits zero n = []
digits (suc k) n = if n == 0 then [] else digits k (n / 10) ++ ((n % 10 + b'0') ∷ [])

unfoldable pub decimal : ℤ → List ℕ
decimal (pos n) = if n == 0 then b'0' ∷ [] else digits 20 n
decimal (negsuc n) = b'-' ∷ digits 20 (suc n)

abbrev pub magnitude : ℤ → ℕ
magnitude (pos n) = n
magnitude (negsuc n) = suc n

-- The loop of `ps_read_integer` over digits.
unfoldable pub value : ℕ → List ℕ → ℕ
value acc [] = acc
value acc (c ∷ cs) = value (10 * acc + (c - b'0')) cs

abbrev pub AllDigits : List ℕ → Type 0
AllDigits [] = Unit {0}
AllDigits (c ∷ cs) = (is_digit c ≡ true) × AllDigits cs

pub value-snoc :
    (acc : ℕ) (cs : List ℕ) (c : ℕ) → value acc (cs ++ (c ∷ [])) ≡ 10 * value acc cs + (c - b'0')
unfolding value
value-snoc acc [] c = refl
value-snoc acc (d ∷ cs) c = value-snoc (10 * acc + (d - b'0')) cs c

AllDigits-snoc :
    (cs : List ℕ) (c : ℕ) → AllDigits cs → is_digit c ≡ true → AllDigits (cs ++ (c ∷ []))
AllDigits-snoc [] c a h = ground arith
AllDigits-snoc (d ∷ cs) c a h = (a.0, AllDigits-snoc cs c a.1 h)

pub AllDigits-digits : (k n : ℕ) → AllDigits (digits k n)
unfolding digits
AllDigits-digits zero n = tt
AllDigits-digits (suc k) n = elim (Bool-cases (n == 0)) [
  | inl z ↦ rw z tt
  | inr nz ↦ rw nz (
      AllDigits-snoc (digits k (n / 10)) (n % 10 + b'0') (AllDigits-digits k (n / 10))
        (ground arith))
]

pub div-lt-pow : (k n : ℕ) → n < 10 ^ suc k → n / 10 < 10 ^ k
div-lt-pow k n h = omega (arith, pow-suc 10 k)

-- With room for all digits the value of the digits is the number.
pub value-digits : (k n : ℕ) → n < 10 ^ k → value 0 (digits k n) ≡ n
unfolding digits value
value-digits zero n h = omega arith
value-digits (suc k) n h = elim (Bool-cases (n == 0)) [
  | inl z ↦ rw z (ground arith)
  | inr nz ↦ rw (nz, value-snoc, value-digits k (n / 10) (div-lt-pow k n h)) (omega arith)
]

snoc-ne : (cs : List ℕ) (c : ℕ) → cs ++ (c ∷ []) ≢ []
snoc-ne [] c e = cc
snoc-ne (d ∷ cs) c e = cc

pub digits-ne : (k n : ℕ) → n ≢ 0 → n < 10 ^ k → digits k n ≢ []
unfolding digits
digits-ne zero n ne h = absurd (ne (omega arith))
digits-ne (suc k) n ne h =
    let nz : (n == 0) ≡ false = ground arith in rw nz (snoc-ne (digits k (n / 10)) (n % 10 + b'0'))
