-- ===== src/Vm/Fixnum.antt =====
-- Fixnums of c/scheme48vm.c: integers of 30 bits in a `long` with the tag 0. A descriptor is the
-- bit pattern of a `long`.
use kali_scheme.Prelude.{
  ℕ, ◌+◌, ◌-◌, ◌*◌, ◌/◌, ◌%◌, ◌^◌, ◌<◌, ◌≡◌, Bool, true, arith, ltb, ◌==◌, ◌&&◌, if◌then◌else◌,
}
use kali_scheme.Prelude.Int.{ℤ, pos, negsuc}

-- `0 == (3 & x)`, and `0 == (3 & (x | y))`.
abbrev pub is_fixnum : ℕ → Bool
is_fixnum x = x % 4 == 0

abbrev pub both_fixnums : ℕ → ℕ → Bool
both_fixnums x y = is_fixnum x && is_fixnum y

-- `x >> 2`, which rounds down.
unfoldable pub extract_fixnum : ℕ → ℤ
extract_fixnum x = if ltb x (2 ^ 31) then pos (x / 4) else negsuc ((2 ^ 32 - 1 - x) / 4)

-- `z << 2`, in 32 bits.
unfoldable pub enter_fixnum : ℤ → ℕ
enter_fixnum (pos n) = n * 4 % 2 ^ 32
enter_fixnum (negsuc n) = 2 ^ 32 - 1 - (n * 4 + 3) % 2 ^ 32

abbrev pub greatest_fixnum : ℤ
greatest_fixnum = pos 536870911

abbrev pub least_fixnum : ℤ
least_fixnum = negsuc 536870911

abbrev pub IsFixnum : ℤ → Type 0
IsFixnum (pos n) = n < 2 ^ 29
IsFixnum (negsuc n) = n < 2 ^ 29

pub extract-enter : (z : ℤ) → IsFixnum z → extract_fixnum (enter_fixnum z) ≡ z
unfolding extract_fixnum enter_fixnum
extract-enter (pos n) h = ground (arith, h)
extract-enter (negsuc n) h = ground (arith, h)

pub enter-is_fixnum : (z : ℤ) → is_fixnum (enter_fixnum z) ≡ true
unfolding enter_fixnum
enter-is_fixnum (pos n) = ground arith
enter-is_fixnum (negsuc n) = ground arith

pub enter-both_fixnums : (x y : ℤ) → both_fixnums (enter_fixnum x) (enter_fixnum y) ≡ true
enter-both_fixnums x y = rw (enter-is_fixnum x, enter-is_fixnum y) (λ i. true)
