-- ===== src/Vm/Arith.antt =====
-- The instructions of c/scheme48vm.c for arithmetic on fixnums: what they do with the descriptor
-- that is popped from the stack, the first argument here, and with the one in `SvalS`, the second.
pub mod Sums
pub mod Product
pub mod Halves
pub mod Division
pub mod Order
pub mod Bits
pub mod Ratio
pub mod Shift
use kali_scheme.Prelude.{
  ℕ, suc, ◌+◌, ◌-◌, ◌*◌, ◌/◌, ◌%◌, ◌^◌, Bool, true, false, ltb, ◌==◌, ◌&&◌, if◌then◌else◌,
}
use kali_scheme.Prelude.Int.{ℤ, pos, negsuc, pos_part, neg_part, sub_ℕ, ◌+ℤ◌, ◌-ℤ◌, ltb_ℤ}
use kali_scheme.Image.Header.{as_long}
use kali_scheme.Vm.Fixnum.{
  is_fixnum, both_fixnums, extract_fixnum, enter_fixnum, greatest_fixnum, least_fixnum,
}

-- A value, or the exceptions 6 and 5.
pub data Verdict : Type 0 where
  value : ℕ → Verdict
  arithmetic_overflow : Verdict
  wrong_type : Verdict

abbrev pub schfalse : ℕ
schfalse = 1

abbrev pub schtrue : ℕ
schtrue = 5

abbrev pub enter_boolean : Bool → ℕ
enter_boolean b = if b then schtrue else schfalse

abbrev pub is_negative : ℤ → Bool
is_negative (pos n) = false
is_negative (negsuc n) = true

abbrev pub abs_ℤ : ℤ → ℕ
abs_ℤ (pos n) = n
abs_ℤ (negsuc n) = suc n

-- The tests of opcodes 52 and 54 on their result.
abbrev pub checked : ℤ → Verdict
checked z =
    if ltb_ℤ greatest_fixnum z
    then arithmetic_overflow
    else (if ltb_ℤ z least_fixnum then arithmetic_overflow else value (enter_fixnum z))

-- Opcode 52.
unfoldable pub add : (arg2 x : ℕ) → Verdict
add arg2 x =
    if both_fixnums arg2 x then checked (extract_fixnum arg2 +ℤ extract_fixnum x) else wrong_type

-- Opcode 54.
unfoldable pub subtract : (arg2 x : ℕ) → Verdict
subtract arg2 x =
    if both_fixnums arg2 x then checked (extract_fixnum arg2 -ℤ extract_fixnum x) else wrong_type

-- The end of opcode 53 for a product `c` of magnitudes: L7205 and L7212.
unfoldable pub multiply_positive : ℤ → Verdict
multiply_positive c =
    if ltb_ℤ greatest_fixnum c then arithmetic_overflow else value (enter_fixnum c)

unfoldable pub multiply_negative : ℤ → Verdict
multiply_negative c =
    if ltb_ℤ (pos 536870912) c then arithmetic_overflow else value (enter_fixnum (pos 0 -ℤ c))

-- The tests on the parts of the product: L7178.
unfoldable pub multiply_parts : (a b lo_c : ℤ) (mid_c : ℕ) (c : ℤ) → Verdict
unfolding multiply_positive multiply_negative
multiply_parts a b lo_c mid_c c =
    if ltb_ℤ greatest_fixnum lo_c
    then arithmetic_overflow
    else (if is_negative lo_c
        then arithmetic_overflow
        else (if ltb 8192 mid_c
            then arithmetic_overflow
            else (if is_negative a
                then (if is_negative b then multiply_positive c else multiply_negative c)
                else (if is_negative b then multiply_negative c else multiply_positive c))))

-- The product by halves of 16 bits, in `long`s of 32 bits: L7132 and L7136.
unfoldable pub multiply_halves : (a b : ℤ) → Verdict
unfolding multiply_parts
multiply_halves a b =
    let lo_a : ℕ = abs_ℤ a % 2 ^ 16 in
    let lo_b : ℕ = abs_ℤ b % 2 ^ 16 in
    let hi_a : ℕ = abs_ℤ a / 2 ^ 16 % 2 ^ 16 in
    let hi_b : ℕ = abs_ℤ b / 2 ^ 16 % 2 ^ 16 in
    let lo_c : ℤ = as_long (lo_a * lo_b % 2 ^ 32) in
    let mid_c : ℕ = lo_a * hi_b + lo_b * hi_a in
    let c : ℤ = as_long ((lo_a * lo_b + mid_c * 2 ^ 16) % 2 ^ 32) in
    if ltb 0 hi_a && ltb 0 hi_b then arithmetic_overflow else multiply_parts a b lo_c mid_c c

-- Opcode 53.
unfoldable pub multiply : (arg2 x : ℕ) → Verdict
unfolding multiply_halves
multiply arg2 x =
    if both_fixnums arg2 x
    then multiply_halves (extract_fixnum arg2) (extract_fixnum x)
    else wrong_type

-- The end of opcode 61 for a quotient `c` of magnitudes: L34166, L34169 and L34170.
unfoldable pub quotient_sign : (a b : ℤ) (c : ℕ) → Verdict
quotient_sign a b c =
    let plus : Verdict =
      if ltb 536870911 c then arithmetic_overflow else value (enter_fixnum (pos c)) in
    let minus : Verdict = value (enter_fixnum (sub_ℕ 0 c)) in
    if is_negative a
    then (if is_negative b then plus else minus)
    else (if is_negative b then minus else plus)

-- Opcode 61.
unfoldable pub quotient : (arg2 x : ℕ) → Verdict
unfolding quotient_sign
quotient arg2 x =
    if both_fixnums arg2 x
    then (if 0 == x
        then arithmetic_overflow
        else (let a = extract_fixnum arg2 in
            let b = extract_fixnum x in quotient_sign a b (abs_ℤ a / abs_ℤ b)))
    else wrong_type

-- The end of opcode 62: L34032 and L34034.
unfoldable pub remainder_sign : ℤ → ℕ → Verdict
remainder_sign a c = value (enter_fixnum (if is_negative a then sub_ℕ 0 c else pos c))

-- Opcode 62.
unfoldable pub remainder : (arg2 x : ℕ) → Verdict
unfolding remainder_sign
remainder arg2 x =
    if both_fixnums arg2 x
    then (if 0 == x
        then arithmetic_overflow
        else (let a = extract_fixnum arg2 in remainder_sign a (abs_ℤ a % abs_ℤ (extract_fixnum x))))
    else wrong_type

-- Opcodes 56 to 60, which compare the descriptors.
unfoldable pub equal : (arg2 x : ℕ) → Verdict
equal arg2 x =
    if both_fixnums arg2 x then value (if arg2 == x then schtrue else schfalse) else wrong_type

unfoldable pub less : (arg2 x : ℕ) → Verdict
less arg2 x =
    if both_fixnums arg2 x
    then value (if ltb_ℤ (as_long arg2) (as_long x) then schtrue else schfalse)
    else wrong_type

unfoldable pub greater : (arg2 x : ℕ) → Verdict
greater arg2 x =
    if both_fixnums arg2 x
    then value (if ltb_ℤ (as_long x) (as_long arg2) then schtrue else schfalse)
    else wrong_type

unfoldable pub at_most : (arg2 x : ℕ) → Verdict
at_most arg2 x =
    if both_fixnums arg2 x
    then value (if ltb_ℤ (as_long x) (as_long arg2) then schfalse else schtrue)
    else wrong_type

unfoldable pub at_least : (arg2 x : ℕ) → Verdict
at_least arg2 x =
    if both_fixnums arg2 x
    then value (if ltb_ℤ (as_long arg2) (as_long x) then schfalse else schtrue)
    else wrong_type

-- `0 - x` in a `long`.
abbrev pub negated : ℕ → ℤ
negated x = as_long ((2 ^ 32 - x) % 2 ^ 32)

-- Opcode 77, with the test L28018. `x` is the descriptor, not the integer in it.
unfoldable pub magnitude_instruction : ℕ → Verdict
magnitude_instruction x =
    if is_fixnum x
    then (let r = if is_negative (as_long x) then negated x else as_long x in
        if ltb_ℤ greatest_fixnum r then arithmetic_overflow else value (enter_fixnum r))
    else wrong_type

-- Opcode 76, the angle of a real number.
unfoldable pub angle : ℕ → Verdict
angle x =
    if is_fixnum x
    then (if is_negative (as_long x) then arithmetic_overflow else value 0)
    else wrong_type

-- Opcode 81: `~` on the integer.
abbrev pub complement : ℤ → ℤ
complement (pos n) = negsuc n
complement (negsuc n) = pos n

unfoldable pub bitwise_not : ℕ → Verdict
bitwise_not x =
    if is_fixnum x then value (enter_fixnum (complement (extract_fixnum x))) else wrong_type

-- Opcodes 49, 65 and 67: what `exact?`, the denominator and the imaginary part of a fixnum are.
unfoldable pub exact : ℕ → Verdict
exact x = if is_fixnum x then value schtrue else wrong_type

unfoldable pub denominator : ℕ → Verdict
denominator x = if is_fixnum x then value 4 else wrong_type

unfoldable pub imag_part : ℕ → Verdict
imag_part x = if is_fixnum x then value 0 else wrong_type

-- Opcodes 63, 64 and 66: the floor, the numerator and the real part.
unfoldable pub itself : ℕ → Verdict
itself x = if is_fixnum x then value x else wrong_type

-- Opcodes 50 and 51, 68 to 75, and 78 to 80, which no fixnum has an answer to.
unfoldable pub change_exactness : ℕ → Verdict
change_exactness x = if is_fixnum x then arithmetic_overflow else wrong_type

unfoldable pub transcendental : ℕ → Verdict
transcendental x = if is_fixnum x then arithmetic_overflow else wrong_type

unfoldable pub two_reals : (arg2 x : ℕ) → Verdict
two_reals arg2 x = if both_fixnums arg2 x then arithmetic_overflow else wrong_type
