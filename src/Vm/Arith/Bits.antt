-- ===== src/Vm/Arith/Bits.antt =====
-- The instructions of c/scheme48vm.c for the bits of fixnums and for shifts, with the macros of
-- c/prescheme.h.
use Prim.Native.Nat.{bit_and, bit_or, bit_xor}
use kali_scheme.Prelude.{ℕ, suc, ◌+◌, ◌-◌, ◌*◌, ◌/◌, ◌%◌, ◌^◌, ltb, leb, if◌then◌else◌}
use kali_scheme.Prelude.Int.{ℤ, pos, negsuc, eqb_ℤ}
use kali_scheme.Image.Header.{as_long}
use kali_scheme.Vm.Fixnum.{both_fixnums, extract_fixnum, enter_fixnum}
use kali_scheme.Vm.Arith.{Verdict, value, arithmetic_overflow, wrong_type, is_negative}

-- The bits of `x >> 2`.
abbrev pub shifted : ℕ → ℕ
shifted x = if ltb x (2 ^ 31) then x / 4 else x / 4 + 3 * 2 ^ 30

-- Opcodes 82 to 84.
unfoldable pub bitwise_and : (arg2 x : ℕ) → Verdict
bitwise_and arg2 x =
    if both_fixnums arg2 x
    then value (bit_and (shifted arg2) (shifted x) * 4 % 2 ^ 32)
    else wrong_type

unfoldable pub bitwise_ior : (arg2 x : ℕ) → Verdict
bitwise_ior arg2 x =
    if both_fixnums arg2 x
    then value (bit_or (shifted arg2) (shifted x) * 4 % 2 ^ 32)
    else wrong_type

unfoldable pub bitwise_xor : (arg2 x : ℕ) → Verdict
bitwise_xor arg2 x =
    if both_fixnums arg2 x
    then value (bit_xor (shifted arg2) (shifted x) * 4 % 2 ^ 32)
    else wrong_type

-- PS_SHIFT_RIGHT, which rounds down, and PS_SHIFT_LEFT, in a `long` of 32 bits.
unfoldable pub shift_right : ℤ → ℕ → ℤ
shift_right (pos n) y = if leb 32 y then pos 0 else pos (n / 2 ^ y)
shift_right (negsuc n) y = if leb 32 y then negsuc 0 else negsuc (n / 2 ^ y)

unfoldable pub shift_left : ℤ → ℕ → ℤ
shift_left (pos n) y = if leb 32 y then pos 0 else as_long (n * 2 ^ y % 2 ^ 32)
shift_left (negsuc n) y =
    if leb 32 y then pos 0 else as_long ((2 ^ 32 - suc n * 2 ^ y % 2 ^ 32) % 2 ^ 32)

-- The tests on a left shift.
unfoldable pub shift_checked : (value result : ℤ) (count : ℕ) → Verdict
unfolding shift_right
shift_checked v result count =
    if eqb_ℤ v (shift_right result count)
    then (if is_negative v
        then (if is_negative result then value (enter_fixnum result) else arithmetic_overflow)
        else (if is_negative result then arithmetic_overflow else value (enter_fixnum result)))
    else arithmetic_overflow

unfoldable pub shift_by : (value count : ℤ) → Verdict
unfolding shift_right shift_left shift_checked
shift_by v (negsuc n) = value (enter_fixnum (shift_right v (suc n)))
shift_by v (pos n) = shift_checked v (extract_fixnum (enter_fixnum (shift_left v n))) n

-- Opcode 85.
unfoldable pub arithmetic_shift : (arg2 x : ℕ) → Verdict
unfolding shift_by
arithmetic_shift arg2 x =
    if both_fixnums arg2 x then shift_by (extract_fixnum arg2) (extract_fixnum x) else wrong_type
