-- ===== src/Vm/Tests.antt =====
-- Examples for c/scheme48vm.c: a stack at 3000 with two arguments, and a list of one element at 900.
use kali_scheme.Prelude.{
  ℕ, zero, suc, ◌≢◌, ◌⊎◌, ◌<◌, ◌≤◌, ◌^◌, if◌then◌else◌, ◌≡◌, ◌↔◌, refl, ap, inl, true, false, none,
  [], ◌∷◌, arith,
}
use kali_scheme.Prelude.Int.{pos, negsuc, ◌+ℤ◌, ◌-ℤ◌, eqb_ℤ}
use kali_scheme.Heap.Memory.{Memory, load, store, IsBytes, store-IsBytes}
use kali_scheme.Heap.Space.{Space, is_available}
use kali_scheme.Heap.Trace.{finished}
use kali_scheme.Vm.Pair.{is_pair, cdr, put_pair, put_pair-IsBytes, schnull}
use kali_scheme.Vm.Lists.{okay_argument_list}
use kali_scheme.Vm.Lists.Okay.{Proper, okay_argument_list-Proper}
use kali_scheme.Vm.Lists.Circle.{rest, okay_argument_list-circle}
use kali_scheme.Vm.Stack.{
  Vm, ◌>>=◌, done, pop_args_list, push_list, rest_list_setup, has_stack_room,
}
use kali_scheme.Vm.Setup.{Machine}
use kali_scheme.Vm.Setup.More.{Given, Returns}
use kali_scheme.Vm.Setup.Arguments.{rest_list_setup-SetUp}
use kali_scheme.Vm.Setup.Again.{Same, push_list-pop_args_list}
use kali_scheme.Vm.Fixnum.{enter_fixnum, least_fixnum}
use kali_scheme.Vm.Arith.{
  add, subtract, multiply, quotient, remainder, value, abs_ℤ, magnitude_instruction,
  arithmetic_overflow,
}
use kali_scheme.Vm.Arith.Sums.{Exact, add-subtract-Exact}
use kali_scheme.Vm.Arith.Product.{ExactProduct}
use kali_scheme.Vm.Arith.Halves.{multiply-ExactProduct}
use kali_scheme.Vm.Arith.Division.{Divided}
use kali_scheme.Vm.Arith.Ratio.{divide, ExactRatio, quotient-remainder-divide}
use kali_scheme.Vm.Arith.Bits.{arithmetic_shift}
use kali_scheme.Vm.Arith.Shift.Whole.{Shifted, arithmetic_shift-Shifted}
use kali_scheme.Vm.Arith.Order.{Compared, comparisons-Compared, magnitude_instruction-four_times}
use kali_scheme.Vm.Raise.{Registers}

abbrev blank : Memory
blank x = 0

blank-IsBytes : IsBytes blank
blank-IsBytes x = omega arith

abbrev filled : Memory
filled = store (store (put_pair blank 900 12 schnull) 3564 8) 3568 4

filled-IsBytes : IsBytes filled
filled-IsBytes =
    store-IsBytes _ 3568 4
      (store-IsBytes _ 3564 8 (put_pair-IsBytes blank 900 12 schnull blank-IsBytes))

abbrev space : Space
space = record {
  newspace_begin = 1000;
  newspace_end = 2000;
  oldspace_begin = 2000;
  oldspace_end = 3000;
  hp = 1000;
  limit = 2000;
  saved_hp = 0;
  saved_limit = 0;
  weak_pointer_hp = none;
  weak_pointer_limit = 0;
  gc_count = 0;
  pure_area_count = 0;
  impure_area_count = 0;
}

abbrev machine : Vm
machine = record {
  heap = record { space = space; memory = filled };
  stack = 3560;
  stack_limit = 3500;
}

machine-Machine : Machine 3 3000 3600 machine
unfolding is_available
machine-Machine = record {
  bytes = filled-IsBytes;
  aligned = refl;
  free = refl;
  before = omega arith;
  narrow = omega arith;
  low = omega arith;
  above = omega arith;
  under = omega arith;
}

machine-Given : Given 2 3 907 3000 3600 (4 ∷ (8 ∷ [])) (12 ∷ []) machine
unfolding load store put_pair is_pair
machine-Given = record {
  machine = machine-Machine;
  on_stack = refl;
  whole_stack = omega arith;
  in_list = ((omega arith, inl (omega arith)), (refl, (refl, refl)));
  small = omega arith;
  enough = omega arith;
  fuel = omega arith;
}

rest_list_setup-SetUp_example :
    Returns 2 3000 3600 (4 ∷ []) (8 ∷ (12 ∷ [])) machine (rest_list_setup 2 1 2 907 1 machine)
unfolding has_stack_room
rest_list_setup-SetUp_example =
    rest_list_setup-SetUp 2 3 907 3000 3600 (4 ∷ (8 ∷ [])) (12 ∷ []) (4 ∷ []) (8 ∷ (12 ∷ []))
      machine machine-Given refl refl (omega arith)

push_list-pop_args_list_example :
    (r : ℕ × Vm) × ((pop_args_list schnull 2 machine >>= λ p. push_list p.0 2 p.1) ≡ done r)
    × Same 2 machine r
unfolding has_stack_room is_available
push_list-pop_args_list_example =
    push_list-pop_args_list 2 3000 3600 machine
      (record {
        bytes = filled-IsBytes;
        aligned = refl;
        free = refl;
        before = omega arith;
        narrow = omega arith;
        low = omega arith;
        above = omega arith;
        under = omega arith;
      })
      (omega arith) refl (omega arith)

okay_argument_list-Proper_example :
    (okay_argument_list 3 filled 907 ≡ finished (true, 1)) ↔ Proper filled 907 1
okay_argument_list-Proper_example = okay_argument_list-Proper 3 filled 907 1 (omega arith)

-- A pair that is its own rest.
abbrev ring : Memory
ring = put_pair blank 900 12 907

ring-rest : (x : ℕ) → rest ring 907 x ≡ 907
unfolding load store put_pair
ring-rest zero = refl
ring-rest (suc x) = ap (cdr ring) (ring-rest x)

ring-is_pair : (x : ℕ) → is_pair ring (rest ring 907 x) ≡ true
unfolding load store put_pair is_pair
ring-is_pair x = ap (is_pair ring) (ring-rest x)

okay_argument_list-circle_example : okay_argument_list 2 ring 907 ≡ finished (false, 0)
okay_argument_list-circle_example =
    okay_argument_list-circle 2 ring 907 0 1 ring-is_pair (omega arith) (ring-rest 1) (omega arith)

add-subtract-Exact_example :
    Exact (pos 5 +ℤ negsuc 7) (add (enter_fixnum (pos 5)) (enter_fixnum (negsuc 7)))
    × Exact (pos 5 -ℤ negsuc 7) (subtract (enter_fixnum (pos 5)) (enter_fixnum (negsuc 7)))
add-subtract-Exact_example = add-subtract-Exact (pos 5) (negsuc 7) (omega arith) (omega arith)

multiply-ExactProduct_example :
    ExactProduct
      (pos 70000)
      (negsuc 8)
      (multiply (enter_fixnum (pos 70000)) (enter_fixnum (negsuc 8)))
multiply-ExactProduct_example =
    multiply-ExactProduct (pos 70000) (negsuc 8) (omega arith) (omega arith)

not_zero : pos 3 ≢ pos 0
not_zero e = cc e

quotient-remainder-divide_example :
    Divided
      (negsuc 16)
      (pos 3)
      (quotient (enter_fixnum (negsuc 16)) (enter_fixnum (pos 3)))
      (remainder (enter_fixnum (negsuc 16)) (enter_fixnum (pos 3)))
    × ExactRatio (negsuc 16) (pos 3) (divide (enter_fixnum (negsuc 16)) (enter_fixnum (pos 3)))
quotient-remainder-divide_example =
    quotient-remainder-divide (negsuc 16) (pos 3) (omega arith) (omega arith) not_zero

comparisons-Compared_example : Compared (negsuc 2) (pos 4)
comparisons-Compared_example = comparisons-Compared (negsuc 2) (pos 4) (omega arith) (omega arith)

magnitude_instruction-four_times_example :
    (abs_ℤ (negsuc 4) < 2 ^ 27)
      × (magnitude_instruction (enter_fixnum (negsuc 4)) ≡ value (enter_fixnum (pos 20)))
    ⊎ ((2 ^ 27 ≤ abs_ℤ (negsuc 4))
        × (magnitude_instruction (enter_fixnum (negsuc 4))
            ≡ (if eqb_ℤ (negsuc 4) least_fixnum then value 0 else arithmetic_overflow)))
magnitude_instruction-four_times_example = magnitude_instruction-four_times (negsuc 4) (omega arith)

abbrev code : Memory
code = store (store (store (store blank 520 52) 600 503) 3504 1) 3508 4134

abbrev registers : Registers
registers = record {
  memory = code;
  stack = 3500;
  cont = 1;
  env = 17;
  val = 8;
  template = 603;
  code_pointer = 520;
  exception_template = 703;
}

arithmetic_shift-Shifted_example :
    Shifted (negsuc 4) (pos 3) (arithmetic_shift (enter_fixnum (negsuc 4)) (enter_fixnum (pos 3)))
arithmetic_shift-Shifted_example =
    arithmetic_shift-Shifted (negsuc 4) (pos 3) (omega arith) (omega arith)
