-- ===== src/Start/Tests.antt =====
-- Examples for the model of c/main.c.
use kali_scheme.Prelude.{◌≡◌, ◌+◌, ◌/◌, refl, true, none, some, List, [], ◌∷◌}
use kali_scheme.Prelude.Int.{ℤ, pos}
use kali_scheme.Start.{Text, Settings, flag, parse, Runtime, main}
use kali_scheme.Start.Arguments.{heap_of, image_of, render, Started, parse-render, main-Started}

abbrev defaults : Settings
defaults = record {
  image_name = none;
  heap_size = pos 1500000;
  stack_size = pos 2500;
  object_file = none;
  vm_args = [];
  errors = 0;
}

-- A number of one digit.
abbrev digit : Text → ℤ
digit [] = pos 0
digit (c ∷ text) = pos 9

abbrev runtime : Runtime
runtime = record {
  atoi = digit;
  check_image_header = λ name. pos 40;
  required_init_space = λ args. pos 5;
  malloc_heap = λ n. true;
  malloc_stack = λ n. true;
  read_image = pos 3;
  call_startup_procedure = λ p args. pos 0;
}

-- "-h 9 -i m -a x".
abbrev command : List Text
command =
    render (heap_of (b'9' ∷ []) ∷ image_of (b'm' ∷ []) ∷ []) ((b'-' ∷ b'a' ∷ []) ∷ (b'x' ∷ []) ∷ [])

abbrev chosen : Settings
chosen = record defaults {
  heap_size = pos 9;
  image_name = some (b'm' ∷ []);
  vm_args = (b'x' ∷ []) ∷ [];
}

parse-render_example : parse digit command defaults ≡ chosen
parse-render_example =
    parse-render digit (heap_of (b'9' ∷ []) ∷ image_of (b'm' ∷ []) ∷ []) ((b'x' ∷ []) ∷ []) defaults
      (refl, tt)

main-Started_example : Started runtime chosen (40 / 4 + 5) (main runtime defaults command)
unfolding parse flag
main-Started_example =
    main-Started runtime defaults chosen command (b'm' ∷ []) 40 5 3 refl refl refl refl refl refl
      refl refl
