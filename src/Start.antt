-- ===== src/Start.antt =====
-- c/main.c: the arguments of the program, and its start. The messages are left out, and so are
-- static areas, which a macro turns on.
pub mod Arguments
mod Tests
use kali_scheme.Prelude.{
  ℕ, zero, suc, ◌+◌, ◌*◌, ◌/◌, Bool, true, false, Option, none, some, List, [], ◌∷◌, ◌==◌,
  if◌then◌else◌,
}
use kali_scheme.Prelude.Int.{ℤ, pos, negsuc, minus_one, ◌+ℤ◌, ◌*ℤ◌, ltb_ℤ, leb_ℤ, eqb_ℤ}

abbrev pub Text : Type 0
Text = List ℕ

-- The variables of `main` that the arguments set; `vm_args` are the first `vm_argc` that are left.
pub record Settings : Type 0 where
  pub image_name : Option Text
  pub heap_size : ℤ
  pub stack_size : ℤ
  pub object_file : Option Text
  pub vm_args : List Text
  pub errors : ℕ

-- What the `switch` tells apart; `blank` is the empty argument.
pub data Flag : Type 0 where
  heap stack image object rest invalid blank : Flag

abbrev pub flag_of : ℕ → Flag
flag_of c =
    if c == b'h'
    then heap
    else (if c == b's'
        then stack
        else (if c == b'i'
            then image
            else (if c == b'a' then rest else (if c == b'o' then object else invalid))))

unfoldable pub flag : Text → Flag
flag [] = blank
flag (c ∷ []) = invalid
flag (c ∷ d ∷ text) = if c == b'-' then flag_of d else invalid

abbrev pub add_error : Settings → Settings
add_error s = record s { errors = s.errors + 1 }

abbrev pub count_error : Bool → ℕ → ℕ
count_error wrong n = if wrong then n + 1 else n

abbrev pub set_heap : ℤ → Settings → Settings
set_heap n s = record s { heap_size = n; errors = count_error (leb_ℤ n (pos 0)) s.errors }

abbrev pub set_stack : ℤ → Settings → Settings
set_stack n s = record s { stack_size = n; errors = count_error (leb_ℤ n (pos 0)) s.errors }

-- The `for` loop over the arguments. An option at the end lacks its value.
unfoldable pub parse : (atoi : Text → ℤ) → List Text → Settings → Settings
parse atoi [] s = s
parse atoi (arg ∷ []) s = elim (flag arg) [
  | heap ↦ add_error s
  | stack ↦ add_error s
  | image ↦ add_error s
  | object ↦ add_error s
  | rest ↦ record s { vm_args = [] }
  | invalid ↦ add_error s
  | blank ↦ s
]
parse atoi (arg ∷ value ∷ args) s = elim (flag arg) [
  | heap ↦ parse atoi args (set_heap (atoi value) s)
  | stack ↦ parse atoi args (set_stack (atoi value) s)
  | image ↦ parse atoi args (record s { image_name = some value })
  | object ↦ parse atoi args (record s { object_file = some value })
  | rest ↦ record s { vm_args = value ∷ args }
  | invalid ↦ parse atoi (value ∷ args) (add_error s)
  | blank ↦ parse atoi (value ∷ args) s
]

-- `>> 2` of a `long`.
abbrev pub shift_2 : ℤ → ℤ
shift_2 (pos n) = pos (n / 4)
shift_2 (negsuc n) = negsuc (n / 4)

-- The ends of `main`: status 1 with a message, or the size of the heap that was used and the value
-- of the startup procedure.
pub data Exit : Type 0 where
  usage unusable_image out_of_memory : Exit
  returned : (heap_size value : ℤ) → Exit

-- What `main` calls. `malloc` of the heap or the stack is told its size in cells.
pub record Runtime : Type 0 where
  pub atoi : Text → ℤ
  pub check_image_header : Text → ℤ
  pub required_init_space : List Text → ℤ
  pub malloc_heap : ℤ → Bool
  pub malloc_stack : ℤ → Bool
  pub read_image : ℤ
  pub call_startup_procedure : ℤ → List Text → ℤ

abbrev pub enough_heap : ℤ → ℤ → ℤ
enough_heap heap_size required =
    if ltb_ℤ heap_size (required *ℤ 4) then required *ℤ 4 else heap_size

unfoldable pub run_image : Runtime → Settings → ℤ → Exit
run_image h s heap_size =
    if h.malloc_heap heap_size
    then (if h.malloc_stack s.stack_size
        then (if eqb_ℤ h.read_image minus_one
            then unusable_image
            else returned heap_size (h.call_startup_procedure h.read_image s.vm_args))
        else out_of_memory)
    else out_of_memory

unfoldable pub start_up : Runtime → Settings → ℤ → Exit
unfolding run_image
start_up h s required =
    run_image h s (enough_heap s.heap_size (required +ℤ h.required_init_space s.vm_args))

-- The required size for the image.
unfoldable pub load : Runtime → Settings → Exit
unfolding start_up
load h s = elim s.image_name [
  | none ↦ start_up h s (pos 0)
  | some name ↦
      if eqb_ℤ (shift_2 (h.check_image_header name)) minus_one
      then unusable_image
      else start_up h s (shift_2 (h.check_image_header name))
]

-- The arguments behind the program's name, and the settings that `main` starts with.
unfoldable pub main : Runtime → Settings → List Text → Exit
unfolding parse load
main h defaults args =
    let s = parse h.atoi args defaults in if s.errors == 0 then load h s else usage
