-- ===== src/Start/Arguments.antt =====
-- What the arguments of c/main.c do.
use kali_scheme.Prelude.{
  ap, sym, subst, ◌∙◌, ℕ, ◌+◌, ◌*◌, ◌/◌, ◌≡◌, refl, true, false, some, List, [], ◌∷◌, arith, ◌==◌,
  if◌then◌else◌,
}
use kali_scheme.Prelude.Int.{ℤ, pos, minus_one, ◌+ℤ◌, ◌≤ℤ◌, leb_ℤ, eqb_ℤ}
use kali_scheme.Start.{
  Text, Settings, flag, parse, enough_heap, Exit, returned, Runtime, run_image, start_up, load,
  main,
}

-- The options that take a value, with the value.
pub data Setting : Type 0 where
  heap_of stack_of image_of object_of : Text → Setting

-- The two arguments of a setting.
abbrev pub render : List Setting → List Text → List Text
render [] more = more
render (heap_of v ∷ settings) more = (b'-' ∷ b'h' ∷ []) ∷ v ∷ render settings more
render (stack_of v ∷ settings) more = (b'-' ∷ b's' ∷ []) ∷ v ∷ render settings more
render (image_of v ∷ settings) more = (b'-' ∷ b'i' ∷ []) ∷ v ∷ render settings more
render (object_of v ∷ settings) more = (b'-' ∷ b'o' ∷ []) ∷ v ∷ render settings more

-- What the settings mean: each replaces what an earlier one of its kind said.
abbrev pub apply : (atoi : Text → ℤ) → List Setting → Settings → Settings
apply atoi [] s = s
apply atoi (heap_of v ∷ settings) s = apply atoi settings (record s { heap_size = atoi v })
apply atoi (stack_of v ∷ settings) s = apply atoi settings (record s { stack_size = atoi v })
apply atoi (image_of v ∷ settings) s = apply atoi settings (record s { image_name = some v })
apply atoi (object_of v ∷ settings) s = apply atoi settings (record s { object_file = some v })

-- The sizes of the heap and of the stack are above 0.
abbrev pub Sizes : (atoi : Text → ℤ) → List Setting → Type 0
Sizes atoi [] = Unit {0}
Sizes atoi (heap_of v ∷ settings) = (leb_ℤ (atoi v) (pos 0) ≡ false) × Sizes atoi settings
Sizes atoi (stack_of v ∷ settings) = (leb_ℤ (atoi v) (pos 0) ≡ false) × Sizes atoi settings
Sizes atoi (image_of v ∷ settings) = Sizes atoi settings
Sizes atoi (object_of v ∷ settings) = Sizes atoi settings

-- Settings whose sizes are above 0, written as options and followed by `-a` and any arguments,
-- are parsed to just these settings, with no error and with all arguments behind `-a` left for the
-- virtual machine.
pub parse-render :
    (atoi : Text → ℤ) (settings : List Setting) (more : List Text) (s : Settings)
    → Sizes atoi settings
    → parse atoi (render settings ((b'-' ∷ b'a' ∷ []) ∷ more)) s
      ≡ record (apply atoi settings s) { vm_args = more }
unfolding parse flag
parse-render atoi [] [] s ok = refl
parse-render atoi [] (x ∷ more) s ok = refl
parse-render atoi (heap_of v ∷ settings) more s ok =
    rw ok.0 (parse-render atoi settings more (record s { heap_size = atoi v }) ok.1)
parse-render atoi (stack_of v ∷ settings) more s ok =
    rw ok.0 (parse-render atoi settings more (record s { stack_size = atoi v }) ok.1)
parse-render atoi (image_of v ∷ settings) more s ok =
    parse-render atoi settings more (record s { image_name = some v }) ok
parse-render atoi (object_of v ∷ settings) more s ok =
    parse-render atoi settings more (record s { object_file = some v }) ok

-- What a start with `required` cells for the image and the arguments comes to.
pub record Started (h : Runtime) (s : Settings) (required : ℕ) (r : Exit) : Type 0 where
  pub size : ℤ
  pub run : r ≡ returned size (h.call_startup_procedure h.read_image s.vm_args)
  pub asked : s.heap_size ≤ℤ size
  pub enough : pos (required * 4) ≤ℤ size

enough_heap-asked : (a : ℤ) (n : ℕ) → a ≤ℤ enough_heap a (pos n)
enough_heap-asked a n = ground arith

enough_heap-enough : (a : ℤ) (n : ℕ) → pos (n * 4) ≤ℤ enough_heap a (pos n)
enough_heap-enough a n = ground arith

pos-add : (m n : ℕ) → pos m +ℤ pos n ≡ pos (m + n)
pos-add m n = ground arith

pos-ne : (p : ℕ) → eqb_ℤ (pos p) minus_one ≡ false
pos-ne p = ground arith

module _ (h : Runtime) (s : Settings) where
  start_up-Started :
      (image_cells arg_cells p : ℕ)
      → h.required_init_space s.vm_args ≡ pos arg_cells
      → h.malloc_heap (enough_heap s.heap_size (pos (image_cells + arg_cells))) ≡ true
      → h.malloc_stack s.stack_size ≡ true
      → h.read_image ≡ pos p
      → Started h s (image_cells + arg_cells) (start_up h s (pos image_cells))
  unfolding start_up run_image
  start_up-Started image_cells arg_cells p space mh ms ri = record {
    size = enough_heap s.heap_size (pos (image_cells + arg_cells));
    run = rw (space, pos-add image_cells arg_cells, mh, ms, ri, pos-ne p);
    asked = enough_heap-asked s.heap_size (image_cells + arg_cells);
    enough = enough_heap-enough s.heap_size (image_cells + arg_cells);
  }

if-zero : (n : ℕ) (a b : Exit) → n ≡ 0 → (if n == 0 then a else b) ≡ a
if-zero n a b e = rw e

main-load :
    (h : Runtime) (defaults s : Settings) (args : List Text)
    → parse h.atoi args defaults ≡ s
    → s.errors ≡ 0
    → main h defaults args ≡ load h s
unfolding main
main-load h defaults s args parsed good =
    if-zero (parse h.atoi args defaults).errors _ _ (ap (λ x. x.errors) parsed ∙ good)
    ∙ ap (load h) parsed

load-image :
    (h : Runtime) (s : Settings) (name : Text) (bytes : ℕ)
    → s.image_name ≡ some name
    → h.check_image_header name ≡ pos bytes
    → load h s ≡ start_up h s (pos (bytes / 4))
unfolding load
load-image h s name bytes named header = rw (named, load, header, pos-ne (bytes / 4))

-- When the arguments are parsed without an error and name an image whose header asks for a number
-- of bytes, the memory is there and the image is read, `main` starts the image with the arguments
-- for the virtual machine, on a heap that is no smaller than was asked for, and has four cells for
-- each cell that the image and the arguments require.
pub main-Started :
    (h : Runtime) (defaults s : Settings) (args : List Text) (name : Text) (bytes arg_cells p : ℕ)
    → parse h.atoi args defaults ≡ s
    → s.errors ≡ 0
    → s.image_name ≡ some name
    → h.check_image_header name ≡ pos bytes
    → h.required_init_space s.vm_args ≡ pos arg_cells
    → h.malloc_heap (enough_heap s.heap_size (pos (bytes / 4 + arg_cells))) ≡ true
    → h.malloc_stack s.stack_size ≡ true
    → h.read_image ≡ pos p
    → Started h s (bytes / 4 + arg_cells) (main h defaults args)
main-Started h defaults s args name bytes arg_cells p parsed good named header space mh ms ri =
    subst (Started h s (bytes / 4 + arg_cells))
      (sym (main-load h defaults s args parsed good ∙ load-image h s name bytes named header))
      (start_up-Started h s (bytes / 4) arg_cells p space mh ms ri)
