-- ===== src/Image/Load.antt =====
-- The body of `read_image` of c/scheme48heap.c. `fclosed` is what `fclose` gives; where closing
-- fails, the source closes again, and `again` is what that gives.
use kali_scheme.Prelude.{
  ℕ, ◌+◌, ◌-◌, ◌%◌, ◌^◌, ◌⊎◌, inl, inr, Bool, true, false, Option, none, some, [], ◌∷◌, ltb, ◌==◌,
  if◌then◌else◌, ◌>>=◌,
}
use kali_scheme.Prelude.Int.{ℤ, pos, eqb_ℤ}
use kali_scheme.Io.Open.{ps_close}
use kali_scheme.Heap.Memory.{load}
use kali_scheme.Image.Header.{
  read_error, close_error, bad_byte_order, heap_small, extraneous_data, correcting_order, get_char,
}
use kali_scheme.Image.Read.{swap_word, correct_order, Loading, Loaded, read_cells, give_up, install}

-- The first word of the image: whether its bytes are in the other order.
unfoldable pub load_order : ℕ → ℤ → Option ℤ → Loading → Option (Loaded ⊎ (Bool × Loading))
unfolding read_cells swap_word
load_order fuel eintr fclosed l = read_cells fuel eintr 4 l >>= λ read.
    let (fault, l) = read in
    let hp = l.heap.space.hp in
    let swapped = swap_word hp l.heap.memory in
    let l' = record l { heap = record l.heap { memory = swapped } } in
    elim fault [
      | some message ↦ some (inl (give_up message fclosed l))
      | none ↦ some (
          if load l.heap.memory hp == 1
          then inr (false, l)
          else (if load swapped hp == 1
              then inr (true, l')
              else inl (give_up bad_byte_order fclosed l')))
    ]

-- The order of the bytes is corrected, if `reverse`, up to `new_hp`, and the image is installed.
unfoldable pub arrange : ℕ → (reverse : Bool) → (delta new_hp : ℕ) → Loading → Option Loaded
unfolding correct_order install
arrange fuel reverse delta new_hp l =
    if reverse
    then (do
      m ← correct_order fuel l.heap.space.hp new_hp l.heap.memory
      install fuel (correcting_order ∷ []) delta new_hp
          (record l { heap = record l.heap { memory = m } }))
    else install fuel [] delta new_hp l

-- The image must end behind its cells.
unfoldable pub finish_load :
    ℕ
    → ℤ
    → (fclosed again : Option ℤ) → (reverse : Bool) → (delta new_hp : ℕ) → Loading
    → Option Loaded
unfolding arrange
finish_load fuel eintr fclosed again reverse delta new_hp l =
    get_char fuel eintr l.image.port >>= λ read.
    let (r, port) = read in
    let l = record l { image = record l.image { port = port } } in
    if eqb_ℤ r.status (pos 0)
    then (if r.eofp
        then (if eqb_ℤ (ps_close fclosed) (pos 0)
            then arrange fuel reverse delta new_hp l
            else some (give_up close_error again l))
        else some (give_up extraneous_data fclosed l))
    else some (give_up read_error fclosed l)

-- The character behind the cells is also read when the cells could not be.
unfoldable pub load_cells :
    ℕ
    → ℤ
    → (fclosed again : Option ℤ) → (startup_space : ℕ) → (reverse : Bool) → Loading
    → Option Loaded
unfolding read_cells finish_load
load_cells fuel eintr fclosed again startup_space reverse l =
    let old_begin = l.image.old_begin in
    let old_hp = l.image.old_hp in
    let delta = (l.heap.space.hp + (2 ^ 32 - old_begin)) % 2 ^ 32 in
    let new_hp = (old_hp + delta) % 2 ^ 32 in
    if ltb (new_hp + startup_space) l.heap.space.newspace_end
    then (if ltb old_hp old_begin then none else (do
      (fault, l) ← read_cells fuel eintr (old_hp - old_begin) l
      elim fault [
        | none ↦ finish_load fuel eintr fclosed again reverse delta new_hp l
        | some message ↦ elim (get_char fuel eintr l.image.port) [
          | none ↦ none
          | some (r, port) ↦
              some (give_up message fclosed (record l { image = record l.image { port = port } }))
        ]
      ]))
    else some (give_up heap_small fclosed l)

unfoldable pub read_image :
    ℕ → ℤ → (fclosed again : Option ℤ) → (startup_space : ℕ) → Loading → Option Loaded
unfolding load_order load_cells
read_image fuel eintr fclosed again startup_space l = load_order fuel eintr fclosed l >>= λ step.
    elim step [
      | inl refused ↦ some refused
      | inr (reverse, l') ↦ load_cells fuel eintr fclosed again startup_space reverse l'
    ]
