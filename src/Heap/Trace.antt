-- ===== src/Heap/Trace.antt =====
-- The tracing of objects in c/scheme48heap.c, after Cheney: what is copied is traced in its turn.
pub mod Sound
pub mod Area
pub mod Move
pub mod Extend
pub mod Clean
pub mod Ends
pub mod Loop
pub mod Parts
pub mod Rounds
use kali_scheme.Prelude.{
  ℕ, zero, suc, ◌+◌, ◌-◌, ◌*◌, ◌/◌, ◌%◌, ◌^◌, Bool, true, false, ◌&&◌, not, Option, none, some,
  List, [], ◌∷◌, ltb, leb, ◌==◌, if◌then◌else◌,
}
use kali_scheme.Heap.Memory.{Memory, load, store}
use kali_scheme.Heap.Space.{Space, round_up}
use kali_scheme.Heap.Copy.{
  Heap, is_stob, is_header, header_type, header_length, data_address, header_address, is_old,
  weak_pointer_header, weak_chunk_size, real_copy_object,
}

-- A loop that ends, `ps_error`, which leaves the program, or fuel that ran out.
pub data Run {ℓ} (A : Type ℓ) : Type ℓ where
  finished : A → Run A
  no_space : Run A
  stuck : Run A

infixl 5 ◌>>=◌
abbrev pub ◌>>=◌ {ℓ κ} : {A : Type ℓ} {B : Type κ} → Run A → (A → Run B) → Run B
finished a >>= f = f a
no_space >>= f = no_space
stuck >>= f = stuck

abbrev pub first_bytes_type : ℕ
first_bytes_type = 19

-- Whether a word is the header of an object that holds no descriptors.
abbrev pub has_bytes : ℕ → Bool
has_bytes d = is_header d && leb first_bytes_type (header_type d)

abbrev pub set_hp : ℕ → Heap → Heap
set_hp hp h = record h { space = record h.space { hp = hp } }

-- The descriptor at `addr` is traced: the frontier and the heap.
abbrev pub trace_slot : (addr frontier : ℕ) → Heap → ℕ × Heap
trace_slot addr frontier h =
    let thing = load h.memory addr in
    if is_old h.space thing
    then (let (new, frontier', h') = real_copy_object thing frontier h in
        (frontier', record h' { memory = store h'.memory addr new }))
    else (frontier, h)

-- The loop of `trace_locationsB`.
unfoldable pub trace : ℕ → (addr end frontier : ℕ) → Heap → Run Heap
unfolding real_copy_object
trace zero addr end frontier h = stuck
trace (suc k) addr end frontier h = elim (ltb addr end) [
  | false ↦ finished (set_hp frontier h)
  | true ↦ elim (has_bytes (load h.memory addr)) [
    | true ↦ trace k (addr + 4 + round_up (header_length (load h.memory addr))) end frontier h
    | false ↦ trace k (addr + 4) end (trace_slot addr frontier h).0 (trace_slot addr frontier h).1
  ]
]

-- Fuel for a round for each word.
unfoldable pub trace_locations : (start end : ℕ) → Heap → Run Heap
unfolding trace
trace_locations start end h = trace (suc (end - start)) start end h.space.hp h

unfoldable pub trace_stob_contents : ℕ → Heap → Run Heap
unfolding trace_locations
trace_stob_contents stob h =
    let start = data_address stob in
    trace_locations start (start + round_up (header_length (load h.memory (header_address stob)))) h

-- The rounds of tracing from `start` to the heap pointer, until none copies anything.
unfoldable pub trace_new : ℕ → (start : ℕ) → Heap → Run Heap
unfolding trace_locations
trace_new zero start h = stuck
trace_new (suc k) start h = trace_locations start h.space.hp h >>= λ h'.
    if ltb h'.space.hp h'.space.limit
    then (elim (ltb h.space.hp h'.space.hp) [
      | true ↦ trace_new k h.space.hp h'
      | false ↦ finished h'
    ])
    else no_space

abbrev pub scheme_false : ℕ
scheme_false = 1

-- What a weak pointer to an old object becomes: the copy, if there is one.
abbrev pub weak_value : Heap → ℕ → ℕ
weak_value h value =
    if is_old h.space value
    then (let hd = load h.memory (header_address value) in if is_stob hd then hd else scheme_false)
    else value

abbrev pub clean_weak : ℕ → Heap → Heap
clean_weak scan h =
    let m = store h.memory scan weak_pointer_header in
    let h' = record h { memory = m } in
    if is_old h.space (load m (scan + 4))
    then record h { memory = store m (scan + 4) (weak_value h' (load m (scan + 4))) }
    else h'

-- The weak pointers of a chunk, from `scan` to its end.
unfoldable pub clean_chunk : ℕ → (scan end : ℕ) → Heap → Run Heap
clean_chunk zero scan end h = stuck
clean_chunk (suc k) scan end h = elim (ltb scan end) [
  | true ↦ clean_chunk k (scan + 8) end (clean_weak scan h)
  | false ↦ finished h
]

-- The header of a byte vector over what is left of the newest chunk, which was filled up to `hp`.
abbrev pub close_chunk : ℕ → Heap → Heap
close_chunk hp h =
    let limit = h.space.weak_pointer_limit in
    if ltb hp limit
    then record h { memory = store h.memory hp (82 + (limit - (hp + 4)) / 4 * 4 * 2 ^ 8) }
    else h

-- The chunks, from the newest on.
unfoldable pub clean_chunks : ℕ → (hp start end : ℕ) → Heap → Run Heap
unfolding clean_chunk
clean_chunks zero hp start end h = stuck
clean_chunks (suc k) hp start end h =
    let next = load h.memory (start + 8) in
    clean_chunk (suc weak_chunk_size) start end h >>= λ h'. (elim (next == 0) [
      | true ↦ finished (close_chunk hp h')
      | false ↦ clean_chunks k hp (next - weak_chunk_size) next h'
    ])

unfoldable pub clean_weak_pointers : ℕ → Heap → Run Heap
unfolding clean_chunks
clean_weak_pointers k h = elim h.space.weak_pointer_hp [
  | none ↦ finished h
  | some hp ↦ clean_chunks k hp (h.space.weak_pointer_limit - weak_chunk_size) hp h
]
