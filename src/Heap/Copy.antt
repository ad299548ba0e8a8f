-- ===== src/Heap/Copy.antt =====
-- The copying of one object in c/scheme48heap.c. A descriptor is the bit pattern of a `long`: its
-- two lowest bits are 3 for a pointer to an object and 2 for a header.
pub mod Object
use kali_scheme.Prelude.{
  ℕ, ◌+◌, ◌-◌, ◌*◌, ◌/◌, ◌%◌, ◌^◌, Bool, true, false, ◌&&◌, Option, none, some, ltb, leb, ◌==◌,
  if◌then◌else◌,
}
use kali_scheme.Heap.Memory.{Memory, load, store, memcpy}
use kali_scheme.Heap.Space.{Space, round_up}

pub record Heap : Type 0 where
  pub space : Space
  pub memory : Memory

abbrev pub is_stob : ℕ → Bool
is_stob d = 3 == d % 4

abbrev pub is_header : ℕ → Bool
is_header d = 2 == d % 4

-- `31 & (header >> 2)`.
abbrev pub header_type : ℕ → ℕ
header_type h = h / 4 % 32

-- The length in bytes, `(unsigned long) header >> 8`.
abbrev pub header_length : ℕ → ℕ
header_length h = h / 2 ^ 8

-- Where an object's data starts, behind its header.
abbrev pub data_address : ℕ → ℕ
data_address thing = thing - 3

abbrev pub header_address : ℕ → ℕ
header_address thing = thing - 7

abbrev pub in_oldspace : Space → ℕ → Bool
in_oldspace s a = leb s.oldspace_begin a && ltb a s.oldspace_end

abbrev pub is_old : Space → ℕ → Bool
is_old s d = is_stob d && in_oldspace s (data_address d)

abbrev pub weak_pointer_header : ℕ
weak_pointer_header = 1074

-- The header of a byte vector over the rest of a chunk of weak pointers.
abbrev pub weak_chunk_header : ℕ
weak_chunk_header = 261202

abbrev pub weak_chunk_size : ℕ
weak_chunk_size = 1024

-- NULL is 0.
abbrev pub address_of : Option ℕ → ℕ
address_of none = 0
address_of (some a) = a

-- A new chunk of weak pointers at the frontier, which links to the one before it.
abbrev pub new_weak_chunk : ℕ → Heap → Heap
new_weak_chunk frontier h =
    let old = address_of h.space.weak_pointer_hp in
    record {
      space = record h.space {
        weak_pointer_hp = some frontier;
        weak_pointer_limit = frontier + weak_chunk_size;
      };
      memory = store (store h.memory frontier weak_chunk_header) (frontier + 8) old;
    }

-- The end of `copy_weak_pointer`, for a chunk with room at `hp`: the new object and the heap.
abbrev pub put_weak_pointer : (weak hp : ℕ) → Heap → ℕ × Heap
put_weak_pointer weak hp h =
    let new = 3 + (hp + 4) in
    let m = store h.memory (hp + 4) (load h.memory (data_address weak)) in
    (
      new,
      record {
        space = record h.space { weak_pointer_hp = some (hp + 8) };
        memory = store m (header_address weak) new;
      },
    )

abbrev pub has_weak_room : Space → Bool
has_weak_room s = elim s.weak_pointer_hp [ none ↦ false | some hp ↦ ltb hp s.weak_pointer_limit ]

-- The results of a copy: the new object, the frontier and the heap.
unfoldable pub copy_weak_pointer : (weak frontier : ℕ) → Heap → ℕ × ℕ × Heap
copy_weak_pointer weak frontier h =
    if has_weak_room h.space
    then (let (new, h') = put_weak_pointer weak (address_of h.space.weak_pointer_hp) h in
        (new, frontier, h'))
    else (let (new, h') = put_weak_pointer weak frontier (new_weak_chunk frontier h) in
        (new, frontier + weak_chunk_size, h'))

-- The copy of an object that has the header `hd`.
unfoldable pub move_object : (thing hd frontier : ℕ) → Heap → ℕ × ℕ × Heap
move_object thing hd frontier h =
    let body = frontier + 4 in
    let new = 3 + body in
    let m = store (store h.memory frontier hd) (header_address thing) new in
    (
      new,
      body + round_up (header_length hd),
      record h { memory = memcpy m body (data_address thing) (header_length hd) },
    )

unfoldable pub real_copy_object : (thing frontier : ℕ) → Heap → ℕ × ℕ × Heap
unfolding copy_weak_pointer move_object
real_copy_object thing frontier h =
    let hd = load h.memory (header_address thing) in
    if is_stob hd
    then (hd, frontier, h)
    else (if (weak_pointer_header == hd) && is_old h.space (load h.memory (data_address thing))
        then copy_weak_pointer thing frontier h
        else move_object thing hd frontier h)

-- `trace_value`: what the descriptor becomes.
unfoldable pub trace_value : ℕ → Heap → ℕ × Heap
unfolding real_copy_object
trace_value thing h =
    if is_old h.space thing
    then (let (new, hp, h') = real_copy_object thing h.space.hp h in
        (new, record h' { space = record h'.space { hp = hp } }))
    else (thing, h)
