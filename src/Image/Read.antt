-- ===== src/Image/Read.antt =====
-- `read_image` of c/scheme48heap.c: the cells of an image are read into the heap, and, as needed,
-- the order of their bytes is corrected and their addresses are moved. `none` is fuel that ran out,
-- or a count of cells that is negative. An address has 32 bits.
pub mod Relocate
pub mod Order
use kali_scheme.Prelude.{
  ℕ, zero, suc, ◌+◌, ◌-◌, ◌%◌, ◌^◌, true, false, Option, none, some, List, ltb, ◌==◌, if◌then◌else◌,
  ◌>>=◌,
}
use kali_scheme.Prelude.Int.{ℤ, pos, negsuc, minus_one, eqb_ℤ}
use kali_scheme.Io.Reader.{Reading}
use kali_scheme.Io.Block.{ps_read_block}
use kali_scheme.Heap.Memory.{Memory, load, store, area, put_area}
use kali_scheme.Heap.Space.{round_up}
use kali_scheme.Heap.Copy.{Heap, is_stob, header_length}
use kali_scheme.Heap.Trace.{has_bytes, set_hp}
use kali_scheme.Image.Header.{Image, Message, premature_eof, read_error, few_bytes, as_long, refuse}

-- The exchange of the bytes of a word.
unfoldable pub swap_word : ℕ → Memory → Memory
swap_word a m x =
    if x == a
    then m (a + 3)
    else (if x == a + 1
        then m (a + 2)
        else (if x == a + 2 then m (a + 1) else (if x == a + 3 then m a else m x)))

-- The word behind `ptr` that is not inside of an object without descriptors, whose header is `d`.
abbrev pub next_word : (ptr d : ℕ) → ℕ
next_word ptr d = if has_bytes d then ptr + 4 + round_up (header_length d) else ptr + 4

unfoldable pub correct_order : ℕ → (ptr end : ℕ) → Memory → Option Memory
unfolding swap_word
correct_order zero ptr end m = none
correct_order (suc k) ptr end m = elim (ltb ptr end) [
  | false ↦ some m
  | true ↦ let m' = swap_word ptr m in correct_order k (next_word ptr (load m' ptr)) end m'
]

-- A descriptor in an image that is moved by `delta`, which is taken as its bit pattern.
abbrev pub moved_by : (delta d : ℕ) → ℕ
moved_by delta d = if is_stob d then (3 + (d - 3 + delta)) % 2 ^ 32 else d

unfoldable pub relocate : ℕ → (delta ptr end : ℕ) → Memory → Option Memory
relocate zero delta ptr end m = none
relocate (suc k) delta ptr end m = elim (ltb ptr end) [
  | false ↦ some m
  | true ↦
      let d = moved_by delta (load m ptr) in relocate k delta (next_word ptr d) end (store m ptr d)
]

-- The bit pattern of a number.
abbrev pub long_bits : ℤ → ℕ
long_bits (pos n) = n % 2 ^ 32
long_bits (negsuc n) = 2 ^ 32 - 1 - n % 2 ^ 32

-- The heap and the image.
pub record Loading : Type 0 where
  pub heap : Heap
  pub image : Image

-- A result, what is written on stderr, and the state.
abbrev pub Loaded : Type 0
Loaded = ℤ × List Message × Loading

-- What is wrong with a read of `need` bytes.
abbrev pub read_fault : ℕ → Reading ℕ → Option Message
read_fault need r =
    if eqb_ℤ r.status (pos 0)
    then (if r.eofp
        then some premature_eof
        else (if ltb r.value need then some few_bytes else none))
    else some read_error

-- A read of `need` bytes to the heap pointer.
unfoldable pub read_cells : ℕ → ℤ → ℕ → Loading → Option (Option Message × Loading)
unfolding area put_area
read_cells fuel eintr need l =
    elim (ps_read_block fuel eintr need (area l.heap.memory l.heap.space.hp need) l.image.port) [
      | none ↦ none
      | some (r, buffer, port) ↦ some (
        read_fault need r,
        record {
          heap = record l.heap { memory = put_area buffer l.heap.space.hp l.heap.memory };
          image = record l.image {
            port = port;
            status = if eqb_ℤ r.status (pos 0) then l.image.status else r.status;
          };
        },
      )
    ]

abbrev pub give_up : Message → Option ℤ → Loading → Loaded
give_up message fclosed l = (minus_one, refuse message fclosed l.image, l)

-- The end, for an image moved by `delta` that ends at `new_hp`.
unfoldable pub install : ℕ → List Message → (delta new_hp : ℕ) → Loading → Option Loaded
unfolding relocate
install fuel messages delta new_hp l = do
  m ←
      (if 0 == delta
        then some l.heap.memory
        else relocate fuel delta l.heap.space.hp new_hp l.heap.memory)
  some (
    as_long (moved_by delta (long_bits l.image.startup_proc)),
    messages,
    record l { heap = set_hp new_hp (record l.heap { memory = m }) },
  )
