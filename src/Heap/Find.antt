-- ===== src/Heap/Find.antt =====
-- The search for objects in c/scheme48heap.c: `find_all` and `find_all_records` collect them in a
-- vector at the heap pointer.
pub mod Found
pub mod Vector
use kali_scheme.Prelude.{
  ℕ, zero, suc, ◌+◌, ◌-◌, ◌*◌, ◌^◌, Bool, true, false, ◌&&◌, List, [], ◌∷◌, ltb, ◌==◌,
}
use kali_scheme.Heap.Memory.{Memory, load, store}
use kali_scheme.Heap.Space.{round_up}
use kali_scheme.Heap.Copy.{Heap, is_header, header_type, header_length}
use kali_scheme.Heap.Trace.{Run, finished, stuck, ◌>>=◌, set_hp}

-- Whether the object whose header is at an address is looked for.
abbrev pub Wanted : Type 0
Wanted = Memory → ℕ → Bool

-- A word at the heap pointer.
abbrev pub push : ℕ → Heap → Heap
push d h = set_hp (h.space.hp + 4) (record h { memory = store h.memory h.space.hp d })

-- The objects from `addr` to `end`, and whether there was room for all.
unfoldable pub find_in : ℕ → Wanted → (addr end : ℕ) → Heap → Run (Bool × Heap)
find_in zero wanted addr end h = stuck
find_in (suc k) wanted addr end h = elim (ltb addr end) [
  | false ↦ finished (true, h)
  | true ↦
      let d = load h.memory addr in
      let next = addr + (4 + round_up (header_length d)) in
      elim (is_header d) [
        | false ↦ finished (false, h)
        | true ↦ elim (wanted h.memory addr) [
          | false ↦ find_in k wanted next end h
          | true ↦ elim (ltb (h.space.hp + 16) h.space.limit) [
            | false ↦ finished (false, h)
            | true ↦ find_in k wanted next end (push (3 + (addr + 4)) h)
          ]
        ]
      ]
]

-- Areas, each with its start and its size, until one has no room.
unfoldable pub find_areas : ℕ → Wanted → List (ℕ × ℕ) → Heap → Run (Bool × Heap)
unfolding find_in
find_areas fuel wanted [] h = finished (true, h)
find_areas fuel wanted ((start, size) ∷ areas) h =
    find_in fuel wanted start (start + size) h >>= λ found. (elim found.0 [
      | false ↦ finished (false, found.1)
      | true ↦ find_areas fuel wanted areas found.1
    ])

-- The vector's descriptor, or #f where there was no room.
unfoldable pub find_objects : ℕ → Wanted → (impure pure : List (ℕ × ℕ)) → Heap → Run (ℕ × Heap)
unfolding find_in find_areas
find_objects fuel wanted impure pure h =
    let start = h.space.hp in
    let collected : Run (Bool × Heap) =
      find_in fuel wanted h.space.newspace_begin start (push 0 h) >>= λ found. (elim found.0 [
        | false ↦ finished (false, found.1)
        | true ↦ find_areas fuel wanted impure found.1 >>= λ found'. (elim found'.0 [
          | false ↦ finished (false, found'.1)
          | true ↦ find_areas fuel wanted pure found'.1
        ])
      ]) in
    collected >>= λ found.
    let h' = found.1 in
    (elim found.0 [
      | false ↦ finished (1, set_hp start h')
      | true ↦ finished (
        3 + (start + 4),
        record h' { memory = store h'.memory start (10 + (h'.space.hp - (start + 4)) * 2 ^ 8) },
      )
    ])

unfoldable pub find_all : ℕ → (kind : ℕ) → (impure pure : List (ℕ × ℕ)) → Heap → Run (ℕ × Heap)
unfolding find_objects
find_all fuel kind = find_objects fuel (λ m addr. kind == header_type (load m addr))

abbrev pub record_kind : ℕ
record_kind = 8

-- The records whose first field is the record type.
unfoldable pub find_all_records :
    ℕ → (record_type : ℕ) → (impure pure : List (ℕ × ℕ)) → Heap → Run (ℕ × Heap)
unfolding find_objects
find_all_records fuel record_type =
    find_objects fuel
      (λ m addr. (record_kind == header_type (load m addr)) && (record_type == load m (addr + 4)))
