-- ===== src/Heap/Bounds.antt =====
-- Allocation in c/scheme48heap.c stays in the semispace.
use kali_scheme.Prelude.{
  ℕ, ◌+◌, ◌-◌, ◌*◌, ◌/◌, ◌≤◌, ◌<◌, ◌≡◌, refl, ◌⊎◌, inl, inr, true, Option, arith,
}
use kali_scheme.Heap.Space.{
  Space, heap_size, initialize_heap, is_available, available, allocate_space, begin_collection,
  end_collection, register_static_areas, set_heap_pointer,
}
use kali_scheme.Image.Write.{flip_back}

-- The semispaces have one size, a whole number of cells, and do not overlap; the allocated part of
-- the new one ends at the heap pointer, and its free part consists of whole cells.
pub record IsSpace (s : Space) : Type 0 where
  pub half : ℕ
  pub new_size : s.newspace_end ≡ s.newspace_begin + half * 4
  pub old_size : s.oldspace_end ≡ s.oldspace_begin + half * 4
  pub apart : (s.newspace_end ≤ s.oldspace_begin) ⊎ (s.oldspace_end ≤ s.newspace_begin)
  pub above : s.newspace_begin ≤ s.hp
  pub free : ℕ
  pub cells : s.limit ≡ s.hp + free * 4
  pub at_end : s.limit ≡ s.newspace_end

-- The states that the operations lead to. An allocation is preceded by a successful test for
-- enough cells. The heap pointer is set to a whole number of cells from the limit, in the new space,
-- as by a collection that did not run out of space. `write_image` begins a collection, which moves the
-- heap pointer and the chunk of weak pointers anywhere, and flips the spaces back.
pub data Reaches : Space → Type 0 where
  started : (start size : ℕ) (s : Space) → Reaches (initialize_heap start size s)
  registered :
      (pure_count impure_count : ℕ) (s : Space)
      → Reaches s
      → Reaches (register_static_areas pure_count impure_count s)
  allocated :
      (cells len : ℕ) (s : Space)
      → Reaches s
      → is_available cells s ≡ true
      → len ≤ cells * 4
      → Reaches (allocate_space len s).1
  begun : (s : Space) → Reaches s → Reaches (begin_collection s)
  pointed :
      (free : ℕ) (s : Space)
      → Reaches s
      → s.newspace_begin + free * 4 ≤ s.limit
      → Reaches (set_heap_pointer (s.limit - free * 4) s)
  written :
      (hp : ℕ) (weak_hp : Option ℕ) (weak_limit : ℕ) (s : Space)
      → Reaches s
      → Reaches (
          flip_back (record (begin_collection s) {
            hp = hp;
            weak_pointer_hp = weak_hp;
            weak_pointer_limit = weak_limit;
          }))
  ended : (s : Space) → Reaches s → Reaches (end_collection s)

-- What an allocation of `len` bytes gives.
pub record Allocated (len : ℕ) (s : Space) (r : ℕ × Space) : Type 0 where
  pub valid : IsSpace r.1
  pub low : s.newspace_begin ≤ r.0
  pub high : r.0 + len ≤ s.newspace_end
  pub fresh : s.hp ≤ r.0
  pub used : r.0 + len ≤ r.1.hp
  pub left : available r.1 + (3 + len) / 4 ≡ available s

available-free : (s : Space) (v : IsSpace s) → available s ≡ v.free
unfolding available
available-free s v = omega (arith, v.cells)

-- In a valid heap, when `availableP` of a number of cells is true, the allocation of at most as
-- many cells of bytes lies in the new semispace, behind all that was allocated before and below
-- the heap pointer after it, takes the bytes rounded up to cells from what is available, and
-- leaves the heap valid.
pub allocate_space-Allocated :
    (cells len : ℕ) (s : Space)
    → IsSpace s
    → is_available cells s ≡ true
    → len ≤ cells * 4
    → Allocated len s (allocate_space len s)
unfolding is_available available allocate_space
allocate_space-Allocated cells len s v enough fits =
    let room : s.hp + cells * 4 < s.limit = ground (arith, enough) in
    let less : (3 + len) / 4 ≤ v.free = omega (arith, v.cells, room) in
    record {
      valid = record {
        half = v.half;
        new_size = v.new_size;
        old_size = v.old_size;
        apart = v.apart;
        above = omega (arith, v.above);
        free = v.free - (3 + len) / 4;
        cells = omega (arith, v.cells, less);
        at_end = v.at_end;
      };
      low = v.above;
      high = omega (arith, room, v.at_end);
      fresh = omega arith;
      used = omega arith;
      left = omega (arith, v.cells, less);
    }

initialize_heap-IsSpace : (start size : ℕ) (s : Space) → IsSpace (initialize_heap start size s)
unfolding initialize_heap
initialize_heap-IsSpace start size s = record {
  half = size / 2;
  new_size = omega arith;
  old_size = omega arith;
  apart = inl (omega arith);
  above = omega arith;
  free = size / 2;
  cells = omega arith;
  at_end = omega arith;
}

begin_collection-IsSpace : (s : Space) → IsSpace s → IsSpace (begin_collection s)
unfolding begin_collection
begin_collection-IsSpace s v = record {
  half = v.half;
  new_size = v.old_size;
  old_size = v.new_size;
  apart = other v.apart;
  above = omega arith;
  free = v.half;
  cells = v.old_size;
  at_end = refl;
}
  where
    other :
        (s.newspace_end ≤ s.oldspace_begin) ⊎ (s.oldspace_end ≤ s.newspace_begin)
        → (s.oldspace_end ≤ s.newspace_begin) ⊎ (s.newspace_end ≤ s.oldspace_begin)
    other (inl h) = inr h
    other (inr h) = inl h

set_heap_pointer-IsSpace :
    (free : ℕ) (s : Space)
    → IsSpace s
    → s.newspace_begin + free * 4 ≤ s.limit
    → IsSpace (set_heap_pointer (s.limit - free * 4) s)
unfolding set_heap_pointer
set_heap_pointer-IsSpace free s v room = record {
  half = v.half;
  new_size = v.new_size;
  old_size = v.old_size;
  apart = v.apart;
  above = omega arith;
  free = free;
  cells = omega arith;
  at_end = v.at_end;
}

flip_back-IsSpace :
    (hp : ℕ) (weak_hp : Option ℕ) (weak_limit : ℕ) (s : Space)
    → IsSpace s
    → IsSpace (
        flip_back (record (begin_collection s) {
          hp = hp;
          weak_pointer_hp = weak_hp;
          weak_pointer_limit = weak_limit;
        }))
unfolding flip_back begin_collection
flip_back-IsSpace hp weak_hp weak_limit s v = record {
  half = v.half;
  new_size = v.new_size;
  old_size = v.old_size;
  apart = v.apart;
  above = v.above;
  free = v.free;
  cells = v.cells;
  at_end = v.at_end;
}

registered-IsSpace :
    (pure_count impure_count : ℕ) (s : Space)
    → IsSpace s
    → IsSpace (register_static_areas pure_count impure_count s)
unfolding register_static_areas
registered-IsSpace pure_count impure_count s v = record {
  half = v.half;
  new_size = v.new_size;
  old_size = v.old_size;
  apart = v.apart;
  above = v.above;
  free = v.free;
  cells = v.cells;
  at_end = v.at_end;
}

end_collection-IsSpace : (s : Space) → IsSpace s → IsSpace (end_collection s)
unfolding end_collection
end_collection-IsSpace s v = record {
  half = v.half;
  new_size = v.new_size;
  old_size = v.old_size;
  apart = v.apart;
  above = v.above;
  free = v.free;
  cells = v.cells;
  at_end = v.at_end;
}

-- Whatever sequence of initialisations, registrations of static areas, allocations that were
-- tested for, beginnings and ends of collections, settings of the heap pointer in the new space to
-- whole cells from the limit, and writings of images, which flip the spaces back whatever their
-- collection did to the heap pointer, led to the heap, it is valid.
pub Reaches-IsSpace : (s : Space) → Reaches s → IsSpace s
Reaches-IsSpace _ (started start size s) = initialize_heap-IsSpace start size s
Reaches-IsSpace _ (registered pure_count impure_count s r) =
    registered-IsSpace pure_count impure_count s (Reaches-IsSpace s r)
Reaches-IsSpace _ (allocated cells len s r enough fits) =
    (allocate_space-Allocated cells len s (Reaches-IsSpace s r) enough fits).valid
Reaches-IsSpace _ (begun s r) = begin_collection-IsSpace s (Reaches-IsSpace s r)
Reaches-IsSpace _ (pointed free s r room) =
    set_heap_pointer-IsSpace free s (Reaches-IsSpace s r) room
Reaches-IsSpace _ (written hp weak_hp weak_limit s r) =
    flip_back-IsSpace hp weak_hp weak_limit s (Reaches-IsSpace s r)
Reaches-IsSpace _ (ended s r) = end_collection-IsSpace s (Reaches-IsSpace s r)

-- The beginning of a collection of a valid heap exchanges the semispaces: all that was allocated
-- is in the old one, and the whole size of a semispace is free in the new one.
pub begin_collection-flips :
    (s : Space)
    → IsSpace s
    → let s' = begin_collection s in
      (s'.oldspace_begin ≤ s.hp)
      × (s.hp ≤ s'.oldspace_end)
      × (available s' * 4 ≡ heap_size s)
      × (heap_size s' ≡ heap_size s)
unfolding begin_collection available heap_size
begin_collection-flips s v = (
  v.above,
  omega (arith, v.cells, v.at_end),
  omega (arith, v.new_size, v.old_size),
  omega (arith, v.new_size, v.old_size),
)
