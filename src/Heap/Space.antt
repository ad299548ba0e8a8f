-- ===== src/Heap/Space.antt =====
-- The static variables of c/scheme48heap.c that say where the semispaces are, and the operations on
-- them. An address is a number; a cell has 4 bytes, as the source has it.
use kali_scheme.Prelude.{ℕ, ◌+◌, ◌-◌, ◌*◌, ◌/◌, Bool, false, Option, none, ltb, ◌==◌, if◌then◌else◌}

pub record Space : Type 0 where
  pub newspace_begin : ℕ
  pub newspace_end : ℕ
  pub oldspace_begin : ℕ
  pub oldspace_end : ℕ
  pub hp : ℕ
  pub limit : ℕ
  pub saved_hp : ℕ
  pub saved_limit : ℕ
  pub weak_pointer_hp : Option ℕ
  pub weak_pointer_limit : ℕ
  pub gc_count : ℕ
  pub pure_area_count : ℕ
  pub impure_area_count : ℕ

abbrev pub cell_size : ℕ
cell_size = 4

-- `-4 & (3 + len)`.
abbrev pub round_up : ℕ → ℕ
round_up len = (3 + len) / cell_size * cell_size

unfoldable pub heap_size : Space → ℕ
heap_size s = s.newspace_end - s.newspace_begin

unfoldable pub heap_pointer : Space → ℕ
heap_pointer s = s.hp

unfoldable pub set_heap_pointer : ℕ → Space → Space
set_heap_pointer value s = record s { hp = value }

-- The four limits, and the heap pointer.
unfoldable pub heap_limits : Space → ℕ × ℕ × ℕ × ℕ × ℕ
heap_limits s = (s.newspace_begin, s.newspace_end, s.oldspace_begin, s.oldspace_end, s.hp)

unfoldable pub register_static_areas : (pure_count impure_count : ℕ) → Space → Space
register_static_areas pure_count impure_count s = record s {
  pure_area_count = pure_count;
  impure_area_count = impure_count;
}

unfoldable pub image_writing_okay : Space → Bool
image_writing_okay s = if 0 == s.pure_area_count then 0 == s.impure_area_count else false

unfoldable pub end_collection : Space → Space
end_collection s = record s { gc_count = 1 + s.gc_count }

unfoldable pub initialize_heap : (start size : ℕ) → Space → Space
initialize_heap start size s =
    let semisize = size / 2 * cell_size in
    record s {
      newspace_begin = start;
      newspace_end = start + semisize;
      oldspace_begin = start + semisize;
      oldspace_end = start + semisize + semisize;
      hp = start;
      limit = start + semisize;
    }

-- `availableP`.
unfoldable pub is_available : ℕ → Space → Bool
is_available cells s = ltb (s.hp + cells * cell_size) s.limit

-- The source subtracts pointers into the same space, with the heap pointer not above the limit.
unfoldable pub available : Space → ℕ
available s = (s.limit - s.hp) / cell_size

-- The type and the key are not looked at.
unfoldable pub allocate_space : (len : ℕ) → Space → ℕ × Space
allocate_space len s = (s.hp, record s { hp = s.hp + round_up len })

unfoldable pub begin_collection : Space → Space
begin_collection s = record s {
  newspace_begin = s.oldspace_begin;
  newspace_end = s.oldspace_end;
  oldspace_begin = s.newspace_begin;
  oldspace_end = s.newspace_end;
  saved_limit = s.limit;
  saved_hp = s.hp;
  limit = s.oldspace_end;
  hp = s.oldspace_begin;
  weak_pointer_hp = none;
}
