-- ===== src/Image/Write.antt =====
-- The writing of an image by `write_image` of c/scheme48heap.c: the collection of what the image
-- needs, the header, the cells, and the repair of the heap that is left in place.
pub mod Restore
pub mod Steps
pub mod Header
use kali_scheme.Prelude.{
  ℕ, zero, suc, ◌+◌, ◌-◌, ◌*◌, ◌/◌, ◌^◌, Bool, true, false, Option, none, some, List, [], ◌∷◌, ◌++◌,
  ltb, ◌==◌, if◌then◌else◌,
}
use kali_scheme.Prelude.Int.{ℤ, pos, negsuc, eqb_ℤ}
use kali_scheme.Io.Stdio.{OutPort}
use kali_scheme.Io.Writer.{write_char, ps_write_integer}
use kali_scheme.Io.Strings.{ps_write_string}
use kali_scheme.Io.Block.{ps_write_block}
use kali_scheme.Heap.Memory.{Memory, load, store, area}
use kali_scheme.Heap.Space.{Space, round_up, begin_collection}
use kali_scheme.Heap.Copy.{Heap, is_header, header_length, header_address, trace_value}
use kali_scheme.Heap.Trace.{Run, finished, no_space, stuck, ◌>>=◌, trace_new, clean_weak_pointers}
use kali_scheme.Image.Header.{as_long, architecture_version, page, newline}

-- An operation on the stream of the image: the status, and the stream.
abbrev pub Write : Type 0
Write = OutPort → Option (ℤ × OutPort)

-- Each operation, while there was no error; `SstatusS` is the status.
unfoldable pub write_all : List Write → ℤ × OutPort → Option (ℤ × OutPort)
write_all [] r = some r
write_all (op ∷ ops) (status, p) = elim (eqb_ℤ status (pos 0)) [
  | false ↦ write_all ops (status, p)
  | true ↦ elim (op p) [ none ↦ none | some r ↦ write_all ops r ]
]

-- The bit pattern of a `long` as a number, `>> 2`.
abbrev pub address_cells : ℕ → ℤ
address_cells a = if ltb a (2 ^ 31) then pos (a / 4) else negsuc ((2 ^ 32 - 1 - a) / 4)

-- The header, for cells from `begin` to `hp` and the startup procedure `proc`.
unfoldable pub header_writes : ℕ → ℤ → (begin hp proc : ℕ) → List Write
header_writes fuel eintr begin hp proc =
    write_char fuel eintr newline
    ∷ write_char fuel eintr page
    ∷ write_char fuel eintr newline
    ∷ ps_write_string fuel eintr architecture_version
    ∷ write_char fuel eintr newline
    ∷ ps_write_integer fuel eintr (pos 4)
    ∷ write_char fuel eintr newline
    ∷ ps_write_integer fuel eintr (address_cells begin)
    ∷ write_char fuel eintr newline
    ∷ ps_write_integer fuel eintr (address_cells hp)
    ∷ write_char fuel eintr newline
    ∷ ps_write_integer fuel eintr (as_long proc)
    ∷ write_char fuel eintr newline
    ∷ write_char fuel eintr page
    ∷ []

-- A word 1, by which a reader knows the order of the bytes, and the cells.
unfoldable pub block_writes : ℕ → ℤ → Memory → (begin hp : ℕ) → List Write
unfolding area
block_writes fuel eintr m begin hp =
    ps_write_block fuel eintr 4 (area m hp 4)
    ∷ ps_write_block fuel eintr (hp - begin) (area m begin (hp - begin))
    ∷ []

-- The first part: what `proc` needs is copied to the other space. `mark` stands for the function
-- that is called at its end.
unfoldable pub collect_image : ℕ → (mark : Heap → Heap) → ℕ → Heap → Run (ℕ × Heap)
unfolding trace_value trace_new clean_weak_pointers begin_collection
collect_image fuel mark proc h =
    let (proc', h₁) = trace_value proc (record h { space = begin_collection h.space }) in
    trace_new fuel h₁.space.newspace_begin h₁ >>= λ h₂.
    clean_weak_pointers fuel h₂ >>= λ h₃. finished (proc', mark h₃)

-- The headers that the copying replaced by pointers to the copies are put back from the copies.
unfoldable pub restore : ℕ → (addr hp : ℕ) → Memory → Run Memory
restore zero addr hp m = stuck
restore (suc k) addr hp m = elim (ltb addr hp) [
  | false ↦ finished m
  | true ↦ elim (is_header (load m addr)) [
    | true ↦ restore k (addr + (4 + round_up (header_length (load m addr)))) hp m
    | false ↦
        let header = load m (header_address (load m addr)) in
        restore k (addr + (4 + round_up (header_length header))) hp (store m addr header)
  ]
]

-- The spaces are exchanged again, and the old heap pointer and limit are put back.
unfoldable pub flip_back : Space → Space
flip_back s = record s {
  newspace_begin = s.oldspace_begin;
  oldspace_begin = s.newspace_begin;
  newspace_end = s.oldspace_end;
  oldspace_end = s.newspace_end;
  limit = s.saved_limit;
  hp = s.saved_hp;
}

abbrev pub resulted : {A : Type 0} → Option A → Run A
resulted none = stuck
resulted (some a) = finished a

-- The status, the stream and the heap.
unfoldable pub write_image :
    ℕ → ℤ → (mark : Heap → Heap) → ℕ → OutPort → Heap → Run (ℤ × OutPort × Heap)
unfolding collect_image write_all header_writes block_writes restore flip_back
write_image fuel eintr mark proc port h = collect_image fuel mark proc h >>= λ collected.
    let s = collected.1.space in
    let m = store collected.1.memory s.hp 1 in
    resulted (
      write_all
        (header_writes fuel eintr s.newspace_begin s.hp collected.0
          ++ block_writes fuel eintr m s.newspace_begin s.hp)
        (pos 0, port))
    >>= λ written.
        let t = flip_back s in
        restore fuel t.newspace_begin t.hp m >>= λ m'.
        finished (written.0, written.1, record { space = t; memory = m' })
