-- ===== src/Heap/Collect.antt =====
-- `do_gc` of c/scheme48heap.c: after the roots are traced, the rest of a collection.
pub mod Clean
use kali_scheme.Prelude.{
  ℕ, zero, suc, ◌+◌, ◌-◌, Bool, true, false, List, [], ◌∷◌, ◌==◌, if◌then◌else◌,
}
use kali_scheme.Heap.Memory.{load, store}
use kali_scheme.Heap.Copy.{
  Heap, is_stob, is_header, data_address, header_address, is_old, real_copy_object, trace_value,
}
use kali_scheme.Heap.Trace.{
  Run, finished, stuck, ◌>>=◌, set_hp, trace_locations, trace_stob_contents, trace_new,
  clean_weak_pointers,
}

-- The empty list, and the two fields of a pair.
abbrev pub null : ℕ
null = 25

abbrev pub car_address : ℕ → ℕ
car_address pair = data_address pair

abbrev pub cdr_address : ℕ → ℕ
cdr_address pair = data_address pair + 4

abbrev pub poke : (addr d : ℕ) → Heap → Heap
poke addr d h = record h { memory = store h.memory addr d }

-- The impure static areas, each with its start and its size.
unfoldable pub trace_areas : List (ℕ × ℕ) → Heap → Run Heap
unfolding trace_locations
trace_areas [] h = finished h
trace_areas ((start, size) ∷ areas) h = trace_locations start (start + size) h >>= trace_areas areas

-- The contents of an object that was not copied yet.
unfoldable pub trace_untraced : ℕ → Heap → Run Heap
unfolding trace_stob_contents
trace_untraced stob h =
    if is_header (load h.memory (header_address stob))
    then trace_stob_contents stob h
    else finished h

-- The pairs of objects and finalizers: what an object holds and its finalizer are traced, but not
-- the object.
unfoldable pub trace_finalizers : ℕ → ℕ → Heap → Run Heap
unfolding trace_untraced trace_value
trace_finalizers zero alist h = stuck
trace_finalizers (suc k) alist h = elim (null == alist) [
  | true ↦ finished h
  | false ↦
      let pair = load h.memory (car_address alist) in
      trace_untraced (load h.memory (car_address pair)) h >>= λ h₁.
      let (value, h₂) = trace_value (load h₁.memory (cdr_address pair)) h₁ in
      let h₃ = poke (cdr_address pair) value h₂ in
      trace_finalizers k (load h₃.memory (cdr_address alist)) h₃
]

-- A copy that moves the heap pointer.
unfoldable pub copied : ℕ → Heap → ℕ × Heap
unfolding real_copy_object
copied thing h = let (new, hp, h') = real_copy_object thing h.space.hp h in (new, set_hp hp h')

-- Whether a guarded object was traced, what it became, and the heap.
unfoldable pub guarded : ℕ → Heap → Bool × ℕ × Heap
unfolding copied
guarded thing h =
    let header = load h.memory (header_address thing) in
    if is_old h.space thing
    then (if is_stob header
        then (true, header, h)
        else (let (new, h') = copied thing h in (false, new, h')))
    else (true, thing, h)

-- The pairs are copied, those whose object was traced in front of `okay` and the others in front of
-- `goners`.
unfoldable pub sort_finalizers : ℕ → (alist okay goners : ℕ) → Heap → Run (ℕ × ℕ × Heap)
unfolding copied guarded
sort_finalizers zero alist okay goners h = stuck
sort_finalizers (suc k) alist okay goners h = elim (null == alist) [
  | true ↦ finished (okay, goners, h)
  | false ↦
      let (l, h₁) = copied alist h in
      let (pair, h₂) = copied (load h₁.memory (car_address l)) h₁ in
      let next = load h₂.memory (cdr_address l) in
      let (traced, thing, h₃) = guarded (load h₂.memory (car_address pair)) h₂ in
      let h₄ = poke (car_address l) pair (poke (car_address pair) thing h₃) in
      elim traced [
        | true ↦ sort_finalizers k next l goners (poke (cdr_address l) okay h₄)
        | false ↦ sort_finalizers k next okay l (poke (cdr_address l) goners h₄)
      ]
]

-- The finalizers to keep, those to run, and the heap.
unfoldable pub do_gc : ℕ → List (ℕ × ℕ) → (finalizer_alist : ℕ) → Heap → Run (ℕ × ℕ × Heap)
unfolding trace_areas trace_finalizers trace_new clean_weak_pointers sort_finalizers
do_gc fuel areas finalizer_alist h = trace_areas areas h >>= λ h₁.
    trace_finalizers fuel finalizer_alist h₁ >>= λ h₂.
    trace_new fuel h₂.space.newspace_begin h₂ >>= λ h₃.
    clean_weak_pointers fuel h₃ >>= λ h₄. sort_finalizers fuel finalizer_alist null null h₄
