-- ===== src/Heap/Collect/Clean.antt =====
-- After a collection by `do_gc` of c/scheme48heap.c the new space does not refer to the old one.
use kali_scheme.Prelude.{
  ℕ, suc, ◌-◌, ◌%◌, ◌≤◌, ◌<◌, ◌≡◌, ◌∙◌, ◌⊎◌, inl, inr, Bool, Option, none, some, [], arith,
}
use kali_scheme.Heap.Copy.{Heap}
use kali_scheme.Heap.Trace.{Run, finished, no_space, trace_new, clean_weak_pointers}
use kali_scheme.Heap.Trace.Sound.{Sound}
use kali_scheme.Heap.Trace.Area.{Clean, Ready}
use kali_scheme.Heap.Trace.Rounds.{trace_new-Clean}
use kali_scheme.Heap.Collect.{null, trace_areas, trace_finalizers, sort_finalizers, do_gc}

first-none :
    (w : Option ℕ) (r : Run Heap) (rest : ℕ → Run Heap)
    → w ≡ none
    → elim w [ none ↦ r | some hp ↦ rest hp ] ≡ r
first-none w r rest e = rw e

clean_weak_pointers-none :
    (fuel : ℕ) (h : Heap) → h.space.weak_pointer_hp ≡ none → clean_weak_pointers fuel h ≡ finished h
unfolding clean_weak_pointers
clean_weak_pointers-none fuel h e = first-none h.space.weak_pointer_hp (finished h) _ e

do_gc-full :
    (k : ℕ) (h : Heap)
    → trace_new (suc k) h.space.newspace_begin h ≡ no_space
    → do_gc (suc k) [] null h ≡ no_space
unfolding do_gc trace_areas trace_finalizers
do_gc-full k h run = rw run

do_gc-traced :
    (k : ℕ) (h h' : Heap)
    → trace_new (suc k) h.space.newspace_begin h ≡ finished h'
    → h'.space.weak_pointer_hp ≡ none
    → do_gc (suc k) [] null h ≡ finished (null, null, h')
unfolding do_gc trace_areas trace_finalizers sort_finalizers
do_gc-traced k h h' run weak = rw (run, clean_weak_pointers-none (suc k) h' weak)

-- A collection by `do_gc` without static areas, finalizers and weak pointers, of a heap whose
-- copied roots fill the new space from its start, at a whole word, to the heap pointer, ends for
-- fuel above the distance of the heap pointer to the limit, when the heap is `Ready` (all cells
-- are bytes, the spaces are apart, an object of the old space that was not copied lies in it,
-- and what is in place of a header does not point there) and what points to the old space, from
-- the roots and from objects that are no byte vectors, points to objects: either the new space
-- ran out, or the heap pointer is still below the limit, and from its start to the heap pointer
-- the new space consists of descriptors that do not point to the old space and of byte vectors.
-- The limit and the start of the old space are at whole words, the limit is at most 2^32, and
-- the old space starts at 8 or above. Either the new space is behind the old one, or the limit
-- is not behind the start of the old space and the heap pointer is at least a word in front of
-- it.
pub do_gc-Clean :
    (object : ℕ → Bool) (k : ℕ) (h : Heap)
    → Ready object h.space.newspace_begin h.space.hp h.space.hp h.space.hp h
    → Sound object h.space h.memory h.space.hp h.space.newspace_begin
    → h.space.newspace_begin ≤ h.space.hp
    → h.space.newspace_begin % 4 ≡ 0
    → h.space.weak_pointer_hp ≡ none
    → h.space.limit - h.space.hp ≤ k
    → (do_gc (suc k) [] null h ≡ no_space)
      ⊎ ((h' : Heap) × (do_gc (suc k) [] null h ≡ finished (null, null, h'))
          × (h'.space.hp < h.space.limit)
          × Clean h.space h'.memory h'.space.hp h.space.newspace_begin)
do_gc-Clean object k h v sound up even weak fuel =
    shown (trace_new-Clean object (suc k) h.space.newspace_begin h v sound up even (omega arith))
  where
    shown :
        (trace_new (suc k) h.space.newspace_begin h ≡ no_space)
          ⊎ ((h' : Heap) × (trace_new (suc k) h.space.newspace_begin h ≡ finished h')
              × (h'.space.hp < h.space.limit)
              × (h'.space.weak_pointer_hp ≡ h.space.weak_pointer_hp)
              × Clean h.space h'.memory h'.space.hp h.space.newspace_begin)
        → (do_gc (suc k) [] null h ≡ no_space)
          ⊎ ((h' : Heap) × (do_gc (suc k) [] null h ≡ finished (null, null, h'))
              × (h'.space.hp < h.space.limit)
              × Clean h.space h'.memory h'.space.hp h.space.newspace_begin)
    shown (inl full) = inl (do_gc-full k h full)
    shown (inr (h', run, room, same, clean)) =
        inr (h', do_gc-traced k h h' run (same ∙ weak), room, clean)
