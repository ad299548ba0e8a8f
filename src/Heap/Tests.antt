-- ===== src/Heap/Tests.antt =====
-- Examples for c/scheme48heap.c: a heap of 20 cells at 1000, and an object of 4 bytes at 1004.
use kali_scheme.Prelude.{
  ℕ, Bool, ◌||◌, ◌<◌, ◌⊎◌, inl, true, false, ◌+◌, ◌-◌, ap, [], ◌∷◌, inr, ◌==◌, if◌then◌else◌, ◌≡◌,
  ◌≤◌, refl, none, arith,
}
use kali_scheme.Heap.Space.{Space, initialize_heap, is_available, allocate_space, begin_collection}
use kali_scheme.Heap.Memory.{Memory, load}
use kali_scheme.Heap.Copy.{Heap, real_copy_object}
use kali_scheme.Heap.Copy.Object.{Moved, real_copy_object-Moved}
use kali_scheme.Heap.Memory.{load-agree_all}
use kali_scheme.Heap.Copy.{header_type}
use kali_scheme.Heap.Find.{find_all}
use kali_scheme.Heap.Find.Found.{at_end, found}
use kali_scheme.Heap.Find.Vector.{Vector, find_objects-Vector}
use kali_scheme.Heap.Copy.{header_length}
use kali_scheme.Heap.Trace.{has_bytes, trace_locations, finished, no_space}
use kali_scheme.Heap.Trace.Sound.{Points, Sound, sound_end, sound_slot}
use kali_scheme.Heap.Trace.Area.{Clean, Ready}
use kali_scheme.Heap.Trace.Loop.{trace_locations-Clean}
use kali_scheme.Heap.Collect.{null, do_gc}
use kali_scheme.Heap.Collect.Clean.{do_gc-Clean}
use kali_scheme.Heap.Bounds.{IsSpace, Reaches, started, allocated, begun, Reaches-IsSpace}

abbrev blank : Space
blank = record {
  newspace_begin = 0;
  newspace_end = 0;
  oldspace_begin = 0;
  oldspace_end = 0;
  hp = 0;
  limit = 0;
  saved_hp = 0;
  saved_limit = 0;
  weak_pointer_hp = none;
  weak_pointer_limit = 0;
  gc_count = 0;
  pure_area_count = 0;
  impure_area_count = 0;
}

abbrev small : Space
small = initialize_heap 1000 20 blank

-- 10 bytes are asked for, with a test for 3 cells.
abbrev in_use : Space
in_use = (allocate_space 10 small).1

in_use-Reaches : Reaches in_use
unfolding is_available initialize_heap
in_use-Reaches = allocated 3 10 small (started 1000 20 blank) refl (omega arith)

in_use-IsSpace : IsSpace in_use
in_use-IsSpace = Reaches-IsSpace in_use in_use-Reaches

Reaches-IsSpace_example : IsSpace (begin_collection in_use)
Reaches-IsSpace_example = Reaches-IsSpace (begin_collection in_use) (begun in_use in_use-Reaches)

-- The header of the object says 4 bytes.
abbrev cells : Memory
cells x = if x == 1000 then 2 else (if x == 1001 then 4 else 0)

abbrev filled : Heap
filled = record { space = small; memory = cells }

real_copy_object-Moved_example :
    let r = real_copy_object 1007 1040 filled in
    Moved 1007 1040 filled r × (real_copy_object 1007 1052 r.2 ≡ (r.0, 1052, r.2))
unfolding load
real_copy_object-Moved_example =
    real_copy_object-Moved 1007 1040 filled 1052
      (record {
        header = refl;
        strong = refl;
        tagged = refl;
        placed = omega arith;
        word = omega arith;
        clear = inr (omega arith);
      })
      refl (omega arith)

-- A heap with the object, and room behind it.
abbrev with_object : Heap
with_object = record {
  space = record small { newspace_begin = 1000; hp = 1008; limit = 1100 };
  memory = cells;
}

find_objects-Vector_example : Vector with_object (1000 ∷ []) (find_all 9 0 [] [] with_object)
unfolding find_all load initialize_heap
find_objects-Vector_example =
    find_objects-Vector 9 (λ m a. 0 == header_type (load m a)) with_object (1000 ∷ [])
      (found 1000 [] (omega arith) refl
        (λ m' same.
          ap (λ d. 0 == header_type d)
            (load-agree_all cells m' 1000 (λ x lo hi. same x (omega arith))))
        (at_end 1008 (omega arith)))
      (omega arith) (omega arith) (omega arith) (omega arith)

-- A copied root at 1004 points to an old object at 2004, which points to one at 2012, which points
-- back.
abbrev rooted_cells : Memory
rooted_cells x =
    if x == 1000 || x == 2000 || x == 2008
    then 2
    else (if x == 1001 || x == 2001 || x == 2009
        then 4
        else (if x == 1004 || x == 2012
            then 215
            else (if x == 2004
                then 223
                else (if x == 1005 || x == 2005 || x == 2013 then 7 else 0))))

abbrev rooted : Heap
rooted = record {
  space = record blank {
    newspace_begin = 1000;
    newspace_end = 2000;
    oldspace_begin = 2000;
    oldspace_end = 3000;
    hp = 1008;
    limit = 2000;
  };
  memory = rooted_cells;
}

abbrev old_object : ℕ → Bool
old_object a = a == 2004 || a == 2012

old_object-cases : (a : ℕ) → old_object a ≡ true → (a ≡ 2004) ⊎ (a ≡ 2012)
old_object-cases a ob = ground (arith, ob)

rooted-content :
    (a x : ℕ)
    → old_object a ≡ true
    → a ≤ x
    → x + 4 ≤ a + header_length (load rooted_cells (a - 4))
    → (has_bytes (load rooted_cells x) ≡ false)
      × Points old_object rooted.space (load rooted_cells x)
unfolding load
rooted-content a x ob lo hi = elim (old_object-cases a ob) [
  | inl e ↦
      let hi' : x + 4 ≤ 2008 = rw e at hi in
      let at : x ≡ 2004 = omega (arith, lo, e, hi') in rw at (refl, λ _. refl)
  | inr e ↦
      let hi' : x + 4 ≤ 2016 = rw e at hi in
      let at : x ≡ 2012 = omega (arith, lo, e, hi') in rw at (refl, λ _. refl)
]

rooted-Ready : Ready old_object 1000 1008 1008 1008 rooted
unfolding load
rooted-Ready = record {
  frontier = omega arith;
  marked = (omega arith, omega arith);
  behind_null = omega arith;
  whole = (refl, refl);
  apart = inl (omega arith);
  above = inl (omega arith);
  aligned = (refl, refl);
  narrow = omega arith;
  bytes = λ x. ground arith;
  objects = λ a ob. elim (old_object-cases a ob) [
    | inl e ↦ rw e (refl, refl)
    | inr e ↦ rw e (refl, refl)
  ];
  forwarded = λ a ob. elim (old_object-cases a ob) [ inl e ↦ rw e refl | inr e ↦ rw e refl ];
  strong = λ a ob. elim (old_object-cases a ob) [ inl e ↦ rw e refl | inr e ↦ rw e refl ];
  inside = λ a ob fresh. elim (old_object-cases a ob) [
    | inl e ↦ rw e (omega arith)
    | inr e ↦ rw e (omega arith)
  ];
  cells =
      λ a ob fresh plain. elim (old_object-cases a ob) [ inl e ↦ rw e refl | inr e ↦ rw e refl ];
  content = λ a x ob fresh plain lo hi aligned. rooted-content a x ob lo hi;
  copied = sound_end 1008 refl;
}

rooted-Sound : Sound old_object rooted.space rooted_cells 1008 1000
unfolding load
rooted-Sound =
    sound_slot 1000 (omega arith) refl (λ old. absurd (cc))
      (sound_slot 1004 (omega arith) refl (λ _. refl) (sound_end 1008 refl))

trace_locations-Clean_example :
    (h' : Heap) × (trace_locations 1000 1008 rooted ≡ finished h')
    × (1008 ≤ h'.space.hp)
    × ((2000 ≤ h'.space.hp) ⊎ Clean rooted.space h'.memory 1008 1000)
trace_locations-Clean_example =
    trace_locations-Clean old_object 1000 1008 rooted rooted-Ready rooted-Sound refl

do_gc-Clean_example :
    (do_gc 993 [] null rooted ≡ no_space)
    ⊎ ((h' : Heap) × (do_gc 993 [] null rooted ≡ finished (null, null, h'))
        × (h'.space.hp < 2000)
        × Clean rooted.space h'.memory h'.space.hp 1000)
do_gc-Clean_example =
    do_gc-Clean old_object 992 rooted rooted-Ready rooted-Sound (omega arith) refl refl
      (omega arith)
