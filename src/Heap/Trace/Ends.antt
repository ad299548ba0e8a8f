-- ===== src/Heap/Trace/Ends.antt =====
-- `trace_locationsB` of c/scheme48heap.c ends, and the heap pointer does not go back.
use kali_scheme.Prelude.{
  ℕ, zero, suc, ◌+◌, ◌-◌, ◌≤◌, ◌<◌, ◌≡◌, refl, ◌∙◌, inl, inr, true, false, ◌&&◌, arith, ltb, ◌==◌,
  Bool-cases,
}
use kali_scheme.Heap.Memory.{load}
use kali_scheme.Heap.Space.{round_up}
use kali_scheme.Heap.Copy.{
  Heap, is_stob, header_length, data_address, header_address, is_old, weak_pointer_header,
  has_weak_room, copy_weak_pointer, move_object, real_copy_object,
}
use kali_scheme.Heap.Trace.{finished, has_bytes, set_hp, trace_slot, trace}

-- The frontier does not go back, and the limit stays.
copy_weak_pointer-Keeps :
    (weak f : ℕ) (h : Heap)
    → let r = copy_weak_pointer weak f h in (f ≤ r.1) × (r.2.space.limit ≡ h.space.limit)
unfolding copy_weak_pointer
copy_weak_pointer-Keeps weak f h = elim (Bool-cases (has_weak_room h.space)) [
  | inl room ↦ rw room (omega arith, refl)
  | inr full ↦ rw full (omega arith, refl)
]

move_object-Keeps :
    (thing hd f : ℕ) (h : Heap)
    → let r = move_object thing hd f h in (f ≤ r.1) × (r.2.space.limit ≡ h.space.limit)
unfolding move_object
move_object-Keeps thing hd f h = (omega arith, refl)

real_copy_object-Keeps :
    (thing f : ℕ) (h : Heap)
    → let r = real_copy_object thing f h in (f ≤ r.1) × (r.2.space.limit ≡ h.space.limit)
unfolding real_copy_object
real_copy_object-Keeps thing f h =
    elim (Bool-cases (is_stob (load h.memory (header_address thing)))) [
      | inl stob ↦ rw stob (omega arith, refl)
      | inr fresh ↦
          elim (Bool-cases (
            (weak_pointer_header == load h.memory (header_address thing))
            && is_old h.space (load h.memory (data_address thing)))) [
              | inl weak ↦ rw (fresh, weak) (copy_weak_pointer-Keeps thing f h)
              | inr strong ↦ rw (fresh, strong) (move_object-Keeps thing _ f h)
            ]
    ]

pub trace_slot-Keeps :
    (addr f : ℕ) (h : Heap)
    → let r = trace_slot addr f h in (f ≤ r.0) × (r.1.space.limit ≡ h.space.limit)
trace_slot-Keeps addr f h = elim (Bool-cases (is_old h.space (load h.memory addr))) [
  | inl old ↦ rw old (real_copy_object-Keeps (load h.memory addr) f h)
  | inr new ↦ rw new (omega arith, refl)
]

pub trace-stop :
    (k addr end f : ℕ) (h : Heap)
    → ltb addr end ≡ false
    → trace (suc k) addr end f h ≡ finished (set_hp f h)
unfolding trace
trace-stop k addr end f h stop = rw (stop, trace)

pub trace-skip :
    (k addr end f : ℕ) (h : Heap)
    → ltb addr end ≡ true
    → has_bytes (load h.memory addr) ≡ true
    → trace (suc k) addr end f h
      ≡ trace k (addr + 4 + round_up (header_length (load h.memory addr))) end f h
unfolding trace
trace-skip k addr end f h more skip = rw (more, trace, skip)

pub trace-word :
    (k addr end f : ℕ) (h : Heap)
    → ltb addr end ≡ true
    → has_bytes (load h.memory addr) ≡ false
    → trace (suc k) addr end f h
      ≡ trace k (addr + 4) end (trace_slot addr f h).0 (trace_slot addr f h).1
unfolding trace
trace-word k addr end f h more word = rw (more, trace, word)

-- With fuel for a round for each word the loop ends, and the heap pointer is not below the frontier.
pub trace-ends :
    (k addr end f : ℕ) (h : Heap)
    → end - addr < k
    → (h' : Heap) × (trace k addr end f h ≡ finished h')
      × (f ≤ h'.space.hp)
      × (h'.space.limit ≡ h.space.limit)
trace-ends zero addr end f h fuel = absurd (omega arith)
trace-ends (suc k) addr end f h fuel = elim (Bool-cases (ltb addr end)) [
  | inr stop ↦ (set_hp f h, trace-stop k addr end f h stop, omega arith, refl)
  | inl more ↦ elim (Bool-cases (has_bytes (load h.memory addr))) [
    | inl skip ↦
        let next = addr + 4 + round_up (header_length (load h.memory addr)) in
        let (h', run, up, lim) = trace-ends k next end f h (less next more (omega arith)) in
        (h', trace-skip k addr end f h more skip ∙ run, up, lim)
    | inr word ↦
        let r = trace_slot addr f h in
        let kept = trace_slot-Keeps addr f h in
        let (h', run, up, lim) =
          trace-ends k (addr + 4) end r.0 r.1 (less (addr + 4) more (omega arith)) in
        (h', trace-word k addr end f h more word ∙ run, omega (arith, up, kept.0), lim ∙ kept.1)
  ]
]
  where
    less : (next : ℕ) → ltb addr end ≡ true → addr < next → end - next < k
    less next more up = ground (arith, more, fuel)
