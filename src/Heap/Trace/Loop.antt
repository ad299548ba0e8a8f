-- ===== src/Heap/Trace/Loop.antt =====
-- `trace_locationsB` of c/scheme48heap.c ends, and cleans its area.
use kali_scheme.Prelude.{
  Bool, ℕ, zero, suc, ◌+◌, ◌-◌, ◌%◌, ◌≤◌, ◌<◌, ◌≡◌, refl, sym, ap, subst, ◌∙◌, ◌⊎◌, inl, inr, true,
  false, arith, ltb, Bool-cases,
}
use kali_scheme.Heap.Memory.{load, load-agree_all}
use kali_scheme.Heap.Space.{Space, round_up}
use kali_scheme.Heap.Copy.{Heap, header_length, is_old}
use kali_scheme.Heap.Trace.{finished, has_bytes, set_hp, trace_slot, trace, trace_locations}
use kali_scheme.Heap.Trace.Sound.{
  Points, Sound, Sound-le, sound-slot, sound-bytes, Sound-agree, Sound-same,
}
use kali_scheme.Heap.Trace.Ends.{trace_slot-Keeps, trace-stop, trace-skip, trace-word, trace-ends}
use kali_scheme.Heap.Trace.Area.{Clean, at_end, slot, bytes, Ready}
use kali_scheme.Heap.Trace.Clean.{Stepped, slot-Stepped}

-- What the loop from `addr` on leaves, unless it copied up to the limit.
pub record Cleaned (object : ℕ → Bool) (mark : ℕ) (s : Space) (start end addr : ℕ) (h h' : Heap)
    : Type 0 where
  pub clean : Clean s h'.memory end addr
  pub ready : Ready object start end mark h'.space.hp h'
  pub same_old :
      (h'.space.oldspace_begin ≡ s.oldspace_begin) × (h'.space.oldspace_end ≡ s.oldspace_end)
  pub weak : h'.space.weak_pointer_hp ≡ s.weak_pointer_hp
  pub before : (x : ℕ) → start ≤ x → x < addr → h'.memory x ≡ h.memory x

pub trace-Cleaned :
    {object : ℕ → Bool} {start mark : ℕ} (k addr end f : ℕ) (h : Heap) (s : Space)
    → h.space ≡ s
    → Ready object start end mark f h
    → Sound object s h.memory end addr
    → start ≤ addr
    → addr % 4 ≡ 0
    → end - addr < k
    → (h' : Heap) × (trace k addr end f h ≡ finished h')
      × (f ≤ h'.space.hp)
      × (h'.space.limit ≡ s.limit)
      × ((s.limit ≤ h'.space.hp) ⊎ Cleaned object mark s start end addr h h')
trace-Cleaned zero addr end f h s e v sound low even fuel = absurd (omega arith)
trace-Cleaned {object = object} {start = start} {mark = mark} (suc k) addr end f h s e v sound low
      even fuel =
    elim (Bool-cases (ltb addr end)) [
      | inr stop ↦ (
        set_hp f h,
        trace-stop k addr end f h stop,
        omega arith,
        ap (λ t. t.limit) e,
        inr (record {
          clean = at_end addr (ground (arith, Sound-le object s h.memory end addr sound));
          ready = record {
            frontier = v.frontier;
            behind_null = v.behind_null;
            whole = v.whole;
            apart = v.apart;
            above = v.above;
            aligned = v.aligned;
            narrow = v.narrow;
            bytes = v.bytes;
            forwarded = v.forwarded;
            strong = v.strong;
            marked = v.marked;
            objects = v.objects;
            inside = v.inside;
            cells = v.cells;
            content = v.content;
            copied =
                Sound-same object (set_hp f h).space h.space h.memory f mark refl refl v.copied;
          };
          same_old = (ap (λ t. t.oldspace_begin) e, ap (λ t. t.oldspace_end) e);
          weak = ap (λ t. t.weak_pointer_hp) e;
          before = λ x lo hi. refl;
        }),
      )
      | inl more ↦ elim (Bool-cases (has_bytes (load h.memory addr))) [
        | inl skip ↦
            let next = addr + 4 + round_up (header_length (load h.memory addr)) in
            let (h', run, up, lim, done) =
              trace-Cleaned k next end f h s e v
                (sound-bytes object s h.memory end addr sound (ground arith) skip) (omega arith)
                (omega arith) (less next more (omega arith)) in
            (h', trace-skip k addr end f h more skip ∙ run, up, lim, skipped h' skip more done)
        | inr word ↦
            let r = trace_slot addr f h in
            let parts = sound-slot object s h.memory end addr sound (ground arith) word in
            let step =
              slot-Stepped addr f v low (ground (arith, more, even, v.whole.0)) word
                (subst (λ t. Points object t (load h.memory addr)) (sym e) parts.0) in
            elim (Bool-cases (ltb r.0 s.limit)) [
              | inl room ↦
                  let fits : r.0 < h.space.limit =
                    subst (λ t. r.0 < t.limit) (sym e) (ground (arith, room)) in
                  let (h', run, up, lim, done) =
                    trace-Cleaned k (addr + 4) end r.0 r.1 s (step.same_space ∙ e) (step.ready fits)
                      (Sound-agree object s h.memory r.1.memory (addr + 4) end (addr + 4)
                        (step.rest fits) (omega arith) parts.1)
                      (omega arith) (omega arith) (less (addr + 4) more (omega arith)) in
                  (
                    h',
                    trace-word k addr end f h more word ∙ run,
                    omega (arith, up, step.mono),
                    lim,
                    traced r h' step fits more done,
                  )
              | inr full ↦
                  let (h', run, up, lim) =
                    trace-ends k (addr + 4) end r.0 r.1 (less (addr + 4) more (omega arith)) in
                  (
                    h',
                    trace-word k addr end f h more word ∙ run,
                    omega (arith, up, step.mono),
                    lim ∙ (trace_slot-Keeps addr f h).1 ∙ ap (λ t. t.limit) e,
                    inl (ground (arith, full, up)),
                  )
            ]
      ]
    ]
  where
    less : (next : ℕ) → ltb addr end ≡ true → addr < next → end - next < k
    less next more up = ground (arith, more, fuel)

    skipped :
        (h' : Heap)
        → has_bytes (load h.memory addr) ≡ true
        → ltb addr end ≡ true
        → (s.limit ≤ h'.space.hp)
          ⊎ Cleaned object mark s start end
              (addr + 4 + round_up (header_length (load h.memory addr)))
              h
              h'
        → (s.limit ≤ h'.space.hp) ⊎ Cleaned object mark s start end addr h h'
    skipped h' skip more (inl over) = inl over
    skipped h' skip more (inr done) =
        let same : load h'.memory addr ≡ load h.memory addr =
          load-agree_all h.memory h'.memory addr
            (λ x lo hi. done.before x (omega arith) (omega arith)) in
        inr (record {
          clean = bytes addr (ground (arith, more, even, v.whole.0)) (rw same skip) (
              subst (λ d. Clean s h'.memory end (addr + 4 + round_up (header_length d))) (sym same)
                done.clean);
          ready = done.ready;
          same_old = done.same_old;
          weak = done.weak;
          before = λ x lo hi. done.before x lo (omega arith);
        })

    traced :
        (r : ℕ × Heap) (h' : Heap)
        → Stepped object start end mark addr f h r.0 r.1
        → r.0 < h.space.limit
        → ltb addr end ≡ true
        → (s.limit ≤ h'.space.hp) ⊎ Cleaned object mark s start end (addr + 4) r.1 h'
        → (s.limit ≤ h'.space.hp) ⊎ Cleaned object mark s start end addr h h'
    traced r h' step fits more (inl over) = inl over
    traced r h' step fits more (inr done) =
        let same : load h'.memory addr ≡ load r.1.memory addr =
          load-agree_all r.1.memory h'.memory addr
            (λ x lo hi. done.before x (omega arith) (omega arith)) in
        inr (record {
          clean =
              slot addr (ground (arith, more, even, v.whole.0)) (rw same (step.plain fits))
                (rw same (subst (λ t. is_old t (load r.1.memory addr) ≡ false) e (step.value fits)))
                done.clean;
          ready = done.ready;
          same_old = done.same_old;
          weak = done.weak;
          before = λ x lo hi. done.before x lo (omega arith) ∙ step.before fits x lo hi;
        })

-- When the heap is `Ready` for the area (all cells are bytes, the area is at whole words below
-- the heap pointer and apart from the old space, an object of the old space that was not copied
-- lies in it, what is in place of its header does not point there, and there are no weak
-- pointers), and what points to the old space, from the area and from objects that are no byte
-- vectors, points to objects, `trace_locationsB` ends; and unless the heap pointer reached the
-- limit, the area consists, from its start to its end, of descriptors that do not point to the
-- old space and of byte vectors. The limit and the start of the old space are at whole words,
-- the limit is at most 2^32, and the old space starts at 8 or above. Either the area is behind
-- the old space, or the limit is not behind the start of the old space and the area ends at
-- least a word in front of it.
pub trace_locations-Clean :
    (object : ℕ → Bool) (start end : ℕ) (h : Heap)
    → Ready object start end h.space.hp h.space.hp h
    → Sound object h.space h.memory end start
    → start % 4 ≡ 0
    → (h' : Heap) × (trace_locations start end h ≡ finished h')
      × (h.space.hp ≤ h'.space.hp)
      × ((h.space.limit ≤ h'.space.hp) ⊎ Clean h.space h'.memory end start)
unfolding trace_locations
trace_locations-Clean object start end h v sound even =
    let (h', run, up, lim, done) =
      trace-Cleaned (suc (end - start)) start end h.space.hp h h.space refl v sound (omega arith)
        even (omega arith) in
    (h', run, up, shown h' done)
  where
    shown :
        (h' : Heap)
        → (h.space.limit ≤ h'.space.hp) ⊎ Cleaned object h.space.hp h.space start end start h h'
        → (h.space.limit ≤ h'.space.hp) ⊎ Clean h.space h'.memory end start
    shown h' (inl over) = inl over
    shown h' (inr done) = inr done.clean
