-- ===== src/Heap/Trace/Clean.antt =====
-- After `trace_locationsB` of c/scheme48heap.c no descriptor of the area points to the old space.
use kali_scheme.Prelude.{
  ℕ, ◌+◌, ◌-◌, ◌^◌, ◌≤◌, ◌<◌, ◌≡◌, refl, ap, Bool, ◌∙◌, ◌⊎◌, inl, inr, true, false, arith, ◌==◌,
  Bool-cases,
}
use kali_scheme.Heap.Memory.{load, store, store-out, load-store, load-lt}
use kali_scheme.Heap.Space.{round_up}
use kali_scheme.Heap.Copy.{
  Heap, is_stob, header_length, data_address, header_address, is_old, weak_pointer_header,
  move_object, real_copy_object,
}
use kali_scheme.Heap.Trace.{has_bytes, trace_slot}
use kali_scheme.Heap.Trace.Sound.{Points}
use kali_scheme.Heap.Trace.Area.{Ready, store-Ready}
use kali_scheme.Heap.Trace.Move.{moved, move-out, new-is_old, placed}
use kali_scheme.Heap.Trace.Extend.{moved-Ready}

-- What a round on the word at `addr` does, with the frontier `f'` below the limit after it.
pub record Stepped (object : ℕ → Bool) (start end mark addr f : ℕ) (h : Heap) (f' : ℕ) (h' : Heap)
    : Type 0 where
  pub mono : f ≤ f'
  pub same_space : h'.space ≡ h.space
  pub before : f' < h.space.limit → (x : ℕ) → start ≤ x → x < addr → h'.memory x ≡ h.memory x
  pub rest : f' < h.space.limit → (x : ℕ) → addr + 4 ≤ x → x < end → h'.memory x ≡ h.memory x
  pub ready : f' < h.space.limit → Ready object start end mark f' h'
  pub value : f' < h.space.limit → is_old h.space (load h'.memory addr) ≡ false
  pub plain : f' < h.space.limit → has_bytes (load h'.memory addr) ≡ false

is_stob-plain : (d : ℕ) → is_stob d ≡ true → has_bytes d ≡ false
is_stob-plain d h = ground (arith, h)

real_copy_object-forwarded :
    (thing f : ℕ) (h : Heap)
    → is_stob (load h.memory (header_address thing)) ≡ true
    → real_copy_object thing f h ≡ (load h.memory (header_address thing), f, h)
unfolding real_copy_object
real_copy_object-forwarded thing f h e = rw e

real_copy_object-fresh :
    (thing f : ℕ) (h : Heap)
    → is_stob (load h.memory (header_address thing)) ≡ false
    → (weak_pointer_header == load h.memory (header_address thing)) ≡ false
    → real_copy_object thing f h ≡ move_object thing (load h.memory (header_address thing)) f h
unfolding real_copy_object
real_copy_object-fresh thing f h e e' = rw (e, e')

module _ {object : ℕ → Bool} {start end mark : ℕ} {h : Heap} (addr f : ℕ)
    (v : Ready object start end mark f h) (low : start ≤ addr) (high : addr + 4 ≤ end) where
  -- The word becomes a pointer `d` to what was copied before.
  forwarded-Stepped :
      (d : ℕ)
      → d < 2 ^ 32
      → is_stob d ≡ true
      → is_old h.space d ≡ false
      → Stepped object start end mark addr f h f (record h { memory = store h.memory addr d })
  forwarded-Stepped d word stob new =
      let e = load-store h.memory addr d word in
      record {
        mono = omega arith;
        same_space = refl;
        before = λ _ x lo hi. store-out h.memory addr d x (inl hi);
        rest = λ _ x lo hi. store-out h.memory addr d x (inr lo);
        ready = λ _. store-Ready addr f v d low high;
        value = λ _. rw e new;
        plain = λ _. rw e (is_stob-plain d stob);
      }

  moved-Stepped :
      (thing hd : ℕ)
      → (old : is_old h.space thing ≡ true) → object (data_address thing) ≡ true
      → load h.memory (data_address thing - 4) ≡ hd
      → is_stob hd ≡ false
      → let r = move_object thing hd f h in
        Stepped object start end mark addr f h r.1
          (record r.2 { memory = store r.2.memory addr r.0 })
  unfolding moved move_object
  moved-Stepped thing hd old ob is_hd fresh =
      let new = 3 + (f + 4) in
      let seven : new ≡ f + 7 = omega arith in
      record {
        mono = omega arith;
        same_space = refl;
        before = λ room x lo hi.
            store-out (moved addr f v thing hd old room low high).memory addr new x (inl hi)
            ∙ move-out addr f v thing hd old room low high x (inl (omega (arith, v.frontier)))
                (outside x lo (omega (arith, high)) v.apart)
                (placed addr f v thing hd old room low high);
        rest = λ room x lo hi.
            store-out (moved addr f v thing hd old room low high).memory addr new x (inr lo)
            ∙ move-out addr f v thing hd old room low high x (inl (omega (arith, v.frontier)))
                (outside x (omega (arith, low)) hi v.apart)
                (placed addr f v thing hd old room low high);
        ready = λ room.
            store-Ready addr (f + 4 + round_up (header_length hd))
              (moved-Ready addr f v thing hd old room low high ob is_hd fresh) new low high;
        value = λ room. rw (written room, seven) (new-is_old addr f v thing hd old room low high);
        plain = λ room. rw (written room) (is_stob-plain new (ground (arith, v.whole.1)));
      }
    where
      outside :
          (x : ℕ)
          → start ≤ x
          → x < end
          → (end + 4 ≤ h.space.oldspace_begin) ⊎ (h.space.oldspace_end ≤ start)
          → (x < header_address thing) ⊎ (data_address thing ≤ x)
      outside x lo hi (inl c) = inl (ground (arith, old))
      outside x lo hi (inr c) = inr (ground (arith, old))

      written :
          (room : f + 4 + round_up (header_length hd) < h.space.limit)
          → load (store (moved addr f v thing hd old room low high).memory addr (3 + (f + 4))) addr
            ≡ 3 + (f + 4)
      written room =
          load-store (moved addr f v thing hd old room low high).memory addr (3 + (f + 4))
            (omega (arith, v.narrow, room, v.whole.1, v.aligned.0))

  pub slot-Stepped :
      has_bytes (load h.memory addr) ≡ false
      → Points object h.space (load h.memory addr)
      → let r = trace_slot addr f h in Stepped object start end mark addr f h r.0 r.1
  slot-Stepped plain_word points = elim (Bool-cases (is_old h.space (load h.memory addr))) [
    | inr new ↦ rw new (record {
      mono = omega arith;
      same_space = refl;
      before = λ _ x lo hi. refl;
      rest = λ _ x lo hi. refl;
      ready = λ _. v;
      value = λ _. new;
      plain = λ _. plain_word;
    })
    | inl old ↦
        let thing = load h.memory addr in
        let hd = load h.memory (header_address thing) in
        let ob = points old in
        let at : data_address thing - 4 ≡ header_address thing = omega arith in
        elim (Bool-cases (is_stob hd)) [
          | inl stob ↦
              rw (old, real_copy_object-forwarded thing f h stob)
                (forwarded-Stepped hd (load-lt h.memory (header_address thing) v.bytes) stob
                  (rw at at (v.forwarded (data_address thing) ob)))
          | inr fresh ↦
              rw
                (
                  old,
                  real_copy_object-fresh thing f h fresh
                      (rw at at (v.strong (data_address thing) ob)),
                )
                (moved-Stepped thing hd old ob (ap (load h.memory) at) fresh)
        ]
  ]
