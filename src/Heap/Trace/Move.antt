-- ===== src/Heap/Trace/Move.antt =====
-- A move of an object in c/scheme48heap.c keeps what the tracing relies on.
use kali_scheme.Prelude.{
  ℕ, ◌+◌, ◌-◌, ◌%◌, ◌≤◌, ◌<◌, ◌≡◌, ap, ◌∙◌, ◌⊎◌, inl, inr, true, false, arith, ◌==◌, Bool,
  Bool-cases, ==→≡,
}
use kali_scheme.Heap.Memory.{
  load, store, store-out, memcpy-out, load-store, load-memcpy_out, load-agree_all, store-IsBytes,
  memcpy-IsBytes,
}
use kali_scheme.Heap.Space.{round_up}
use kali_scheme.Heap.Copy.{
  Heap, header_length, data_address, header_address, in_oldspace, is_old, move_object,
}
use kali_scheme.Heap.Trace.Sound.{Sound, Sound-agree, Sound-append}
use kali_scheme.Heap.Trace.Area.{Ready, Word, step-Ready}

module _ {object : ℕ → Bool} {start end mark : ℕ} {h : Heap} (addr f : ℕ)
    (v : Ready object start end mark f h) where
  -- The move of the object that `addr` points to.
  module _ (thing hd : ℕ) (old : is_old h.space thing ≡ true)
      (room : f + 4 + round_up (header_length hd) < h.space.limit) (low : start ≤ addr)
      (high : addr + 4 ≤ end) where
    unfoldable pub moved : Heap
    moved = (move_object thing hd f h).2

    pub move-out :
        (x : ℕ)
        → (x < f) ⊎ (f + 4 + round_up (header_length hd) ≤ x)
        → (x < header_address thing) ⊎ (data_address thing ≤ x)
        → 7 ≤ thing
        → moved.memory x ≡ h.memory x
    unfolding move_object moved
    move-out x out out' placed =
        let m₁ = store h.memory f hd in
        let m₂ = store m₁ (header_address thing) (3 + (f + 4)) in
        memcpy-out m₂ (f + 4) (data_address thing) (header_length hd) x (copy out)
        ∙ store-out m₁ (header_address thing) (3 + (f + 4)) x (header out')
        ∙ store-out h.memory f hd x (front out)
      where
        copy :
            (x < f) ⊎ (f + 4 + round_up (header_length hd) ≤ x)
            → (x < f + 4) ⊎ (f + 4 + header_length hd ≤ x)
        copy (inl c) = inl (omega arith)
        copy (inr c) = inr (omega arith)

        header :
            (x < header_address thing) ⊎ (data_address thing ≤ x)
            → (x < header_address thing) ⊎ (header_address thing + 4 ≤ x)
        header (inl c) = inl c
        header (inr c) = inr (omega (arith, placed))

        front : (x < f) ⊎ (f + 4 + round_up (header_length hd) ≤ x) → (x < f) ⊎ (f + 4 ≤ x)
        front (inl c) = inl c
        front (inr c) = inr (omega arith)

    pub placed : 7 ≤ thing
    placed = ground (arith, old, v.behind_null)

    -- The frontier does not run into the old space and the headers before it.
    pub gap :
        (f + 4 + round_up (header_length hd) + 4 ≤ h.space.oldspace_begin)
        ⊎ (h.space.oldspace_end ≤ start)
    gap = wide v.above
      where
        wide :
            (h.space.limit ≤ h.space.oldspace_begin) ⊎ (h.space.oldspace_end ≤ start)
            → (f + 4 + round_up (header_length hd) + 4 ≤ h.space.oldspace_begin)
              ⊎ (h.space.oldspace_end ≤ start)
        wide (inl c) = inl (omega (arith, room, v.whole.1, v.aligned.0))
        wide (inr c) = inr c

    -- The word in front of an old address: only the header of the moved object changes.
    pub move-header_other :
        (a : ℕ)
        → in_oldspace h.space a ≡ true
        → (a + 4 ≤ data_address thing) ⊎ (data_address thing + 4 ≤ a)
        → load moved.memory (a - 4) ≡ load h.memory (a - 4)
    move-header_other a is ne =
        load-agree_all h.memory moved.memory (a - 4)
          (λ x lo hi. move-out x (clear x lo hi gap) (other x lo hi ne) placed)
      where
        clear :
            (x : ℕ)
            → a - 4 ≤ x
            → x < a - 4 + 4
            → (f + 4 + round_up (header_length hd) + 4 ≤ h.space.oldspace_begin)
              ⊎ (h.space.oldspace_end ≤ start)
            → (x < f) ⊎ (f + 4 + round_up (header_length hd) ≤ x)
        clear x lo hi (inl c) = inr (ground (arith, is))
        clear x lo hi (inr c) = inl (ground (arith, is, v.frontier, v.behind_null))

        other :
            (x : ℕ)
            → a - 4 ≤ x
            → x < a - 4 + 4
            → (a + 4 ≤ data_address thing) ⊎ (data_address thing + 4 ≤ a)
            → (x < header_address thing) ⊎ (data_address thing ≤ x)
        other x lo hi (inl c) = inl (ground (arith, is, v.behind_null))
        other x lo hi (inr c) = inr (ground (arith, is, v.behind_null))

    pub move-header_same : load moved.memory (header_address thing) ≡ f + 7
    unfolding move_object moved
    move-header_same =
        let m₁ = store h.memory f hd in
        let m₂ = store m₁ (header_address thing) (3 + (f + 4)) in
        load-memcpy_out m₂ (f + 4) (data_address thing) (header_length hd) (header_address thing)
          (clear gap)
        ∙ load-store m₁ (header_address thing) (3 + (f + 4))
            (omega (arith, v.narrow, room, v.whole.1, v.aligned.0))
        ∙ omega arith
      where
        clear :
            (f + 4 + round_up (header_length hd) + 4 ≤ h.space.oldspace_begin)
              ⊎ (h.space.oldspace_end ≤ start)
            → (header_address thing + 4 ≤ f + 4) ⊎ (f + 4 + header_length hd ≤ header_address thing)
        clear (inl c) = inr (ground (arith, old, v.aligned.1))
        clear (inr c) = inl (ground (arith, old, v.frontier, low, high))

    pub new-is_old : is_old h.space (f + 7) ≡ false
    new-is_old = wide gap
      where
        wide :
            (f + 4 + round_up (header_length hd) + 4 ≤ h.space.oldspace_begin)
              ⊎ (h.space.oldspace_end ≤ start)
            → is_old h.space (f + 7) ≡ false
        wide (inl c) = ground arith
        wide (inr c) = ground (arith, v.frontier, low, high)

    moved-header_cases :
        (a : ℕ)
        → in_oldspace h.space a ≡ true
        → a % 4 ≡ 0
        → (load moved.memory (a - 4) ≡ f + 7) ⊎ (load moved.memory (a - 4) ≡ load h.memory (a - 4))
    moved-header_cases a is even = elim (Bool-cases (a == data_address thing)) [
      | inl t ↦
          let same : a - 4 ≡ header_address thing = ground arith in
          inl (ap (load moved.memory) same ∙ move-header_same)
      | inr t ↦ inr (move-header_other a is (ground (arith, old)))
    ]

    -- A word of the old space: only the header of the moved object changes.
    moved-Word :
        (x : ℕ)
        → h.space.oldspace_begin ≤ x
        → x + 4 ≤ h.space.oldspace_end
        → x % 4 ≡ 0
        → Word h.space (load h.memory x) (load moved.memory x)
    moved-Word x lo hi aligned = elim (Bool-cases (x == header_address thing)) [
      | inl t ↦
          let e : load moved.memory x ≡ f + 7 =
            rw (==→≡ x (header_address thing) t) move-header_same in
          inr (rw e (ground (arith, v.whole.1)), rw e new-is_old)
      | inr t ↦ inl (
          load-agree_all h.memory moved.memory x
            (λ y l u. move-out y (clear y l u gap) (other y l u (ground (arith, t, old))) placed))
    ]
      where
        clear :
            (y : ℕ)
            → x ≤ y
            → y < x + 4
            → (f + 4 + round_up (header_length hd) + 4 ≤ h.space.oldspace_begin)
              ⊎ (h.space.oldspace_end ≤ start)
            → (y < f) ⊎ (f + 4 + round_up (header_length hd) ≤ y)
        clear y l u (inl c) = inr (omega arith)
        clear y l u (inr c) = inl (omega (arith, v.frontier))

        other :
            (y : ℕ)
            → x ≤ y
            → y < x + 4
            → (x + 4 ≤ header_address thing) ⊎ (data_address thing ≤ x)
            → (y < header_address thing) ⊎ (data_address thing ≤ y)
        other y l u (inl c) = inl (omega arith)
        other y l u (inr c) = inr (omega arith)

    -- What was copied before stays.
    copied-before : Sound object h.space moved.memory f mark
    copied-before =
        Sound-agree object h.space h.memory moved.memory mark f mark
          (λ x lo hi. move-out x (inl hi) (clear x lo hi gap) placed) (omega arith) v.copied
      where
        clear :
            (x : ℕ)
            → mark ≤ x
            → x < f
            → (f + 4 + round_up (header_length hd) + 4 ≤ h.space.oldspace_begin)
              ⊎ (h.space.oldspace_end ≤ start)
            → (x < header_address thing) ⊎ (data_address thing ≤ x)
        clear x lo hi (inl c) = inl (ground (arith, old))
        clear x lo hi (inr c) = inr (ground (arith, old, v.marked.0))

    pub move-Ready :
        Sound object h.space moved.memory (f + 4 + round_up (header_length hd)) f
        → Ready object start end mark (f + 4 + round_up (header_length hd)) moved
    unfolding moved move_object
    move-Ready copy =
        step-Ready addr f v (f + 4 + round_up (header_length hd)) moved.memory (omega arith)
          (omega (arith, v.whole.1))
          (memcpy-IsBytes _ (f + 4) (data_address thing) (header_length hd) (
            store-IsBytes _ (header_address thing) (3 + (f + 4))
              (store-IsBytes h.memory f hd v.bytes)))
          (λ a ob. elim (moved-header_cases a (v.objects a ob).0 (v.objects a ob).1) [
            | inl e ↦ inr (rw e (ground (arith, v.whole.1)), rw e new-is_old)
            | inr e ↦ inl e
          ])
          moved-Word
          (Sound-append object h.space moved.memory f _ mark (omega arith) copied-before copy)
