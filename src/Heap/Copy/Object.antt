-- ===== src/Heap/Copy/Object.antt =====
-- What `real_copy_object` of c/scheme48heap.c does to an object that it moves.
use kali_scheme.Prelude.{
  ℕ, ◌+◌, ◌%◌, ◌^◌, ◌≤◌, ◌<◌, ◌≡◌, refl, ◌∙◌, ◌⊎◌, inl, inr, true, false, arith, ◌==◌,
}
use kali_scheme.Heap.Memory.{
  load, store, store-out, memcpy-out, memcpy-in, load-store, load-store_apart, load-memcpy_out,
}
use kali_scheme.Heap.Space.{round_up}
use kali_scheme.Heap.Copy.{
  Heap, is_stob, header_length, data_address, header_address, weak_pointer_header, move_object,
  real_copy_object,
}

-- An object that was not moved yet and is no weak pointer: the header in front of its data, with
-- room for both, and the frontier `f` clear of them.
pub record Movable (thing f : ℕ) (h : Heap) : Type 0 where
  pub header : is_stob (load h.memory (header_address thing)) ≡ false
  pub strong : (weak_pointer_header == load h.memory (header_address thing)) ≡ false
  pub tagged : thing % 4 ≡ 3
  pub placed : 7 ≤ thing
  pub word : load h.memory (header_address thing) < 2 ^ 32
  pub clear :
      (f + 4 + round_up (header_length (load h.memory (header_address thing))) + 7 ≤ thing)
      ⊎ (data_address thing + header_length (load h.memory (header_address thing)) ≤ f)

-- What a move of `thing` to the frontier `f` leaves.
pub record Moved (thing f : ℕ) (h : Heap) (r : ℕ × ℕ × Heap) : Type 0 where
  pub hd : ℕ
  pub was : load h.memory (header_address thing) ≡ hd
  pub new : r.0 ≡ f + 7
  pub frontier : r.1 ≡ f + 4 + round_up (header_length hd)
  pub same_space : r.2.space ≡ h.space
  pub header : load r.2.memory f ≡ hd
  pub forwarded : load r.2.memory (header_address thing) ≡ f + 7
  pub content :
      (i : ℕ) → i < header_length hd → r.2.memory (f + 4 + i) ≡ h.memory (data_address thing + i)
  pub rest :
      (x : ℕ)
      → (x < f) ⊎ (f + 4 + header_length hd ≤ x)
      → (x < header_address thing) ⊎ (data_address thing ≤ x)
      → r.2.memory x ≡ h.memory x

module _ (thing f : ℕ) (h : Heap) where
  move_object-Moved :
      (v : Movable thing f h)
      → f + 7 < 2 ^ 32
      → Moved thing f h (move_object thing (load h.memory (header_address thing)) f h)
  unfolding move_object
  move_object-Moved v low =
      let hd = load h.memory (header_address thing) in
      let m₁ = store h.memory f hd in
      let m₂ = store m₁ (header_address thing) (3 + (f + 4)) in
      record {
        hd = hd;
        was = refl;
        new = omega arith;
        frontier = refl;
        same_space = refl;
        header =
            load-memcpy_out m₂ (f + 4) (data_address thing) (header_length hd) f (inl (omega arith))
            ∙ load-store_apart m₁ (header_address thing) (3 + (f + 4)) f (beside v.clear)
            ∙ load-store h.memory f hd v.word;
        forwarded =
            load-memcpy_out m₂ (f + 4) (data_address thing) (header_length hd)
              (header_address thing) (behind v.clear)
            ∙ load-store m₁ (header_address thing) (3 + (f + 4)) (omega arith)
            ∙ omega arith;
        content = λ i lt.
            memcpy-in m₂ (f + 4) (data_address thing) (header_length hd) i lt
            ∙ store-out m₁ (header_address thing) (3 + (f + 4)) (data_address thing + i)
                (inr (omega arith))
            ∙ store-out h.memory f hd (data_address thing + i) (source i lt v.clear);
        rest = λ x out out'.
            memcpy-out m₂ (f + 4) (data_address thing) (header_length hd) x (beyond x out)
            ∙ store-out m₁ (header_address thing) (3 + (f + 4)) x (past x out')
            ∙ store-out h.memory f hd x (around x out);
      }
    where
      beside :
          (f + 4 + round_up (header_length (load h.memory (header_address thing))) + 7 ≤ thing)
            ⊎ (data_address thing + header_length (load h.memory (header_address thing)) ≤ f)
          → (f + 4 ≤ header_address thing) ⊎ (header_address thing + 4 ≤ f)
      beside (inl c) = inl (omega arith)
      beside (inr c) = inr (omega (arith, v.placed))

      behind :
          (f + 4 + round_up (header_length (load h.memory (header_address thing))) + 7 ≤ thing)
            ⊎ (data_address thing + header_length (load h.memory (header_address thing)) ≤ f)
          → (header_address thing + 4 ≤ f + 4)
            ⊎ (f + 4 + header_length (load h.memory (header_address thing)) ≤ header_address thing)
      behind (inl c) = inr (omega arith)
      behind (inr c) = inl (omega (arith, v.placed))

      source :
          (i : ℕ)
          → i < header_length (load h.memory (header_address thing))
          → (f + 4 + round_up (header_length (load h.memory (header_address thing))) + 7 ≤ thing)
            ⊎ (data_address thing + header_length (load h.memory (header_address thing)) ≤ f)
          → (data_address thing + i < f) ⊎ (f + 4 ≤ data_address thing + i)
      source i lt (inl c) = inr (omega arith)
      source i lt (inr c) = inl (omega arith)

      beyond :
          (x : ℕ)
          → (x < f) ⊎ (f + 4 + header_length (load h.memory (header_address thing)) ≤ x)
          → (x < f + 4) ⊎ (f + 4 + header_length (load h.memory (header_address thing)) ≤ x)
      beyond x (inl c) = inl (omega arith)
      beyond x (inr c) = inr c

      around :
          (x : ℕ)
          → (x < f) ⊎ (f + 4 + header_length (load h.memory (header_address thing)) ≤ x)
          → (x < f) ⊎ (f + 4 ≤ x)
      around x (inl c) = inl c
      around x (inr c) = inr (omega arith)

      past :
          (x : ℕ)
          → (x < header_address thing) ⊎ (data_address thing ≤ x)
          → (x < header_address thing) ⊎ (header_address thing + 4 ≤ x)
      past x (inl c) = inl c
      past x (inr c) = inr (omega (arith, v.placed))

  -- An object that was not moved yet and is no weak pointer, with its copy clear of it, is moved to
  -- the frontier: the header and the bytes of the object stand there, the frontier is behind them,
  -- the old header points to the copy, and no other byte has changed. To copy the object again,
  -- with any frontier, then gives the same copy and changes nothing.
  pub real_copy_object-Moved :
      (again : ℕ)
      → Movable thing f h
      → f % 4 ≡ 0
      → f + 7 < 2 ^ 32
      → let r = real_copy_object thing f h in
        Moved thing f h r × (real_copy_object thing again r.2 ≡ (r.0, again, r.2))
  unfolding real_copy_object
  real_copy_object-Moved again v aligned low =
      let e = runs v in
      let moved = move_object-Moved v low in
      (
        rw e moved,
        rw e (twice (move_object thing (load h.memory (header_address thing)) f h) moved),
      )
    where
      runs :
          Movable thing f h
          → real_copy_object thing f h
            ≡ move_object thing (load h.memory (header_address thing)) f h
      runs v = rw (v.header, v.strong)

      twice :
          (r : ℕ × ℕ × Heap)
          → Moved thing f h r
          → real_copy_object thing again r.2 ≡ (r.0, again, r.2)
      twice r moved =
          let tag : is_stob (f + 7) ≡ true = ground arith in rw (moved.forwarded, tag, moved.new)
