-- ===== src/Heap/Trace/Extend.antt =====
-- The copy of an object in c/scheme48heap.c is sound, like what was copied before.
use kali_scheme.Prelude.{
  ℕ, zero, suc, ◌+◌, ◌-◌, ◌*◌, ◌/◌, ◌%◌, ◌^◌, ◌≤◌, ◌<◌, ◌≡◌, refl, sym, ap, subst, ◌∙◌, ◌⊎◌, inl,
  inr, Bool, true, false, arith, Bool-cases,
}
use kali_scheme.Heap.Memory.{
  load, store, memcpy-in, store-out, load-store, load-store_apart, load-memcpy_out, load-shift,
  load-lt,
}
use kali_scheme.Heap.Space.{round_up}
use kali_scheme.Heap.Copy.{
  Heap, is_stob, header_length, data_address, header_address, is_old, move_object,
}
use kali_scheme.Heap.Trace.{has_bytes}
use kali_scheme.Heap.Trace.Sound.{Sound, sound_end, sound_slot, sound_bytes, Points}
use kali_scheme.Heap.Trace.Area.{Ready}
use kali_scheme.Heap.Trace.Move.{moved, move-Ready, gap, placed}

module _ {object : ℕ → Bool} {start end mark : ℕ} {h : Heap} (addr f : ℕ)
    (v : Ready object start end mark f h) (thing hd : ℕ) (old : is_old h.space thing ≡ true)
    (room : f + 4 + round_up (header_length hd) < h.space.limit) (low : start ≤ addr)
    (high : addr + 4 ≤ end) (ob : object (data_address thing) ≡ true)
    (is_hd : load h.memory (data_address thing - 4) ≡ hd) (fresh : is_stob hd ≡ false) where
  abbrev after : Heap
  after = moved addr f v thing hd old room low high

  inside : data_address thing + header_length hd ≤ h.space.oldspace_end
  inside =
      subst (λ d. data_address thing + header_length d ≤ h.space.oldspace_end) is_hd
        (v.inside (data_address thing) ob (rw is_hd fresh))

  -- The bytes of the copy.
  move-content :
      (j : ℕ) → j < header_length hd → after.memory (f + 4 + j) ≡ h.memory (data_address thing + j)
  unfolding moved move_object
  move-content j lt =
      let m₁ = store h.memory f hd in
      let m₂ = store m₁ (header_address thing) (3 + (f + 4)) in
      let seven = placed addr f v thing hd old room low high in
      memcpy-in m₂ (f + 4) (data_address thing) (header_length hd) j lt
      ∙ store-out m₁ (header_address thing) (3 + (f + 4)) (data_address thing + j)
          (inr (omega (arith, seven)))
      ∙ store-out h.memory f hd (data_address thing + j)
          (clear (gap addr f v thing hd old room low high))
    where
      clear :
          (f + 4 + round_up (header_length hd) + 4 ≤ h.space.oldspace_begin)
            ⊎ (h.space.oldspace_end ≤ start)
          → (data_address thing + j < f) ⊎ (f + 4 ≤ data_address thing + j)
      clear (inl c) = inr (ground (arith, old, v.aligned.1))
      clear (inr c) = inl (omega (arith, inside, lt, v.frontier, low, high))

  move-header : load after.memory f ≡ hd
  unfolding moved move_object
  move-header =
      let m₁ = store h.memory f hd in
      let m₂ = store m₁ (header_address thing) (3 + (f + 4)) in
      load-memcpy_out m₂ (f + 4) (data_address thing) (header_length hd) f (inl (omega arith))
      ∙ load-store_apart m₁ (header_address thing) (3 + (f + 4)) f
          (clear (gap addr f v thing hd old room low high))
      ∙ load-store h.memory f hd (subst (λ d. d < 2 ^ 32) is_hd (load-lt h.memory _ v.bytes))
    where
      clear :
          (f + 4 + round_up (header_length hd) + 4 ≤ h.space.oldspace_begin)
            ⊎ (h.space.oldspace_end ≤ start)
          → (f + 4 ≤ header_address thing) ⊎ (header_address thing + 4 ≤ f)
      clear (inl c) = inl (ground (arith, old, v.aligned.1))
      clear (inr c) = inr (ground (arith, old, v.frontier, low, high))

  -- The words of the copy from `i` on.
  words-Sound :
      (n i : ℕ)
      → has_bytes hd ≡ false
      → i + 4 * n ≡ header_length hd
      → i % 4 ≡ 0
      → Sound object h.space after.memory (f + 4 + header_length hd) (f + 4 + i)
  words-Sound zero i plain len aligned = sound_end (f + 4 + i) (omega arith)
  words-Sound (suc n) i plain len aligned =
      let t = data_address thing in
      let even : t % 4 ≡ 0 = (v.objects t ob).1 in
      let c =
        v.content t (t + i) ob (rw is_hd fresh) (rw is_hd plain) (omega arith)
          (rw is_hd (omega (arith, len))) (omega (arith, even)) in
      let e : load after.memory (f + 4 + i) ≡ load h.memory (t + i) =
        load-shift h.memory after.memory (f + 4 + i) (t + i) (λ j lt. byte j lt) in
      let next : f + 4 + i + 4 ≡ f + 4 + (i + 4) = omega arith in
      sound_slot (f + 4 + i) (omega (arith, len)) (rw e c.0)
        (subst (Points object h.space) (sym e) c.1)
        (subst (Sound object h.space after.memory (f + 4 + header_length hd)) (sym next)
          (words-Sound n (i + 4) plain (omega (arith, len)) (omega arith)))
    where
      byte : (j : ℕ) → j < 4 → after.memory (f + 4 + i + j) ≡ h.memory (data_address thing + i + j)
      byte j lt =
          let l : f + 4 + i + j ≡ f + 4 + (i + j) = omega arith in
          let r : data_address thing + i + j ≡ data_address thing + (i + j) = omega arith in
          ap after.memory l ∙ move-content (i + j) (omega (arith, len)) ∙ ap h.memory (sym r)

  copy-Sound : Sound object h.space after.memory (f + 4 + round_up (header_length hd)) f
  copy-Sound = elim (Bool-cases (has_bytes hd)) [
    | inl skip ↦
        sound_bytes f (omega arith) (rw move-header skip)
          (sound_end _ (ap (λ d. f + 4 + round_up (header_length d)) move-header))
    | inr plain ↦
        let t = data_address thing in
        let quarter : header_length hd % 4 ≡ 0 =
          subst (λ d. header_length d % 4 ≡ 0) is_hd
            (v.cells t ob (rw is_hd fresh) (rw is_hd plain)) in
        let rounded : f + 4 + header_length hd ≡ f + 4 + round_up (header_length hd) =
          omega (arith, quarter) in
        let new : is_old h.space hd ≡ false =
          subst (λ d. is_old h.space d ≡ false) is_hd (v.forwarded t ob) in
        let start : f + 4 + 0 ≡ f + 4 = omega arith in
        sound_slot f (omega arith) (rw move-header plain)
          (λ was. absurd (both (subst (λ d. is_old h.space d ≡ true) move-header was) new))
          (subst (λ x. Sound object h.space after.memory x (f + 4)) rounded
            (subst (Sound object h.space after.memory (f + 4 + header_length hd)) start
              (words-Sound (header_length hd / 4) 0 plain (omega (arith, quarter)) refl)))
  ]
    where
      both : {b : Bool} → b ≡ true → b ≡ false → ⊥
      both e e' = cc

  -- The move keeps what the tracing relies on.
  pub moved-Ready : Ready object start end mark (f + 4 + round_up (header_length hd)) after
  moved-Ready = move-Ready addr f v thing hd old room low high copy-Sound
