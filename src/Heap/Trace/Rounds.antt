-- ===== src/Heap/Trace/Rounds.antt =====
-- The rounds of tracing in c/scheme48heap.c end with a new space that does not refer to the old one.
use kali_scheme.Prelude.{
  Bool, ℕ, zero, suc, ◌+◌, ◌-◌, ◌%◌, ◌≤◌, ◌<◌, ◌≡◌, refl, subst, ◌∙◌, ◌⊎◌, inl, inr, true, false,
  arith, ltb, Bool-cases,
}
use kali_scheme.Heap.Space.{Space}
use kali_scheme.Heap.Copy.{Heap}
use kali_scheme.Heap.Trace.{finished, no_space, trace_locations, trace_new}
use kali_scheme.Heap.Trace.Sound.{Sound, sound_end}
use kali_scheme.Heap.Trace.Area.{Clean, Ready}
use kali_scheme.Heap.Trace.Loop.{Cleaned, trace-Cleaned}
use kali_scheme.Heap.Trace.Parts.{Same, Clean-append, Clean-agree, Cleaned-Same}

-- The next round traces what was copied.
next-Ready :
    (object : ℕ → Bool) (start end mark : ℕ) (h : Heap)
    → h.space.hp < h.space.limit
    → Ready object start end mark h.space.hp h
    → Ready object start h.space.hp h.space.hp h.space.hp h
next-Ready object start end mark h room v = record {
  frontier = omega arith;
  marked = (omega arith, omega arith);
  behind_null = v.behind_null;
  whole = (v.whole.1, v.whole.1);
  apart = clear v.above;
  above = v.above;
  aligned = v.aligned;
  narrow = v.narrow;
  bytes = v.bytes;
  objects = v.objects;
  forwarded = v.forwarded;
  strong = v.strong;
  inside = v.inside;
  cells = v.cells;
  content = v.content;
  copied = sound_end h.space.hp refl;
}
  where
    clear :
        (h.space.limit ≤ h.space.oldspace_begin) ⊎ (h.space.oldspace_end ≤ start)
        → (h.space.hp + 4 ≤ h.space.oldspace_begin) ⊎ (h.space.oldspace_end ≤ start)
    clear (inl c) = inl (omega (arith, room, v.whole.1, v.aligned.0))
    clear (inr c) = inr c

-- What the rounds from `a` on leave: all of the new space is clean, and below `a` nothing changed.
pub record Traced (s : Space) (start a : ℕ) (h h' : Heap) : Type 0 where
  pub room : h'.space.hp < s.limit
  pub weak : h'.space.weak_pointer_hp ≡ s.weak_pointer_hp
  pub clean : Clean s h'.memory h'.space.hp a
  pub before : (x : ℕ) → start ≤ x → x < a → h'.memory x ≡ h.memory x

module _ {object : ℕ → Bool} {start : ℕ} (s : Space) where
  again :
      (a : ℕ) (h h₁ h' : Heap)
      → Cleaned object h.space.hp s start h.space.hp a h h₁
      → a ≤ h.space.hp
      → start ≤ a
      → a % 4 ≡ 0
      → h.space.hp % 4 ≡ 0
      → h.space.hp ≤ h'.space.hp
      → Traced s start h.space.hp h₁ h'
      → Traced s start a h h'
  again a h h₁ h' done up low even even' up' rest = record {
    room = rest.room;
    weak = rest.weak;
    clean =
        Clean-append s h'.memory h.space.hp h'.space.hp a up'
          (Clean-agree s h₁.memory h'.memory start h.space.hp a rest.before even' even low
            done.clean)
          rest.clean;
    before = λ x lo hi. rest.before x lo (omega arith) ∙ done.before x lo hi;
  }

trace_new-over :
    (k a : ℕ) (h h₁ : Heap)
    → trace_locations a h.space.hp h ≡ finished h₁
    → ltb h₁.space.hp h₁.space.limit ≡ false
    → trace_new (suc k) a h ≡ no_space
unfolding trace_new
trace_new-over k a h h₁ run full = rw (trace_new, run, full)

trace_new-done :
    (k a : ℕ) (h h₁ : Heap)
    → trace_locations a h.space.hp h ≡ finished h₁
    → ltb h₁.space.hp h₁.space.limit ≡ true
    → ltb h.space.hp h₁.space.hp ≡ false
    → trace_new (suc k) a h ≡ finished h₁
unfolding trace_new
trace_new-done k a h h₁ run room none = rw (trace_new, run, room, none)

trace_new-more :
    (k a : ℕ) (h h₁ : Heap)
    → trace_locations a h.space.hp h ≡ finished h₁
    → ltb h₁.space.hp h₁.space.limit ≡ true
    → ltb h.space.hp h₁.space.hp ≡ true
    → trace_new (suc k) a h ≡ trace_new k h.space.hp h₁
unfolding trace_new
trace_new-more k a h h₁ run room some = rw (trace_new, run, room, some)

module _ {object : ℕ → Bool} {start : ℕ} (s : Space) where
  -- From a heap pointer below `k` words under the limit the rounds end.
  pub trace_new-Traced :
      (k a : ℕ) (h : Heap)
      → Same s h.space
      → Ready object start h.space.hp h.space.hp h.space.hp h
      → Sound object h.space h.memory h.space.hp a
      → start ≤ a
      → a ≤ h.space.hp
      → a % 4 ≡ 0
      → s.limit - h.space.hp < k
      → (trace_new k a h ≡ no_space)
        ⊎ ((h' : Heap) × (trace_new k a h ≡ finished h')
            × (h.space.hp ≤ h'.space.hp)
            × Traced s start a h h')
  unfolding trace_locations
  trace_new-Traced zero a h same v sound low up even fuel = absurd (omega arith)
  trace_new-Traced (suc k) a h same v sound low up even fuel =
      let hp = h.space.hp in
      let (h₁, run, grown, lim, done) =
        trace-Cleaned (suc (hp - a)) a hp hp h h.space refl v sound low even (omega arith) in
      elim (Bool-cases (ltb h₁.space.hp h₁.space.limit)) [
        | inr full ↦ inl (trace_new-over k a h h₁ run full)
        | inl room ↦
            let c = cleaned h₁ lim room done in
            elim (Bool-cases (ltb hp h₁.space.hp)) [
              | inr none ↦ inr (traced_last h₁ run grown lim room none c)
              | inl more ↦
                  let same₁ : Same s h₁.space = record {
                    limit = lim ∙ same.limit;
                    begins = c.same_old.0;
                    ends = c.same_old.1;
                    weak = c.weak;
                  } in
                  traced_more h₁ run room more c (
                    trace_new-Traced k hp h₁ same₁
                      (next-Ready object start hp hp h₁ (ground (arith, room)) c.ready)
                      c.ready.copied (omega arith) grown v.whole.1
                      (ground (arith, fuel, more, room, lim, same.limit)))
            ]
      ]
    where
      cleaned :
          (h₁ : Heap)
          → h₁.space.limit ≡ h.space.limit
          → ltb h₁.space.hp h₁.space.limit ≡ true
          → (h.space.limit ≤ h₁.space.hp)
            ⊎ Cleaned object h.space.hp h.space start h.space.hp a h h₁
          → Cleaned object h.space.hp s start h.space.hp a h h₁
      cleaned h₁ lim room (inl over) = absurd (ground (arith, lim, room, over))
      cleaned h₁ lim room (inr c) = Cleaned-Same s h.space h.space.hp a h h₁ same c

      traced_more :
          (h₁ : Heap)
          → trace_locations a h.space.hp h ≡ finished h₁
          → ltb h₁.space.hp h₁.space.limit ≡ true
          → ltb h.space.hp h₁.space.hp ≡ true
          → Cleaned object h.space.hp s start h.space.hp a h h₁
          → (trace_new k h.space.hp h₁ ≡ no_space)
            ⊎ ((h' : Heap) × (trace_new k h.space.hp h₁ ≡ finished h')
                × (h₁.space.hp ≤ h'.space.hp)
                × Traced s start h.space.hp h₁ h')
          → (trace_new (suc k) a h ≡ no_space)
            ⊎ ((h' : Heap) × (trace_new (suc k) a h ≡ finished h')
                × (h.space.hp ≤ h'.space.hp)
                × Traced s start a h h')
      traced_more h₁ run room more c (inl full) = inl (trace_new-more k a h h₁ run room more ∙ full)
      traced_more h₁ run room more c (inr (h', run', grown, t)) = inr (
        h',
        trace_new-more k a h h₁ run room more ∙ run',
        ground (arith, more, grown),
        again s a h h₁ h' c up low even v.whole.1 (ground (arith, more, grown)) t,
      )

      traced_last :
          (h₁ : Heap)
          → trace_locations a h.space.hp h ≡ finished h₁
          → h.space.hp ≤ h₁.space.hp
          → h₁.space.limit ≡ h.space.limit
          → ltb h₁.space.hp h₁.space.limit ≡ true
          → ltb h.space.hp h₁.space.hp ≡ false
          → Cleaned object h.space.hp s start h.space.hp a h h₁
          → (h' : Heap) × (trace_new (suc k) a h ≡ finished h')
            × (h.space.hp ≤ h'.space.hp)
            × Traced s start a h h'
      traced_last h₁ run grown lim room none c = (
        h₁,
        trace_new-done k a h h₁ run room none,
        grown,
        record {
          room = ground (arith, room, lim, same.limit);
          weak = c.weak;
          clean =
              subst (λ (end : ℕ). Clean s h₁.memory end a) (ground (arith, none, grown)) c.clean;
          before = c.before;
        },
      )

-- From an area of whole words up to the heap pointer that is ready for tracing and whose words, like
-- those of the objects in the old space, point to objects if they point to the old space, the rounds
-- end for fuel above the distance to the limit: either the new space ran out, or the heap pointer is
-- still below the limit, and from `start` to it the new space consists of descriptors that do not
-- point to the old space and of byte vectors.
pub trace_new-Clean :
    (object : ℕ → Bool) (k start : ℕ) (h : Heap)
    → Ready object start h.space.hp h.space.hp h.space.hp h
    → Sound object h.space h.memory h.space.hp start
    → start ≤ h.space.hp
    → start % 4 ≡ 0
    → h.space.limit - h.space.hp < k
    → (trace_new k start h ≡ no_space)
      ⊎ ((h' : Heap) × (trace_new k start h ≡ finished h')
          × (h'.space.hp < h.space.limit)
          × (h'.space.weak_pointer_hp ≡ h.space.weak_pointer_hp)
          × Clean h.space h'.memory h'.space.hp start)
trace_new-Clean object k start h v sound up even fuel = shown (
    trace_new-Traced h.space k start h
      (record { limit = refl; begins = refl; ends = refl; weak = refl }) v sound (omega arith) up
      even fuel)
  where
    shown :
        (trace_new k start h ≡ no_space)
          ⊎ ((h' : Heap) × (trace_new k start h ≡ finished h')
              × (h.space.hp ≤ h'.space.hp)
              × Traced h.space start start h h')
        → (trace_new k start h ≡ no_space)
          ⊎ ((h' : Heap) × (trace_new k start h ≡ finished h')
              × (h'.space.hp < h.space.limit)
              × (h'.space.weak_pointer_hp ≡ h.space.weak_pointer_hp)
              × Clean h.space h'.memory h'.space.hp start)
    shown (inl full) = inl full
    shown (inr (h', run, _, t)) = inr (h', run, t.room, t.weak, t.clean)
