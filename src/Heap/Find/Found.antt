-- ===== src/Heap/Find/Found.antt =====
-- `find_all` and `find_all_records` of c/scheme48heap.c find all objects of their kind.
use kali_scheme.Prelude.{
  ℕ, zero, suc, ◌+◌, ◌-◌, ◌*◌, ◌^◌, ◌≤◌, ◌<◌, ◌≡◌, refl, sym, subst, ◌∙◌, inl, Bool, true, false,
  List, [], ◌∷◌, arith, length, ltb,
}
use kali_scheme.Heap.Memory.{Memory, load, store-out, load-store, load-agree_all}
use kali_scheme.Heap.Space.{round_up}
use kali_scheme.Heap.Copy.{Heap, is_header, header_length}
use kali_scheme.Heap.Trace.{Run, finished}
use kali_scheme.Heap.Find.{Wanted, push, find_in}

-- The area from an address to `end` is a row of objects, of which those with their headers at the
-- addresses of the list are wanted, by what stands below `end`.
pub data Objects (wanted : Wanted) (m : Memory) (end : ℕ) : ℕ → List ℕ → Type 0 where
  at_end : (a : ℕ) → end ≤ a → Objects wanted m end a []
  other :
      (a : ℕ) (ws : List ℕ)
      → a + 4 ≤ end
      → is_header (load m a) ≡ true
      → ((m' : Memory) → ((x : ℕ) → x < end → m' x ≡ m x) → wanted m' a ≡ false)
      → Objects wanted m end (a + (4 + round_up (header_length (load m a)))) ws
      → Objects wanted m end a ws
  found :
      (a : ℕ) (ws : List ℕ)
      → a + 4 ≤ end
      → is_header (load m a) ≡ true
      → ((m' : Memory) → ((x : ℕ) → x < end → m' x ≡ m x) → wanted m' a ≡ true)
      → Objects wanted m end (a + (4 + round_up (header_length (load m a)))) ws
      → Objects wanted m end a (a ∷ ws)

pub Objects-agree :
    (wanted : Wanted) (m m₁ : Memory) (end a : ℕ) (ws : List ℕ)
    → ((x : ℕ) → x < end → m₁ x ≡ m x)
    → Objects wanted m end a ws
    → Objects wanted m₁ end a ws
Objects-agree wanted m m₁ end a ws same (at_end _ h) = at_end a h
Objects-agree wanted m m₁ end a ws same (other _ _ le hd w rest) =
    let e : load m₁ a ≡ load m a = load-agree_all m m₁ a (λ x lo hi. same x (omega arith)) in
    other a ws le (rw e hd) (λ m' s. w m' (λ x lt. s x lt ∙ same x lt))
      (subst (λ d. Objects wanted m₁ end (a + (4 + round_up (header_length d))) ws) (sym e)
        (Objects-agree wanted m m₁ end _ ws same rest))
Objects-agree wanted m m₁ end a ws same (found _ ws' le hd w rest) =
    let e : load m₁ a ≡ load m a = load-agree_all m m₁ a (λ x lo hi. same x (omega arith)) in
    found a ws' le (rw e hd) (λ m' s. w m' (λ x lt. s x lt ∙ same x lt))
      (subst (λ d. Objects wanted m₁ end (a + (4 + round_up (header_length d))) ws') (sym e)
        (Objects-agree wanted m m₁ end _ ws' same rest))

-- From `p` on stand the objects with their headers at the addresses of the list.
abbrev pub Listed : Memory → ℕ → List ℕ → Type 0
Listed m p [] = Unit {0}
Listed m p (w ∷ ws) = (load m p ≡ 3 + (w + 4)) × Listed m (p + 4) ws

-- What a search leaves: the objects at the old heap pointer, and below it what was there.
pub record Found (h : Heap) (ws : List ℕ) (r : Run (Bool × Heap)) : Type 0 where
  pub after : Heap
  pub run : r ≡ finished (true, after)
  pub hp : after.space.hp ≡ h.space.hp + 4 * length ws
  pub limit : after.space.limit ≡ h.space.limit
  pub below : (x : ℕ) → x < h.space.hp → after.memory x ≡ h.memory x
  pub listed : Listed after.memory h.space.hp ws

module _ (wanted : Wanted) where
  find_in-stop :
      (k a end : ℕ) (h : Heap)
      → ltb a end ≡ false
      → find_in (suc k) wanted a end h ≡ finished (true, h)
  unfolding find_in
  find_in-stop k a end h stop = rw (stop, find_in)

  find_in-other :
      (k a end : ℕ) (h : Heap)
      → ltb a end ≡ true
      → is_header (load h.memory a) ≡ true
      → wanted h.memory a ≡ false
      → find_in (suc k) wanted a end h
        ≡ find_in k wanted (a + (4 + round_up (header_length (load h.memory a)))) end h
  unfolding find_in
  find_in-other k a end h more hd w = rw (more, find_in, hd, w)

  find_in-found :
      (k a end : ℕ) (h : Heap)
      → ltb a end ≡ true
      → is_header (load h.memory a) ≡ true
      → wanted h.memory a ≡ true
      → ltb (h.space.hp + 16) h.space.limit ≡ true
      → find_in (suc k) wanted a end h
        ≡ find_in k wanted
            (a + (4 + round_up (header_length (load h.memory a))))
            end
            (push (3 + (a + 4)) h)
  unfolding find_in
  find_in-found k a end h more hd w room = rw (more, find_in, hd, w, room)

  pub find_in-Found :
      (k a end : ℕ) (h : Heap) (ws : List ℕ)
      → Objects wanted h.memory end a ws
      → end ≤ h.space.hp
      → h.space.hp + 4 * length ws + 16 ≤ h.space.limit
      → h.space.limit < 2 ^ 32
      → end - a < k
      → Found h ws (find_in k wanted a end h)
  find_in-Found zero a end h ws objects low room small fuel = absurd (omega arith)
  find_in-Found (suc k) a end h ws (at_end _ le) low room small fuel = record {
    after = h;
    run = find_in-stop k a end h (ground arith);
    hp = omega arith;
    limit = refl;
    below = λ x lt. refl;
    listed = tt;
  }
  find_in-Found (suc k) a end h ws (other _ _ le hd w rest) low room small fuel =
      let r = find_in-Found k _ end h ws rest low room small (omega arith) in
      record {
        after = r.after;
        run = find_in-other k a end h (ground arith) hd (w h.memory (λ x lt. refl)) ∙ r.run;
        hp = r.hp;
        limit = r.limit;
        below = r.below;
        listed = r.listed;
      }
  find_in-Found (suc k) a end h ws (found _ ws' le hd w rest) low room small fuel =
      let d = 3 + (a + 4) in
      let h₁ = push d h in
      let same = λ (x : ℕ). λ (lt : x < h.space.hp). store-out h.memory h.space.hp d x (inl lt) in
      let r =
        find_in-Found k _ end h₁ ws'
          (Objects-agree wanted h.memory h₁.memory end _ ws' (λ x lt. same x (omega arith)) rest)
          (omega arith) (omega arith) small (omega arith) in
      record {
        after = r.after;
        run =
            find_in-found k a end h (ground arith) hd (w h.memory (λ x lt. refl)) (ground arith)
            ∙ r.run;
        hp = omega (arith, r.hp);
        limit = r.limit;
        below = λ x lt. r.below x (omega arith) ∙ same x lt;
        listed = (
          load-agree_all h₁.memory r.after.memory h.space.hp (λ x lo hi. r.below x (omega arith))
              ∙ load-store h.memory h.space.hp d (omega arith),
          r.listed,
        );
      }
