-- ===== src/Heap/Find/Vector.antt =====
-- The vector that `find_all` and `find_all_records` of c/scheme48heap.c return.
use kali_scheme.Prelude.{
  ℕ, ◌+◌, ◌-◌, ◌*◌, ◌^◌, ◌≤◌, ◌<◌, ◌≡◌, ap, ◌∙◌, inl, inr, List, [], ◌∷◌, arith, length,
}
use kali_scheme.Heap.Memory.{Memory, load, store, store-out, load-store, load-agree_all}
use kali_scheme.Heap.Copy.{Heap}
use kali_scheme.Heap.Trace.{Run, finished}
use kali_scheme.Heap.Find.{Wanted, push, find_areas, find_objects}
use kali_scheme.Heap.Find.Found.{Objects, Objects-agree, Listed, find_in-Found}

Listed-agree :
    (m m₁ : Memory) (p : ℕ) (ws : List ℕ)
    → ((x : ℕ) → p ≤ x → m₁ x ≡ m x)
    → Listed m p ws
    → Listed m₁ p ws
Listed-agree m m₁ p [] same l = tt
Listed-agree m m₁ p (w ∷ ws) same l = (
  load-agree_all m m₁ p (λ x lo hi. same x lo) ∙ l.0,
  Listed-agree m m₁ (p + 4) ws (λ x lo. same x (omega arith)) l.1,
)

-- A vector at the old heap pointer with the objects at the addresses of the list, and below it what
-- was there.
pub record Vector (h : Heap) (ws : List ℕ) (r : Run (ℕ × Heap)) : Type 0 where
  pub after : Heap
  pub run : r ≡ finished (h.space.hp + 7, after)
  pub header : load after.memory h.space.hp ≡ 10 + 4 * length ws * 2 ^ 8
  pub listed : Listed after.memory (h.space.hp + 4) ws
  pub hp : after.space.hp ≡ h.space.hp + 4 + 4 * length ws
  pub below : (x : ℕ) → x < h.space.hp → after.memory x ≡ h.memory x

-- Without static areas, when the new space up to the heap pointer is a row of objects, there is room
-- for the objects that are wanted, and a vector can have their number, the search, with more
-- fuel than the space has bytes, returns a vector at the old heap pointer with exactly the wanted
-- objects in the order of their addresses, and changes nothing below it.
pub find_objects-Vector :
    (fuel : ℕ) (wanted : Wanted) (h : Heap) (ws : List ℕ)
    → Objects wanted h.memory h.space.hp h.space.newspace_begin ws
    → h.space.hp + 4 * length ws + 20 ≤ h.space.limit
    → h.space.limit < 2 ^ 32
    → 4 * length ws + 4 < 2 ^ 24
    → h.space.hp - h.space.newspace_begin < fuel
    → Vector h ws (find_objects fuel wanted [] [] h)
unfolding find_objects find_areas
find_objects-Vector fuel wanted h ws objects room small short enough =
    let start = h.space.hp in
    let h₁ = push 0 h in
    let same = λ (x : ℕ). λ (lt : x < start). store-out h.memory start 0 x (inl lt) in
    let r =
      find_in-Found wanted fuel h.space.newspace_begin start h₁ ws
        (Objects-agree wanted h.memory h₁.memory start h.space.newspace_begin ws same objects)
        (omega arith) (omega arith) small enough in
    let size : r.after.space.hp - (start + 4) ≡ 4 * length ws = omega (arith, r.hp) in
    let hd = 10 + (r.after.space.hp - (start + 4)) * 2 ^ 8 in
    let result = record r.after { memory = store r.after.memory start hd } in
    record {
      after = record r.after { memory = store r.after.memory start hd };
      run = rw r.run (ap (λ d. finished (d, result)) (omega arith));
      header =
          load-store r.after.memory start hd (omega (arith, size)) ∙ ap (λ n. 10 + n * 2 ^ 8) size;
      listed =
          Listed-agree r.after.memory (store r.after.memory start hd) (start + 4) ws
            (λ x lo. store-out r.after.memory start hd x (inr lo)) r.listed;
      hp = r.hp;
      below = λ x lt.
          store-out r.after.memory start hd x (inl lt) ∙ r.below x (omega arith) ∙ same x lt;
    }
