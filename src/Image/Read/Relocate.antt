-- ===== src/Image/Read/Relocate.antt =====
-- The loop of `read_image` of c/scheme48heap.c that moves the addresses of an image.
use kali_scheme.Prelude.{
  ℕ, zero, suc, ◌+◌, ◌-◌, ◌%◌, ◌^◌, ◌≤◌, ◌<◌, ◌≡◌, ◌≢◌, ◌⊎◌, refl, sym, ap, subst, ◌∙◌, inl, inr,
  true, false, Option, some, ◌&&◌, arith, ltb, leb, ◌==◌, Bool-cases,
}
use kali_scheme.Heap.Memory.{
  Memory, load, store, store-out, load-store, load-agree_all, IsBytes, load-lt, store-IsBytes,
  store-load_same,
}
use kali_scheme.Heap.Space.{round_up}
use kali_scheme.Heap.Copy.{is_stob, header_length}
use kali_scheme.Heap.Trace.{has_bytes}
use kali_scheme.Image.Read.{next_word, moved_by, relocate}

-- What becomes of a word: the address of an object, which has the tag 3, is further by `delta`, modulo
-- 2^32, and any other word stays.
abbrev pub WordMoved : (delta d d' : ℕ) → Type 0
WordMoved delta d d' = ((d % 4 ≡ 3) × (d' ≡ (d + delta) % 2 ^ 32)) ⊎ ((d % 4 ≢ 3) × (d' ≡ d))

-- The words of an area, outside of objects without descriptors, are moved by `delta`; such objects
-- are as they were.
pub data Relocated (delta : ℕ) (m m' : Memory) (end : ℕ) : ℕ → Type 0 where
  area_end : (a : ℕ) → end ≤ a → Relocated delta m m' end a
  slot :
      (a : ℕ)
      → a < end
      → has_bytes (load m a) ≡ false
      → WordMoved delta (load m a) (load m' a)
      → Relocated delta m m' end (a + 4)
      → Relocated delta m m' end a
  contents :
      (a : ℕ)
      → a < end
      → has_bytes (load m a) ≡ true
      → ((x : ℕ) → a ≤ x → x < a + 4 + round_up (header_length (load m a)) → m' x ≡ m x)
      → Relocated delta m m' end (a + 4 + round_up (header_length (load m a)))
      → Relocated delta m m' end a

Relocated-agree :
    (delta end : ℕ) (m m₁ m' : Memory) (a : ℕ)
    → ((x : ℕ) → a ≤ x → m₁ x ≡ m x)
    → Relocated delta m₁ m' end a
    → Relocated delta m m' end a
Relocated-agree delta end m m₁ m' a same (area_end _ h) = area_end a h
Relocated-agree delta end m m₁ m' a same (slot _ lt word moved rest) =
    let e : load m₁ a ≡ load m a = load-agree_all m m₁ a (λ x lo hi. same x lo) in
    slot a lt (rw (sym e) word) (subst (λ d. WordMoved delta d (load m' a)) e moved)
      (Relocated-agree delta end m m₁ m' (a + 4) (λ x lo. same x (omega arith)) rest)
Relocated-agree delta end m m₁ m' a same (contents _ lt skip kept rest) =
    let e : load m₁ a ≡ load m a = load-agree_all m m₁ a (λ x lo hi. same x lo) in
    contents a lt (rw (sym e) skip) (λ x lo hi. kept x lo (rw e hi) ∙ same x lo)
      (subst (λ d. Relocated delta m m' end (a + 4 + round_up (header_length d))) e
        (Relocated-agree delta end m m₁ m' (a + 4 + round_up (header_length (load m₁ a)))
          (λ x lo. same x (omega arith)) rest))

moved_by-WordMoved : (delta d d' : ℕ) → d' ≡ moved_by delta d → WordMoved delta d d'
moved_by-WordMoved delta d d' e = elim (Bool-cases (is_stob d)) [
  | inl stob ↦ inl (ground (arith, stob), ground (arith, stob, e))
  | inr other ↦ inr (ground (arith, other), ground (arith, other, e))
]

moved_by-lt : (delta d : ℕ) → d < 2 ^ 32 → moved_by delta d < 2 ^ 32
moved_by-lt delta d h = ground (arith, h)

-- A move by whole words keeps the tag of an address.
has_bytes-moved_by : (delta d : ℕ) → delta % 4 ≡ 0 → has_bytes (moved_by delta d) ≡ has_bytes d
has_bytes-moved_by delta d even = elim (Bool-cases (is_stob d)) [
  | inl stob ↦
      let old : (2 == d % 4) ≡ false = ground (arith, stob) in
      let new : (2 == (3 + (d - 3 + delta)) % 2 ^ 32 % 4) ≡ false = ground (arith, stob, even) in
      rw (stob, old, new) refl
  | inr other ↦ rw other refl
]

moved_by-header : (delta d : ℕ) → has_bytes d ≡ true → moved_by delta d ≡ d
moved_by-header delta d skip = let other : is_stob d ≡ false = ground (arith, skip) in rw other refl

-- A word that is written again changes nothing.
store-load : (m : Memory) (a x : ℕ) → IsBytes m → store m a (load m a) x ≡ m x
store-load m a x b = elim (Bool-cases (leb a x && ltb x (a + 4))) [
  | inl word ↦ store-load_same m m a x b (ground (arith, word)) (ground (arith, word))
  | inr out ↦ store-out m a (load m a) x (ground (arith, out))
]

relocate-stop :
    (k delta a end : ℕ) (m : Memory) → ltb a end ≡ false → relocate (suc k) delta a end m ≡ some m
unfolding relocate
relocate-stop k delta a end m stop = rw (stop, relocate)

relocate-step :
    (k delta a end : ℕ) (m : Memory)
    → ltb a end ≡ true
    → relocate (suc k) delta a end m
      ≡ relocate k delta
          (next_word a (moved_by delta (load m a)))
          end
          (store m a (moved_by delta (load m a)))
unfolding relocate
relocate-step k delta a end m more = rw (more, relocate)

-- What the loop makes of the area from `a` to `end`; in front of it and behind it nothing changes.
pub record Moved (delta : ℕ) (m : Memory) (a end : ℕ) (r : Option Memory) : Type 0 where
  pub after : Memory
  pub run : r ≡ some after
  pub area : Relocated delta m after end a
  pub front : (x : ℕ) → x < a → after x ≡ m x
  pub behind : (x : ℕ) → end ≤ x → after x ≡ m x

-- When the area from `a` to `end` starts and ends at whole words, and the distance `delta` is of whole
-- words, the loop of `read_image` that moves addresses, with more fuel than the area has bytes, ends:
-- each word of the area outside of objects without descriptors is moved by `delta`, if it is the
-- address of an object, and is as it was otherwise; the contents of objects without descriptors
-- and what is outside of the area stay.
pub relocate-Moved :
    (k delta a end : ℕ) (m : Memory)
    → IsBytes m
    → delta % 4 ≡ 0
    → a % 4 ≡ 0
    → end % 4 ≡ 0
    → end - a < k
    → Moved delta m a end (relocate k delta a end m)
relocate-Moved zero delta a end m b even ea ee fuel = absurd (omega arith)
relocate-Moved (suc k) delta a end m b even ea ee fuel = elim (Bool-cases (ltb a end)) [
  | inr stop ↦ record {
    after = m;
    run = relocate-stop k delta a end m stop;
    area = area_end a (ground arith);
    front = λ x lo. refl;
    behind = λ x hi. refl;
  }
  | inl more ↦
      let d = moved_by delta (load m a) in
      let m₁ = store m a d in
      let lt : a < end = ground arith in
      elim (Bool-cases (has_bytes (load m a))) [
        | inl skip ↦
            let hd = load m a in
            let next = a + 4 + round_up (header_length hd) in
            let same : d ≡ hd = moved_by-header delta hd skip in
            let over : next_word a d ≡ next = rw (same, skip) refl in
            let kept =
              λ (x : ℕ). subst (λ w. store m a w x ≡ m x) (sym same) (store-load m a x b) in
            let r =
              relocate-Moved k delta next end m₁ (store-IsBytes m a d b) even (omega arith) ee
                (omega arith) in
            record {
              after = r.after;
              run =
                  relocate-step k delta a end m more
                  ∙ ap (λ n. relocate k delta n end m₁) over
                  ∙ r.run;
              area =
                  contents a lt skip (λ x lo hi. r.front x hi ∙ kept x)
                    (Relocated-agree delta end m m₁ r.after next (λ x lo. kept x) r.area);
              front = λ x hi. r.front x (omega arith) ∙ kept x;
              behind = λ x lo. r.behind x lo ∙ kept x;
            }
        | inr word ↦
            let moved : next_word a d ≡ a + 4 =
              rw (has_bytes-moved_by delta (load m a) even, word) refl in
            let r =
              relocate-Moved k delta (a + 4) end m₁ (store-IsBytes m a d b) even (omega arith) ee
                (omega arith) in
            record {
              after = r.after;
              run =
                  relocate-step k delta a end m more
                  ∙ ap (λ n. relocate k delta n end m₁) moved
                  ∙ r.run;
              area =
                  slot a lt word
                    (moved_by-WordMoved delta (load m a) (load r.after a) (
                      load-agree_all m₁ r.after a (λ x lo hi. r.front x hi)
                      ∙ load-store m a d (moved_by-lt delta (load m a) (load-lt m a b))))
                    (Relocated-agree delta end m m₁ r.after (a + 4)
                      (λ x lo. store-out m a d x (inr lo)) r.area);
              front = λ x hi. r.front x (omega arith) ∙ store-out m a d x (inl hi);
              behind = λ x lo. r.behind x lo ∙ store-out m a d x (inr (omega arith));
            }
      ]
]
