-- ===== src/Image/Write/Restore.antt =====
-- The repair of the heap at the end of `write_image` of c/scheme48heap.c.
use kali_scheme.Prelude.{
  ℕ, zero, suc, ◌+◌, ◌-◌, ◌≤◌, ◌<◌, ◌≡◌, refl, ap, subst, ◌∙◌, ◌⊎◌, inl, inr, true, false, arith,
  ltb, Bool-cases,
}
use kali_scheme.Heap.Memory.{
  Memory, load, store, store-out, load-store_apart, load-agree_all, store-load_same, IsBytes,
}
use kali_scheme.Heap.Space.{round_up}
use kali_scheme.Heap.Copy.{is_header, header_length, header_address}
use kali_scheme.Heap.Trace.{Run, finished}
use kali_scheme.Image.Write.{restore}

-- The objects from an address on to `hp` in the memory `m` are those of `m₀`, but some headers are
-- replaced by pointers to copies outside of the area, which have the header.
pub data Forwarded (m m₀ : Memory) (begin hp : ℕ) : ℕ → Type 0 where
  at_end : (a : ℕ) → hp ≤ a → Forwarded m m₀ begin hp a
  kept :
      (a : ℕ)
      → a < hp
      → is_header (load m a) ≡ true
      → ((x : ℕ) → a ≤ x → x < a + (4 + round_up (header_length (load m₀ a))) → m x ≡ m₀ x)
      → Forwarded m m₀ begin hp (a + (4 + round_up (header_length (load m₀ a))))
      → Forwarded m m₀ begin hp a
  moved :
      (a : ℕ)
      → a + 4 ≤ hp
      → is_header (load m a) ≡ false
      → load m (header_address (load m a)) ≡ load m₀ a
      → ((header_address (load m a) + 4 ≤ begin) ⊎ (hp ≤ header_address (load m a)))
      → ((x : ℕ) → a + 4 ≤ x → x < a + (4 + round_up (header_length (load m₀ a))) → m x ≡ m₀ x)
      → Forwarded m m₀ begin hp (a + (4 + round_up (header_length (load m₀ a))))
      → Forwarded m m₀ begin hp a

-- A write in front of an address leaves the objects from there on.
Forwarded-store :
    {m m₀ : Memory} {begin hp : ℕ} (p w a : ℕ)
    → begin ≤ p
    → p + 4 ≤ hp
    → p + 4 ≤ a
    → Forwarded m m₀ begin hp a
    → Forwarded (store m p w) m₀ begin hp a
Forwarded-store p w a lo hi front (at_end _ h) = at_end a h
Forwarded-store {m = m} {begin = begin} {hp = hp} p w a lo hi front (kept _ lt hd same rest) =
    kept a lt (rw (load-store_apart m p w a (inr front)) hd)
      (λ x l u. store-out m p w x (inr (omega arith)) ∙ same x l u)
      (Forwarded-store p w _ lo hi (omega arith) rest)
Forwarded-store {m = m} {begin = begin} {hp = hp} p w a lo hi front
      (moved _ le fwd copy off same rest) =
    let e = load-store_apart m p w a (inr front) in
    moved a le (rw e fwd)
      (rw e (load-store_apart m p w (header_address (load m a)) (outside off) ∙ copy)) (rw e off)
      (λ x l u. store-out m p w x (inr (omega arith)) ∙ same x l u)
      (Forwarded-store p w _ lo hi (omega arith) rest)
  where
    outside : {t : ℕ} → (t + 4 ≤ begin) ⊎ (hp ≤ t) → (t + 4 ≤ p) ⊎ (p + 4 ≤ t)
    outside (inl o) = inl (omega arith)
    outside (inr o) = inr (omega arith)

restore-stop : (k a hp : ℕ) (m : Memory) → ltb a hp ≡ false → restore (suc k) a hp m ≡ finished m
unfolding restore
restore-stop k a hp m stop = rw (stop, restore)

restore-kept :
    (k a hp : ℕ) (m : Memory)
    → ltb a hp ≡ true
    → is_header (load m a) ≡ true
    → restore (suc k) a hp m ≡ restore k (a + (4 + round_up (header_length (load m a)))) hp m
unfolding restore
restore-kept k a hp m more hd = rw (more, restore, hd)

restore-moved :
    (k a hp header : ℕ) (m : Memory)
    → ltb a hp ≡ true
    → is_header (load m a) ≡ false
    → load m (header_address (load m a)) ≡ header
    → restore (suc k) a hp m
      ≡ restore k (a + (4 + round_up (header_length header))) hp (store m a header)
unfolding restore
restore-moved k a hp header m more hd copy =
    subst
      (λ d.
        restore (suc k) a hp m ≡ restore k (a + (4 + round_up (header_length d))) hp (store m a d))
      copy (rw (more, restore, hd))

-- What the loop leaves: from `a` to `hp` the memory `m₀`, and in front of `a` what was there.
pub record Restored (m m₀ : Memory) (a hp : ℕ) (r : Run Memory) : Type 0 where
  pub after : Memory
  pub run : r ≡ finished after
  pub area : (x : ℕ) → a ≤ x → x < hp → after x ≡ m₀ x
  pub front : (x : ℕ) → x < a → after x ≡ m x

-- When all cells of `m₀` are bytes, and the memory in the area from `begin` to `hp` holds the objects
-- of `m₀` from `a` on, with any of their headers replaced by a pointer to a copy outside of the
-- area that has the header, the loop at the end of `write_image`, with more fuel than there are
-- bytes from `a`, ends with the bytes of `m₀` from `a` to `hp`, and changes none in front of `a`.
pub restore-Restored :
    (k a begin hp : ℕ) (m m₀ : Memory)
    → IsBytes m₀
    → begin ≤ a
    → Forwarded m m₀ begin hp a
    → hp - a < k
    → Restored m m₀ a hp (restore k a hp m)
restore-Restored zero a begin hp m m₀ b lo objects fuel = absurd (omega arith)
restore-Restored (suc k) a begin hp m m₀ b lo (at_end _ h) fuel = record {
  after = m;
  run = restore-stop k a hp m (ground arith);
  area = λ x l u. absurd (omega arith);
  front = λ x u. refl;
}
restore-Restored (suc k) a begin hp m m₀ b lo (kept _ lt hd same rest) fuel =
    let next = a + (4 + round_up (header_length (load m₀ a))) in
    let e : load m a ≡ load m₀ a = load-agree_all m₀ m a (λ x l u. same x l (omega arith)) in
    let r = restore-Restored k next begin hp m m₀ b (omega arith) rest (omega arith) in
    record {
      after = r.after;
      run =
          restore-kept k a hp m (ground arith) hd
          ∙ ap (λ d. restore k (a + (4 + round_up (header_length d))) hp m) e
          ∙ r.run;
      area = λ x l u. elim (Bool-cases (ltb x next)) [
        | inl before ↦ r.front x (ground arith) ∙ same x l (ground arith)
        | inr behind ↦ r.area x (ground arith) u
      ];
      front = λ x u. r.front x (omega arith);
    }
restore-Restored (suc k) a begin hp m m₀ b lo (moved _ le fwd copy off same rest) fuel =
    let next = a + (4 + round_up (header_length (load m₀ a))) in
    let m₁ = store m a (load m₀ a) in
    let r =
      restore-Restored k next begin hp m₁ m₀ b (omega arith)
        (Forwarded-store a (load m₀ a) next lo le (omega arith) rest) (omega arith) in
    record {
      after = r.after;
      run = restore-moved k a hp (load m₀ a) m (ground arith) fwd copy ∙ r.run;
      area = λ x l u. elim (Bool-cases (ltb x next)) [
        | inl before ↦ elim (Bool-cases (ltb x (a + 4))) [
          | inl header ↦ r.front x (ground arith) ∙ store-load_same m m₀ a x b l (ground arith)
          | inr body ↦
              r.front x (ground arith)
              ∙ store-out m a (load m₀ a) x (inr (ground arith))
              ∙ same x (ground arith) (ground arith)
        ]
        | inr behind ↦ r.area x (ground arith) u
      ];
      front = λ x u. r.front x (omega arith) ∙ store-out m a (load m₀ a) x (inl u);
    }
