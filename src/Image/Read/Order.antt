-- ===== src/Image/Read/Order.antt =====
-- The loop of `read_image` of c/scheme48heap.c that corrects the order of bytes.
use kali_scheme.Prelude.{
  ℕ, zero, suc, ◌+◌, ◌-◌, ◌%◌, ◌≤◌, ◌<◌, ◌≡◌, refl, ap, ◌∙◌, ◌⊎◌, inl, inr, true, false, Option,
  some, arith, ltb, Bool-cases,
}
use kali_scheme.Heap.Memory.{Memory, load, load-agree_all}
use kali_scheme.Heap.Space.{round_up}
use kali_scheme.Heap.Copy.{header_length}
use kali_scheme.Heap.Trace.{has_bytes}
use kali_scheme.Image.Read.{swap_word, next_word, correct_order}

-- The word at `a` of `m` has the bytes of the one of `m₀` from the last to the first.
abbrev pub Reversed : (m₀ m : Memory) (a : ℕ) → Type 0
Reversed m₀ m a =
    (m a ≡ m₀ (a + 3)) × (m (a + 1) ≡ m₀ (a + 2)) × (m (a + 2) ≡ m₀ (a + 1)) × (m (a + 3) ≡ m₀ a)

-- The area in `m` is that of `m₀` with the bytes of its words in the other order; the contents of
-- objects without descriptors are the same.
pub data Foreign (m₀ m : Memory) (end : ℕ) : ℕ → Type 0 where
  area_end : (a : ℕ) → end ≤ a → Foreign m₀ m end a
  slot :
      (a : ℕ)
      → a < end
      → has_bytes (load m₀ a) ≡ false
      → Reversed m₀ m a
      → Foreign m₀ m end (a + 4)
      → Foreign m₀ m end a
  contents :
      (a : ℕ)
      → a < end
      → has_bytes (load m₀ a) ≡ true
      → Reversed m₀ m a
      → ((x : ℕ) → a + 4 ≤ x → x < a + 4 + round_up (header_length (load m₀ a)) → m x ≡ m₀ x)
      → Foreign m₀ m end (a + 4 + round_up (header_length (load m₀ a)))
      → Foreign m₀ m end a

swap_word-out : (a x : ℕ) (m : Memory) → (x < a) ⊎ (a + 4 ≤ x) → swap_word a m x ≡ m x
unfolding swap_word
swap_word-out a x m out = ground (arith, out)

cases : (x a : ℕ) → a ≤ x → x < a + 4 → (x ≡ a) ⊎ ((x ≡ a + 1) ⊎ ((x ≡ a + 2) ⊎ (x ≡ a + 3)))
cases x a lo hi = ground (arith, lo, hi)

-- The other order twice is the first one.
swap_word-back :
    (a x : ℕ) (m₀ m : Memory) → Reversed m₀ m a → a ≤ x → x < a + 4 → swap_word a m x ≡ m₀ x
unfolding swap_word
swap_word-back a x m₀ m other lo hi = elim (cases x a lo hi) [
  | inl e ↦ rw e (ground (arith, other.3))
  | inr (inl e) ↦ rw e (ground (arith, other.2))
  | inr (inr (inl e)) ↦ rw e (ground (arith, other.1))
  | inr (inr (inr e)) ↦ rw e (ground (arith, other.0))
]

Reversed-agree :
    (m₀ m m₁ : Memory) (a : ℕ) → ((x : ℕ) → a ≤ x → m₁ x ≡ m x) → Reversed m₀ m a → Reversed m₀ m₁ a
Reversed-agree m₀ m m₁ a same (b₀, b₁, b₂, b₃) = (
  same a (omega arith) ∙ b₀,
  same (a + 1) (omega arith) ∙ b₁,
  same (a + 2) (omega arith) ∙ b₂,
  same (a + 3) (omega arith) ∙ b₃,
)

Foreign-agree :
    (m₀ m m₁ : Memory) (end a : ℕ)
    → ((x : ℕ) → a ≤ x → m₁ x ≡ m x)
    → Foreign m₀ m end a
    → Foreign m₀ m₁ end a
Foreign-agree m₀ m m₁ end a same (area_end _ h) = area_end a h
Foreign-agree m₀ m m₁ end a same (slot _ lt word other rest) =
    slot a lt word (Reversed-agree m₀ m m₁ a same other)
      (Foreign-agree m₀ m m₁ end (a + 4) (λ x lo. same x (omega arith)) rest)
Foreign-agree m₀ m m₁ end a same (contents _ lt skip other kept rest) =
    contents a lt skip (Reversed-agree m₀ m m₁ a same other)
      (λ x lo hi. same x (omega arith) ∙ kept x lo hi)
      (Foreign-agree m₀ m m₁ end _ (λ x lo. same x (omega arith)) rest)

correct_order-stop :
    (k a end : ℕ) (m : Memory) → ltb a end ≡ false → correct_order (suc k) a end m ≡ some m
unfolding correct_order
correct_order-stop k a end m stop = rw (stop, correct_order)

correct_order-step :
    (k a end : ℕ) (m : Memory)
    → ltb a end ≡ true
    → correct_order (suc k) a end m
      ≡ correct_order k (next_word a (load (swap_word a m) a)) end (swap_word a m)
unfolding correct_order
correct_order-step k a end m more = rw (more, correct_order)

-- What the loop leaves from `a` to `end`, and in front of `a`.
pub record Corrected (m₀ m : Memory) (a end : ℕ) (r : Option Memory) : Type 0 where
  pub after : Memory
  pub run : r ≡ some after
  pub area : (x : ℕ) → a ≤ x → x < end → after x ≡ m₀ x
  pub front : (x : ℕ) → x < a → after x ≡ m x

-- When the memory from `a` to `end` is that of `m₀` with the bytes of each word in the other order, but
-- for the contents of objects without descriptors, and the area starts and ends at whole words, the
-- loop of `read_image` that corrects the order, with more fuel than the area has bytes, ends with
-- the bytes of `m₀` in the area, and changes nothing in front of it.
pub correct_order-Corrected :
    (k a end : ℕ) (m₀ m : Memory)
    → a % 4 ≡ 0
    → end % 4 ≡ 0
    → Foreign m₀ m end a
    → end - a < k
    → Corrected m₀ m a end (correct_order k a end m)
correct_order-Corrected zero a end m₀ m ea ee area fuel = absurd (omega arith)
correct_order-Corrected (suc k) a end m₀ m ea ee (area_end _ h) fuel = record {
  after = m;
  run = correct_order-stop k a end m (ground arith);
  area = λ x lo hi. absurd (omega arith);
  front = λ x hi. refl;
}
correct_order-Corrected (suc k) a end m₀ m ea ee (slot _ lt word other rest) fuel =
    let m₁ = swap_word a m in
    let e : load m₁ a ≡ load m₀ a =
      load-agree_all m₀ m₁ a (λ x lo hi. swap_word-back a x m₀ m other lo hi) in
    let next : next_word a (load m₁ a) ≡ a + 4 = rw (e, word) refl in
    let r =
      correct_order-Corrected k (a + 4) end m₀ m₁ (omega arith) ee
        (Foreign-agree m₀ m m₁ end (a + 4) (λ x lo. swap_word-out a x m (inr lo)) rest)
        (omega arith) in
    record {
      after = r.after;
      run =
          correct_order-step k a end m (ground arith)
          ∙ ap (λ n. correct_order k n end m₁) next
          ∙ r.run;
      area = λ x lo hi. elim (Bool-cases (ltb x (a + 4))) [
        | inl here ↦ r.front x (ground arith) ∙ swap_word-back a x m₀ m other lo (ground arith)
        | inr behind ↦ r.area x (ground arith) hi
      ];
      front = λ x hi. r.front x (omega arith) ∙ swap_word-out a x m (inl hi);
    }
correct_order-Corrected (suc k) a end m₀ m ea ee (contents _ lt skip other kept rest) fuel =
    let m₁ = swap_word a m in
    let after = a + 4 + round_up (header_length (load m₀ a)) in
    let e : load m₁ a ≡ load m₀ a =
      load-agree_all m₀ m₁ a (λ x lo hi. swap_word-back a x m₀ m other lo hi) in
    let next : next_word a (load m₁ a) ≡ after = rw (e, skip) refl in
    let r =
      correct_order-Corrected k after end m₀ m₁ (omega arith) ee
        (Foreign-agree m₀ m m₁ end after (λ x lo. swap_word-out a x m (inr (omega arith))) rest)
        (omega arith) in
    record {
      after = r.after;
      run =
          correct_order-step k a end m (ground arith)
          ∙ ap (λ n. correct_order k n end m₁) next
          ∙ r.run;
      area = λ x lo hi. elim (Bool-cases (ltb x after)) [
        | inl here ↦ elim (Bool-cases (ltb x (a + 4))) [
          | inl header ↦ r.front x (ground arith) ∙ swap_word-back a x m₀ m other lo (ground arith)
          | inr content ↦
              r.front x (ground arith)
              ∙ swap_word-out a x m (inr (ground arith))
              ∙ kept x (ground arith) (ground arith)
        ]
        | inr behind ↦ r.area x (ground arith) hi
      ];
      front = λ x hi. r.front x (omega arith) ∙ swap_word-out a x m (inl hi);
    }
