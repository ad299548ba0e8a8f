-- ===== src/Heap/Memory.antt =====
-- The memory under the heap of c/scheme48heap.c: bytes at addresses. A `long` has 4 bytes, as the
-- source has it, with the lowest one first; its value is its bit pattern.
use kali_scheme.Prelude.{
  sym, ap, ◌∙◌, ℕ, zero, suc, List, [], ◌∷◌, ◌+◌, ◌-◌, ◌*◌, ◌/◌, ◌%◌, ◌^◌, ◌≤◌, ◌<◌, ◌≡◌, ◌⊎◌, inl,
  inr, arith, ltb, leb, ◌&&◌, ◌==◌, if◌then◌else◌,
}

abbrev pub Memory : Type 0
Memory = ℕ → ℕ

unfoldable pub load : Memory → ℕ → ℕ
load m a = m a + m (a + 1) * 2 ^ 8 + m (a + 2) * 2 ^ 16 + m (a + 3) * 2 ^ 24

unfoldable pub store : Memory → ℕ → ℕ → Memory
store m a w x =
    if x == a
    then w % 2 ^ 8
    else (if x == a + 1
        then w / 2 ^ 8 % 2 ^ 8
        else (if x == a + 2
            then w / 2 ^ 16 % 2 ^ 8
            else (if x == a + 3 then w / 2 ^ 24 % 2 ^ 8 else m x)))

-- `memcpy` between areas that do not overlap.
unfoldable pub memcpy : Memory → (to from count : ℕ) → Memory
memcpy m to from count x = if leb to x && ltb x (to + count) then m (from + (x - to)) else m x

-- `n` bytes at `a`, and a write of bytes.
unfoldable pub area : Memory → (a n : ℕ) → List ℕ
area m a zero = []
area m a (suc n) = m a ∷ area m (a + 1) n

unfoldable pub put_area : List ℕ → ℕ → Memory → Memory
put_area [] a m = m
put_area (c ∷ cs) a m = put_area cs (a + 1) (λ x. if x == a then c else m x)

-- The four bytes at `a` are the same in both.
pub load-agree :
    (m m' : Memory) (a : ℕ)
    → m' a ≡ m a
    → m' (a + 1) ≡ m (a + 1)
    → m' (a + 2) ≡ m (a + 2)
    → m' (a + 3) ≡ m (a + 3)
    → load m' a ≡ load m a
unfolding load
load-agree m m' a e₀ e₁ e₂ e₃ = rw (e₀, e₁, e₂, e₃)

pub store-out : (m : Memory) (a w x : ℕ) → (x < a) ⊎ (a + 4 ≤ x) → store m a w x ≡ m x
unfolding store
store-out m a w x h = ground (arith, h)

pub memcpy-out :
    (m : Memory) (to from count x : ℕ)
    → (x < to) ⊎ (to + count ≤ x)
    → memcpy m to from count x ≡ m x
unfolding memcpy
memcpy-out m to from count x h = ground (arith, h)

pub memcpy-in :
    (m : Memory) (to from count i : ℕ) → i < count → memcpy m to from count (to + i) ≡ m (from + i)
unfolding memcpy
memcpy-in m to from count i h = ground arith

pub load-store : (m : Memory) (a w : ℕ) → w < 2 ^ 32 → load (store m a w) a ≡ w
unfolding load store
load-store m a w h = ground arith

pub load-store_apart :
    (m : Memory) (a w b : ℕ) → (b + 4 ≤ a) ⊎ (a + 4 ≤ b) → load (store m a w) b ≡ load m b
load-store_apart m a w b (inl h) =
    load-agree m (store m a w) b (store-out m a w b (inl (omega arith)))
      (store-out m a w (b + 1) (inl (omega arith))) (store-out m a w (b + 2) (inl (omega arith)))
      (store-out m a w (b + 3) (inl (omega arith)))
load-store_apart m a w b (inr h) =
    load-agree m (store m a w) b (store-out m a w b (inr (omega arith)))
      (store-out m a w (b + 1) (inr (omega arith))) (store-out m a w (b + 2) (inr (omega arith)))
      (store-out m a w (b + 3) (inr (omega arith)))

pub load-memcpy_out :
    (m : Memory) (to from count a : ℕ)
    → (a + 4 ≤ to) ⊎ (to + count ≤ a)
    → load (memcpy m to from count) a ≡ load m a
load-memcpy_out m to from count a (inl h) =
    load-agree m (memcpy m to from count) a (memcpy-out m to from count a (inl (omega arith)))
      (memcpy-out m to from count (a + 1) (inl (omega arith)))
      (memcpy-out m to from count (a + 2) (inl (omega arith)))
      (memcpy-out m to from count (a + 3) (inl (omega arith)))
load-memcpy_out m to from count a (inr h) =
    load-agree m (memcpy m to from count) a (memcpy-out m to from count a (inr (omega arith)))
      (memcpy-out m to from count (a + 1) (inr (omega arith)))
      (memcpy-out m to from count (a + 2) (inr (omega arith)))
      (memcpy-out m to from count (a + 3) (inr (omega arith)))

pub load-agree_all :
    (m m' : Memory) (a : ℕ) → ((x : ℕ) → a ≤ x → x < a + 4 → m' x ≡ m x) → load m' a ≡ load m a
load-agree_all m m' a same =
    load-agree m m' a (same a (omega arith) (omega arith))
      (same (a + 1) (omega arith) (omega arith)) (same (a + 2) (omega arith) (omega arith))
      (same (a + 3) (omega arith) (omega arith))

-- The word at `p` in one memory is the word at `q` in the other.
pub load-shift :
    (m m' : Memory) (p q : ℕ) → ((j : ℕ) → j < 4 → m' (p + j) ≡ m (q + j)) → load m' p ≡ load m q
unfolding load
load-shift m m' p q same =
    let zero_add : (x : ℕ) → x + 0 ≡ x = λ x. omega arith in
    let first : m' p ≡ m q = sym (ap m' (zero_add p)) ∙ same 0 (omega arith) ∙ ap m (zero_add q) in
    rw (first, same 1 (omega arith), same 2 (omega arith), same 3 (omega arith))

-- All cells are bytes.
abbrev pub IsBytes : Memory → Type 0
IsBytes m = (x : ℕ) → m x < 2 ^ 8

pub load-lt : (m : Memory) (a : ℕ) → IsBytes m → load m a < 2 ^ 32
unfolding load
load-lt m a b = omega (arith, b a, b (a + 1), b (a + 2), b (a + 3))

pub store-IsBytes : (m : Memory) (a w : ℕ) → IsBytes m → IsBytes (store m a w)
unfolding store
store-IsBytes m a w b x = ground (arith, b x)

pub memcpy-IsBytes : (m : Memory) (to from count : ℕ) → IsBytes m → IsBytes (memcpy m to from count)
unfolding memcpy
memcpy-IsBytes m to from count b x = ground (arith, b x, b (from + (x - to)))

cases : (x a : ℕ) → a ≤ x → x < a + 4 → (x ≡ a) ⊎ ((x ≡ a + 1) ⊎ ((x ≡ a + 2) ⊎ (x ≡ a + 3)))
cases x a lo hi = ground (arith, lo, hi)

-- A word that is written from another memory has its bytes.
pub store-load_same :
    (m m₀ : Memory) (a x : ℕ) → IsBytes m₀ → a ≤ x → x < a + 4 → store m a (load m₀ a) x ≡ m₀ x
unfolding store load
store-load_same m m₀ a x b lo hi = elim (cases x a lo hi) [
  | inl e ↦ rw e (ground (arith, b a, b (a + 1), b (a + 2), b (a + 3)))
  | inr (inl e) ↦ rw e (ground (arith, b a, b (a + 1), b (a + 2), b (a + 3)))
  | inr (inr (inl e)) ↦ rw e (ground (arith, b a, b (a + 1), b (a + 2), b (a + 3)))
  | inr (inr (inr e)) ↦ rw e (ground (arith, b a, b (a + 1), b (a + 2), b (a + 3)))
]
