-- ===== src/Vm/Pair.antt =====
-- Pairs in the heap, as c/scheme48vm.c makes and reads them: an object of type 0 with two
-- descriptors behind its header.
use kali_scheme.Prelude.{
  ℕ, ◌+◌, ◌-◌, ◌%◌, ◌^◌, ◌≤◌, ◌<◌, ◌≡◌, ◌∙◌, ap, ◌⊎◌, inl, inr, Bool, true, ◌&&◌, arith, ◌==◌,
}
use kali_scheme.Heap.Memory.{
  Memory, load, store, load-store, load-store_apart, store-out, IsBytes, store-IsBytes,
}
use kali_scheme.Heap.Space.{allocate_space}
use kali_scheme.Heap.Copy.{Heap, is_stob, header_type, data_address, header_address}

abbrev pub schnull : ℕ
schnull = 25

-- Type 0 and 8 bytes.
abbrev pub pair_header : ℕ
pair_header = 2050

abbrev pub pair_type : ℕ
pair_type = 0

abbrev pub pair_size : ℕ
pair_size = 12

-- `3 == (3 & d)`, and the type in the header before `d`.
unfoldable pub is_pair : Memory → ℕ → Bool
is_pair m d = is_stob d && (pair_type == header_type (load m (header_address d)))

abbrev pub car : Memory → ℕ → ℕ
car m d = load m (data_address d)

abbrev pub cdr : Memory → ℕ → ℕ
cdr m d = load m (data_address d + 4)

-- The three words that `cons` writes.
unfoldable pub put_pair : Memory → (addr a b : ℕ) → Memory
put_pair m addr a b = store (store (store m addr pair_header) (addr + 4) a) (addr + 4 + 4) b

-- ALLOCATE_SPACE for a pair of `a` and `b`, which stands written out wherever the code makes one.
unfoldable pub cons : (a b : ℕ) → Heap → ℕ × Heap
unfolding put_pair allocate_space
cons a b h =
    let (addr, space) = allocate_space pair_size h.space in
    (3 + (addr + 4), record { space = space; memory = put_pair h.memory addr a b })

module _ (m : Memory) (addr a b : ℕ) where
  pub put_pair-out : (x : ℕ) → (x < addr) ⊎ (addr + 12 ≤ x) → put_pair m addr a b x ≡ m x
  unfolding put_pair
  put_pair-out x (inl h) =
      store-out _ (addr + 4 + 4) b x (inl (omega arith))
      ∙ store-out _ (addr + 4) a x (inl (omega arith))
      ∙ store-out m addr pair_header x (inl (omega arith))
  put_pair-out x (inr h) =
      store-out _ (addr + 4 + 4) b x (inr (omega arith))
      ∙ store-out _ (addr + 4) a x (inr (omega arith))
      ∙ store-out m addr pair_header x (inr (omega arith))

  pub put_pair-IsBytes : IsBytes m → IsBytes (put_pair m addr a b)
  unfolding put_pair
  put_pair-IsBytes h =
      store-IsBytes _ _ b (store-IsBytes _ _ a (store-IsBytes m addr pair_header h))

  header-put_pair : load (put_pair m addr a b) addr ≡ pair_header
  unfolding put_pair
  header-put_pair =
      load-store_apart _ (addr + 4 + 4) b addr (inl (omega arith))
      ∙ load-store_apart _ (addr + 4) a addr (inl (omega arith))
      ∙ load-store m addr pair_header (omega arith)

  pub car-put_pair : a < 2 ^ 32 → car (put_pair m addr a b) (addr + 7) ≡ a
  unfolding put_pair
  car-put_pair h =
      ap (load (put_pair m addr a b)) (omega arith)
      ∙ load-store_apart _ (addr + 4 + 4) b (addr + 4) (inl (omega arith))
      ∙ load-store _ (addr + 4) a h

  pub cdr-put_pair : b < 2 ^ 32 → cdr (put_pair m addr a b) (addr + 7) ≡ b
  unfolding put_pair
  cdr-put_pair h = ap (load (put_pair m addr a b)) (omega arith) ∙ load-store _ (addr + 4 + 4) b h

  pub put_pair-is_pair : addr % 4 ≡ 0 → is_pair (put_pair m addr a b) (addr + 7) ≡ true
  unfolding is_pair
  put_pair-is_pair h =
      let e : load (put_pair m addr a b) (addr + 7 - 7) ≡ pair_header =
        ap (load (put_pair m addr a b)) (omega arith) ∙ header-put_pair in
      rw e (ground arith)

-- The new object and the new heap.
pub cons-put_pair :
    (a b : ℕ) (h : Heap)
    → cons a b h ≡ (
      h.space.hp + 7,
      record {
        space = record h.space { hp = h.space.hp + 12 };
        memory = put_pair h.memory h.space.hp a b;
      },
    )
unfolding cons allocate_space
cons-put_pair a b h =
    ap
      (λ (x : ℕ). (
        x,
        record {
          space = record h.space { hp = h.space.hp + 12 };
          memory = put_pair h.memory h.space.hp a b;
        },
      ))
      (omega arith)
