-- ===== src/Heap/Trace/Area.antt =====
-- What the tracing in c/scheme48heap.c relies on, and what it makes of an area.
use kali_scheme.Prelude.{
  ℕ, ◌+◌, ◌-◌, ◌%◌, ◌^◌, ◌≤◌, ◌≡◌, sym, subst, ◌⊎◌, inl, inr, Bool, true, false, arith, ◌==◌,
}
use kali_scheme.Heap.Memory.{
  Memory, load, store, store-out, load-store_apart, IsBytes, store-IsBytes,
}
use kali_scheme.Heap.Space.{Space, round_up}
use kali_scheme.Heap.Copy.{Heap, is_stob, header_length, in_oldspace, is_old, weak_pointer_header}
use kali_scheme.Heap.Trace.{has_bytes}
use kali_scheme.Heap.Trace.Sound.{Points, Sound, Sound-agree}

-- The words of an area, with the contents of byte vectors left out, do not point to the old space.
pub data Clean (s : Space) (m : Memory) (end : ℕ) : ℕ → Type 0 where
  at_end : (a : ℕ) → a ≡ end → Clean s m end a
  slot :
      (a : ℕ)
      → a + 4 ≤ end
      → has_bytes (load m a) ≡ false
      → is_old s (load m a) ≡ false
      → Clean s m end (a + 4)
      → Clean s m end a
  bytes :
      (a : ℕ)
      → a + 4 ≤ end
      → has_bytes (load m a) ≡ true
      → Clean s m end (a + 4 + round_up (header_length (load m a)))
      → Clean s m end a

-- What the tracing relies on, for the area from `start` to `end`, with copies from `mark` to the
-- frontier `f`. The area is below the copies, and it is apart from the old space and the word in
-- front of it. The limit is within 32 bits and not behind the start of the old space, unless the
-- area is behind the old space. Areas, frontier, limit and old space are at whole words; all cells
-- are bytes. `object` tells the addresses of objects in the old space, behind their headers: what is
-- in place of a header does not point to the old space; there are no weak pointers; an object that
-- was not copied lies in the old space, and, unless it is a byte vector, consists of whole words
-- which are no headers of byte vectors and point to objects, if they point to the old space. So
-- do the words of the copies.
pub record Ready (object : ℕ → Bool) (start end mark f : ℕ) (h : Heap) : Type 0 where
  pub frontier : end ≤ f
  pub marked : (end ≤ mark) × (mark ≤ f)
  pub behind_null : 8 ≤ h.space.oldspace_begin
  pub whole : (end % 4 ≡ 0) × (f % 4 ≡ 0)
  pub apart : (end + 4 ≤ h.space.oldspace_begin) ⊎ (h.space.oldspace_end ≤ start)
  pub above : (h.space.limit ≤ h.space.oldspace_begin) ⊎ (h.space.oldspace_end ≤ start)
  pub aligned : (h.space.limit % 4 ≡ 0) × (h.space.oldspace_begin % 4 ≡ 0)
  pub narrow : h.space.limit ≤ 2 ^ 32
  pub bytes : IsBytes h.memory
  pub objects : (a : ℕ) → object a ≡ true → (in_oldspace h.space a ≡ true) × (a % 4 ≡ 0)
  pub forwarded : (a : ℕ) → object a ≡ true → is_old h.space (load h.memory (a - 4)) ≡ false
  pub strong : (a : ℕ) → object a ≡ true → (weak_pointer_header == load h.memory (a - 4)) ≡ false
  pub inside :
      (a : ℕ)
      → object a ≡ true
      → is_stob (load h.memory (a - 4)) ≡ false
      → a + header_length (load h.memory (a - 4)) ≤ h.space.oldspace_end
  pub cells :
      (a : ℕ)
      → object a ≡ true
      → is_stob (load h.memory (a - 4)) ≡ false
      → has_bytes (load h.memory (a - 4)) ≡ false
      → header_length (load h.memory (a - 4)) % 4 ≡ 0
  pub content :
      (a x : ℕ)
      → object a ≡ true
      → is_stob (load h.memory (a - 4)) ≡ false
      → has_bytes (load h.memory (a - 4)) ≡ false
      → a ≤ x
      → x + 4 ≤ a + header_length (load h.memory (a - 4))
      → x % 4 ≡ 0
      → (has_bytes (load h.memory x) ≡ false) × Points object h.space (load h.memory x)
  pub copied : Sound object h.space h.memory f mark

-- What may become of a header, and of a word.
abbrev pub Header : Space → (d d' : ℕ) → Type 0
Header s d d' = (d' ≡ d) ⊎ ((is_stob d' ≡ true) × (is_old s d' ≡ false))

abbrev pub Word : Space → (d d' : ℕ) → Type 0
Word s d d' = (d' ≡ d) ⊎ ((has_bytes d' ≡ false) × (is_old s d' ≡ false))

module _ {object : ℕ → Bool} {start end mark : ℕ} {h : Heap} (addr f : ℕ)
    (v : Ready object start end mark f h) where
  -- Another memory, with a frontier that is not below `f`.
  pub step-Ready :
      (f' : ℕ) (m' : Memory)
      → f ≤ f'
      → f' % 4 ≡ 0
      → IsBytes m'
      → ((a : ℕ) → object a ≡ true → Header h.space (load h.memory (a - 4)) (load m' (a - 4)))
      → ((x : ℕ)
          → h.space.oldspace_begin ≤ x
          → x + 4 ≤ h.space.oldspace_end
          → x % 4 ≡ 0
          → Word h.space (load h.memory x) (load m' x))
      → Sound object h.space m' f' mark
      → Ready object start end mark f' (record h { memory = m' })
  step-Ready f' m' up even b headers words copied = record {
    frontier = omega (arith, v.frontier);
    marked = (v.marked.0, omega (arith, v.marked.1));
    behind_null = v.behind_null;
    whole = (v.whole.0, even);
    apart = v.apart;
    above = v.above;
    aligned = v.aligned;
    narrow = v.narrow;
    bytes = b;
    objects = v.objects;
    forwarded = λ a ob. elim (headers a ob) [ inl e ↦ rw e (v.forwarded a ob) | inr n ↦ n.1 ];
    strong = λ a ob. elim (headers a ob) [
      | inl e ↦ rw e (v.strong a ob)
      | inr n ↦ no_weak (load m' (a - 4)) n.0
    ];
    inside = λ a ob fresh. elim (headers a ob) [
      | inl e ↦ rw e (v.inside a ob (rw e at fresh))
      | inr n ↦ absurd (both n.0 fresh)
    ];
    cells = λ a ob fresh plain. elim (headers a ob) [
      | inl e ↦ rw e (v.cells a ob (rw e at fresh) (rw e at plain))
      | inr n ↦ absurd (both n.0 fresh)
    ];
    content = λ a x ob fresh plain lo hi aligned. elim (headers a ob) [
      | inl e ↦
          let fresh' = rw e at fresh in
          let plain' = rw e at plain in
          let hi' = rw e at hi in
          point x (v.content a x ob fresh' plain' lo hi' aligned) (
            words x (ground (arith, (v.objects a ob).0, lo))
              (omega (arith, v.inside a ob fresh', hi')) aligned)
      | inr n ↦ absurd (both n.0 fresh)
    ];
    copied = copied;
  }
    where
      both : {b : Bool} → b ≡ true → b ≡ false → ⊥
      both e e' = cc

      no_weak : (d : ℕ) → is_stob d ≡ true → (weak_pointer_header == d) ≡ false
      no_weak d stob = ground (arith, stob)

      point :
          (x : ℕ)
          → (has_bytes (load h.memory x) ≡ false) × Points object h.space (load h.memory x)
          → Word h.space (load h.memory x) (load m' x)
          → (has_bytes (load m' x) ≡ false) × Points object h.space (load m' x)
      point x p (inl e) = subst (λ d. (has_bytes d ≡ false) × Points object h.space d) (sym e) p
      point x p (inr n) = (n.0, λ old. absurd (both old n.1))

  -- A write of a descriptor `d` into the area.
  pub store-Ready :
      (d : ℕ)
      → start ≤ addr
      → addr + 4 ≤ end
      → Ready object start end mark f (record h { memory = store h.memory addr d })
  store-Ready d low high =
      step-Ready f (store h.memory addr d) (omega arith) v.whole.1
        (store-IsBytes h.memory addr d v.bytes)
        (λ a ob.
          inl (load-store_apart h.memory addr d (a - 4) (front a (v.objects a ob).0 v.apart)))
        (λ x lo hi aligned. inl (load-store_apart h.memory addr d x (word x lo hi v.apart)))
        (Sound-agree object h.space h.memory (store h.memory addr d) mark f mark
          (λ x lo hi. store-out h.memory addr d x (inr (omega (arith, v.marked.0)))) (omega arith)
          v.copied)
    where
      front :
          (a : ℕ)
          → in_oldspace h.space a ≡ true
          → (end + 4 ≤ h.space.oldspace_begin) ⊎ (h.space.oldspace_end ≤ start)
          → (a - 4 + 4 ≤ addr) ⊎ (addr + 4 ≤ a - 4)
      front a old (inl c) = inr (ground (arith, old))
      front a old (inr c) = inl (ground (arith, old, v.behind_null))

      word :
          (x : ℕ)
          → h.space.oldspace_begin ≤ x
          → x + 4 ≤ h.space.oldspace_end
          → (end + 4 ≤ h.space.oldspace_begin) ⊎ (h.space.oldspace_end ≤ start)
          → (x + 4 ≤ addr) ⊎ (addr + 4 ≤ x)
      word x lo hi (inl c) = inr (omega arith)
      word x lo hi (inr c) = inl (omega arith)
