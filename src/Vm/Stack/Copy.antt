-- ===== src/Vm/Stack/Copy.antt =====
-- One round of the loop of `copy_listS`: a new pair, linked to the one before it.
pub mod Copied
use kali_scheme.Prelude.{
  ℕ, zero, suc, ◌+◌, ◌-◌, ◌*◌, ◌%◌, ◌^◌, ◌≤◌, ◌<◌, ◌≡◌, ◌∙◌, sym, subst, ap, refl, ◌⊎◌, inl, inr,
  true, false, Bool, List, [], ◌∷◌, length, arith, ◌==◌, ==_iff,
}
use kali_scheme.Heap.Memory.{
  Memory, load, store, store-out, load-store, load-agree_all, load-lt, IsBytes, store-IsBytes,
}
use kali_scheme.Heap.Copy.{Heap, data_address}
use kali_scheme.Vm.Pair.{
  schnull, is_pair, car, cdr, put_pair, put_pair-out, put_pair-IsBytes, put_pair-is_pair,
  car-put_pair, cdr-put_pair, cons-put_pair,
}
use kali_scheme.Vm.Lists.{IsOutside, Holds}
use kali_scheme.Vm.Lists.Keep.{
  Agrees, Agrees-trans, Agrees-wider, load-Agrees, car-Agrees, cdr-Agrees, Holds-Agrees,
}
use kali_scheme.Vm.Lists.Okay.{pair-not_schnull}
use kali_scheme.Vm.Stack.Pop.{moved_hp, Room, with_pair, with_pair-Room, with_pair-Agrees}
use kali_scheme.Vm.Stack.{Progress, done, ◌>>=◌, copy_rest, copy_pairs}

pub is_pair-same :
    (m m' : Memory) (d : ℕ) → load m (d - 7) ≡ load m' (d - 7) → is_pair m d ≡ is_pair m' d
unfolding is_pair
is_pair-same m m' d e = rw e (λ i. is_pair m' d)

-- The heap after one round of the loop.
abbrev pub linked : (a last : ℕ) → Heap → Heap
linked a last h = record (with_pair a schnull h) {
  memory = store (with_pair a schnull h).memory (data_address last + 4) (h.space.hp + 7);
}

module _ (k l last : ℕ) (h : Heap) where
  pub stop : l ≡ schnull → copy_rest (suc k) l last h ≡ done h
  unfolding copy_rest
  stop e = rw (e, copy_rest) refl

  pub round :
      (schnull == l) ≡ false
      → copy_rest (suc k) l last h
        ≡ copy_rest k
            (cdr (linked (car h.memory l) last h).memory l)
            (h.space.hp + 7)
            (linked (car h.memory l) last h)
  unfolding copy_rest
  round e =
      rw (e, copy_rest)
        (ap
          (λ (p : ℕ × Heap).
            let m = store p.1.memory (data_address last + 4) p.0 in
            copy_rest k (cdr m l) p.0 (record p.1 { memory = m }))
          (cons-put_pair (car h.memory l) schnull h))

-- What the loop leaves as it was: all but the new pairs and the word at `a`.
abbrev pub Keeps : (lo hi a : ℕ) → Memory → Memory → Type 0
Keeps lo hi a m m' = (x : ℕ) → (x < lo) ⊎ (hi ≤ x) → (x < a) ⊎ (a + 4 ≤ x) → m' x ≡ m x

load-Keeps :
    (lo hi a : ℕ) (m m' : Memory) (b : ℕ)
    → Keeps lo hi a m m'
    → (b + 4 ≤ lo) ⊎ (hi ≤ b)
    → (b + 4 ≤ a) ⊎ (a + 4 ≤ b)
    → load m' b ≡ load m b
load-Keeps lo hi a m m' b same p q =
    load-agree_all m m' b (λ x l u. same x (ground (arith, p, l, u)) (ground (arith, q, l, u)))

-- The result of the loop: `last` is linked to a new list of the elements `xs`, below `hi`.
pub record Linked (last hi top : ℕ) (h : Heap) (xs : List ℕ) (r : Heap) : Type 0 where
  pub list : Holds hi top r.memory (cdr r.memory last) xs
  pub space_after : r.space ≡ moved_hp h hi
  pub rest : Keeps h.space.hp hi (last - 3 + 4) h.memory r.memory
  pub bytes : IsBytes r.memory

module _ (a last lo n hi : ℕ) (h : Heap) (room : Room (suc n) hi h) (small : a < 2 ^ 32)
    (low : lo + 3 ≤ last) (behind : last + 5 ≤ h.space.hp) where
  pub fits : h.space.hp + 12 ≤ hi
  fits = omega (arith, room.enough)

  pub narrow : h.space.hp + 7 < 2 ^ 32
  narrow = omega (arith, fits, room.narrow)

  pub linked-Room : Room n hi (linked a last h)
  linked-Room =
      let r : Room n hi (with_pair a schnull h) = with_pair-Room a schnull n hi h room in
      record {
        bytes = store-IsBytes _ (last - 3 + 4) (h.space.hp + 7) r.bytes;
        aligned = r.aligned;
        enough = r.enough;
        narrow = r.narrow;
      }

  linked-Keeps : Keeps h.space.hp (h.space.hp + 12) (last - 3 + 4) h.memory (linked a last h).memory
  linked-Keeps x o p =
      store-out _ (last - 3 + 4) (h.space.hp + 7) x p
      ∙ put_pair-out h.memory h.space.hp a schnull x o

  pub linked-Agrees : Agrees lo hi h.memory (linked a last h).memory
  linked-Agrees x o =
      linked-Keeps x (ground (arith, o, fits, low, behind)) (ground (arith, o, fits, low, behind))

  abbrev paired : Memory
  paired = (with_pair a schnull h).memory

  load-linked : (b : ℕ) → h.space.hp ≤ b → load (linked a last h).memory b ≡ load paired b
  load-linked b l = load-agree_all paired (linked a last h).memory b (λ x l' u.
      store-out paired (last - 3 + 4) (h.space.hp + 7) x (inr (omega (arith, l, l', behind, low))))

  linked-last : cdr (linked a last h).memory last ≡ h.space.hp + 7
  linked-last = load-store paired (last - 3 + 4) (h.space.hp + 7) narrow

  pub linked-new : cdr (linked a last h).memory (h.space.hp + 7) ≡ schnull
  linked-new =
      load-linked (h.space.hp + 7 - 3 + 4) (omega arith)
      ∙ cdr-put_pair h.memory h.space.hp a schnull (omega arith)

  -- The new pair in the memory that the rest of the loop leaves.
  module _ (top : ℕ) (xs : List ℕ) (r : Heap)
      (p : Linked (h.space.hp + 7) hi top (linked a last h) xs r) where
    kept : (b : ℕ) → b + 4 ≤ h.space.hp + 8 → load r.memory b ≡ load (linked a last h).memory b
    kept b u =
        load-Keeps (h.space.hp + 12) hi (h.space.hp + 7 - 3 + 4) (linked a last h).memory r.memory b
          p.rest (inl (omega (arith, u))) (inl (omega (arith, u)))

    new-is_pair : h.space.hp % 4 ≡ 0 → is_pair r.memory (h.space.hp + 7) ≡ true
    new-is_pair aligned =
        is_pair-same r.memory paired (h.space.hp + 7)
          (kept (h.space.hp + 7 - 7) (omega arith) ∙ load-linked (h.space.hp + 7 - 7) (omega arith))
        ∙ put_pair-is_pair h.memory h.space.hp a schnull aligned

    new-car : car r.memory (h.space.hp + 7) ≡ a
    new-car =
        kept (h.space.hp + 7 - 3) (omega arith)
        ∙ load-linked (h.space.hp + 7 - 3) (omega arith)
        ∙ car-put_pair h.memory h.space.hp a schnull small

    last-cdr : cdr r.memory last ≡ h.space.hp + 7
    last-cdr = kept (last - 3 + 4) (omega (arith, behind, low)) ∙ linked-last

    pub Linked-first : Linked last hi top h (a ∷ xs) r
    Linked-first = record {
      list =
          subst (λ d. Holds hi top r.memory d (a ∷ xs)) (sym last-cdr)
            (
              (omega arith, inl (omega (arith, fits))),
              (new-is_pair room.aligned, (new-car, p.list)),
            );
      space_after = p.space_after;
      rest = λ x o q.
          p.rest x (ground (arith, o, fits)) (ground (arith, o, fits))
          ∙ linked-Keeps x (ground (arith, o, fits)) q;
      bytes = p.bytes;
    }
