-- ===== src/Vm/Stack/Copy/Copied.antt =====
-- What `copy_listS` leaves: a new list with the elements of the old one.
use kali_scheme.Prelude.{
  ℕ, zero, suc, ◌+◌, ◌-◌, ◌^◌, ◌≤◌, ◌<◌, ◌≡◌, ◌∙◌, sym, subst, ap, inl, List, [], ◌∷◌, length,
  arith,
}
use kali_scheme.Heap.Memory.{load, load-lt, IsBytes}
use kali_scheme.Heap.Copy.{Heap}
use kali_scheme.Vm.Pair.{
  schnull, car, cdr, put_pair-is_pair, car-put_pair, cdr-put_pair, cons-put_pair,
}
use kali_scheme.Vm.Lists.{Holds}
use kali_scheme.Vm.Lists.Keep.{Agrees, cdr-Agrees, Holds-Agrees}
use kali_scheme.Vm.Lists.Okay.{pair-not_schnull}
use kali_scheme.Vm.Stack.Pop.{moved_hp, Room, with_pair, with_pair-Room, with_pair-Agrees}
use kali_scheme.Vm.Stack.Copy.{
  linked, Linked, stop, round, linked-Room, linked-Agrees, linked-new, Linked-first, load-Keeps,
  is_pair-same,
}
use kali_scheme.Vm.Stack.{done, ◌>>=◌, copy_rest, copy_pairs}

-- The loop from the pair `last`, which lies from `lo` on, below the heap pointer.
copy_rest-Linked :
    (xs : List ℕ) (k l last lo hi top : ℕ) (h : Heap)
    → Room (length xs) hi h
    → lo + 3 ≤ last
    → last + 5 ≤ h.space.hp
    → cdr h.memory last ≡ schnull
    → Holds lo hi h.memory l xs
    → length xs < k
    → (r : Heap) × (copy_rest k l last h ≡ done r) × Linked last hi top h xs r
copy_rest-Linked xs zero l last lo hi top h room low behind end list fuel =
    absurd (omega (arith, fuel))
copy_rest-Linked [] (suc k) l last lo hi top h room low behind end list fuel = (
  h,
  stop k l last h list,
  record {
    list = end;
    space_after = ap (moved_hp h) (let same : h.space.hp ≡ hi = omega (arith, room.enough) in same);
    rest = λ x o p i. h.memory x;
    bytes = room.bytes;
  },
)
copy_rest-Linked (x ∷ xs) (suc k) l last lo hi top h room low behind end (o, (p, (a, list))) fuel =
    let h' : Heap = linked (car h.memory l) last h in
    let small : car h.memory l < 2 ^ 32 = load-lt h.memory (l - 3) room.bytes in
    let same : Agrees lo hi h.memory h'.memory =
      linked-Agrees (car h.memory l) last lo (length xs) hi h room small low behind in
    let (r, run, after) =
      copy_rest-Linked xs k (cdr h'.memory l) (h.space.hp + 7) lo hi top h'
        (linked-Room (car h.memory l) last lo (length xs) hi h room small low behind)
        (omega (arith, low, behind)) (omega arith)
        (linked-new (car h.memory l) last lo (length xs) hi h room small low behind)
        (subst (λ d. Holds lo hi h'.memory d xs)
          (sym (cdr-Agrees lo hi h.memory h'.memory same l o))
          (Holds-Agrees lo hi h.memory h'.memory same (cdr h.memory l) xs list))
        (omega (arith, fuel)) in
    (
      r,
      round k l last h (pair-not_schnull h.memory l p) ∙ run,
      subst (λ v. Linked last hi top h (v ∷ xs) r) a
          (Linked-first (car h.memory l) last lo (length xs) hi h room small low behind top xs r
            after),
    )

-- The result of the copying of a list on the heap `h`.
pub record Copied (hi top : ℕ) (h : Heap) (xs : List ℕ) (r : ℕ × Heap) : Type 0 where
  pub list : Holds hi top r.1.memory r.0 xs
  pub small : r.0 < 2 ^ 32
  pub space_after : r.1.space ≡ moved_hp h hi
  pub rest : Agrees h.space.hp hi h.memory r.1.memory
  pub bytes : IsBytes r.1.memory

begin :
    (k list : ℕ) (h : Heap)
    → copy_pairs k list h ≡ (
        copy_rest k
          (cdr (with_pair (car h.memory list) schnull h).memory list)
          (h.space.hp + 7)
          (with_pair (car h.memory list) schnull h)
        >>= λ r. done (h.space.hp + 7, r))
unfolding copy_pairs
begin k list h =
    ap (λ (p : ℕ × Heap). copy_rest k (cdr p.1.memory list) p.0 p.1 >>= λ r. done (p.0, r))
      (cons-put_pair (car h.memory list) schnull h)

-- A list of one element or more, outside the space of the new pairs: with fuel for its length, the
-- copying ends, with a new list of the same elements below the new heap pointer. No byte outside
-- the new pairs changes.
pub copy_pairs-Copied :
    (x : ℕ) (xs : List ℕ) (k l hi top : ℕ) (h : Heap)
    → Room (suc (length xs)) hi h
    → Holds h.space.hp hi h.memory l (x ∷ xs)
    → length xs < k
    → (r : ℕ × Heap) × (copy_pairs k l h ≡ done r) × Copied hi top h (x ∷ xs) r
copy_pairs-Copied x xs k l hi top h room (o, (p, (a, list))) fuel =
    let v : ℕ = car h.memory l in
    let h' : Heap = with_pair v schnull h in
    let fits : h.space.hp + 12 ≤ hi = omega (arith, room.enough) in
    let small : v < 2 ^ 32 = load-lt h.memory (l - 3) room.bytes in
    let same : Agrees h.space.hp hi h.memory h'.memory = with_pair-Agrees v schnull hi h fits in
    let new_end : cdr h'.memory (h.space.hp + 7) ≡ schnull =
      cdr-put_pair h.memory h.space.hp v schnull (omega arith) in
    let (r, run, after) =
      copy_rest-Linked xs k (cdr h'.memory l) (h.space.hp + 7) h.space.hp hi top h'
        (with_pair-Room v schnull (length xs) hi h room) (omega arith) (omega arith) new_end
        (subst (λ d. Holds h.space.hp hi h'.memory d xs)
          (sym (cdr-Agrees h.space.hp hi h.memory h'.memory same l o))
          (Holds-Agrees h.space.hp hi h.memory h'.memory same (cdr h.memory l) xs list))
        fuel in
    let kept : (b : ℕ) → b + 4 ≤ h.space.hp + 8 → load r.memory b ≡ load h'.memory b = λ b u.
      load-Keeps (h.space.hp + 12) hi (h.space.hp + 7 - 3 + 4) h'.memory r.memory b after.rest
        (inl (omega (arith, u))) (inl (omega (arith, u))) in
    (
      (h.space.hp + 7, r),
      begin k l h ∙ ap (λ o. o >>= λ r. done (h.space.hp + 7, r)) run,
      record {
        list = (
          (omega arith, inl (omega (arith, fits))),
          (
            is_pair-same r.memory h'.memory (h.space.hp + 7)
                  (kept (h.space.hp + 7 - 7) (omega arith))
                ∙ put_pair-is_pair h.memory h.space.hp v schnull room.aligned,
            (
              kept (h.space.hp + 7 - 3) (omega arith)
                  ∙ car-put_pair h.memory h.space.hp v schnull small
                  ∙ a,
              after.list,
            ),
          ),
        );
        small = omega (arith, fits, room.narrow);
        space_after = after.space_after;
        rest = λ y q. after.rest y (ground (arith, q, fits)) (ground (arith, q, fits)) ∙ same y q;
        bytes = after.bytes;
      },
    )
