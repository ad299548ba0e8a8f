-- ===== src/Vm/Stack/Pop.antt =====
-- What `pop_args_GlistS` leaves: a list of the arguments that stood on the stack.
use kali_scheme.Prelude.{
  ℕ, zero, suc, ◌+◌, ◌*◌, ◌%◌, ◌^◌, ◌≤◌, ◌<◌, ◌≡◌, ◌∙◌, sym, subst, ap, ◌⊎◌, List, ◌∷◌, arith,
}
use mathlib.Core.List.{reverse_aux}
use kali_scheme.Heap.Memory.{load, IsBytes, load-lt}
use kali_scheme.Heap.Space.{Space}
use kali_scheme.Heap.Copy.{Heap}
use kali_scheme.Vm.Pair.{put_pair, put_pair-out, put_pair-IsBytes, cons-put_pair}
use kali_scheme.Vm.Lists.{Holds}
use kali_scheme.Vm.Lists.Keep.{
  words, words-Agrees, Agrees, Agrees-trans, Agrees-wider, put_pair-Holds,
}
use kali_scheme.Vm.Stack.{pop_args}

abbrev pub moved_hp : Heap → ℕ → Space
moved_hp h hp = record h.space { hp = hp }

-- The space for `n` new pairs: from the heap pointer to `hi`.
pub record Room (n hi : ℕ) (h : Heap) : Type 0 where
  pub bytes : IsBytes h.memory
  pub aligned : h.space.hp % 4 ≡ 0
  pub enough : h.space.hp + 12 * n ≡ hi
  pub narrow : hi ≤ 2 ^ 32

-- The result of the loop on the heap `h`, for the list `items`.
pub record Popped (n stack hi top : ℕ) (h : Heap) (items : List ℕ) (r : ℕ × ℕ × Heap) : Type 0 where
  pub list : Holds hi top r.2.memory r.0 items
  pub small : r.0 < 2 ^ 32
  pub stack_after : r.1 ≡ stack + 4 * n
  pub space_after : r.2.space ≡ moved_hp h hi
  pub rest : Agrees h.space.hp hi h.memory r.2.memory
  pub bytes : IsBytes r.2.memory

-- The heap after one pair.
abbrev pub with_pair : (a b : ℕ) → Heap → Heap
with_pair a b h = record {
  space = moved_hp h (h.space.hp + 12);
  memory = put_pair h.memory h.space.hp a b;
}

pub with_pair-Agrees :
    (a b hi : ℕ) (h : Heap)
    → h.space.hp + 12 ≤ hi
    → Agrees h.space.hp hi h.memory (with_pair a b h).memory
with_pair-Agrees a b hi h room x o =
    put_pair-out h.memory h.space.hp a b x (ground (arith, room, o))

pub with_pair-Room : (a b n hi : ℕ) (h : Heap) → Room (suc n) hi h → Room n hi (with_pair a b h)
with_pair-Room a b n hi h r = record {
  bytes = put_pair-IsBytes h.memory h.space.hp a b r.bytes;
  aligned = omega (arith, r.aligned);
  enough = omega (arith, r.enough);
  narrow = r.narrow;
}

step :
    (n args stack : ℕ) (h : Heap)
    → pop_args (suc n) args stack h
      ≡ pop_args n (h.space.hp + 7) (stack + 4) (with_pair (load h.memory (stack + 4)) args h)
unfolding pop_args
step n args stack h =
    ap (λ (p : ℕ × Heap). pop_args n p.0 (stack + 4) p.1)
      (cons-put_pair (load h.memory (stack + 4)) args h)

earlier :
    (n a b stack hi top : ℕ) (h : Heap) (items : List ℕ) (r : ℕ × ℕ × Heap)
    → h.space.hp + 12 ≤ hi
    → Popped n (stack + 4) hi top (with_pair a b h) items r
    → Popped (suc n) stack hi top h items r
earlier n a b stack hi top h items r room p = record {
  list = p.list;
  small = p.small;
  stack_after = p.stack_after ∙ omega arith;
  space_after = p.space_after;
  rest =
      Agrees-trans h.space.hp hi h.memory (with_pair a b h).memory r.2.memory
        (with_pair-Agrees a b hi h room)
        (Agrees-wider (h.space.hp + 12) hi h.space.hp hi (with_pair a b h).memory r.2.memory
          (omega arith) (omega arith) p.rest);
  bytes = p.bytes;
}

-- `n` words are taken from the stack, where no new pair comes to lie, and the words that were
-- deepest on the stack come first in the list, before the list `xs` that the loop starts with. The
-- heap pointer moves over the new pairs, and no other byte of the memory changes.
pub pop_args-Popped :
    (n args stack hi top : ℕ) (h : Heap) (xs : List ℕ)
    → Room n hi h
    → hi ≤ top
    → args < 2 ^ 32
    → (stack + 4 + 4 * n ≤ h.space.hp) ⊎ (hi ≤ stack + 4)
    → Holds h.space.hp top h.memory args xs
    → Popped n stack hi top h
        (reverse_aux (words h.memory (stack + 4) n) xs)
        (pop_args n args stack h)
unfolding pop_args
pop_args-Popped zero args stack hi top h xs room inside small apart list =
    let same : h.space.hp ≡ hi = omega (arith, room.enough) in
    record {
      list = subst (λ lo. Holds lo top h.memory args xs) same list;
      small = small;
      stack_after = omega arith;
      space_after = λ i. moved_hp h (same i);
      rest = λ x o i. h.memory x;
      bytes = room.bytes;
    }
pop_args-Popped (suc n) args stack hi top h xs room inside small apart list =
    let a : ℕ = load h.memory (stack + 4) in
    let h' : Heap = with_pair a args h in
    let fits : h.space.hp + 12 ≤ hi = omega (arith, room.enough) in
    let same : words h'.memory (stack + 4 + 4) n ≡ words h.memory (stack + 4 + 4) n =
      words-Agrees n h.space.hp hi h.memory h'.memory (stack + 4 + 4)
        (with_pair-Agrees a args hi h fits) (ground (arith, apart)) in
    let after : Popped n (stack + 4) hi top h'
        (reverse_aux (words h'.memory (stack + 4 + 4) n) (a ∷ xs))
        (pop_args n (h.space.hp + 7) (stack + 4) h') =
      pop_args-Popped n (h.space.hp + 7) (stack + 4) hi top h' (a ∷ xs)
        (with_pair-Room a args n hi h room) inside (omega (arith, room.narrow, fits))
        (ground (arith, apart, fits))
        (put_pair-Holds h.space.hp top h.memory a args xs room.aligned (omega (arith, fits, inside))
          (load-lt h.memory (stack + 4) room.bytes) small list) in
    subst (Popped (suc n) stack hi top h (reverse_aux (words h.memory (stack + 4) (suc n)) xs))
      (sym (step n args stack h))
      (earlier n a args stack hi top h _ (pop_args n (h.space.hp + 7) (stack + 4) h') fits (
        subst
          (λ ws.
            Popped n (stack + 4) hi top h' (reverse_aux ws (a ∷ xs))
              (pop_args n (h.space.hp + 7) (stack + 4) h'))
          same after))
