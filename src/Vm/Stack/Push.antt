-- ===== src/Vm/Stack/Push.antt =====
-- What the loop of `push_list` leaves: the first elements of the list on the stack.
use kali_scheme.Prelude.{
  ℕ, suc, ◌+◌, ◌-◌, ◌*◌, ◌^◌, ◌≤◌, ◌<◌, ◌≡◌, ◌∙◌, sym, subst, ap, inr, List, [], ◌∷◌, ◌++◌, length,
  arith,
}
use mathlib.Core.List.{reverse_aux}
use kali_scheme.Heap.Memory.{Memory, store, store-out, load-store, load-lt, IsBytes, store-IsBytes}
use kali_scheme.Vm.Pair.{car, cdr}
use kali_scheme.Vm.Lists.{Holds}
use kali_scheme.Vm.Lists.Keep.{
  words, words-Agrees, Agrees, Agrees-trans, Agrees-wider, cdr-Agrees, Holds-Agrees,
}
use kali_scheme.Vm.Stack.{push_args}

-- The result of the loop for `n` words, with `k` words on the stack before: what is on the stack
-- then, from the top, and what is left of the list.
pub record Pushed (n k stack lo hi : ℕ) (m : Memory) (on_stack left : List ℕ) (r : ℕ × ℕ × Memory)
    : Type 0 where
  pub list : Holds lo hi r.2 r.0 left
  pub stack_after : r.1 + 4 * n ≡ stack
  pub on_top : words r.2 (r.1 + 4) (n + k) ≡ on_stack
  pub rest : Agrees lo (stack + 4) m r.2
  pub bytes : IsBytes r.2

pub store-Agrees :
    (lo hi : ℕ) (m : Memory) (a w : ℕ) → lo ≤ a → a + 4 ≤ hi → Agrees lo hi m (store m a w)
store-Agrees lo hi m a w l h x o = store-out m a w x (ground (arith, l, h, o))

module _ (m : Memory) (stack w : ℕ) (small : w < 2 ^ 32) (k : ℕ) (high : 4 ≤ stack) where
  pub words-store : words (store m stack w) (stack - 4 + 4) (suc k) ≡ w ∷ words m (stack + 4) k
  words-store =
      let at : stack - 4 + 4 ≡ stack = omega (arith, high) in
      ap (λ a. words (store m stack w) a (suc k)) at
      ∙ ap (λ v. v ∷ words (store m stack w) (stack + 4) k) (load-store m stack w small)
      ∙ ap (λ ws. w ∷ ws)
          (words-Agrees k stack (stack + 4) m (store m stack w) (stack + 4)
            (store-Agrees stack (stack + 4) m stack w (omega arith) (omega arith))
            (inr (omega arith)))

later :
    (n k stack lo hi w : ℕ) (m : Memory) (on_stack left : List ℕ) (r : ℕ × ℕ × Memory)
    → 4 ≤ stack
    → lo ≤ stack
    → Pushed n (suc k) (stack - 4) lo hi (store m stack w) on_stack left r
    → Pushed (suc n) k stack lo hi m on_stack left r
later n k stack lo hi w m on_stack left r high low p = record {
  list = p.list;
  stack_after = omega (arith, p.stack_after, high);
  on_top = ap (words r.2 (r.1 + 4)) (omega arith) ∙ p.on_top;
  rest =
      Agrees-trans lo (stack + 4) m (store m stack w) r.2
        (store-Agrees lo (stack + 4) m stack w low (omega arith))
        (Agrees-wider lo (stack - 4 + 4) lo (stack + 4) (store m stack w) r.2 (omega arith)
          (omega (arith, high)) p.rest);
  bytes = p.bytes;
}

-- The list `xs ++ ys` outside the words of the stack from `lo` on: the elements of `xs` are pushed
-- one after the other on the `k` words that were there, `ys` is left, and no byte but those of the
-- new words changes.
pub push_args-Pushed :
    (xs ys : List ℕ) (k l stack lo hi : ℕ) (m : Memory)
    → IsBytes m
    → lo + 4 * length xs ≤ stack + 4
    → 4 ≤ lo
    → stack + 4 ≤ hi
    → Holds lo hi m l (xs ++ ys)
    → Pushed
        (length xs)
        k
        stack
        lo
        hi
        m
        (reverse_aux xs (words m (stack + 4) k))
        ys
        (push_args (length xs) l stack m)
unfolding push_args
push_args-Pushed [] ys k l stack lo hi m bytes room low top list = record {
  list = list;
  stack_after = omega arith;
  on_top = ap (words m (stack + 4)) (omega arith);
  rest = λ x o i. m x;
  bytes = bytes;
}
push_args-Pushed (x ∷ xs) ys k l stack lo hi m bytes room low top (o, (p, (a, list))) =
    let w : ℕ = car m l in
    let m' : Memory = store m stack w in
    let same : Agrees lo hi m m' = store-Agrees lo hi m stack w (omega (arith, room)) top in
    let small : w < 2 ^ 32 = load-lt m (l - 3) bytes in
    let high : 4 ≤ stack = omega (arith, room, low) in
    let list' : Holds lo hi m' (cdr m' l) (xs ++ ys) =
      subst (λ d. Holds lo hi m' d (xs ++ ys)) (sym (cdr-Agrees lo hi m m' same l o))
        (Holds-Agrees lo hi m m' same (cdr m l) (xs ++ ys) list) in
    let after =
      push_args-Pushed xs ys (suc k) (cdr m' l) (stack - 4) lo hi m' (store-IsBytes m stack w bytes)
        (omega (arith, room)) low (omega (arith, top)) list' in
    later (length xs) k stack lo hi w m _ ys (push_args (length xs) (cdr m' l) (stack - 4) m') high
      (omega (arith, room))
      (subst
        (λ ws.
          Pushed (length xs) (suc k) (stack - 4) lo hi m' (reverse_aux xs ws) ys
            (push_args (length xs) (cdr m' l) (stack - 4) m'))
        (words-store m stack w small k high ∙ ap (λ v. v ∷ words m (stack + 4) k) a) after)
