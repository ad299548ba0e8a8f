-- ===== src/Vm/Setup/Again.antt =====
-- Arguments that are popped into a list and pushed again, by `pop_args_GlistS` and `push_list` of
-- c/scheme48vm.c.
use kali_scheme.Prelude.{
  ℕ, zero, suc, ◌+◌, ◌-◌, ◌*◌, ◌^◌, ◌≤◌, ◌<◌, ◌≡◌, ◌∙◌, sym, subst, ap, refl, inr, true, List, [],
  ◌++◌, length, arith,
}
use mathlib.Core.List.{append-nil, reverse_aux}
use kali_scheme.Heap.Memory.{Memory, load, store, store-out, load-store, store-IsBytes}
use kali_scheme.Vm.Pair.{schnull}
use kali_scheme.Vm.Lists.{Holds}
use kali_scheme.Vm.Lists.Keep.{words, Agrees, Holds-Agrees, Holds-within}
use kali_scheme.Vm.Stack.Pop.{pop_args-Popped}
use kali_scheme.Vm.Stack.Push.{Pushed, push_args-Pushed}
use kali_scheme.Vm.Setup.{Machine, after_pairs, Machine-fits, Machine-is_available, Machine-Room}
use kali_scheme.Vm.Setup.Split.{length-reverse_aux}
use kali_scheme.Vm.Setup.More.{if_true, reverse_twice}
use kali_scheme.Vm.Setup.Fewer.{room_under}
use kali_scheme.Vm.Stack.{
  Vm, Progress, done, ◌>>=◌, pop_args, pop_args_list, push_args, push_list, has_stack_room,
}

length-words : (m : Memory) (a n : ℕ) → length (words m a n) ≡ n
length-words m a zero = refl
length-words m a (suc n) = ap suc (length-words m (a + 4) n)

-- `push_list` where there is room on the stack: the loop on the memory with the list stored.
pub push_list-loop :
    (count list : ℕ) (vm : Vm)
    → has_stack_room count (vm.stack - 4) vm.stack_limit ≡ true
    → 4 ≤ vm.stack
    → list < 2 ^ 32
    → let r = push_args count list vm.stack (store vm.heap.memory vm.stack list) in
      push_list list count vm
      ≡ done (r.0, record vm { heap = record vm.heap { memory = r.2 }; stack = r.1 })
unfolding push_list
push_list-loop count list vm room high small =
    let stored : Memory = store vm.heap.memory vm.stack list in
    let at : vm.stack - 4 + 4 ≡ vm.stack = omega (arith, high) in
    let back : load stored (vm.stack - 4 + 4) ≡ list =
      ap (load stored) at ∙ load-store vm.heap.memory vm.stack list small in
    if_true _ _ room
    ∙ ap
        (λ (t : ℕ × ℕ).
          let v = push_args count t.0 t.1 stored in
          done (v.0, record vm { heap = record vm.heap { memory = v.2 }; stack = v.1 }))
        (λ i. (back i, at i))

-- What is left of the list is the empty list, and the stack is what it was.
pub record Same (n : ℕ) (vm : Vm) (r : ℕ × Vm) : Type 0 where
  pub left : r.0 ≡ schnull
  pub stack_same : r.1.stack ≡ vm.stack
  pub words_same : words r.1.heap.memory (vm.stack + 4) n ≡ words vm.heap.memory (vm.stack + 4) n

-- On a machine with room for `n` pairs, and for the pushes after the pops: `n` arguments that are
-- popped into a list with the empty list behind them, and pushed from it again, stand on the stack as
-- they did before, and none of the list is left.
pub push_list-pop_args_list :
    (n lo top : ℕ) (vm : Vm)
    → Machine n lo top vm
    → vm.stack + 4 + 4 * n ≤ top
    → has_stack_room n (vm.stack + 4 * n - 4) vm.stack_limit ≡ true
    → lo + 500 ≤ vm.stack_limit
    → (r : ℕ × Vm) × ((pop_args_list schnull n vm >>= λ p. push_list p.0 n p.1) ≡ done r)
      × Same n vm r
unfolding pop_args_list
push_list-pop_args_list n lo top vm is whole room low =
    let fits = Machine-fits n lo top vm is n (omega arith) in
    let hi : ℕ = after_pairs n vm in
    let ws : List ℕ = words vm.heap.memory (vm.stack + 4) n in
    let xs : List ℕ = reverse_aux ws [] in
    let size : length xs ≡ n =
      omega (arith, length-reverse_aux ws [], length-words vm.heap.memory (vm.stack + 4) n) in
    let p =
      pop_args-Popped n schnull vm.stack hi top vm.heap []
        (Machine-Room n lo top vm is n (omega arith)) (omega (arith, fits, is.above, is.under))
        (omega arith) (inr (omega (arith, fits, is.above))) refl in
    let r = pop_args n schnull vm.stack vm.heap in
    let vm₁ : Vm = record vm { heap = r.2; stack = r.1 } in
    let at : r.1 ≡ vm.stack + 4 * n = p.stack_after in
    let stored : Memory = store r.2.memory r.1 r.0 in
    let start = Machine-fits n lo top vm is 0 (omega arith) in
    let high : 4 ≤ r.1 = omega (arith, at, start, is.low, is.above) in
    let room₁ : has_stack_room n (r.1 - 4) vm.stack_limit ≡ true =
      ap (λ (s : ℕ). has_stack_room n (s - 4) vm.stack_limit) at ∙ room in
    let under = room_under n r.1 vm.stack_limit lo room₁ low high in
    let same : Agrees lo top r.2.memory stored =
      λ y o. store-out r.2.memory r.1 r.0 y (ground (arith, o, at, whole, is.above)) in
    let list : Holds lo top stored r.0 (xs ++ []) =
      subst (Holds lo top stored r.0) (sym (append-nil xs)) (
        Holds-Agrees lo top r.2.memory stored same r.0 xs (
          Holds-within hi top lo top r.2.memory r.0 xs (omega (arith, fits)) (omega arith)
            p.list)) in
    let q =
      push_args-Pushed xs [] 0 r.0 r.1 lo top stored (store-IsBytes r.2.memory r.1 r.0 p.bytes)
        (omega (arith, under, size)) (omega (arith, start, is.low)) (omega (arith, at, whole))
        list in
    let v = push_args n r.0 r.1 stored in
    let run : push_args (length xs) r.0 r.1 stored ≡ v =
      ap (λ (c : ℕ). push_args c r.0 r.1 stored) size in
    let q' : Pushed n 0 r.1 lo top stored (reverse_aux xs []) [] v =
      subst
        (λ (c : ℕ).
          Pushed c 0 r.1 lo top stored (reverse_aux xs []) [] (push_args c r.0 r.1 stored))
        size q in
    let back : v.1 ≡ vm.stack = omega (arith, q'.stack_after, at) in
    (
      (v.0, record vm { heap = record r.2 { memory = v.2 }; stack = v.1 }),
      ap (λ (o : Progress (ℕ × Vm)). ◌>>=◌ {A = ℕ × Vm} {B = ℕ × Vm} o (λ p. push_list p.0 n p.1))
            (if_true _ _ (Machine-is_available n lo top vm is n (omega arith)))
          ∙ push_list-loop n r.0 vm₁ room₁ high p.small,
      record {
        left = q'.list;
        stack_same = back;
        words_same =
            ap (λ (b : ℕ). words v.2 (b + 4) n) (sym back)
            ∙ ap (words v.2 (v.1 + 4)) (omega arith)
            ∙ q'.on_top
            ∙ reverse_twice ws []
            ∙ append-nil ws;
      },
    )
