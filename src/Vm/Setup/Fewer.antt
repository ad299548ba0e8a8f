-- ===== src/Vm/Setup/Fewer.antt =====
-- `rest_list_setup` of c/scheme48vm.c where the stack has fewer arguments than are wanted.
use kali_scheme.Prelude.{
  ℕ, suc, ◌+◌, ◌-◌, ◌*◌, ◌≤◌, ◌<◌, ◌≡◌, ◌∙◌, sym, ap, inr, true, List, [], ◌++◌, length,
  length-append, arith,
}
use mathlib.Core.List.{reverse_aux, reverse_aux-append}
use kali_scheme.Heap.Memory.{Memory, load, store, store-out, load-store, store-IsBytes}
use kali_scheme.Vm.Lists.Keep.{
  words, words-Agrees, Agrees, Agrees-trans, Agrees-wider, Holds-Agrees,
}
use kali_scheme.Vm.Stack.Push.{push_args-Pushed}
use kali_scheme.Vm.Setup.{Machine, after_pairs, Machine-fits}
use kali_scheme.Vm.Setup.Rest.{fewer_case, pushed-SetUp}
use kali_scheme.Vm.Setup.More.{Given, Returns, copying, copying-Ready, if_true}
use kali_scheme.Vm.Stack.{
  Vm, done, push_stack, push_args, push_list, has_stack_room, rest_list_setup,
}

-- 64 words under the limit can be used, and the bottom is 125 words under it.
pub room_under :
    (count stack limit lo : ℕ)
    → has_stack_room count (stack - 4) limit ≡ true
    → lo + 500 ≤ limit
    → 4 ≤ stack
    → lo + 4 * count + 4 ≤ stack + 4
unfolding has_stack_room
room_under count stack limit lo room low high = ground (arith, room, low, high)

pub fewer_room :
    (count more stack limit : ℕ)
    → count ≤ more
    → has_stack_room more stack limit ≡ true
    → has_stack_room count stack limit ≡ true
unfolding has_stack_room
fewer_room count more stack limit le room = ground (arith, le, room)

module _ (k n list lo top : ℕ) (a x r : List ℕ) (vm : Vm) (e : ℕ) (size : length x ≡ suc e)
    (g : Given k n list lo top a (x ++ r) vm) where
  -- The machine after the list has been pushed and popped.
  abbrev stored : Memory
  stored = store vm.heap.memory vm.stack list

  stored-Agrees : Agrees vm.stack (vm.stack + 4) vm.heap.memory stored
  stored-Agrees y o = store-out vm.heap.memory vm.stack list y o

  -- Fewer on the stack than are wanted: `x` is pushed.
  pub fewer-SetUp :
      has_stack_room (suc e) (vm.stack - 4) vm.stack_limit ≡ true
      → lo + 500 ≤ vm.stack_limit
      → Returns
          (length a)
          lo
          top
          (a ++ x)
          r
          vm
          (rest_list_setup k (length a + suc e) (length a) list (suc e + length r) vm)
  unfolding push_list
  fewer-SetUp room low =
      let sizes : length (x ++ r) ≡ suc e + length r = omega (arith, length-append x r, size) in
      let start = Machine-fits n lo top vm g.machine 0 (omega arith) in
      let high : 4 ≤ vm.stack = omega (arith, start, g.machine.low, g.machine.above) in
      let wide = room_under (suc e) vm.stack vm.stack_limit lo room low high in
      let same : Agrees vm.heap.space.hp top vm.heap.memory stored =
        Agrees-wider vm.stack (vm.stack + 4) vm.heap.space.hp top vm.heap.memory stored
          (omega (arith, start, g.machine.above)) g.machine.under stored-Agrees in
      let p =
        push_args-Pushed x r (length a) list vm.stack vm.heap.space.hp top stored
          (store-IsBytes vm.heap.memory vm.stack list g.machine.bytes)
          (omega (arith, start, wide, size)) g.machine.low g.machine.under
          (Holds-Agrees vm.heap.space.hp top vm.heap.memory stored same list (x ++ r) g.in_list) in
      let q = push_args (length x) list vm.stack stored in
      let vm₁ : Vm = record vm { heap = record vm.heap { memory = q.2 }; stack = q.1 } in
      let back : load stored (vm.stack - 4 + 4) ≡ list =
        ap (load stored) (omega (arith, high)) ∙ load-store vm.heap.memory vm.stack list g.small in
      let at : vm.stack - 4 + 4 ≡ vm.stack = omega (arith, high) in
      let pushed : push_list list (suc e) vm ≡ done (q.0, vm₁) =
        if_true _ _ room
        ∙ ap
            (λ (t : ℕ × ℕ).
              let v = push_args (suc e) t.0 t.1 stored in
              done (v.0, record vm { heap = record vm.heap { memory = v.2 }; stack = v.1 }))
            (λ i. (back i, at i))
        ∙ ap
            (λ (c : ℕ).
              let v = push_args c list vm.stack stored in
              done (v.0, record vm { heap = record vm.heap { memory = v.2 }; stack = v.1 }))
            (sym size) in
      let is : Machine n lo top vm₁ = record {
        bytes = p.bytes;
        aligned = g.machine.aligned;
        free = g.machine.free;
        before = g.machine.before;
        narrow = g.machine.narrow;
        low = g.machine.low;
        above = omega (arith, p.stack_after, wide, size);
        under = omega (arith, p.stack_after, g.machine.under);
      } in
      let fits : length r ≤ n = omega (arith, g.enough, sizes) in
      let (c, copied, made) =
        copying k n q.0 lo top r vm₁ is p.list fits (omega (arith, g.fuel, sizes)) in
      let long : length (a ++ x) ≡ length a + length x = length-append a x in
      let args : words q.2 (q.1 + 4) (length (a ++ x)) ≡ reverse_aux (a ++ x) [] =
        ap (words q.2 (q.1 + 4)) (omega (arith, long))
        ∙ p.on_top
        ∙ ap (reverse_aux x) (
            words-Agrees (length a) vm.stack (vm.stack + 4) vm.heap.memory stored (vm.stack + 4)
              stored-Agrees (inr (omega arith))
            ∙ g.on_stack)
        ∙ sym (reverse_aux-append a x []) in
      let far : after_pairs (length r) vm < lo =
        Machine-fits n lo top vm g.machine (length r) fits in
      let end : ℕ = vm.stack + 4 + 4 * length a in
      let hp : ℕ = vm.heap.space.hp in
      let first : Agrees hp end vm.heap.memory stored =
        Agrees-wider vm.stack (vm.stack + 4) hp end vm.heap.memory stored
          (omega (arith, start, g.machine.above)) (omega arith) stored-Agrees in
      let second : Agrees hp end stored q.2 =
        Agrees-wider hp (vm.stack + 4) hp end stored q.2 (omega arith) (omega arith) p.rest in
      let third : Agrees hp end q.2 c.1.memory =
        Agrees-wider hp (after_pairs (length r) vm) hp end q.2 c.1.memory (omega arith)
          (omega (arith, far, g.machine.above)) made.rest in
      (
        push_stack c.0 (record vm₁ { heap = c.1 }),
        fewer_case k list lo top vm (length a) e (length r) (q.0, vm₁)
            (c.0, record vm₁ { heap = c.1 }) pushed copied,
        pushed-SetUp (length a) lo top c.0 (a ++ x) r vm (record vm₁ { heap = c.1 })
            (copying-Ready n lo top (a ++ x) r vm₁ c is fits args made)
            (omega (arith, long, p.stack_after)) (omega (arith, start))
            (Agrees-trans hp end vm.heap.memory stored c.1.memory first
              (Agrees-trans hp end stored q.2 c.1.memory second third)),
      )
