-- ===== src/Vm/Setup/Rest.antt =====
-- What `rest_list_setup` of c/scheme48vm.c leaves on the stack, whichever of the stack and the list
-- has more arguments than are wanted.
use kali_scheme.Prelude.{
  ℕ, suc, ◌+◌, ◌-◌, ◌*◌, ◌≤◌, ◌≡◌, ◌∙◌, ap, true, false, List, length, arith, ltb, ◌==◌,
}
use kali_scheme.Heap.Memory.{store-out}
use kali_scheme.Vm.Lists.Keep.{Agrees}
use kali_scheme.Vm.Setup.{Ready, Arranged, push_stack-Arranged}
use kali_scheme.Vm.Stack.{
  Vm, Progress, done, ◌>>=◌, push_stack, pop_args_list, push_list, copy_list, rest_list_setup,
}

module _ (k list lo top : ℕ) (vm : Vm) where
  -- As many arguments on the stack as are wanted.
  pub equal_case :
      (a l : ℕ) (r : ℕ × Vm)
      → copy_list k list l vm ≡ done r
      → rest_list_setup k a a list l vm ≡ done (push_stack r.0 r.1)
  unfolding rest_list_setup
  equal_case a l r run =
      let same : (a == a) ≡ true = ground arith in
      rw (same, rest_list_setup)
        (ap
          (λ (o : Progress (ℕ × Vm)).
            ◌>>=◌ {A = ℕ × Vm} {B = Vm} o (λ p. done (push_stack p.0 p.1)))
          run)

  pub fewer_case :
      (a n l : ℕ) (p r : ℕ × Vm)
      → push_list list (suc n) vm ≡ done p
      → copy_list k p.0 l p.1 ≡ done r
      → rest_list_setup k (a + suc n) a list (suc n + l) vm ≡ done (push_stack r.0 r.1)
  unfolding rest_list_setup
  fewer_case a n l p r pushed copied =
      let other : (a == a + suc n) ≡ false = ground arith in
      let under : ltb a (a + suc n) ≡ true = ground arith in
      let missing : a + suc n - a ≡ suc n = omega arith in
      let left : suc n + l - suc n ≡ l = omega arith in
      rw (other, under, missing, left, rest_list_setup)
        (ap
            (λ (o : Progress (ℕ × Vm)). ◌>>=◌ {A = ℕ × Vm} {B = Vm} o (λ p.
              ◌>>=◌ {A = ℕ × Vm} {B = Vm} (copy_list k p.0 l p.1) (λ r. done (push_stack r.0 r.1))))
            pushed
          ∙ ap
              (λ (o : Progress (ℕ × Vm)).
                ◌>>=◌ {A = ℕ × Vm} {B = Vm} o (λ p. done (push_stack p.0 p.1)))
              copied)

  pub more_case :
      (w n l : ℕ) (c r : ℕ × Vm)
      → copy_list k list l vm ≡ done c
      → pop_args_list c.0 (suc n) c.1 ≡ done r
      → rest_list_setup k w (w + suc n) list l vm ≡ done (push_stack r.0 r.1)
  unfolding rest_list_setup
  more_case w n l c r copied popped =
      let other : (w + suc n == w) ≡ false = ground arith in
      let over : ltb (w + suc n) w ≡ false = ground arith in
      let extra : w + suc n - w ≡ suc n = omega arith in
      rw (other, over, extra, rest_list_setup)
        (ap
            (λ (o : Progress (ℕ × Vm)). ◌>>=◌ {A = ℕ × Vm} {B = Vm} o (λ p.
              ◌>>=◌ {A = ℕ × Vm} {B = Vm} (pop_args_list p.0 (suc n) p.1)
                (λ r. done (push_stack r.0 r.1))))
            copied
          ∙ ap
              (λ (o : Progress (ℕ × Vm)).
                ◌>>=◌ {A = ℕ × Vm} {B = Vm} o (λ p. done (push_stack p.0 p.1)))
              popped)

-- What the machine is after the call: the wanted arguments and the list of the rest on the stack,
-- which had `n` arguments before, and no other change but to new pairs.
pub record SetUp (n lo top : ℕ) (wanted rest : List ℕ) (vm r : Vm) : Type 0 where
  pub arranged : Arranged lo top wanted rest r
  pub stack_after : r.stack + 4 * (1 + length wanted) ≡ vm.stack + 4 * n
  pub others : Agrees vm.heap.space.hp (vm.stack + 4 + 4 * n) vm.heap.memory r.heap.memory

-- The push at the end of each case, on the machine `v` that the case leaves.
pub pushed-SetUp :
    (n lo top x : ℕ) (wanted rest : List ℕ) (vm v : Vm)
    → Ready lo top wanted rest x v
    → v.stack + 4 * length wanted ≡ vm.stack + 4 * n
    → vm.heap.space.hp ≤ lo
    → Agrees vm.heap.space.hp (vm.stack + 4 + 4 * n) vm.heap.memory v.heap.memory
    → SetUp n lo top wanted rest vm (push_stack x v)
pushed-SetUp n lo top x wanted rest vm v ready at low same = record {
  arranged = push_stack-Arranged lo top wanted rest x v ready;
  stack_after = omega (arith, at, ready.low, ready.above);
  others = λ y o.
      store-out v.heap.memory v.stack x y (ground (arith, o, at, ready.above, low)) ∙ same y o;
}
