-- ===== src/Vm/Setup/More.antt =====
-- `rest_list_setup` of c/scheme48vm.c where the stack has as many arguments as are wanted, or
-- more.
use kali_scheme.Prelude.{
  ℕ, suc, ◌+◌, ◌*◌, ◌^◌, ◌≤◌, ◌<◌, ◌≡◌, ◌∙◌, sym, subst, ap, refl, inr, true, Bool, List, [], ◌++◌,
  length, length-append, arith, if◌then◌else◌,
}
use mathlib.Core.List.{
  append-nil, reverse, reverse_aux, reverse_aux-eq, reverse_aux-reverse_aux-nil,
}
use kali_scheme.Heap.Space.{Space, is_available}
use kali_scheme.Heap.Copy.{Heap}
use kali_scheme.Vm.Lists.{Holds}
use kali_scheme.Vm.Lists.Keep.{
  words, words-Agrees, Agrees, Agrees-trans, Agrees-wider, Holds-within,
}
use kali_scheme.Vm.Stack.Pop.{Room, pop_args-Popped}
use kali_scheme.Vm.Stack.Copy.Copied.{Copied}
use kali_scheme.Vm.Setup.{
  Machine, after_pairs, Machine-fits, Machine-is_available, Machine-Room, Ready, copy_list-Copied,
}
use kali_scheme.Vm.Setup.Rest.{equal_case, more_case, SetUp, pushed-SetUp}
use kali_scheme.Vm.Setup.Split.{words-reverse}
use kali_scheme.Vm.Stack.{
  Vm, Progress, done, push_stack, pop_args, pop_args_list, copy_list, rest_list_setup,
}

-- What the procedure starts from: `a` on the stack and `l` in the list at `list`.
pub record Given (k n list lo top : ℕ) (a l : List ℕ) (vm : Vm) : Type 0 where
  pub machine : Machine n lo top vm
  pub on_stack : words vm.heap.memory (vm.stack + 4) (length a) ≡ reverse_aux a []
  pub whole_stack : vm.stack + 4 + 4 * length a ≤ top
  pub in_list : Holds vm.heap.space.hp top vm.heap.memory list l
  pub small : list < 2 ^ 32
  pub enough : length a + length l ≤ n
  pub fuel : length l ≤ k

abbrev pub Returns : (n lo top : ℕ) (w r : List ℕ) (vm : Vm) (o : Progress Vm) → Type 0
Returns n lo top w r vm o = (v : Vm) × (o ≡ done v) × SetUp n lo top w r vm v

-- The copy of the list on a machine, and the machine after it.
pub copying :
    (k n list lo top : ℕ) (l : List ℕ) (vm : Vm)
    → Machine n lo top vm
    → Holds vm.heap.space.hp top vm.heap.memory list l
    → length l ≤ n
    → length l ≤ k
    → (r : ℕ × Heap) × (copy_list k list (length l) vm ≡ done (r.0, record vm { heap = r.1 }))
      × Copied (after_pairs (length l) vm) top vm.heap l r
copying k n list lo top l vm is held room fuel =
    copy_list-Copied l k list top vm (Machine-Room n lo top vm is (length l) room)
      (Machine-is_available n lo top vm is (length l) room)
      (Holds-within vm.heap.space.hp top vm.heap.space.hp (after_pairs (length l) vm) vm.heap.memory
        list l (omega arith)
        (omega (arith, Machine-fits n lo top vm is (length l) room, is.above, is.under)) held)
      fuel

-- The copied list in a register, with the wanted arguments on the stack.
pub copying-Ready :
    (n lo top : ℕ) (w l : List ℕ) (vm : Vm) (r : ℕ × Heap)
    → Machine n lo top vm
    → length l ≤ n
    → words vm.heap.memory (vm.stack + 4) (length w) ≡ reverse_aux w []
    → Copied (after_pairs (length l) vm) top vm.heap l r
    → Ready lo top w l r.0 (record vm { heap = r.1 })
copying-Ready n lo top w l vm r is room args c =
    let fits = Machine-fits n lo top vm is (length l) room in
    record {
      list =
          Holds-within (after_pairs (length l) vm) top lo top r.1.memory r.0 l (omega (arith, fits))
            (omega arith) c.list;
      small = c.small;
      args =
          words-Agrees (length w) vm.heap.space.hp (after_pairs (length l) vm) vm.heap.memory
            r.1.memory (vm.stack + 4) c.rest (inr (omega (arith, fits, is.above)))
          ∙ args;
      low = omega (arith, fits, is.low);
      above = is.above;
      under = is.under;
    }

module _ (k n list lo top : ℕ) (a l : List ℕ) (vm : Vm) (g : Given k n list lo top a l vm) where
  below : vm.heap.space.hp ≤ lo
  below = omega (arith, Machine-fits n lo top vm g.machine 0 (omega arith))

  -- As many on the stack as are wanted.
  pub equal-SetUp :
      Returns (length a) lo top a l vm (rest_list_setup k (length a) (length a) list (length l) vm)
  equal-SetUp =
      let room : length l ≤ n = omega (arith, g.enough) in
      let (r, run, c) = copying k n list lo top l vm g.machine g.in_list room g.fuel in
      (
        push_stack r.0 (record vm { heap = r.1 }),
        equal_case k list lo top vm (length a) (length l) (r.0, record vm { heap = r.1 }) run,
        pushed-SetUp (length a) lo top r.0 a l vm (record vm { heap = r.1 })
            (copying-Ready n lo top a l vm r g.machine room g.on_stack c) refl below
            (Agrees-wider vm.heap.space.hp (after_pairs (length l) vm) vm.heap.space.hp
              (vm.stack + 4 + 4 * length a) vm.heap.memory r.1.memory (omega arith)
              (omega (arith, Machine-fits n lo top vm g.machine (length l) room, g.machine.above))
              c.rest),
      )

pub if_true {ℓ} : {A : Type ℓ} {b : Bool} (x y : A) → b ≡ true → (if b then x else y) ≡ x
if_true x y e = ap (λ (b : Bool). if b then x else y) e

pub reverse_twice : (x l : List ℕ) → reverse_aux (reverse_aux x []) l ≡ x ++ l
reverse_twice x l =
    reverse_aux-eq (reverse_aux x []) l
    ∙ ap (λ t. t ++ l)
        (sym (append-nil (reverse (reverse_aux x [])))
          ∙ sym (reverse_aux-eq (reverse_aux x []) [])
          ∙ reverse_aux-reverse_aux-nil x [])

module _ (k n list lo top : ℕ) (w x l : List ℕ) (vm : Vm) (e : ℕ) (size : length x ≡ suc e)
    (g : Given k n list lo top (w ++ x) l vm) where
  -- More on the stack than are wanted: `x` goes into the list.
  pub more-SetUp :
      Returns
        (length (w ++ x))
        lo
        top
        w
        (x ++ l)
        vm
        (rest_list_setup k (length w) (length w + suc e) list (length l) vm)
  unfolding pop_args_list is_available
  more-SetUp =
      let long : length (w ++ x) ≡ length w + length x = length-append w x in
      let room : length l ≤ n = omega (arith, g.enough) in
      let both : length l + suc e ≤ n = omega (arith, g.enough, long, size) in
      let fits = Machine-fits n lo top vm g.machine (length l + suc e) both in
      let (c, copied, at) = copying k n list lo top l vm g.machine g.in_list room g.fuel in
      let hi : ℕ = after_pairs (length l + suc e) vm in
      let start : c.1.space.hp ≡ after_pairs (length l) vm =
        ap (λ (s : Space). s.hp) at.space_after in
      let limit : c.1.space.limit ≡ vm.heap.space.limit =
        ap (λ (s : Space). s.limit) at.space_after in
      let (front, back) = words-reverse vm.heap.memory (vm.stack + 4) w x g.on_stack in
      let same : Agrees vm.heap.space.hp lo vm.heap.memory c.1.memory =
        Agrees-wider vm.heap.space.hp (after_pairs (length l) vm) vm.heap.space.hp lo vm.heap.memory
          c.1.memory (omega arith) (omega (arith, fits)) at.rest in
      let r = pop_args (suc e) c.0 vm.stack c.1 in
      let room' : Room (suc e) hi c.1 = record {
        bytes = at.bytes;
        aligned = omega (arith, start, g.machine.aligned);
        enough = omega (arith, start);
        narrow = omega (arith, fits, g.machine.narrow);
      } in
      let p =
        pop_args-Popped (suc e) c.0 vm.stack hi top c.1 l room'
          (omega (arith, fits, g.machine.above, g.machine.under)) at.small
          (inr (omega (arith, fits, g.machine.above)))
          (subst (λ (b : ℕ). Holds b top c.1.memory c.0 l) (sym start) at.list) in
      let total : Agrees vm.heap.space.hp lo vm.heap.memory r.2.memory =
        Agrees-trans vm.heap.space.hp lo vm.heap.memory c.1.memory r.2.memory same (
          Agrees-wider c.1.space.hp hi vm.heap.space.hp lo c.1.memory r.2.memory
            (omega (arith, start)) (omega (arith, fits)) p.rest) in
      let vm₂ : Vm = record vm { heap = r.2; stack = r.1 } in
      let free : is_available (3 * suc e) c.1.space ≡ true =
        ground (arith, start, limit, both, g.machine.free) in
      let popped : pop_args_list c.0 (suc e) (record vm { heap = c.1 }) ≡ done (r.0, vm₂) =
        if_true _ _ free in
      let taken : words c.1.memory (vm.stack + 4) (suc e) ≡ reverse_aux x [] =
        words-Agrees (suc e) vm.heap.space.hp lo vm.heap.memory c.1.memory (vm.stack + 4) same
          (inr (omega (arith, g.machine.above)))
        ∙ ap (words vm.heap.memory (vm.stack + 4)) (sym size)
        ∙ front in
      let items : reverse_aux (words c.1.memory (vm.stack + 4) (suc e)) l ≡ x ++ l =
        ap (λ t. reverse_aux t l) taken ∙ reverse_twice x l in
      let place : r.1 + 4 ≡ vm.stack + 4 + 4 * length x = omega (arith, p.stack_after, size) in
      (
        push_stack r.0 vm₂,
        more_case k list lo top vm (length w) e (length l) (c.0, record vm { heap = c.1 })
            (r.0, vm₂) copied popped,
        pushed-SetUp (length (w ++ x)) lo top r.0 w (x ++ l) vm vm₂
            (record {
              list =
                  Holds-within hi top lo top r.2.memory r.0 (x ++ l) (omega (arith, fits))
                    (omega arith) (subst (Holds hi top r.2.memory r.0) items p.list);
              small = p.small;
              args =
                  ap (λ (b : ℕ). words r.2.memory b (length w)) place
                  ∙ words-Agrees (length w) vm.heap.space.hp lo vm.heap.memory r.2.memory
                      (vm.stack + 4 + 4 * length x) total (inr (omega (arith, g.machine.above)))
                  ∙ back;
              low = omega (arith, fits, g.machine.low);
              above = omega (arith, p.stack_after, g.machine.above);
              under = omega (arith, p.stack_after, size, long, g.whole_stack);
            })
            (omega (arith, p.stack_after, size, long)) (omega (arith, fits))
            (Agrees-wider vm.heap.space.hp lo vm.heap.space.hp (vm.stack + 4 + 4 * length (w ++ x))
              vm.heap.memory r.2.memory (omega arith) (omega (arith, g.machine.above)) total),
      )
