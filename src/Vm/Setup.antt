-- ===== src/Vm/Setup.antt =====
-- The parts of `rest_list_setup` of c/scheme48vm.c: the copying of the list, the pops and the
-- pushes, each on a machine with room for them.
pub mod Split
pub mod Rest
pub mod More
pub mod Fewer
pub mod Arguments
pub mod Again
use kali_scheme.Prelude.{
  ℕ, zero, suc, ◌+◌, ◌-◌, ◌*◌, ◌%◌, ◌^◌, ◌≤◌, ◌<◌, ◌≡◌, ◌∙◌, sym, subst, ap, refl, ◌⊎◌, inl, inr,
  true, false, List, [], ◌∷◌, ◌++◌, length, arith, ◌==◌, if◌then◌else◌,
}
use mathlib.Core.List.{reverse_aux}
use kali_scheme.Heap.Memory.{load, store, store-out, load-store, load-store_apart, IsBytes}
use kali_scheme.Heap.Space.{is_available}
use kali_scheme.Heap.Copy.{Heap}
use kali_scheme.Vm.Pair.{schnull}
use kali_scheme.Vm.Lists.{Holds}
use kali_scheme.Vm.Lists.Keep.{words, words-Agrees, Agrees, Holds-Agrees, Holds-within}
use kali_scheme.Vm.Stack.Pop.{moved_hp, Room}
use kali_scheme.Vm.Stack.Copy.Copied.{Copied, copy_pairs-Copied}
use kali_scheme.Vm.Stack.{
  Vm, Progress, done, collects, ◌>>=◌, push_stack, copy_pairs, copy_list, has_stack_room,
}

-- A machine whose stack, in [lo, top), lies behind the heap, with room in the heap for `n` pairs.
pub record Machine (n lo top : ℕ) (vm : Vm) : Type 0 where
  pub bytes : IsBytes vm.heap.memory
  pub aligned : vm.heap.space.hp % 4 ≡ 0
  pub free : is_available (3 * n) vm.heap.space ≡ true
  pub before : vm.heap.space.limit ≤ lo
  pub narrow : lo ≤ 2 ^ 32
  pub low : 4 ≤ vm.heap.space.hp
  pub above : lo ≤ vm.stack
  pub under : vm.stack + 4 ≤ top

-- The heap pointer after `i` new pairs.
abbrev pub after_pairs : ℕ → Vm → ℕ
after_pairs i vm = vm.heap.space.hp + 12 * i

module _ (n lo top : ℕ) (vm : Vm) (is : Machine n lo top vm) where
  pub Machine-fits : (i : ℕ) → i ≤ n → after_pairs i vm < lo
  unfolding is_available
  Machine-fits i h =
      let room : vm.heap.space.hp + 3 * n * 4 < vm.heap.space.limit = ground (arith, is.free) in
      omega (arith, room, h, is.before)

  pub Machine-is_available : (i : ℕ) → i ≤ n → is_available (3 * i) vm.heap.space ≡ true
  unfolding is_available
  Machine-is_available i h = ground (arith, is.free, h)

  pub Machine-Room : (i : ℕ) → i ≤ n → Room i (after_pairs i vm) vm.heap
  Machine-Room i h = record {
    bytes = is.bytes;
    aligned = is.aligned;
    enough = omega arith;
    narrow = omega (arith, Machine-fits i h, is.narrow);
  }

-- A list in a register, ready to be pushed on the wanted arguments.
pub record Ready (lo top : ℕ) (wanted rest : List ℕ) (x : ℕ) (vm : Vm) : Type 0 where
  pub list : Holds lo top vm.heap.memory x rest
  pub small : x < 2 ^ 32
  pub args : words vm.heap.memory (vm.stack + 4) (length wanted) ≡ reverse_aux wanted []
  pub low : 4 ≤ lo
  pub above : lo ≤ vm.stack
  pub under : vm.stack + 4 ≤ top

-- The list on the top of the stack, and the wanted arguments behind it.
pub record Arranged (lo top : ℕ) (wanted rest : List ℕ) (vm : Vm) : Type 0 where
  pub list : Holds lo top vm.heap.memory (load vm.heap.memory (vm.stack + 4)) rest
  pub args : words vm.heap.memory (vm.stack + 4 + 4) (length wanted) ≡ reverse_aux wanted []

pub push_stack-Arranged :
    (lo top : ℕ) (wanted rest : List ℕ) (x : ℕ) (vm : Vm)
    → Ready lo top wanted rest x vm
    → Arranged lo top wanted rest (push_stack x vm)
push_stack-Arranged lo top wanted rest x vm r =
    let at : vm.stack - 4 + 4 ≡ vm.stack = omega (arith, r.low, r.above) in
    let m = store vm.heap.memory vm.stack x in
    let same : Agrees lo top vm.heap.memory m =
      λ y o. store-out vm.heap.memory vm.stack x y (ground (arith, o, r.above, r.under)) in
    let first : load m (vm.stack - 4 + 4) ≡ x =
      ap (load m) at ∙ load-store vm.heap.memory vm.stack x r.small in
    record {
      list =
          subst (λ d. Holds lo top m d rest) (sym first)
            (Holds-Agrees lo top vm.heap.memory m same x rest r.list);
      args =
          ap (λ a. words m (a + 4) (length wanted)) at
          ∙ words-Agrees (length wanted) vm.stack (vm.stack + 4) vm.heap.memory m (vm.stack + 4)
              (λ y o. store-out vm.heap.memory vm.stack x y o) (inr (omega arith))
          ∙ r.args;
    }

copy_list-more :
    (n k l : ℕ) (vm : Vm) (r : ℕ × Heap)
    → is_available (3 * suc n) vm.heap.space ≡ true
    → copy_pairs k l vm.heap ≡ done r
    → copy_list k l (suc n) vm ≡ done (r.0, record vm { heap = r.1 })
unfolding copy_list
copy_list-more n k l vm r free run =
    let some_left : (suc n == 0) ≡ false = ground arith in
    rw (some_left, free, copy_list)
      (ap
        (λ (o : Progress (ℕ × Heap)).
          ◌>>=◌ {A = ℕ × Heap} {B = ℕ × Vm} o (λ p. done (p.0, record vm { heap = p.1 })))
        run)

-- `copy_listS` as a whole, with the length of the list.
pub copy_list-Copied :
    (xs : List ℕ) (k l top : ℕ) (vm : Vm)
    → Room (length xs) (after_pairs (length xs) vm) vm.heap
    → is_available (3 * length xs) vm.heap.space ≡ true
    → Holds vm.heap.space.hp (after_pairs (length xs) vm) vm.heap.memory l xs
    → length xs ≤ k
    → (r : ℕ × Heap) × (copy_list k l (length xs) vm ≡ done (r.0, record vm { heap = r.1 }))
      × Copied (after_pairs (length xs) vm) top vm.heap xs r
unfolding copy_list
copy_list-Copied [] k l top vm room free list fuel = (
  (schnull, vm.heap),
  refl,
  record {
    list = refl;
    small = omega arith;
    space_after =
        let same : vm.heap.space.hp ≡ vm.heap.space.hp + 12 * 0 = omega arith in
        λ i. moved_hp vm.heap (same i);
    rest = λ y o i. vm.heap.memory y;
    bytes = room.bytes;
  },
)
copy_list-Copied (x ∷ xs) k l top vm room free list fuel =
    let (r, run, after) =
      copy_pairs-Copied x xs k l (after_pairs (suc (length xs)) vm) top vm.heap room list
        (omega (arith, fuel)) in
    (r, copy_list-more (length xs) k l vm r free run, after)
