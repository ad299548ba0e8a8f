-- ===== src/Vm/Stack.antt =====
-- The stack of c/scheme48vm.c, which grows downwards in the memory of the heap, and the procedures
-- `pop_args_GlistS`, `push_list`, `copy_listS` and `rest_list_setup`, which move arguments between
-- it and lists.
pub mod Pop
pub mod Push
pub mod Copy
use kali_scheme.Prelude.{
  ℕ, zero, suc, ◌+◌, ◌-◌, ◌*◌, ◌/◌, Bool, true, false, ltb, leb, ◌==◌, if◌then◌else◌,
}
use kali_scheme.Heap.Memory.{Memory, load, store}
use kali_scheme.Heap.Space.{is_available}
use kali_scheme.Heap.Copy.{Heap, data_address}
use kali_scheme.Vm.Pair.{car, cdr, schnull, cons}

-- `stack` is the place of the next push: the top of the stack is the word above it.
pub record Vm : Type 0 where
  pub heap : Heap
  pub stack : ℕ
  pub stack_limit : ℕ

-- A procedure that returns, that goes on with `collect_saving_temp` because there is no room in the
-- heap, or with `copy_stack_into_heap` because there is none on the stack; and fuel that ran out.
pub data Progress {ℓ} (A : Type ℓ) : Type ℓ where
  done : A → Progress A
  collects : Progress A
  moves_stack : Progress A
  no_fuel : Progress A

infixl 5 ◌>>=◌
abbrev pub ◌>>=◌ {ℓ κ} : {A : Type ℓ} {B : Type κ} → Progress A → (A → Progress B) → Progress B
done a >>= f = f a
collects >>= f = collects
moves_stack >>= f = moves_stack
no_fuel >>= f = no_fuel

-- `*((long *) (SstackS)) = x; SstackS = ((SstackS) + -4);`
abbrev pub push_stack : ℕ → Vm → Vm
push_stack x vm = record vm {
  heap = record vm.heap { memory = store vm.heap.memory vm.stack x };
  stack = vm.stack - 4;
}

-- The loop of `pop_args_GlistS`: the list, the stack and the heap.
unfoldable pub pop_args : (count args stack : ℕ) → Heap → ℕ × ℕ × Heap
pop_args zero args stack h = (args, stack, h)
pop_args (suc count) args stack h =
    let (x, h') = cons (load h.memory (stack + 4)) args h in pop_args count x (stack + 4) h'

unfoldable pub pop_args_list : (start count : ℕ) → Vm → Progress (ℕ × Vm)
pop_args_list start count vm =
    if is_available (3 * count) vm.heap.space
    then (let (list, stack, h) = pop_args count start vm.stack vm.heap in
        done (list, record vm { heap = h; stack = stack }))
    else collects

-- The loop of `push_list`: what is left of the list, the stack and the memory.
unfoldable pub push_args : (i list stack : ℕ) → Memory → ℕ × ℕ × Memory
push_args zero l stack m = (l, stack, m)
push_args (suc i) l stack m =
    let m' = store m stack (car m l) in push_args i (cdr m' l) (stack - 4) m'

-- `count < 64 + ((stack - limit) >> 2)`, where the stack may be under the limit.
unfoldable pub has_stack_room : (count stack limit : ℕ) → Bool
has_stack_room count stack limit =
    if leb limit stack
    then ltb count (64 + (stack - limit) / 4)
    else ltb (count + (limit - stack + 3) / 4) 64

-- The list is pushed before the test, and popped after it.
unfoldable pub push_list : (list count : ℕ) → Vm → Progress (ℕ × Vm)
push_list list count vm =
    let pushed = push_stack list vm in
    if has_stack_room count pushed.stack vm.stack_limit
    then (let (l, stack, m) =
          push_args count (load pushed.heap.memory (pushed.stack + 4)) (pushed.stack + 4)
            pushed.heap.memory in
        done (l, record pushed { heap = record pushed.heap { memory = m }; stack = stack }))
    else moves_stack

-- The loop of `copy_listS`, which links each new pair to the one before it.
unfoldable pub copy_rest : ℕ → (l last : ℕ) → Heap → Progress Heap
copy_rest zero l last h = no_fuel
copy_rest (suc k) l last h = elim (schnull == l) [
  | true ↦ done h
  | false ↦
      let (x, h') = cons (car h.memory l) schnull h in
      let m = store h'.memory (data_address last + 4) x in
      copy_rest k (cdr m l) x (record h' { memory = m })
]

-- `copy_listS` behind its test for room: the first pair, and then the loop.
unfoldable pub copy_pairs : ℕ → (list : ℕ) → Heap → Progress (ℕ × Heap)
copy_pairs k list h =
    let (x, h') = cons (car h.memory list) schnull h in
    do h'' ← copy_rest k (cdr h'.memory list) x h'; done (x, h'')

unfoldable pub copy_list : ℕ → (list length : ℕ) → Vm → Progress (ℕ × Vm)
unfolding copy_pairs
copy_list k list length vm =
    if length == 0
    then done (schnull, vm)
    else (if is_available (3 * length) vm.heap.space
        then (do (x, h) ← copy_pairs k list vm.heap; done (x, record vm { heap = h }))
        else collects)

-- The arguments behind the wanted ones go into a list, which is pushed.
unfoldable pub rest_list_setup :
    ℕ → (wants_stack_args stack_arg_count list_args list_arg_count : ℕ) → Vm → Progress Vm
rest_list_setup k wants count list list_count vm =
    if count == wants
    then (do (x, vm₁) ← copy_list k list list_count vm; done (push_stack x vm₁))
    else (if ltb count wants
        then (do
          (l, vm₁) ← push_list list (wants - count) vm
          (x, vm₂) ← copy_list k l (list_count - (wants - count)) vm₁
          done (push_stack x vm₂))
        else (do
          (l, vm₁) ← copy_list k list list_count vm
          (x, vm₂) ← pop_args_list l (count - wants) vm₁
          done (push_stack x vm₂)))
