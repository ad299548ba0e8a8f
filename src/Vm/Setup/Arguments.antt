-- ===== src/Vm/Setup/Arguments.antt =====
-- `rest_list_setup` of c/scheme48vm.c as a whole.
use kali_scheme.Prelude.{
  ℕ, suc, ◌+◌, ◌-◌, ◌≤◌, ◌≡◌, ◌∙◌, sym, subst, ap, refl, true, List, [], ◌∷◌, ◌++◌, length,
  length-append, arith,
}
use mathlib.Core.List.{append-nil}
use kali_scheme.Vm.Setup.Fewer.{fewer_room, fewer-SetUp}
use kali_scheme.Vm.Setup.Split.{Split, from_list, from_stack, split}
use kali_scheme.Vm.Setup.More.{Given, Returns, equal-SetUp, more-SetUp}
use kali_scheme.Vm.Stack.{Vm, has_stack_room, rest_list_setup}

module _ (k n list lo top : ℕ) (a l w r : List ℕ) (vm : Vm) where
  abbrev Goal : (w r : List ℕ) (wants count : ℕ) → Type 0
  Goal w r wants count =
      Returns (length a) lo top w r vm (rest_list_setup k wants (length a) list count vm)

  by_parts :
      Split a l w r
      → Given k n list lo top a l vm
      → has_stack_room (length w) (vm.stack - 4) vm.stack_limit ≡ true
      → lo + 500 ≤ vm.stack_limit
      → Goal w r (length w) (length l)
  by_parts (from_list [] p q) g room low =
      let same : w ≡ a = p ∙ append-nil a in
      subst (λ w. Goal w r (length w) (length l)) (sym same)
        (subst (λ r. Goal a r (length a) (length l)) q (equal-SetUp k n list lo top a l vm g))
  by_parts (from_list (y ∷ x) p q) g room low =
      let long : length w ≡ length a + suc (length x) = ap length p ∙ length-append a (y ∷ x) in
      let size : length l ≡ suc (length x) + length r = ap length q ∙ length-append (y ∷ x) r in
      subst (λ w'. Goal w' r (length w) (length l)) (sym p)
        (subst (λ (b : ℕ). Goal (a ++ (y ∷ x)) r b (length l)) (sym long)
          (subst (λ (b : ℕ). Goal (a ++ (y ∷ x)) r (length a + suc (length x)) b) (sym size)
            (fewer-SetUp k n list lo top a (y ∷ x) r vm (length x) refl
              (subst (λ l. Given k n list lo top a l vm) q g)
              (fewer_room (suc (length x)) (length w) (vm.stack - 4) vm.stack_limit
                (omega (arith, long)) room)
              low)))
  by_parts (from_stack [] p q) g room low =
      let same : a ≡ w = p ∙ append-nil w in
      subst (λ w. Goal w r (length w) (length l)) same
        (subst (λ r. Goal a r (length a) (length l)) (sym q) (equal-SetUp k n list lo top a l vm g))
  by_parts (from_stack (y ∷ x) p q) g room low =
      subst (λ r. Goal w r (length w) (length l)) (sym q) (from_more (y ∷ x) (length x) refl p g)
    where
      from_more :
          (x : List ℕ) (e : ℕ)
          → length x ≡ suc e
          → a ≡ w ++ x
          → Given k n list lo top a l vm
          → Goal w (x ++ l) (length w) (length l)
      from_more x e size p g =
          let whole : length (w ++ x) ≡ length w + suc e =
            length-append w x ∙ ap (λ (b : ℕ). length w + b) size in
          let result =
            more-SetUp k n list lo top w x l vm e size
              (subst (λ a. Given k n list lo top a l vm) p g) in
          subst
            (λ (a : List ℕ).
              Returns (length a) lo top w (x ++ l) vm
                (rest_list_setup k (length w) (length a) list (length l) vm))
            (sym p)
            (subst
              (λ (b : ℕ).
                Returns (length (w ++ x)) lo top w (x ++ l) vm
                  (rest_list_setup k (length w) b list (length l) vm))
              (sym whole) result)

-- The arguments of a call are those on the stack, `a`, and those in the list, `l`; the first of
-- them, `w`, are wanted on the stack. On a machine with room for the pairs and the pushes, and fuel
-- for the length of the list, `rest_list_setup` leaves `w` on the stack and on the top of it a list
-- of the other arguments, `r`, in their order, whether the stack had as many arguments as are wanted,
-- fewer or more. The list lies outside the stack, and no byte outside the arguments on the stack and
-- the space from the heap pointer on to them changes.
pub rest_list_setup-SetUp :
    (k n list lo top : ℕ) (a l w r : List ℕ) (vm : Vm)
    → Given k n list lo top a l vm
    → a ++ l ≡ w ++ r
    → has_stack_room (length w) (vm.stack - 4) vm.stack_limit ≡ true
    → lo + 500 ≤ vm.stack_limit
    → Returns (length a) lo top w r vm (rest_list_setup k (length w) (length a) list (length l) vm)
rest_list_setup-SetUp k n list lo top a l w r vm g e room low =
    by_parts k n list lo top a l w r vm (split a l w r e) g room low
