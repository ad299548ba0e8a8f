-- ===== src/Vm/Setup/Split.antt =====
-- Two ways to part the arguments of a call: where the stack ends, and where the wanted ones end.
use kali_scheme.Prelude.{
  ℕ, ◌+◌, ◌≡◌, ◌∙◌, sym, ap, refl, List, [], ◌∷◌, ◌++◌, length, length-append, arith, subst, suc,
  ◌*◌,
}
use mathlib.Core.List.{append-nil, reverse, reverse_aux, reverse_aux-append, reverse_aux-eq}
use kali_scheme.Heap.Memory.{Memory}
use kali_scheme.Vm.Lists.Keep.{words}

-- `a` is on the stack and `l` in the list; `w` is wanted, with `r` behind it.
pub data Split (a l w r : List ℕ) : Type 0 where
  from_list : (x : List ℕ) → w ≡ a ++ x → l ≡ x ++ r → Split a l w r
  from_stack : (x : List ℕ) → a ≡ w ++ x → r ≡ x ++ l → Split a l w r

abbrev tail : List ℕ → List ℕ
tail [] = []
tail (x ∷ xs) = xs

abbrev head : List ℕ → ℕ
head [] = 0
head (x ∷ xs) = x

longer : {a l w r : List ℕ} (v : ℕ) → Split a l w r → Split (v ∷ a) l (v ∷ w) r
longer v (from_list x p q) = from_list x (ap (λ t. v ∷ t) p) q
longer v (from_stack x p q) = from_stack x (ap (λ t. v ∷ t) p) q

pub split : (a l w r : List ℕ) → a ++ l ≡ w ++ r → Split a l w r
split [] l w r e = from_list w refl e
split (v ∷ a) l [] r e = from_stack (v ∷ a) refl (sym e)
split (v ∷ a) l (u ∷ w) r e =
    let same : v ≡ u = ap head e in
    subst (λ t. Split (v ∷ a) l (t ∷ w) r) same (longer v (split a l w r (ap tail e)))

-- The words of two runs in a row.
words-append :
    (m : Memory) (s : ℕ) (xs ys : List ℕ)
    → words m s (length xs + length ys) ≡ xs ++ ys
    → (words m s (length xs) ≡ xs) × (words m (s + 4 * length xs) (length ys) ≡ ys)
words-append m s [] ys e =
    (refl, ap (λ a. words m a (length ys)) (omega arith) ∙ ap (words m s) (omega arith) ∙ e)
words-append m s (x ∷ xs) ys e =
    let sizes : suc (length xs + length ys) ≡ suc (length xs) + length ys = omega arith in
    let whole : words m s (suc (length xs + length ys)) ≡ x ∷ (xs ++ ys) =
      ap (words m s) sizes ∙ e in
    let (front, back) = words-append m (s + 4) xs ys (ap tail whole) in
    (
      ap (λ v. v ∷ words m (s + 4) (length xs)) (ap head whole) ∙ ap (λ t. x ∷ t) front,
      ap (λ a. words m a (length ys)) (omega arith) ∙ back,
    )

pub length-reverse_aux : (xs ys : List ℕ) → length (reverse_aux xs ys) ≡ length xs + length ys
length-reverse_aux [] ys = omega arith
length-reverse_aux (x ∷ xs) ys = omega (arith, length-reverse_aux xs (x ∷ ys))

-- The top of the stack has the last arguments, in reverse.
pub words-reverse :
    (m : Memory) (s : ℕ) (w x : List ℕ)
    → words m s (length (w ++ x)) ≡ reverse_aux (w ++ x) []
    → (words m s (length x) ≡ reverse_aux x [])
      × (words m (s + 4 * length x) (length w) ≡ reverse_aux w [])
words-reverse m s w x e =
    let lx : length (reverse_aux x []) ≡ length x = omega (arith, length-reverse_aux x []) in
    let lw : length (reverse_aux w []) ≡ length w = omega (arith, length-reverse_aux w []) in
    let lwx : length (reverse_aux x []) + length (reverse_aux w []) ≡ length (w ++ x) =
      omega (arith, lx, lw, length-append w x) in
    let parts : reverse_aux (w ++ x) [] ≡ reverse_aux x [] ++ reverse_aux w [] =
      reverse_aux-append w x []
      ∙ reverse_aux-eq x (reverse_aux w [])
      ∙ ap (λ t. t ++ reverse_aux w []) (sym (reverse_aux-eq x [] ∙ append-nil (reverse x))) in
    let (front, back) =
      words-append m s (reverse_aux x []) (reverse_aux w []) (ap (words m s) lwx ∙ e ∙ parts) in
    (
      ap (words m s) (sym lx) ∙ front,
      ap (λ (n : ℕ). words m (s + 4 * n) (length w)) (sym lx)
          ∙ ap (words m (s + 4 * length (reverse_aux x []))) (sym lw)
          ∙ back,
    )
