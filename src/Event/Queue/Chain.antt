-- ===== src/Event/Queue/Chain.antt =====
-- The queues of c/unix/event.c against lists: what a chain of links stands for, and which writes
-- it survives.
use kali_scheme.Prelude.{
  ◌≡◌, refl, ap, ◌⊎◌, inl, inr, Bool, true, false, ◌||◌, Option, none, some, List, [], ◌∷◌, ◌++◌,
  arith, ◌==◌,
}
use kali_scheme.Event.Queue.{Ptr, QueName, ready, pending, Link, first, next, que_eq, link_eq}
use kali_scheme.Event.Queue.{LinkCells, write}

abbrev pub has : Ptr → List Ptr → Bool
has a [] = false
has a (x ∷ xs) = (x == a) || has a xs

abbrev pub Distinct : List Ptr → Type 0
Distinct [] = Unit {0}
Distinct (x ∷ xs) = (has x xs ≡ false) × Distinct xs

pub has-eq : (x y : Ptr) (ps : List Ptr) → (x == y) ≡ true → has x ps ≡ has y ps
has-eq x y ps h = ground (arith, ap (λ z. has z ps) (eq_of_test x y h))
  where
    eq_of_test : (x y : Ptr) → (x == y) ≡ true → x ≡ y
    eq_of_test x y h = ground arith

-- From the link `l` on, the cells lead through the structs of the list to NULL.
abbrev pub Chain : LinkCells → Link → List Ptr → Type 0
Chain m l [] = m l ≡ none
Chain m l (p ∷ ps) = (m l ≡ some p) × Chain m (next p) ps

-- The link that ends the chain.
abbrev pub end_of : Link → List Ptr → Link
end_of l [] = l
end_of l (p ∷ ps) = end_of (next p) ps

-- Whether a link is a cell of the chain.
abbrev pub on_chain : Link → Link → List Ptr → Bool
on_chain k l [] = link_eq l k
on_chain k l (p ∷ ps) = link_eq l k || on_chain k (next p) ps

pub que_eq-sym : (q r : QueName) → que_eq q r ≡ que_eq r q
que_eq-sym ready ready = refl
que_eq-sym ready pending = refl
que_eq-sym pending ready = refl
que_eq-sym pending pending = refl

pub que_eq_refl : (q : QueName) → que_eq q q ≡ true
que_eq_refl ready = refl
que_eq_refl pending = refl

pub que-cases : (r q : QueName) → (r ≡ q) ⊎ (que_eq r q ≡ false)
que-cases ready ready = inl refl
que-cases ready pending = inr refl
que-cases pending ready = inr refl
que-cases pending pending = inl refl

pub link_eq-sym : (k l : Link) → link_eq k l ≡ link_eq l k
link_eq-sym (first ready) (first ready) = refl
link_eq-sym (first ready) (first pending) = refl
link_eq-sym (first pending) (first ready) = refl
link_eq-sym (first pending) (first pending) = refl
link_eq-sym (next p) (next q) = ground arith
link_eq-sym (first a) (next q) = refl
link_eq-sym (next p) (first b) = refl

pub link_eq_refl : (k : Link) → link_eq k k ≡ true
link_eq_refl (first ready) = refl
link_eq_refl (first pending) = refl
link_eq_refl (next p) = ground arith

pub write_ne :
    (m : LinkCells) (k l : Link) (v : Option Ptr) → link_eq l k ≡ false → write m k v l ≡ m l
write_ne m k l v e = ground arith

pub write_self : (m : LinkCells) (k : Link) (v : Option Ptr) → write m k v k ≡ v
write_self m k v = ground (arith, link_eq_refl k)

-- A chain survives a write to a cell that is not its own.
pub Chain-write :
    (m : LinkCells) (k l : Link) (v : Option Ptr) (ps : List Ptr)
    → on_chain k l ps ≡ false
    → Chain m l ps
    → Chain (write m k v) l ps
Chain-write m k l v [] off c = ground arith
Chain-write m k l v (p ∷ ps) off c =
    (ground arith, Chain-write m k (next p) v ps (ground arith) c.1)

pub on_chain-next_next :
    (x p : Ptr) (ps : List Ptr) → on_chain (next x) (next p) ps ≡ ((p == x) || has x ps)
on_chain-next_next x p [] = ground arith
on_chain-next_next x p (r ∷ ps) = ground (arith, on_chain-next_next x r ps)

pub on_chain-next :
    (x : Ptr) (q : QueName) (ps : List Ptr) → on_chain (next x) (first q) ps ≡ has x ps
on_chain-next x q [] = refl
on_chain-next x q (p ∷ ps) = on_chain-next_next x p ps

pub on_chain-first_next :
    (q : QueName) (p : Ptr) (ps : List Ptr) → on_chain (first q) (next p) ps ≡ false
on_chain-first_next q p [] = refl
on_chain-first_next q p (r ∷ ps) = on_chain-first_next q r ps

pub on_chain-first :
    (q r : QueName) (ps : List Ptr) → que_eq r q ≡ false → on_chain (first q) (first r) ps ≡ false
on_chain-first q r [] ne = ne
on_chain-first q r (p ∷ ps) ne = ground (arith, on_chain-first_next q p ps)

-- The end of a chain is where it starts, or the `next` of one of its structs.
pub end_of-cases :
    (l : Link) (ps : List Ptr)
    → (end_of l ps ≡ l) ⊎ ((x : Ptr) × (has x ps ≡ true) × (end_of l ps ≡ next x))
end_of-cases l [] = inl refl
end_of-cases l (p ∷ ps) = elim (end_of-cases (next p) ps) [
  | inl e ↦ inr (p, ground arith, e)
  | inr (x, h, e) ↦ inr (x, ground arith, e)
]

-- The links of one queue are not those of another that shares no struct with it.
pub end_of-apart :
    (q r : QueName) (qs ps : List Ptr)
    → que_eq r q ≡ false
    → ((x : Ptr) → has x qs ≡ true → has x ps ≡ false)
    → on_chain (end_of (first q) qs) (first r) ps ≡ false
end_of-apart q r qs ps ne apart = elim (end_of-cases (first q) qs) [
  | inl e ↦ ground (arith, on_chain-first q r ps ne)
  | inr (x, h, e) ↦ ground (arith, on_chain-next x r ps, apart x h)
]

-- The link `l` is not the `next` of a struct of the list.
abbrev pub Avoids : Link → List Ptr → Type 0
Avoids (first q) ps = Unit {0}
Avoids (next x) ps = has x ps ≡ false

pub Avoids-tail : (l : Link) (p : Ptr) (ps : List Ptr) → Avoids l (p ∷ ps) → Avoids l ps
Avoids-tail (first q) p ps a = tt
Avoids-tail (next x) p ps a = ground arith

pub Avoids-end :
    (l : Link) (p : Ptr) (ps : List Ptr)
    → Avoids l (p ∷ ps)
    → link_eq l (end_of (next p) ps) ≡ false
Avoids-end l p ps a = elim (end_of-cases (next p) ps) [
  | inl e ↦ at_next l p ps (end_of (next p) ps) p a (ground arith) e
  | inr (x, h, e) ↦ at_next l p ps (end_of (next p) ps) x a (ground arith) e
]
  where
    at_next :
        (l : Link) (p : Ptr) (ps : List Ptr) (k : Link) (x : Ptr)
        → Avoids l (p ∷ ps)
        → has x (p ∷ ps) ≡ true
        → k ≡ next x
        → link_eq l k ≡ false
    at_next (first q) p ps k x a h e = ground arith
    at_next (next y) p ps k x a h e = ground (arith, has-eq x y (p ∷ ps))

pub Avoids-on_chain :
    (l : Link) (p : Ptr) (ps : List Ptr) → Avoids l (p ∷ ps) → on_chain l (next p) ps ≡ false
Avoids-on_chain (first q) p ps a = on_chain-first_next q p ps
Avoids-on_chain (next x) p ps a = ground (arith, on_chain-next_next x p ps)

pub end_of-append : (l : Link) (xs ys : List Ptr) → end_of l (xs ++ ys) ≡ end_of (end_of l xs) ys
end_of-append l [] ys = refl
end_of-append l (x ∷ xs) ys = end_of-append (next x) xs ys

pub has-append : (a : Ptr) (xs ys : List Ptr) → has a (xs ++ ys) ≡ (has a xs || has a ys)
has-append a [] ys = refl
has-append a (x ∷ xs) ys = ground (arith, has-append a xs ys)
