-- ===== src/Event/Queue/Lists.antt =====
-- The two queues of c/unix/event.c together, as lists of structs.
use kali_scheme.Prelude.{
  ◌≡◌, refl, true, false, ◌||◌, List, [], ◌∷◌, ◌++◌, arith, ◌==◌, if◌then◌else◌,
}
use kali_scheme.Event.Queue.{Ptr, QueName, first, Queues, que_eq}
use kali_scheme.Event.Queue.Chain.{has, Distinct, Chain, end_of, has-append, has-eq}

pub record IsQueue (s : Queues) (q : QueName) (ps : List Ptr) : Type 0 where
  pub chain : Chain s.link (first q) ps
  pub last : s.lastp q ≡ end_of (first q) ps
  pub distinct : Distinct ps

abbrev pub Contents : Type 0
Contents = QueName → List Ptr

abbrev pub set_list : Contents → QueName → List Ptr → Contents
set_list c q ps r = if que_eq r q then ps else c r

-- The links hold the two lists, which share no struct.
pub record IsQueues (s : Queues) (c : Contents) : Type 0 where
  pub each : (q : QueName) → IsQueue s q (c q)
  pub apart :
      (q r : QueName) (x : Ptr) → que_eq q r ≡ false → has x (c q) ≡ true → has x (c r) ≡ false

-- The list without the first occurrence of an entry, and the two sides of that occurrence.
unfoldable pub erase : Ptr → List Ptr → List Ptr
erase e [] = []
erase e (x ∷ xs) = if x == e then xs else x ∷ erase e xs

unfoldable pub before : Ptr → List Ptr → List Ptr
before e [] = []
before e (x ∷ xs) = if x == e then [] else x ∷ before e xs

unfoldable pub after : Ptr → List Ptr → List Ptr
after e [] = []
after e (x ∷ xs) = if x == e then xs else after e xs

pub split_at : (e : Ptr) (ps : List Ptr) → has e ps ≡ true → ps ≡ before e ps ++ (e ∷ after e ps)
unfolding before after
split_at e [] h = ground arith
split_at e (x ∷ xs) h = ground (arith, split_at e xs)

pub erase-eq-append :
    (e : Ptr) (ps : List Ptr) → has e ps ≡ true → erase e ps ≡ before e ps ++ after e ps
unfolding before after erase
erase-eq-append e [] h = ground arith
erase-eq-append e (x ∷ xs) h = ground (arith, erase-eq-append e xs)

pub erase-absent : (e : Ptr) (ps : List Ptr) → has e ps ≡ false → erase e ps ≡ ps
unfolding erase
erase-absent e [] h = refl
erase-absent e (x ∷ xs) h = ground (arith, erase-absent e xs)

-- Taking a struct out of the middle takes nothing else out, and keeps the others distinct.
pub Distinct-middle :
    (xs : List Ptr) (p : Ptr) (ys : List Ptr)
    → Distinct (xs ++ (p ∷ ys))
    → Distinct (xs ++ ys) × (has p (xs ++ ys) ≡ false)
Distinct-middle [] p ys d = ground arith
Distinct-middle (x ∷ xs) p ys d =
    ground (arith, Distinct-middle xs p ys, has-append x xs (p ∷ ys), has-append x xs ys)

pub has-middle :
    (a : Ptr) (xs : List Ptr) (p : Ptr) (ys : List Ptr)
    → has a (xs ++ (p ∷ ys)) ≡ ((p == a) || has a (xs ++ ys))
has-middle a xs p ys = ground (arith, has-append a xs (p ∷ ys), has-append a xs ys)

pub Distinct-snoc :
    (xs : List Ptr) (e : Ptr) → Distinct xs → has e xs ≡ false → Distinct (xs ++ (e ∷ []))
Distinct-snoc [] e d h = ground arith
Distinct-snoc (x ∷ xs) e d h = ground (arith, Distinct-snoc xs e, has-append x xs (e ∷ []))

pub has-erase :
    (e x : Ptr) (ps : List Ptr)
    → Distinct ps
    → has x (erase e ps) ≡ (if x == e then false else has x ps)
unfolding erase
has-erase e x [] d = ground arith
has-erase e x (p ∷ ps) d = ground (arith, has-erase e x ps, has-eq x p ps, has-eq e p ps)

pub has-snoc : (e x : Ptr) (ps : List Ptr) → has x (ps ++ (e ∷ [])) ≡ (has x ps || (x == e))
has-snoc e x ps = ground (arith, has-append x ps (e ∷ []))
