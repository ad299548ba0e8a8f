-- ===== src/Event/Queue/Remove.antt =====
-- `rmque` and `findrm` of c/unix/event.c take one struct off its queue, and leave the other queue.
use kali_scheme.Prelude.{
  ℕ, zero, suc, ◌<◌, ◌≡◌, refl, subst, inl, inr, true, false, ◌||◌, Option, none, some, List, [],
  ◌∷◌, ◌++◌, ◌∙◌, arith, ◌==◌, if◌then◌else◌, length, Bool-cases,
}
use mathlib.Core.Path.{fun_ext}
use kali_scheme.Event.Queue.{
  Ptr, QueName, ready, pending, Link, first, next, LinkCells, write, que_eq, Queues, rmque,
  set_lastp, found, not_on_queue, find_link, findrm,
}
use kali_scheme.Event.Queue.Chain.{
  has, Distinct, Chain, end_of, Avoids, Avoids-end, Avoids-tail, Avoids-on_chain, end_of-append,
  end_of-apart, Chain-write, write_self, que_eq-sym, que_eq_refl, que-cases, has-append,
}
use kali_scheme.Event.Queue.Lists.{
  IsQueue, Contents, set_list, IsQueues, erase, before, after, split_at, erase-eq-append,
  erase-absent, Distinct-middle, has-middle,
}

-- The head of a list, as the link to it holds it.
abbrev pub head : List Ptr → Option Ptr
head [] = none
head (p ∷ ps) = some p

pub head-Chain : (m : LinkCells) (l : Link) (ps : List Ptr) → Chain m l ps → m l ≡ head ps
head-Chain m l [] c = c
head-Chain m l (p ∷ ps) c = c.0

-- The cell that holds `p`, and the cell behind `p`.
pub Chain-middle :
    (m : LinkCells) (l : Link) (xs : List Ptr) (p : Ptr) (ys : List Ptr)
    → Chain m l (xs ++ (p ∷ ys))
    → (m (end_of l xs) ≡ some p) × (m (next p) ≡ head ys)
Chain-middle m l [] p ys c = (c.0, head-Chain m (next p) ys c.1)
Chain-middle m l (x ∷ xs) p ys c = Chain-middle m (next x) xs p ys c.1

bypass-Chain :
    (m : LinkCells) (l : Link) (p : Ptr) (ys : List Ptr)
    → Avoids l ys
    → Chain m (next p) ys
    → Chain (write m l (head ys)) l ys
bypass-Chain m l p [] a c = write_self m l none
bypass-Chain m l p (y ∷ ys) a c =
    (write_self m l (some y), Chain-write m l (next y) (some y) ys (Avoids-on_chain l y ys a) c.1)

Avoids-prefix : (l : Link) (xs zs : List Ptr) → Avoids l (xs ++ zs) → Avoids l xs
Avoids-prefix (first q) xs zs a = tt
Avoids-prefix (next x) xs zs a = ground (arith, has-append x xs zs)

unlink-Chain :
    (m : LinkCells) (l : Link) (xs : List Ptr) (p : Ptr) (ys : List Ptr)
    → Chain m l (xs ++ (p ∷ ys))
    → Distinct (xs ++ (p ∷ ys))
    → Avoids l (xs ++ (p ∷ ys))
    → Chain (write m (end_of l xs) (head ys)) l (xs ++ ys)
unlink-Chain m l [] p ys c d a = bypass-Chain m l p ys (Avoids-tail l p ys a) c.1
unlink-Chain m l (x ∷ xs) p ys c d a = (
  ground (arith, Avoids-end l x xs (Avoids-prefix l (x ∷ xs) (p ∷ ys) a)),
  unlink-Chain m (next x) xs p ys c.1 d.1 d.0,
)

find_link_lem :
    (k : ℕ) (e : Ptr) (l : Link) (m : LinkCells) (ps : List Ptr)
    → Chain m l ps
    → length ps < k
    → find_link k e l m ≡ (if has e ps then found (end_of l (before e ps)) else not_on_queue)
unfolding find_link before
find_link_lem zero e l m ps c h = absurd (omega arith)
find_link_lem (suc k) e l m [] c h = rw (c, find_link)
find_link_lem (suc k) e l m (p ∷ ps) c h =
    rw (c.0, find_link) (ground (arith, find_link_lem k e (next p) m ps c.1))

-- The state after `rmque` at the link behind the structs `xs`.
unfoldable pub unlinked : Queues → QueName → List Ptr → List Ptr → Queues
unlinked s q xs ys = record {
  link = write s.link (end_of (first q) xs) (head ys);
  lastp = elim (head ys) [ none ↦ set_lastp s.lastp q (end_of (first q) xs) | some _ ↦ s.lastp ];
}

unlinked_self :
    {s : Queues} (q : QueName) (xs : List Ptr) (p : Ptr) (ys : List Ptr)
    → IsQueue s q (xs ++ (p ∷ ys))
    → IsQueue (unlinked s q xs ys) q (xs ++ ys)
unfolding unlinked
unlinked_self {s} q xs p ys is = record {
  chain = unlink-Chain s.link (first q) xs p ys is.chain is.distinct tt;
  last = ends ys is.last;
  distinct = (Distinct-middle xs p ys is.distinct).0;
}
  where
    ends :
        (ys : List Ptr)
        → s.lastp q ≡ end_of (first q) (xs ++ (p ∷ ys))
        → (unlinked s q xs ys).lastp q ≡ end_of (first q) (xs ++ ys)
    ends [] e = rw (que_eq_refl, end_of-append)
    ends (y ∷ ys) e = rw (e, end_of-append, end_of-append)

lastp-unlinked_other :
    (s : Queues) (q r : QueName) (xs ys : List Ptr)
    → que_eq r q ≡ false
    → (unlinked s q xs ys).lastp r ≡ s.lastp r
unfolding unlinked
lastp-unlinked_other s q r xs [] ne = rw ne
lastp-unlinked_other s q r xs (y ∷ ys) ne = refl

unlinked-other :
    {s : Queues} {c : Contents} (q r : QueName) (xs : List Ptr) (p : Ptr) (ys : List Ptr)
    → IsQueues s c
    → c q ≡ xs ++ (p ∷ ys)
    → que_eq r q ≡ false
    → IsQueue (unlinked s q xs ys) r (c r)
unfolding unlinked
unlinked-other {s} {c} q r xs p ys is e ne = record {
  chain =
      Chain-write s.link (end_of (first q) xs) (first r) (head ys) (c r)
        (end_of-apart q r xs (c r) ne λ x h.
          is.apart q r x (rw que_eq-sym ne) (rw e (ground (arith, has-append x xs (p ∷ ys)))))
        (is.each r).chain;
  last = lastp-unlinked_other s q r xs ys ne ∙ (is.each r).last;
  distinct = (is.each r).distinct;
}

unlinked-apart :
    (c : Contents) (q a b : QueName) (p : Ptr) (ls : List Ptr) (x : Ptr)
    → ((x : Ptr) → has x (c q) ≡ ((p == x) || has x ls))
    → ((x : Ptr) → has x (c a) ≡ true → has x (c b) ≡ false)
    → que_eq a b ≡ false
    → has x (set_list c q ls a) ≡ true
    → has x (set_list c q ls b) ≡ false
unlinked-apart c ready ready pending p ls x e apart ne h = ground (arith, apart x, e x)
unlinked-apart c ready pending ready p ls x e apart ne h = ground (arith, apart x, e x)
unlinked-apart c pending ready pending p ls x e apart ne h = ground (arith, apart x, e x)
unlinked-apart c pending pending ready p ls x e apart ne h = ground (arith, apart x, e x)
unlinked-apart c q ready ready p ls x e apart ne h = cc
unlinked-apart c q pending pending p ls x e apart ne h = cc

-- Taking the struct `p` out from between `xs` and `ys` keeps both queues.
unlinked-IsQueues :
    {s : Queues} {c : Contents} (q : QueName) (xs : List Ptr) (p : Ptr) (ys : List Ptr)
    → IsQueues s c
    → c q ≡ xs ++ (p ∷ ys)
    → IsQueues (unlinked s q xs ys) (set_list c q (xs ++ ys))
unlinked-IsQueues {s} {c} q xs p ys is e = record {
  each = λ r. elim (que-cases r q) [
    | inl e' ↦ rw (e', que_eq_refl) (unlinked_self q xs p ys (subst (IsQueue s q) e (is.each q)))
    | inr ne ↦ rw ne (unlinked-other q r xs p ys is e ne)
  ];
  apart = λ a b x ne.
      unlinked-apart c q a b p (xs ++ ys) x (λ x. rw e (has-middle x xs p ys))
        (λ x. is.apart a b x ne) ne;
}

-- `rmque` at the link behind the structs `xs` returns the struct there, and takes it off.
pub rmque-middle :
    {s : Queues} {c : Contents} (q : QueName) (xs : List Ptr) (p : Ptr) (ys : List Ptr)
    → IsQueues s c
    → c q ≡ xs ++ (p ∷ ys)
    → (s' : Queues) × (rmque (end_of (first q) xs) q s ≡ some (p, s'))
      × IsQueues s' (set_list c q (xs ++ ys))
unfolding rmque unlinked
rmque-middle {s} {c} q xs p ys is e =
    let cells =
      Chain-middle s.link (first q) xs p ys (subst (Chain s.link (first q)) e (is.each q).chain) in
    (unlinked s q xs ys, rw (cells.0, rmque, cells.1), unlinked-IsQueues q xs p ys is e)

set_list-same : (c : Contents) (q : QueName) → set_list c q (c q) ≡ c
set_list-same c q =
    fun_ext λ r. elim (que-cases r q) [ inl e ↦ rw (e, que_eq_refl) | inr ne ↦ rw ne ]

-- On well-formed queues, with more fuel than the queue has structs, `findrm` takes the struct off
-- the queue, wherever on it the struct stands, leaves the queue's list as it was if the struct is
-- not there, and keeps the queues well formed.
pub findrm-erase :
    {s : Queues} {c : Contents} (fuel : ℕ) (e : Ptr) (q : QueName)
    → IsQueues s c
    → length (c q) < fuel
    → (s' : Queues) × (findrm fuel e q s ≡ some s') × IsQueues s' (set_list c q (erase e (c q)))
unfolding findrm
findrm-erase {s} {c} fuel e q is h =
    let seek = find_link_lem fuel e (first q) s.link (c q) (is.each q).chain h in
    elim (Bool-cases (has e (c q))) [
      | inl on ↦
          let (s', got, is') =
            rmque-middle q (before e (c q)) e (after e (c q)) is (split_at e (c q) on) in
          (s', ground (arith, seek, got), rw (erase-eq-append e (c q) on) is')
      | inr off ↦ (s, ground (arith, seek), rw (erase-absent e (c q) off, set_list-same c q) is)
    ]
