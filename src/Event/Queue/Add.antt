-- ===== src/Event/Queue/Add.antt =====
-- `addque` of c/unix/event.c appends to its queue, and leaves the other one.
use kali_scheme.Prelude.{
  ◌≡◌, refl, sym, subst, inl, inr, true, false, none, some, List, [], ◌∷◌, ◌++◌, arith,
}
use kali_scheme.Event.Queue.{
  Ptr, QueName, ready, pending, Link, first, next, LinkCells, write, que_eq, link_eq, Queues,
  addque,
}
use kali_scheme.Event.Queue.Chain.{
  has, Distinct, Chain, end_of, Avoids, Avoids-end, end_of-append, end_of-apart, on_chain-next,
  Chain-write, has-append, has-eq, on_chain, que_eq-sym, que_eq_refl, que-cases,
}
use kali_scheme.Event.Queue.Lists.{IsQueue, Contents, set_list, IsQueues, Distinct-snoc}

-- The two writes of `addque`.
abbrev linked : LinkCells → Link → Ptr → LinkCells
linked m l e = write (write m l (some e)) (next e) none

linked-Chain :
    (m : LinkCells) (l : Link) (ps : List Ptr) (e : Ptr)
    → Chain m l ps
    → Distinct ps
    → Avoids l ps
    → has e ps ≡ false
    → link_eq l (next e) ≡ false
    → Chain (linked m (end_of l ps) e) l (ps ++ (e ∷ []))
linked-Chain m l [] e c d a h n = ground arith
linked-Chain m l (p ∷ ps) e c d a h n = (
  ground (arith, Avoids-end l p ps a),
  linked-Chain m (next p) ps e c.1 d.1 d.0 (ground arith) (ground arith),
)

linked-other :
    {s : Queues} {c : Contents} (e : Ptr) (q r : QueName)
    → IsQueues s c
    → que_eq r q ≡ false
    → has e (c r) ≡ false
    → IsQueue (addque e q s) r (c r)
unfolding addque
linked-other {s} {c} e q r is ne h =
    let at_r = is.each r in
    let off : on_chain (s.lastp q) (first r) (c r) ≡ false =
      subst (λ k. on_chain k (first r) (c r) ≡ false) (sym (is.each q).last)
        (end_of-apart q r (c q) (c r) ne (λ x. is.apart q r x (rw que_eq-sym ne))) in
    record {
      chain =
          Chain-write _ (next e) (first r) none (c r) (rw on_chain-next h)
            (Chain-write s.link (s.lastp q) (first r) (some e) (c r) off at_r.chain);
      last = rw ne at_r.last;
      distinct = at_r.distinct;
    }

linked_self :
    {s : Queues} {ps : List Ptr} (e : Ptr) (q : QueName)
    → IsQueue s q ps
    → has e ps ≡ false
    → IsQueue (addque e q s) q (ps ++ (e ∷ []))
unfolding addque
linked_self {s} {ps} e q is h = record {
  chain = rw is.last (linked-Chain s.link (first q) ps e is.chain is.distinct tt h refl);
  last = rw (que_eq_refl, end_of-append);
  distinct = Distinct-snoc ps e is.distinct h;
}

linked-apart :
    (c : Contents) (e : Ptr) (q a b : QueName) (x : Ptr)
    → ((x : Ptr) → que_eq a b ≡ false → has x (c a) ≡ true → has x (c b) ≡ false)
    → ((r : QueName) → has e (c r) ≡ false)
    → que_eq a b ≡ false
    → has x (set_list c q (c q ++ (e ∷ [])) a) ≡ true
    → has x (set_list c q (c q ++ (e ∷ [])) b) ≡ false
linked-apart c e ready ready pending x apart new ne h =
    ground (arith, apart x, has-append x (c ready) (e ∷ []), new pending, has-eq e x (c pending))
linked-apart c e ready pending ready x apart new ne h =
    ground (arith, apart x, has-append x (c ready) (e ∷ []), new pending, has-eq e x (c pending))
linked-apart c e pending ready pending x apart new ne h =
    ground (arith, apart x, has-append x (c pending) (e ∷ []), new ready, has-eq e x (c ready))
linked-apart c e pending pending ready x apart new ne h =
    ground (arith, apart x, has-append x (c pending) (e ∷ []), new ready, has-eq e x (c ready))
linked-apart c e q ready ready x apart new ne h = cc
linked-apart c e q pending pending x apart new ne h = cc

-- With well-formed queues, a struct that is on no queue is appended to the queue that `addque` is
-- given; the other queue stays as it is, and the queues are well formed.
pub addque-append :
    {s : Queues} {c : Contents} (e : Ptr) (q : QueName)
    → IsQueues s c
    → ((r : QueName) → has e (c r) ≡ false)
    → IsQueues (addque e q s) (set_list c q (c q ++ (e ∷ [])))
addque-append {s} {c} e q is new = record {
  each = λ r. elim (que-cases r q) [
    | inl e' ↦ rw (e', que_eq_refl) (linked_self e q (is.each q) (new q))
    | inr ne ↦ rw ne (linked-other e q r is ne (new r))
  ];
  apart = λ a b x. linked-apart c e q a b x (is.apart a b) new;
}
