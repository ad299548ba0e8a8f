-- ===== src/Event/Poll/Scan.antt =====
-- The loop of `queue_ready_ports` in c/unix/event.c that moves the ports which `select` reported.
use kali_scheme.Prelude.{
  ℕ, zero, suc, ◌<◌, ◌≡◌, refl, ap, subst, ==→≡, inl, inr, Bool, true, false, none, some, List, [],
  ◌∷◌, ◌++◌, arith, ◌==◌, length, if◌then◌else◌, Option-cases, Bool-cases, append_cons,
}
use mathlib.Core.Path.{fun_ext}
use mathlib.Core.List.{append-nil}
use kali_scheme.Event.Queue.{
  Ptr, QueName, ready, pending, Link, LinkCells, first, next, Queues, rmque, addque,
}
use kali_scheme.Event.Queue.Chain.{has, has-eq, Chain, end_of, end_of-append}
use kali_scheme.Event.Queue.Lists.{
  Contents, set_list, IsQueues, Distinct-middle, has-middle, has-snoc,
}
use kali_scheme.Event.Queue.Add.{addque-append}
use kali_scheme.Event.Queue.Remove.{rmque-middle, Chain-middle}
use kali_scheme.Event.State.{fd_ready, FdStruct, State, SameClock, set_status}
use kali_scheme.Event.Ports.Valid.{IsValid, belongs, move-IsValid}
use kali_scheme.Event.Poll.{Selected, is_set, scan}

-- The ports that the loop moves, and those that it leaves: it stops after `left` moves.
unfoldable pub taken : ℕ → (Ptr → Bool) → List Ptr → List Ptr
taken zero f ps = []
taken (suc n) f [] = []
taken (suc n) f (p ∷ ps) = if f p then p ∷ taken n f ps else taken (suc n) f ps

unfoldable pub kept : ℕ → (Ptr → Bool) → List Ptr → List Ptr
kept zero f ps = ps
kept (suc n) f [] = []
kept (suc n) f (p ∷ ps) = if f p then kept n f ps else p ∷ kept (suc n) f ps

abbrev pub contents : List Ptr → List Ptr → Contents
contents rs ps ready = rs
contents rs ps pending = ps

Chain-end : (m : LinkCells) (l : Link) (xs : List Ptr) → Chain m l xs → m (end_of l xs) ≡ none
Chain-end m l [] c = c
Chain-end m l (x ∷ xs) c = Chain-end m (next x) xs c.1

pub contents_path :
    (c : Contents) (rs ps : List Ptr) → c ready ≡ rs → c pending ≡ ps → c ≡ contents rs ps
contents_path c rs ps e e' = fun_ext at_queue
  where
    at_queue : (q : QueName) → c q ≡ contents rs ps q
    at_queue ready = e
    at_queue pending = e'

-- `f` tells of each struct whether `select` left a bit for it.
abbrev pub Reports : State → Selected → (Ptr → Bool) → Type 0
Reports s sel f = (p : Ptr) (d : FdStruct) → s.info p ≡ some d → is_set sel d ≡ f p

-- One move: the port `p` behind `xs` goes from the pending queue to the end of the ready queue.
move_port :
    {setsize : ℕ} {s : State} (rs xs : List Ptr) (p : Ptr) (ys : List Ptr) (d : FdStruct)
    → IsValid setsize (contents rs (xs ++ (p ∷ ys))) s
    → s.info p ≡ some d
    → (qs : Queues) × (rmque (end_of (first pending) xs) pending s.queues ≡ some (p, qs))
      × IsValid setsize
          (contents (rs ++ (p ∷ [])) (xs ++ ys))
          (set_status p d fd_ready (record s { queues = addque p ready qs }))
move_port {setsize} {s} rs xs p ys d v e =
    let c = contents rs (xs ++ (p ∷ ys)) in
    let (qs, got, is) = rmque-middle pending xs p ys v.queues refl in
    let (distinct, out) = Distinct-middle xs p ys (v.queues.each pending).distinct in
    let on : has p (xs ++ (p ∷ ys)) ≡ true = ground (arith, has-middle p xs p ys) in
    let off : has p rs ≡ false = v.queues.apart pending ready p refl on in
    let is₁ : IsQueues qs (contents rs (xs ++ ys)) =
      subst (IsQueues qs) (contents_path (set_list c pending (xs ++ ys)) rs (xs ++ ys) refl refl)
        is in
    let is₂ : IsQueues (addque p ready qs) (contents (rs ++ (p ∷ [])) (xs ++ ys)) =
      subst (IsQueues (addque p ready qs))
        (contents_path (set_list (contents rs (xs ++ ys)) ready (rs ++ (p ∷ []))) (rs ++ (p ∷ []))
          (xs ++ ys) refl refl)
        (addque-append p ready is₁ (new off out)) in
    (qs, got, move-IsValid v p d fd_ready (addque p ready qs) _ e is₂ (moved off out))
  where
    new :
        has p rs ≡ false
        → has p (xs ++ ys) ≡ false
        → (q : QueName) → has p (contents rs (xs ++ ys) q) ≡ false
    new off out ready = off
    new off out pending = out

    moved :
        has p rs ≡ false
        → has p (xs ++ ys) ≡ false
        → (x : Ptr) (q : QueName)
        → has x (contents (rs ++ (p ∷ [])) (xs ++ ys) q)
          ≡ (if x == p then belongs fd_ready q else has x (contents rs (xs ++ (p ∷ ys)) q))
    moved off out x ready = ground (arith, has-snoc p x rs, has-eq x p rs)
    moved off out x pending = ground (arith, has-middle x xs p ys, has-eq x p (xs ++ ys))

-- A move changes no descriptor and no direction.
Reports-move :
    (s : State) (sel : Selected) (f : Ptr → Bool) (p : Ptr) (d : FdStruct) (qs : Queues)
    → s.info p ≡ some d
    → Reports s sel f
    → Reports (set_status p d fd_ready (record s { queues = qs })) sel f
Reports-move s sel f p d qs e rep x d' h = elim (Bool-cases (x == p)) [
  | inl t ↦ ground (arith, rep p d e, ap f (==→≡ x p t))
  | inr t ↦ rep x d' (ground arith)
]

-- On a valid table, with more fuel than there are ports left, the loop over the pending ports,
-- from behind the ports `xs` on, moves the first `left` ports that `select` reported, in order, to
-- the end of the ready queue, and leaves the others in order; the table stays valid and the clocks
-- stay.
pub scan-moves :
    {setsize : ℕ} (k left : ℕ) (sel : Selected) (f : Ptr → Bool) (s : State) (rs xs ys : List Ptr)
    → IsValid setsize (contents rs (xs ++ ys)) s
    → Reports s sel f
    → length ys < k
    → (s' : State) × (scan k (end_of (first pending) xs) left sel s ≡ some s')
      × IsValid setsize (contents (rs ++ taken left f ys) (xs ++ kept left f ys)) s'
      × (s'.poll_time ≡ s.poll_time)
      × SameClock s s'
unfolding scan taken kept
scan-moves zero left sel f s rs xs ys v rep h = absurd (omega arith)
scan-moves (suc k) zero sel f s rs xs ys v rep h =
    (s, refl, rw (append-nil rs) v, refl, ground arith)
scan-moves (suc k) (suc left) sel f s rs xs [] v rep h =
    (s, rw (ends (v.queues.each pending).chain, scan), rw (append-nil rs) v, refl, ground arith)
  where
    ends :
        Chain s.queues.link (first pending) (xs ++ [])
        → s.queues.link (end_of (first pending) xs) ≡ none
    ends c =
        Chain-end s.queues.link (first pending) xs
          (subst (Chain s.queues.link (first pending)) (append-nil xs) c)
scan-moves {setsize} (suc k) (suc left) sel f s rs xs (p ∷ ys) v rep h =
    let (at_p, behind) =
      Chain-middle s.queues.link (first pending) xs p ys (v.queues.each pending).chain in
    let (d, e) = on_queue v in
    let rep_p : is_set sel d ≡ f p = rep p d e in
    elim (Bool-cases (f p)) [
      | inl t ↦
          let (qs, got, v') = move_port rs xs p ys d v e in
          let (s', run, v'', same, clock) =
            scan-moves {setsize = setsize} k left sel f
              (set_status p d fd_ready (record s { queues = addque p ready qs })) (rs ++ (p ∷ []))
              xs ys v' (Reports-move s sel f p d (addque p ready qs) e rep) (omega arith) in
          (
            s',
            rw (at_p, scan, e, rep_p, t, got) run,
            rw t (rw append_cons at v''),
            same,
            ground (arith, clock),
          )
      | inr t ↦
          let (s', run, v'', same, clock) =
            scan-moves {setsize = setsize} k (suc left) sel f s rs (xs ++ (p ∷ [])) ys
              (rw append_cons v) rep (omega arith) in
          (
            s',
            rw (at_p, scan, e, rep_p, t) (rw end_of-append at run),
            rw t (rw append_cons at v''),
            same,
            clock,
          )
    ]
  where
    on_queue :
        IsValid setsize (contents rs (xs ++ (p ∷ ys))) s → (d : FdStruct) × (s.info p ≡ some d)
    on_queue v = elim (Option-cases (s.info p)) [
      | inl dead ↦ absurd (ground (arith, v.alive p pending dead, has-middle p xs p ys))
      | inr (d, e) ↦ (d, e)
    ]
