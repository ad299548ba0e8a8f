-- ===== src/Event/Ports/Drop.antt =====
-- `remove_fd` and `next_ready_port` of c/unix/event.c.
use kali_scheme.Prelude.{
  ℕ, ◌<◌, ◌≡◌, refl, ap, subst, ◌≢◌, true, false, none, some, List, [], ◌∷◌, arith, ◌==◌,
  if◌then◌else◌, length, Option-cases, lt→ltb, inl, inr,
}
use kali_scheme.Prelude.Int.{ℤ, pos, minus_one}
use mathlib.Core.Path.{fun_ext}
use kali_scheme.Event.Queue.{Ptr, QueName, ready, pending, Link, LinkCells, first, Queues}
use kali_scheme.Event.Queue.Chain.{has, has-eq, Distinct, Chain}
use kali_scheme.Event.Queue.Lists.{Contents, set_list, IsQueues, erase, has-erase, erase-absent}
use kali_scheme.Event.Queue.Remove.{findrm-erase, rmque-middle}
use kali_scheme.Event.State.{
  Status, fd_quiescent, fd_ready, fd_pending, FdStruct, State, set_status,
}
use kali_scheme.Event.Ports.{is_null, next_ready_port, release, dequeue, remove_at, remove_fd}
use kali_scheme.Event.Ports.Valid.{IsValid, belongs, release-IsValid, move-IsValid}
use kali_scheme.Event.Ports.Pending.{IsPolled}

abbrev erase_all : Ptr → Contents → Contents
erase_all p c q = erase p (c q)

erase_all-none :
    (p : Ptr) (c : Contents) → ((q : QueName) → has p (c q) ≡ false) → erase_all p c ≡ c
erase_all-none p c off = fun_ext λ q. erase-absent p (c q) (off q)

erase_all-ready :
    (p : Ptr) (c : Contents)
    → has p (c pending) ≡ false
    → erase_all p c ≡ set_list c ready (erase p (c ready))
erase_all-ready p c off = fun_ext (at_queue off)
  where
    at_queue :
        has p (c pending) ≡ false
        → (q : QueName) → erase p (c q) ≡ set_list c ready (erase p (c ready)) q
    at_queue off ready = refl
    at_queue off pending = erase-absent p (c pending) off

erase_all-pending :
    (p : Ptr) (c : Contents)
    → has p (c ready) ≡ false
    → erase_all p c ≡ set_list c pending (erase p (c pending))
erase_all-pending p c off = fun_ext (at_queue off)
  where
    at_queue :
        has p (c ready) ≡ false
        → (q : QueName) → erase p (c q) ≡ set_list c pending (erase p (c pending)) q
    at_queue off ready = erase-absent p (c ready) off
    at_queue off pending = refl

pub is_null-Chain :
    (m : LinkCells) (l : Link) (ps : List Ptr) → Chain m l ps → ps ≢ [] → is_null (m l) ≡ false
is_null-Chain m l [] ch ne = absurd (ne refl)
is_null-Chain m l (p ∷ ps) ch ne = rw ch.0

erase-ne : (p : Ptr) (ps : List Ptr) → erase p ps ≢ [] → ps ≢ []
unfolding erase
erase-ne p [] ne = ne
erase-ne p (x ∷ ps) ne = λ e. cc

-- What holds after `remove_fd` returned TRUE for the port `n`.
pub record Removed (setsize : ℕ) (n : ℕ) (c : Contents) (s s' : State) : Type 0 where
  pub port : Ptr
  pub was_at : s.fds n ≡ some port
  pub valid : IsValid setsize (λ q. erase port (c q)) s'
  pub polled : IsPolled c s → IsPolled (λ q. erase port (c q)) s'
  pub gone : s'.fds n ≡ none
  pub freed : s'.info port ≡ none

module _ {setsize : ℕ} {c : Contents} {s : State} (v : IsValid setsize c s) where
  has-erase_all :
      (p x : Ptr) (q : QueName) → has x (erase p (c q)) ≡ (if x == p then false else has x (c q))
  has-erase_all p x q = has-erase p x (c q) (v.queues.each q).distinct

  -- The status of a struct says on which queue it stands, so `remove_fd` looks on the right one.
  dequeue-erase :
      (fuel : ℕ) (p : Ptr) (d : FdStruct) (st : Status)
      → ((q : QueName) → length (c q) < fuel)
      → s.info p ≡ some d
      → d.status ≡ st
      → (qs : Queues) × (t : ℤ) × (dequeue fuel p st s
          ≡ some (record s { queues = qs; poll_time = t }))
        × IsQueues qs (λ q. erase p (c q))
        × (IsPolled c s → IsPolled (λ q. erase p (c q)) (record s { queues = qs; poll_time = t }))
  unfolding dequeue
  dequeue-erase fuel p d fd_quiescent more e st =
      let off : (q : QueName) → has p (c q) ≡ false = λ q. rw st at ((v.owner p d e).1 q) in
      (
        s.queues,
        s.poll_time,
        refl,
        rw (erase_all-none p c off) v.queues,
        λ h. rw (erase-absent p (c pending) (off pending)) h,
      )
  dequeue-erase fuel p d fd_ready more e st =
      let off : has p (c pending) ≡ false = rw st at ((v.owner p d e).1 pending) in
      let (qs, got, is) = findrm-erase fuel p ready v.queues (more ready) in
      (
        qs,
        s.poll_time,
        rw (got, dequeue),
        rw (erase_all-ready p c off) is,
        λ h. rw (erase-absent p (c pending) off) h,
      )
  dequeue-erase fuel p d fd_pending more e st =
      let off : has p (c ready) ≡ false = rw st at ((v.owner p d e).1 ready) in
      let (qs, got, is) = findrm-erase fuel p pending v.queues (more pending) in
      (
        qs,
        (if is_null (qs.link (first pending)) then minus_one else s.poll_time),
        rw (got, dequeue),
        rw (erase_all-pending p c off) is,
        λ h ne.
            rw (is_null-Chain qs.link (first pending) _ (is.each pending).chain ne)
              (h (erase-ne p (c pending) ne)),
      )

  remove_at-Removed :
      (fuel n : ℕ)
      → ((q : QueName) → length (c q) < fuel)
      → s.fds n ≢ none
      → (s' : State) × (remove_at fuel n s ≡ some (true, s')) × Removed setsize n c s s'
  unfolding remove_at
  remove_at-Removed fuel n more present = elim (Option-cases (s.fds n)) [
    | inl free ↦ absurd (present free)
    | inr (p, at) ↦
        let (low, (d, e, same)) = v.known n p at in
        let (qs, t, got, is, pol) = dequeue-erase fuel p d d.status more e refl in
        (
          release n p (record s { queues = qs; poll_time = t }),
          rw (at, remove_at, e, got),
          record {
            port = p;
            was_at = at;
            valid = release-IsValid v n p d qs (λ q. erase p (c q)) t at e is (has-erase_all p);
            polled = pol;
            gone = ground arith;
            freed = ground arith;
          },
        )
  ]

  -- `remove_fd` on a port in a valid table, with more fuel than either queue has structs, returns
  -- TRUE: the port's struct is off its queue, freed and out of the table, the other structs keep
  -- their places, and the invariant holds. No freed struct is read.
  pub remove_fd-Removed :
      (fuel n : ℕ)
      → ((q : QueName) → length (c q) < fuel)
      → s.fds n ≢ none
      → n < setsize
      → (s' : State) × (remove_fd setsize fuel (pos n) s ≡ some (true, s'))
        × Removed setsize n c s s'
  unfolding remove_fd
  remove_fd-Removed fuel n more present low =
      let (s', got, done) = remove_at-Removed fuel n more present in
      (s', rw (lt→ltb n setsize low, remove_fd) got, done)

  -- In a valid table with a port on the ready queue, `next_ready_port` takes the port at the head
  -- off the queue, makes it quiescent and returns its descriptor; the table stays valid.
  pub next_ready_port-head :
      {p : Ptr} {ps : List Ptr}
      → c ready ≡ p ∷ ps
      → (n : ℕ) × (s' : State) × (next_ready_port s ≡ some (n, s'))
        × (s'.fds n ≡ some p)
        × IsValid setsize (set_list c ready ps) s'
        × ((d : FdStruct) × (s'.info p ≡ some d) × (d.status ≡ fd_quiescent) × (d.fd ≡ n))
  unfolding next_ready_port
  next_ready_port-head {p} {ps} e = elim (Option-cases (s.info p)) [
    | inl dead ↦ absurd (ground (arith, v.alive p ready dead, ap (has p) e))
    | inr (d, at) ↦
        let (qs, got, is) = rmque-middle ready [] p ps v.queues e in
        let off : has p (c pending) ≡ false =
          ground (arith, (v.owner p d at).1 ready, (v.owner p d at).1 pending, ap (has p) e) in
        let (out, distinct) = subst Distinct e (v.queues.each ready).distinct in
        (
          d.fd,
          set_status p d fd_quiescent (record s { queues = qs }),
          rw (got, next_ready_port, at),
          (v.owner p d at).0,
          move-IsValid v p d fd_quiescent qs (set_list c ready ps) at is (left e off out),
          (record d { status = fd_quiescent }, ground arith, refl, refl),
        )
  ]
    where
      left :
          c ready ≡ p ∷ ps
          → has p (c pending) ≡ false
          → has p ps ≡ false
          → (x : Ptr) (q : QueName)
          → has x (set_list c ready ps q) ≡ (if x == p then belongs fd_quiescent q else has x (c q))
      left e off out x ready = ground (arith, has-eq x p ps, ap (has x) e)
      left e off out x pending = ground (arith, has-eq x p (c pending))
