-- ===== src/Event/Ports/Valid.antt =====
-- The invariant of the table of ports of c/unix/event.c.
use kali_scheme.Prelude.{
  ℕ, ◌<◌, ◌≡◌, refl, Bool, true, false, none, some, [], arith, ◌==◌, if◌then◌else◌, inl, inr,
  Bool-cases,
}
use kali_scheme.Prelude.Int.{ℤ}
use kali_scheme.Event.Queue.{Ptr, QueName, ready, pending, first, next, Queues, write}
use kali_scheme.Event.Queue.Chain.{has, Chain-write, on_chain-next}
use kali_scheme.Event.Queue.Lists.{Contents, IsQueues}
use kali_scheme.Event.State.{
  Status, fd_quiescent, fd_ready, fd_pending, FdStruct, State, initial, update, set_status,
}
use kali_scheme.Event.Ports.{add_fd, release}

-- Whether a struct with this status belongs on the queue.
abbrev pub belongs : Status → QueName → Bool
belongs fd_ready ready = true
belongs fd_pending pending = true
belongs fd_quiescent q = false
belongs fd_ready pending = false
belongs fd_pending ready = false

-- The table and the structs point at each other, and each struct stands on the queue that its
-- status names. `c` are the structs on the queues, in order.
pub record IsValid (setsize : ℕ) (c : Contents) (s : State) : Type 0 where
  pub queues : IsQueues s.queues c
  pub known :
      (n : ℕ) (p : Ptr)
      → s.fds n ≡ some p
      → (n < setsize) × ((d : FdStruct) × (s.info p ≡ some d) × (d.fd ≡ n))
  pub owner :
      (p : Ptr) (d : FdStruct)
      → s.info p ≡ some d
      → (s.fds d.fd ≡ some p) × ((q : QueName) → has p (c q) ≡ belongs d.status q)
  pub alive : (p : Ptr) (q : QueName) → s.info p ≡ none → has p (c q) ≡ false

pub initial-IsValid : (setsize : ℕ) → IsValid setsize (λ q. []) initial
initial-IsValid setsize = record {
  queues = record {
    each = λ q. record { chain = refl; last = refl; distinct = tt };
    apart = λ q r x ne h. cc;
  };
  known = λ n p h. absurd (cc);
  owner = λ p d h. absurd (cc);
  alive = λ p q h. refl;
}

module _ {setsize : ℕ} {c : Contents} {s : State} (v : IsValid setsize c s) where
  -- A struct changes its status, and moves to the queue that the new status names.
  pub move-IsValid :
      (p : Ptr) (d : FdStruct) (st : Status) (qs : Queues) (c' : Contents)
      → s.info p ≡ some d
      → IsQueues qs c'
      → ((x : Ptr) (q : QueName) → has x (c' q) ≡ (if x == p then belongs st q else has x (c q)))
      → IsValid setsize c' (set_status p d st (record s { queues = qs }))
  move-IsValid p d st qs c' e is moved = record {
    queues = is;
    known = λ n x h. moved_known n x (v.known n x h);
    owner = λ x d' h. moved_owner x d' h;
    alive = λ x q h. moved_alive x q h;
  }
    where
      moved_known :
          (n : ℕ) (x : Ptr)
          → (n < setsize) × ((d : FdStruct) × (s.info x ≡ some d) × (d.fd ≡ n))
          → (n < setsize)
            × ((d' : FdStruct) × (update s.info p (some (record d { status = st })) x ≡ some d')
                × (d'.fd ≡ n))
      moved_known n x (low, (d', at, same)) = elim (Bool-cases (x == p)) [
        | inl t ↦ (low, (record d { status = st }, ground arith, ground arith))
        | inr t ↦ (low, (d', ground arith, same))
      ]

      moved_owner :
          (x : Ptr) (d' : FdStruct)
          → update s.info p (some (record d { status = st })) x ≡ some d'
          → (s.fds d'.fd ≡ some x) × ((q : QueName) → has x (c' q) ≡ belongs d'.status q)
      moved_owner x d' h = elim (Bool-cases (x == p)) [
        | inl t ↦ (ground (arith, (v.owner p d e).0), λ q. ground (arith, moved x q))
        | inr t ↦ (
          ground (arith, (v.owner x d' (ground arith)).0),
          λ q. ground (arith, moved x q, (v.owner x d' (ground arith)).1 q),
        )
      ]

      moved_alive :
          (x : Ptr) (q : QueName)
          → update s.info p (some (record d { status = st })) x ≡ none
          → has x (c' q) ≡ false
      moved_alive x q h = ground (arith, moved x q, v.alive x q)

  -- The time of the next poll plays no part in the invariant.
  pub retime-IsValid : (t : ℤ) → IsValid setsize c (record s { poll_time = t })
  retime-IsValid t = record { queues = v.queues; known = v.known; owner = v.owner; alive = v.alive }

  IsQueues-write_next :
      (p : Ptr)
      → s.info p ≡ none
      → IsQueues (record { link = write s.queues.link (next p) none; lastp = s.queues.lastp }) c
  IsQueues-write_next p e = record {
    each = λ q. record {
      chain =
          Chain-write s.queues.link (next p) (first q) none (c q) (rw on_chain-next (v.alive p q e))
            (v.queues.each q).chain;
      last = (v.queues.each q).last;
      distinct = (v.queues.each q).distinct;
    };
    apart = v.queues.apart;
  }

  -- A new struct enters the table on no queue.
  pub add_fd-IsValid :
      (p : Ptr) (n : ℕ) (b : Bool)
      → n < setsize
      → s.fds n ≡ none
      → s.info p ≡ none
      → IsValid setsize c (add_fd (some p) n b s).1
  unfolding add_fd
  add_fd-IsValid p n b low free fresh = record {
    queues = IsQueues-write_next p fresh;
    known = new_known;
    owner = new_owner;
    alive = λ x q h. v.alive x q (ground arith);
  }
    where
      d : FdStruct
      d = record { fd = n; status = fd_quiescent; is_input = b }

      new_known :
          (m : ℕ) (x : Ptr)
          → update s.fds n (some p) m ≡ some x
          → (m < setsize) × ((d' : FdStruct) × (update s.info p (some d) x ≡ some d') × (d'.fd ≡ m))
      new_known m x h = elim (Bool-cases (m == n)) [
        | inl t ↦ (ground arith, (d, ground arith, ground arith))
        | inr t ↦
            let (low', (d', at, same)) = v.known m x (ground arith) in
            (low', (d', ground arith, same))
      ]

      new_owner :
          (x : Ptr) (d' : FdStruct)
          → update s.info p (some d) x ≡ some d'
          → (update s.fds n (some p) d'.fd ≡ some x)
            × ((q : QueName) → has x (c q) ≡ belongs d'.status q)
      new_owner x d' h = elim (Bool-cases (x == p)) [
        | inl t ↦ (ground arith, λ q. ground (arith, v.alive x q))
        | inr t ↦ let (at, on) = v.owner x d' (ground arith) in (ground arith, on)
      ]

  -- A struct leaves its queue, the table and the heap.
  pub release-IsValid :
      (n : ℕ) (p : Ptr) (d : FdStruct) (qs : Queues) (c' : Contents) (t : ℤ)
      → s.fds n ≡ some p
      → s.info p ≡ some d
      → IsQueues qs c'
      → ((x : Ptr) (q : QueName) → has x (c' q) ≡ (if x == p then false else has x (c q)))
      → IsValid setsize c' (release n p (record s { queues = qs; poll_time = t }))
  unfolding release
  release-IsValid n p d qs c' t at e is moved = record {
    queues = is;
    known = old_known;
    owner = old_owner;
    alive = λ x q h. ground (arith, moved x q, v.alive x q);
  }
    where
      old_known :
          (m : ℕ) (x : Ptr)
          → update s.fds n none m ≡ some x
          → (m < setsize) × ((d' : FdStruct) × (update s.info p none x ≡ some d') × (d'.fd ≡ m))
      old_known m x h =
          let (low, (d', at', same)) = v.known m x (ground arith) in
          let (low', (d'', at'', same')) = v.known n p at in (low, (d', ground arith, same))

      old_owner :
          (x : Ptr) (d' : FdStruct)
          → update s.info p none x ≡ some d'
          → (update s.fds n none d'.fd ≡ some x)
            × ((q : QueName) → has x (c' q) ≡ belongs d'.status q)
      old_owner x d' h =
          let (at', on) = v.owner x d' (ground arith) in
          (ground arith, λ q. ground (arith, moved x q, on q))
