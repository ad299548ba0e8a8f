-- ===== src/Event/Ports/Pend.antt =====
-- `add_pending_fd` of c/unix/event.c.
use kali_scheme.Prelude.{
  ℕ, ◌<◌, ◌≡◌, refl, Bool, true, false, Option, none, some, arith, length, Option-cases, lt→ltb,
  ◌⊎◌, inl, inr,
}
use kali_scheme.Prelude.Int.{ℤ, pos}
use kali_scheme.Event.Queue.{Ptr, QueName, ready, pending}
use kali_scheme.Event.Queue.Chain.{has}
use kali_scheme.Event.Queue.Lists.{Contents, erase-absent}
use kali_scheme.Event.State.{Status, fd_quiescent, fd_ready, fd_pending, FdStruct, State, fd_index}
use kali_scheme.Event.Ports.{add_fd, make_pending, pend_new, pend_known, pend_at, add_pending_fd}
use kali_scheme.Event.Ports.Valid.{IsValid, belongs}
use kali_scheme.Event.Ports.Pending.{
  Pended, pend_quiescent-Pended, pend_new-Pended, pend_ready-Pended,
}

module _ {setsize : ℕ} {c : Contents} {s : State} (v : IsValid setsize c s) where
  pend_known-Pended :
      (fuel n : ℕ) (is_input : Bool) (p : Ptr) (d : FdStruct) (st : Status)
      → length (c ready) < fuel
      → s.fds n ≡ some p
      → s.info p ≡ some d
      → d.fd ≡ n
      → d.status ≡ st
      → (s' : State) × (pend_known fuel p d st s ≡ some (true, s'))
        × ((c' : Contents) × Pended setsize n is_input c c' s s')
  unfolding pend_known
  pend_known-Pended fuel n is_input p d fd_pending more at e same st =
      let on : (q : QueName) → has p (c q) ≡ belongs fd_pending q =
        λ q. rw (← st) ((v.owner p d e).1 q) in
      (
        s,
        refl,
        (
          c,
          record {
            valid = v;
            polled = λ h. h;
            scheduled = inl (ground (arith, on pending));
            port = p;
            at = at;
            struct = (d, e, same, λ h. cc, λ old h. ground arith);
            no_longer_ready = rw (erase-absent p (c ready) (on ready));
            now_pending = rw (on pending);
          },
        ),
      )
  pend_known-Pended fuel n is_input p d fd_ready more at e same st =
      pend_ready-Pended v fuel n is_input p d more at e same st
  pend_known-Pended fuel n is_input p d fd_quiescent more at e same st = (
    make_pending p d s,
    refl,
    (_, pend_quiescent-Pended v n is_input p d at e same λ q. rw st at ((v.owner p d e).1 q)),
  )

  pend_at-Pended :
      (fuel n fresh : ℕ) (is_input : Bool)
      → n < setsize
      → length (c ready) < fuel
      → s.info fresh ≡ none
      → (s' : State) × (pend_at fuel (some fresh) n is_input s ≡ some (true, s'))
        × ((c' : Contents) × Pended setsize n is_input c c' s s')
  unfolding pend_at
  pend_at-Pended fuel n fresh is_input low more unused = elim (Option-cases (s.fds n)) [
    | inl free ↦
        let (s', got, done) = pend_new-Pended v n is_input fresh low free unused in
        (s', rw (free, pend_at) got, (_, done))
    | inr (p, at) ↦
        let (low', (d, e, same)) = v.known n p at in
        let (s', got, done) = pend_known-Pended fuel n is_input p d d.status more at e same refl in
        (s', rw (at, pend_at, e) got, done)
  ]

  pub add_pending_fd-Pended :
      (fuel n fresh : ℕ) (is_input : Bool)
      → n < setsize
      → length (c ready) < fuel
      → s.info fresh ≡ none
      → (s' : State) × (add_pending_fd setsize fuel (some fresh) (pos n) is_input s
          ≡ some (true, s'))
        × ((c' : Contents) × Pended setsize n is_input c c' s s')
  unfolding add_pending_fd
  add_pending_fd-Pended fuel n fresh is_input low more unused =
      let (s', got, done) = pend_at-Pended fuel n fresh is_input low more unused in
      (s', rw (lt→ltb n setsize low, add_pending_fd) got, done)

-- The failures of `add_pending_fd` change nothing and return FALSE: a descriptor out of range, and
-- a new one when `malloc` fails.
pub add_pending_fd-fails :
    (setsize fuel : ℕ) (alloc : Option Ptr) (fd : ℤ) (is_input : Bool) (s : State)
    → (fd_index setsize fd ≡ none)
      ⊎ ((n : ℕ) × (fd_index setsize fd ≡ some n) × (s.fds n ≡ none) × (alloc ≡ none))
    → add_pending_fd setsize fuel alloc fd is_input s ≡ some (false, s)
unfolding add_pending_fd pend_at add_fd pend_new
add_pending_fd-fails setsize fuel alloc fd is_input s (inl out) = rw (out, add_pending_fd)
add_pending_fd-fails setsize fuel alloc fd is_input s (inr (n, i, free, no_memory)) =
    rw (i, add_pending_fd, free, pend_at, no_memory)
