-- ===== src/Event/Ports/Pending.antt =====
-- The branches of `add_pending_fd` of c/unix/event.c.
use kali_scheme.Prelude.{
  ◌⊎◌, inr, ℕ, ◌+◌, ◌<◌, ◌≡◌, refl, ◌≢◌, Bool, true, false, none, some, [], ◌∷◌, ◌++◌, arith, ◌==◌,
  if◌then◌else◌, length,
}
use kali_scheme.Prelude.Int.{ℤ, pos, minus_one, eqb_ℤ}
use kali_scheme.Event.Queue.{Ptr, QueName, ready, pending, addque}
use kali_scheme.Event.Queue.Chain.{has, has-eq, Distinct}
use kali_scheme.Event.Queue.Lists.{
  Contents, set_list, IsQueues, erase, has-erase, has-snoc, erase-absent,
}
use kali_scheme.Event.Queue.Add.{addque-append}
use kali_scheme.Event.Queue.Remove.{findrm-erase}
use kali_scheme.Event.State.{fd_quiescent, fd_ready, fd_pending, FdStruct, State, poll_interval}
use kali_scheme.Event.Ports.{add_fd, make_pending, pend_new, pend_known}
use kali_scheme.Event.Ports.Valid.{IsValid, belongs, move-IsValid, retime-IsValid, add_fd-IsValid}

-- With a port pending there is a time for the next poll.
abbrev pub IsPolled : Contents → State → Type 0
IsPolled c s = c pending ≢ [] → s.poll_time ≢ minus_one

-- What holds after `add_pending_fd` returned TRUE for the port `n`.
pub record Pended (setsize : ℕ) (n : ℕ) (is_input : Bool) (c c' : Contents) (s s' : State)
    : Type 0 where
  pub valid : IsValid setsize c' s'
  pub polled : IsPolled c s → IsPolled c' s'
  pub port : Ptr
  pub scheduled : (has port (c pending) ≡ true) ⊎ (s'.poll_time ≢ minus_one)
  pub at : s'.fds n ≡ some port
  pub struct :
      (d : FdStruct) × (s'.info port ≡ some d)
      × (d.fd ≡ n)
      × (s.fds n ≡ none → d.is_input ≡ is_input)
      × ((old : FdStruct) → s.info port ≡ some old → d.is_input ≡ old.is_input)
  pub no_longer_ready : c' ready ≡ erase port (c ready)
  pub now_pending :
      c' pending ≡ (if has port (c pending) then c pending else c pending ++ (port ∷ []))

pended_time : State → ℤ
pended_time s =
    if eqb_ℤ s.poll_time minus_one then pos (s.current_time + poll_interval) else s.poll_time

module _ {setsize : ℕ} {c : Contents} {s : State} (v : IsValid setsize c s) where
  pended_lists :
      (p : Ptr)
      → ((q : QueName) → has p (c q) ≡ false)
      → (x : Ptr) (q : QueName)
      → has x (set_list c pending (c pending ++ (p ∷ [])) q)
        ≡ (if x == p then belongs fd_pending q else has x (c q))
  pended_lists p off x ready = ground (arith, off ready, has-eq x p (c ready))
  pended_lists p off x pending =
      ground (arith, off pending, has-eq x p (c pending), has-snoc p x (c pending))

  -- The end of `add_pending_fd`, for a struct that is on no queue.
  pub make_pending-IsValid :
      (p : Ptr) (d : FdStruct)
      → s.info p ≡ some d
      → ((q : QueName) → has p (c q) ≡ false)
      → IsValid setsize (set_list c pending (c pending ++ (p ∷ []))) (make_pending p d s)
  unfolding make_pending pended_time
  make_pending-IsValid p d e off =
      move-IsValid (retime-IsValid v (pended_time s)) p d fd_pending (addque p pending s.queues)
        (set_list c pending (c pending ++ (p ∷ []))) e (addque-append p pending v.queues off)
        (pended_lists p off)

-- After `add_fd` and the end of `add_pending_fd`.
module _ {setsize : ℕ} {c : Contents} {s : State} (v : IsValid setsize c s) where
  pub pend_quiescent-Pended :
      (n : ℕ) (is_input : Bool) (p : Ptr) (d : FdStruct)
      → s.fds n ≡ some p
      → s.info p ≡ some d
      → d.fd ≡ n
      → ((q : QueName) → has p (c q) ≡ false)
      → Pended setsize n is_input c
          (set_list c pending (c pending ++ (p ∷ [])))
          s
          (make_pending p d s)
  unfolding make_pending
  pend_quiescent-Pended n is_input p d at e same off = record {
    valid = make_pending-IsValid v p d e off;
    polled = λ h ne. ground arith;
    scheduled = inr (ground arith);
    port = p;
    at = at;
    struct = (record d { status = fd_pending }, ground arith, same, λ h. cc, λ old h. ground arith);
    no_longer_ready = rw (erase-absent p (c ready) (off ready));
    now_pending = rw (off pending);
  }

  pub pend_new-Pended :
      (n : ℕ) (is_input : Bool) (p : Ptr)
      → n < setsize
      → s.fds n ≡ none
      → s.info p ≡ none
      → (s' : State) × (pend_new (some p) (add_fd (some p) n is_input s).1 ≡ some (true, s'))
        × Pended setsize n is_input c (set_list c pending (c pending ++ (p ∷ []))) s s'
  unfolding pend_new add_fd make_pending
  pend_new-Pended n is_input p low free fresh =
      let s₁ = (add_fd (some p) n is_input s).1 in
      let d : FdStruct = record { fd = n; status = fd_quiescent; is_input = is_input } in
      let v₁ = add_fd-IsValid v p n is_input low free fresh in
      let e : s₁.info p ≡ some d = ground arith in
      (
        make_pending p d s₁,
        ground arith,
        record {
          valid = make_pending-IsValid v₁ p d e (λ q. v.alive p q fresh);
          polled = λ h ne. ground arith;
          scheduled = inr (ground arith);
          port = p;
          at = ground arith;
          struct = (
            record d { status = fd_pending },
            ground arith,
            refl,
            λ h. refl,
            λ old h. absurd (cc),
          );
          no_longer_ready = rw (erase-absent p (c ready) (v.alive p ready fresh));
          now_pending = rw (v.alive p pending fresh);
        },
      )

  -- A ready port leaves the ready queue first.
  pub pend_ready-Pended :
      (fuel n : ℕ) (is_input : Bool) (p : Ptr) (d : FdStruct)
      → length (c ready) < fuel
      → s.fds n ≡ some p
      → s.info p ≡ some d
      → d.fd ≡ n
      → d.status ≡ fd_ready
      → (s' : State) × (pend_known fuel p d fd_ready s ≡ some (true, s'))
        × ((c' : Contents) × Pended setsize n is_input c c' s s')
  unfolding pend_known make_pending pended_time
  pend_ready-Pended fuel n is_input p d more at e same st =
      let (qs, got, is) = findrm-erase fuel p ready v.queues more in
      let c₁ = set_list c ready (erase p (c ready)) in
      let off : has p (c pending) ≡ false = ground (arith, (v.owner p d e).1 pending) in
      let gone : has p (erase p (c ready)) ≡ false =
        ground (arith, has-erase p p (c ready) (v.queues.each ready).distinct) in
      let c' = set_list c₁ pending (c pending ++ (p ∷ [])) in
      let is' : IsQueues (addque p pending qs) c' =
        addque-append p pending is (λ q. off_both q gone off) in
      let s₁ = record s { queues = qs } in
      (
        make_pending p d s₁,
        rw (got, pend_known),
        (
          c',
          record {
            valid =
                move-IsValid (retime-IsValid v (pended_time s)) p d fd_pending (addque p pending qs)
                  c' e is' (moved p off (v.queues.each ready).distinct);
            polled = λ h ne. ground arith;
            scheduled = inr (ground arith);
            port = p;
            at = at;
            struct = (
              record d { status = fd_pending },
              ground arith,
              same,
              λ h. cc,
              λ old h. ground arith,
            );
            no_longer_ready = refl;
            now_pending = rw off;
          },
        ),
      )
    where
      off_both :
          (q : QueName)
          → has p (erase p (c ready)) ≡ false
          → has p (c pending) ≡ false
          → has p (set_list c ready (erase p (c ready)) q) ≡ false
      off_both ready gone off = gone
      off_both pending gone off = off

      moved :
          (p : Ptr)
          → has p (c pending) ≡ false
          → Distinct (c ready)
          → (x : Ptr) (q : QueName)
          → has x
              (set_list (set_list c ready (erase p (c ready))) pending (c pending ++ (p ∷ [])) q)
            ≡ (if x == p then belongs fd_pending q else has x (c q))
      moved p off distinct x ready = has-erase p x (c ready) distinct
      moved p off distinct x pending =
          ground (arith, has-eq x p (c pending), has-snoc p x (c pending))
