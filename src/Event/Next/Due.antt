-- ===== src/Event/Next/Due.antt =====
-- The poll at the start of `get_next_event` of c/unix/event.c.
use kali_scheme.Prelude.{
  ℕ, ◌+◌, ◌<◌, ◌≡◌, ◌≢◌, refl, sym, ◌∙◌, ◌⊎◌, inl, inr, true, false, Option, none, some, List, [],
  ◌∷◌, ◌++◌, arith, length, Bool-cases,
}
use mathlib.Core.List.{append-nil}
use kali_scheme.Prelude.Int.{ℤ, pos, eqb_ℤ, eq_of_eqb_ℤ, ne_of_eqb_ℤ}
use kali_scheme.Event.Queue.{Ptr}
use kali_scheme.Event.State.{State, SameClock, poll_interval}
use kali_scheme.Event.Ports.Valid.{IsValid, retime-IsValid}
use kali_scheme.Event.Poll.{
  FdSets, Selected, Select, no_errors, empty_sets, poll_timeout, queue_ready_ports,
}
use kali_scheme.Event.Poll.Collect.{Collected}
use kali_scheme.Event.Poll.Scan.{contents}
use kali_scheme.Event.Poll.Move.{
  moved_by, left_by, poll_status, reported, queue_ready_ports-idle, queue_ready_ports-Polled,
}
use kali_scheme.Event.Next.{Outcome, go_on, fail, is_due, poll_ports}

-- What the poll of a state with the pending ports `ps` came to: the ports that became ready, those that
-- are still pending, and the status of a failure. Nothing is asked while a keyboard interrupt is
-- counted, before the time of the poll, or without pending ports. Otherwise `select` is asked about
-- the pending ports, without waiting, and the ports that it reports are ready, as many as it counts; a
-- status that is neither NO_ERRORS nor EINTR is a failure.
pub data Asked (eintr : ℤ) (select : Select) (s : State) (ps : List Ptr)
    : (found left : List Ptr) → Option ℤ → Type 0 where
  unasked :
      (0 < s.keyboard_interrupt_count) ⊎ ((is_due s.poll_time s.current_time ≡ false) ⊎ (ps ≡ []))
      → Asked eintr select s ps [] ps none
  answered :
      (t : FdSets) (sel : Selected)
      → is_due s.poll_time s.current_time ≡ true
      → Collected s ps empty_sets t
      → sel ≡ select t (some (pos 0, pos 0))
      → (poll_status sel sel.left ≡ no_errors) ⊎ (poll_status sel sel.left ≡ eintr)
      → Asked eintr select s ps
          (moved_by sel.left (reported s sel) ps)
          (left_by sel.left (reported s sel) ps)
          none
  broken :
      (t : FdSets) (sel : Selected) (r : ℤ)
      → is_due s.poll_time s.current_time ≡ true
      → Collected s ps empty_sets t
      → sel ≡ select t (some (pos 0, pos 0))
      → r ≡ poll_status sel sel.left
      → (r ≢ no_errors) × (r ≢ eintr)
      → Asked eintr select s ps
          (moved_by sel.left (reported s sel) ps)
          (left_by sel.left (reported s sel) ps)
          (some r)

abbrev pub failure : Outcome → Option ℤ
failure go_on = none
failure (fail r) = some r

module _ (fuel : ℕ) (eintr : ℤ) (select : Select) where
  -- The outcome of the poll by the status of `queue_ready_ports`.
  answered-Asked :
      (s s₁ : State) (ps : List Ptr) (t : FdSets) (sel : Selected) (r : ℤ)
      → is_due s.poll_time s.current_time ≡ true
      → queue_ready_ports fuel select false (pos 0) (pos 0) s ≡ some (r, s₁)
      → Collected s ps empty_sets t
      → sel ≡ select t (some (pos 0, pos 0))
      → r ≡ poll_status sel sel.left
      → (o : Outcome) × (time : ℤ) × (poll_ports fuel eintr select s
          ≡ some (o, record s₁ { poll_time = time }))
        × Asked eintr select s ps
            (moved_by sel.left (reported s sel) ps)
            (left_by sel.left (reported s sel) ps)
            (failure o)
  unfolding poll_ports
  answered-Asked s s₁ ps t sel r due run is at status = elim (Bool-cases (eqb_ℤ r no_errors)) [
    | inl okay ↦ (
      go_on,
      pos (s₁.current_time + poll_interval),
      rw (due, run, okay) refl,
      answered t sel due is at (inl (sym status ∙ eq_of_eqb_ℤ r no_errors okay)),
    )
    | inr bad ↦ elim (Bool-cases (eqb_ℤ r eintr)) [
      | inl interrupted ↦ (
        go_on,
        s₁.poll_time,
        rw (due, run, bad, interrupted) refl,
        answered t sel due is at (inr (sym status ∙ eq_of_eqb_ℤ r eintr interrupted)),
      )
      | inr failed ↦ (
        fail r,
        s₁.poll_time,
        rw (due, run, bad, failed) refl,
        broken t sel r due is at status (ne_of_eqb_ℤ r no_errors bad, ne_of_eqb_ℤ r eintr failed),
      )
    ]
  ]

  idle_poll :
      (s : State)
      → is_due s.poll_time s.current_time ≡ true
      → queue_ready_ports fuel select false (pos 0) (pos 0) s ≡ some (no_errors, s)
      → poll_ports fuel eintr select s
        ≡ some (go_on, record s { poll_time = pos (s.current_time + poll_interval) })
  unfolding poll_ports
  idle_poll s due run = rw (due, run) refl

  no_poll :
      (s : State)
      → is_due s.poll_time s.current_time ≡ false
      → poll_ports fuel eintr select s ≡ some (go_on, s)
  unfolding poll_ports
  no_poll s quiet = rw quiet refl

  -- The poll keeps the invariant; it adds the ports that are reported to the end of the ready queue.
  pub poll_ports-Asked :
      {setsize : ℕ} (s : State) (rs ps : List Ptr)
      → IsValid setsize (contents rs ps) s
      → length ps < fuel
      → (o : Outcome) × (s₁ : State) × (ms : List Ptr) × (ps₁ : List Ptr) × (poll_ports fuel eintr
            select s
          ≡ some (o, s₁))
        × IsValid setsize (contents (rs ++ ms) ps₁) s₁
        × SameClock s s₁
        × Asked eintr select s ps ms ps₁ (failure o)
  unfolding poll_timeout
  poll_ports-Asked {setsize} s rs ps v more =
      elim (Bool-cases (is_due s.poll_time s.current_time)) [
        | inr quiet ↦ (
          go_on,
          s,
          [],
          ps,
          no_poll s quiet,
          rw (append-nil rs) v,
          ground arith,
          unasked (inr (inl quiet)),
        )
        | inl due ↦ polled ps v more due
      ]
    where
      polled :
          (ps : List Ptr)
          → IsValid setsize (contents rs ps) s
          → length ps < fuel
          → is_due s.poll_time s.current_time ≡ true
          → (o : Outcome) × (s₁ : State) × (ms : List Ptr) × (ps₁ : List Ptr) × (poll_ports fuel
                eintr select s
              ≡ some (o, s₁))
            × IsValid setsize (contents (rs ++ ms) ps₁) s₁
            × SameClock s s₁
            × Asked eintr select s ps ms ps₁ (failure o)
      polled [] v more due = (
        go_on,
        record s { poll_time = pos (s.current_time + poll_interval) },
        [],
        [],
        idle_poll s due (queue_ready_ports-idle v fuel select (pos 0) (pos 0) refl),
        rw (append-nil rs) (retime-IsValid v _),
        ground arith,
        unasked (inr (inr refl)),
      )
      polled (p ∷ ps) v more due =
          let (t, is, (r, s₁, run, done)) =
            queue_ready_ports-Polled v fuel select false (pos 0) (pos 0) more (inr (λ e. cc)) in
          let sel = select t (some (pos 0, pos 0)) in
          let (o, time, got, asked) =
            answered-Asked s s₁ (p ∷ ps) t sel r due run is refl done.status in
          (
            o,
            record s₁ { poll_time = time },
            _,
            _,
            got,
            retime-IsValid done.valid time,
            ground (arith, done.clock),
            asked,
          )
