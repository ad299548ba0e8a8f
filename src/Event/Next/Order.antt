-- ===== src/Event/Next/Order.antt =====
-- In what order `get_next_event` of c/unix/event.c serves events.
use kali_scheme.Prelude.{
  ℕ, ◌+◌, ◌-◌, ◌<◌, ◌≡◌, refl, sym, subst, inl, inr, ◌⊎◌, true, false, Option, none, some, List, [],
  ◌∷◌, ◌++◌, arith, ltb, length, Bool-cases,
}
use kali_scheme.Prelude.Int.{ℤ, pos, minus_one}
use kali_scheme.Event.Queue.{Ptr, ready, pending, first}
use kali_scheme.Event.Queue.Lists.{Contents}
use kali_scheme.Event.State.{State, SameClock}
use kali_scheme.Event.Ports.{there_are_ready_ports}
use kali_scheme.Event.Ports.Valid.{IsValid}
use kali_scheme.Event.Ports.Drop.{next_ready_port-head}
use kali_scheme.Event.Poll.{Select}
use kali_scheme.Event.Poll.Scan.{contents}
use kali_scheme.Event.Next.{
  Event, keyboard_interrupt, io_completion, alarm, error, no_event, Outcome, go_on, fail, is_due,
  poll_ports, clear_pending, after_poll, get_next_event,
}
use kali_scheme.Event.Next.Due.{Asked, unasked, failure, poll_ports-Asked}

-- What each event means, from the state `s`, after the poll: `rs` are the ports that are ready after the poll, and
-- `s'` is the state that is left, with `c'` on the queues.
abbrev pub Served : Event → ℤ → State → List Ptr → State → Contents → Type 0
Served keyboard_interrupt eintr s rs s' c' =
    (0 < s.keyboard_interrupt_count)
    × (s'.keyboard_interrupt_count + 1 ≡ s.keyboard_interrupt_count)
    × (s'.fds ≡ s.fds)
Served (io_completion fd st) eintr s rs s' c' =
    (s.keyboard_interrupt_count ≡ 0)
    × (st ≡ pos 0)
    × ((p : Ptr) × (ps : List Ptr) × (rs ≡ p ∷ ps) × (s'.fds fd ≡ some p) × (c' ready ≡ ps))
Served alarm eintr s rs s' c' =
    (s.keyboard_interrupt_count ≡ 0)
    × (rs ≡ [])
    × (is_due s.alarm_time s.current_time ≡ true)
    × (s'.alarm_time ≡ minus_one)
Served (error r) eintr s rs s' c' = (s.keyboard_interrupt_count ≡ 0) × (c' ready ≡ rs)
Served no_event eintr s rs s' c' =
    (s.keyboard_interrupt_count ≡ 0)
    × (rs ≡ [])
    × (is_due s.alarm_time s.current_time ≡ false)
    × ((s'.pending_events ≡ false) ⊎ (is_due s'.poll_time s'.current_time ≡ true))

-- The status of a poll that failed.
abbrev pub failed_poll : Event → Option ℤ
failed_poll keyboard_interrupt = none
failed_poll (io_completion fd st) = none
failed_poll alarm = none
failed_poll (error r) = some r
failed_poll no_event = none

port_ready :
    (s : State) (p : Ptr) → s.queues.link (first ready) ≡ some p → there_are_ready_ports s ≡ true
unfolding there_are_ready_ports
port_ready s p e = rw (e, there_are_ready_ports)

module _ {setsize : ℕ} (eintr : ℤ) (s : State) (quiet : s.keyboard_interrupt_count ≡ 0) where
  serve_clock :
      (s₁ : State) (ps : List Ptr)
      → IsValid setsize (contents [] ps) s₁
      → SameClock s s₁
      → (e : Event) × (s' : State) × (c' : Contents) × (after_poll s₁ ≡ some (e, s'))
        × IsValid setsize c' s'
        × (c' pending ≡ ps)
        × (failed_poll e ≡ none)
        × Served e eintr s [] s' c'
  unfolding after_poll there_are_ready_ports clear_pending
  serve_clock s₁ ps v clock =
      let none_ready : s₁.queues.link (first ready) ≡ none = (v.queues.each ready).chain in
      elim (Bool-cases (is_due s₁.alarm_time s₁.current_time)) [
        | inl due ↦ (
          alarm,
          record s₁ { alarm_time = minus_one },
          contents [] ps,
          rw (none_ready, there_are_ready_ports, due),
          realarm v,
          refl,
          refl,
          (quiet, refl, rw (clock.alarm, clock.now) at due, refl),
        )
        | inr not_due ↦ elim (Bool-cases (is_due s₁.poll_time s₁.current_time)) [
          | inl again ↦ (
            no_event,
            s₁,
            contents [] ps,
            ground (arith, none_ready),
            v,
            refl,
            refl,
            (quiet, refl, rw (clock.alarm, clock.now) at not_due, inr again),
          )
          | inr done ↦ (
            no_event,
            record s₁ { pending_events = false },
            contents [] ps,
            ground (arith, none_ready, clock.interrupts, quiet),
            reflag v,
            refl,
            refl,
            (quiet, refl, rw (clock.alarm, clock.now) at not_due, inl refl),
          )
        ]
      ]
    where
      realarm :
          IsValid setsize (contents [] ps) s₁
          → IsValid setsize (contents [] ps) (record s₁ { alarm_time = minus_one })
      realarm v = record { queues = v.queues; known = v.known; owner = v.owner; alive = v.alive }

      reflag :
          IsValid setsize (contents [] ps) s₁
          → IsValid setsize (contents [] ps) (record s₁ { pending_events = false })
      reflag v = record { queues = v.queues; known = v.known; owner = v.owner; alive = v.alive }

  serve_port :
      (s₁ : State) (p : Ptr) (rs ps : List Ptr)
      → IsValid setsize (contents (p ∷ rs) ps) s₁
      → (e : Event) × (s' : State) × (c' : Contents) × (after_poll s₁ ≡ some (e, s'))
        × IsValid setsize c' s'
        × (c' pending ≡ ps)
        × (failed_poll e ≡ none)
        × Served e eintr s (p ∷ rs) s' c'
  unfolding after_poll
  serve_port s₁ p rs ps v =
      let (n, s', run, at, v', d) = next_ready_port-head v refl in
      (
        io_completion n (pos 0),
        s',
        _,
        rw (port_ready s₁ p (v.queues.each ready).chain.0, run),
        v',
        refl,
        refl,
        (quiet, refl, (p, rs, refl, at, refl)),
      )

  pub after_poll-Served :
      (s₁ : State) (rs ps : List Ptr)
      → IsValid setsize (contents rs ps) s₁
      → SameClock s s₁
      → (e : Event) × (s' : State) × (c' : Contents) × (after_poll s₁ ≡ some (e, s'))
        × IsValid setsize c' s'
        × (c' pending ≡ ps)
        × (failed_poll e ≡ none)
        × Served e eintr s rs s' c'
  after_poll-Served s₁ [] ps v clock = serve_clock s₁ ps v clock
  after_poll-Served s₁ (p ∷ rs) ps v clock = serve_port s₁ p rs ps v

-- `get_next_event`, on a valid table and with more fuel than ports are pending, returns an event
-- and a valid table. A keyboard interrupt comes first and is counted off, and nothing is polled.
-- Otherwise, if the time for a poll has come and a port is pending, `select` is asked about exactly the
-- pending ports without waiting, and the ports that it reports, as many as it counts (`ms`), move
-- behind those that are ready, while the others (`ps₁`) stay pending; and then the event is: an
-- error with the status of the poll, exactly if that is neither NO_ERRORS nor EINTR; or the
-- completion of the oldest ready port, which leaves the ready queue; or, with no port ready, the
-- alarm if it is due, which is switched off; or else no event, and then the flag of pending events
-- is cleared unless a poll is still due.
pub get_next_event-Served :
    {setsize : ℕ} (fuel : ℕ) (eintr : ℤ) (select : Select) (s : State) (rs ps : List Ptr)
    → IsValid setsize (contents rs ps) s
    → length ps < fuel
    → (e : Event) × (ms : List Ptr) × (ps₁ : List Ptr) × (s' : State) × (c' : Contents)
      × (get_next_event fuel eintr select s ≡ some (e, s'))
      × IsValid setsize c' s'
      × (c' pending ≡ ps₁)
      × Asked eintr select s ps ms ps₁ (failed_poll e)
      × Served e eintr s (rs ++ ms) s' c'
unfolding get_next_event
get_next_event-Served {setsize} fuel eintr select s rs ps v more =
    elim (Bool-cases (ltb 0 s.keyboard_interrupt_count)) [
      | inl typed ↦ (
        keyboard_interrupt,
        [],
        ps,
        record s { keyboard_interrupt_count = s.keyboard_interrupt_count - 1 },
        contents rs ps,
        rw typed,
        record { queues = v.queues; known = v.known; owner = v.owner; alive = v.alive },
        refl,
        unasked (inl (ground arith)),
        ground arith,
      )
      | inr none_typed ↦
          let quiet : s.keyboard_interrupt_count ≡ 0 = ground arith in
          let (o, s₁, ms, ps₁, run, v₁, clock, asked) =
            poll_ports-Asked fuel eintr select s rs ps v more in
          serve o s₁ ms ps₁ none_typed quiet run v₁ clock asked
    ]
  where
    serve :
        (o : Outcome) (s₁ : State) (ms ps₁ : List Ptr)
        → ltb 0 s.keyboard_interrupt_count ≡ false
        → s.keyboard_interrupt_count ≡ 0
        → poll_ports fuel eintr select s ≡ some (o, s₁)
        → IsValid setsize (contents (rs ++ ms) ps₁) s₁
        → SameClock s s₁
        → Asked eintr select s ps ms ps₁ (failure o)
        → (e : Event) × (ms : List Ptr) × (ps₁ : List Ptr) × (s' : State) × (c' : Contents)
          × (get_next_event fuel eintr select s ≡ some (e, s'))
          × IsValid setsize c' s'
          × (c' pending ≡ ps₁)
          × Asked eintr select s ps ms ps₁ (failed_poll e)
          × Served e eintr s (rs ++ ms) s' c'
    serve (fail r) s₁ ms ps₁ none_typed quiet run v₁ clock asked =
        (error r, ms, ps₁, s₁, _, rw (none_typed, run) refl, v₁, refl, asked, (quiet, refl))
    serve go_on s₁ ms ps₁ none_typed quiet run v₁ clock asked =
        let (e, s', c', served, v', left, fine, is) =
          after_poll-Served eintr s quiet s₁ (rs ++ ms) ps₁ v₁ clock in
        (
          e,
          ms,
          ps₁,
          s',
          c',
          rw (none_typed, run) served,
          v',
          left,
          subst (Asked eintr select s ps ms ps₁) (sym fine) asked,
          is,
        )
