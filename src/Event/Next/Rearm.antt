-- ===== src/Event/Next/Rearm.antt =====
-- Polling in c/unix/event.c goes on when no port is pending.
use kali_scheme.Prelude.{
  ℕ, suc, ◌+◌, ◌<◌, ◌≡◌, ◌≢◌, refl, sym, ap, ◌∙◌, inl, inr, true, false, Option, none, some, List,
  [], ◌++◌, arith, ltb, length, Bool-cases, Option-cases,
}
use kali_scheme.Prelude.Int.{ℤ, pos, minus_one}
use kali_scheme.Event.Queue.{Ptr, ready, pending, first, rmque}
use kali_scheme.Event.Queue.Lists.{Contents}
use kali_scheme.Event.State.{State, SameClock, poll_interval}
use kali_scheme.Event.Ports.{there_are_ready_ports, next_ready_port}
use kali_scheme.Event.Ports.Valid.{IsValid, retime-IsValid}
use kali_scheme.Event.Poll.{
  FdSets, Select, Selected, empty_sets, no_errors, poll_timeout, queue_ready_ports,
}
use kali_scheme.Event.Poll.Collect.{Collected}
use kali_scheme.Event.Poll.Scan.{contents}
use kali_scheme.Event.Poll.Move.{moved_by, left_by, reported, poll_status, queue_ready_ports-Polled}
use kali_scheme.Event.Next.{
  Event, go_on, is_due, poll_ports, clear_pending, after_poll, get_next_event,
}
use kali_scheme.Event.Next.Order.{after_poll-Served}

-- The time of the poll in a result.
abbrev time_of {ℓ} : {A : Type ℓ} → ℤ → Option (A × State) → ℤ
time_of t none = t
time_of t (some (a, s)) = s.poll_time

next_ready_port-time : (s : State) → time_of s.poll_time (next_ready_port s) ≡ s.poll_time
unfolding next_ready_port
next_ready_port-time s = elim (Option-cases (rmque (first ready) ready s.queues)) [
  | inl e ↦ rw (e, next_ready_port) refl
  | inr ((p, qs), e) ↦ elim (Option-cases (s.info p)) [
    | inl dead ↦ rw (e, next_ready_port, dead) refl
    | inr (d, at) ↦ rw (e, next_ready_port, at) refl
  ]
]

clear_pending-time : (s : State) → (clear_pending s).poll_time ≡ s.poll_time
unfolding clear_pending
clear_pending-time s = ground arith

-- What follows the poll keeps its time.
after_poll-time : (s : State) → time_of s.poll_time (after_poll s) ≡ s.poll_time
unfolding after_poll
after_poll-time s = elim (Bool-cases (there_are_ready_ports s)) [
  | inl some_ready ↦ elim (Option-cases (next_ready_port s)) [
    | inl e ↦ rw (some_ready, e, after_poll) refl
    | inr ((fd, s'), e) ↦
        let kept : s'.poll_time ≡ s.poll_time =
          ap (time_of s.poll_time) (sym e) ∙ next_ready_port-time s in
        rw (some_ready, e, after_poll) kept
  ]
  | inr none_ready ↦ elim (Bool-cases (is_due s.alarm_time s.current_time)) [
    | inl due ↦ rw (none_ready, due, after_poll) refl
    | inr quiet ↦ rw (none_ready, quiet, after_poll) (clear_pending-time s)
  ]
]

poll_ports-timed :
    (fuel : ℕ) (eintr : ℤ) (select : Select) (s s₁ : State)
    → is_due s.poll_time s.current_time ≡ true
    → queue_ready_ports fuel select false (pos 0) (pos 0) s ≡ some (no_errors, s₁)
    → poll_ports fuel eintr select s
      ≡ some (go_on, record s₁ { poll_time = pos (s₁.current_time + poll_interval) })
unfolding poll_ports
poll_ports-timed fuel eintr select s s₁ due run = rw (due, run) refl

get_next_event-polled :
    (fuel : ℕ) (eintr : ℤ) (select : Select) (s s₂ : State)
    → s.keyboard_interrupt_count ≡ 0
    → poll_ports fuel eintr select s ≡ some (go_on, s₂)
    → get_next_event fuel eintr select s ≡ after_poll s₂
unfolding get_next_event
get_next_event-polled fuel eintr select s s₂ quiet run =
    let none_typed : ltb 0 s.keyboard_interrupt_count ≡ false = ground (arith, quiet) in
    rw (none_typed, run) refl

status-none :
    (sel : Selected) (n : ℕ) (left : ℤ) → left ≡ pos (suc n) → poll_status sel left ≡ no_errors
unfolding poll_status
status-none sel n left e = rw (e, poll_status) refl

-- In a valid table with a port pending, no keyboard interrupt, a poll due and fuel for the pending
-- ports, when `select` reports all ports that it is asked about, `queue_ready_ports` leaves no time
-- for a poll, -1, and yet after `get_next_event` no port is pending and a time for the next poll is
-- set.
pub get_next_event-rearms :
    {setsize : ℕ} (fuel : ℕ) (eintr : ℤ) (select : Select) (s : State) (rs ps : List Ptr)
    → IsValid setsize (contents rs ps) s
    → length ps < fuel
    → ps ≢ []
    → s.keyboard_interrupt_count ≡ 0
    → is_due s.poll_time s.current_time ≡ true
    → ((t : FdSets)
        → Collected s ps empty_sets t
        → let sel = select t (some (pos 0, pos 0)) in
          ((n : ℕ) × (sel.left ≡ pos (suc n))) × (left_by sel.left (reported s sel) ps ≡ []))
    → (s₁ : State) × (queue_ready_ports fuel select false (pos 0) (pos 0) s ≡ some (no_errors, s₁))
      × (s₁.poll_time ≡ minus_one)
      × ((e : Event) × (s' : State) × (c' : Contents) × (get_next_event fuel eintr select s
            ≡ some (e, s'))
          × IsValid setsize c' s'
          × (c' pending ≡ [])
          × (s'.poll_time ≡ pos (s.current_time + poll_interval)))
unfolding poll_timeout
get_next_event-rearms fuel eintr select s rs ps v more ne quiet due all =
    let (t, is, (r, s₁, run, done)) =
      queue_ready_ports-Polled v fuel select false (pos 0) (pos 0) more (inr ne) in
    let sel = select t (some (pos 0, pos 0)) in
    let ((n, many), gone) = all t is in
    let okay : r ≡ no_errors = done.status ∙ status-none sel n sel.left many in
    let run₁ = run ∙ ap (λ (x : ℤ). some (x, s₁)) okay in
    let s₂ : State = record s₁ { poll_time = pos (s₁.current_time + poll_interval) } in
    let clock : SameClock s s₂ = ground (arith, done.clock) in
    let (e, s', c', served, v', left, _, _) =
      after_poll-Served eintr s quiet s₂ (rs ++ moved_by sel.left (reported s sel) ps)
        (left_by sel.left (reported s sel) ps) (retime-IsValid done.valid s₂.poll_time) clock in
    let kept : s'.poll_time ≡ s₂.poll_time =
      ap (time_of s₂.poll_time) (sym served) ∙ after_poll-time s₂ in
    (
      s₁,
      run₁,
      done.stopped n many gone,
      (
        e,
        s',
        c',
        get_next_event-polled fuel eintr select s s₂ quiet
              (poll_ports-timed fuel eintr select s s₁ due run₁)
            ∙ served,
        v',
        left ∙ gone,
        kept ∙ ap (λ (m : ℕ). pos (m + poll_interval)) done.clock.now,
      ),
    )
