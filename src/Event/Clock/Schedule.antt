-- ===== src/Event/Clock/Schedule.antt =====
-- `schedule_alarm_interrupt` of c/unix/event.c and the ticks that follow it.
use kali_scheme.Prelude.{ℕ, zero, suc, ◌+◌, ◌*◌, ◌/◌, ◌≤◌, ◌≡◌, ◌≢◌, true, arith, leb, some}
use kali_scheme.Prelude.Int.{ℤ, pos, minus_one, ◌-ℤ◌}
use kali_scheme.Event.State.{State}
use kali_scheme.Event.Poll.{Select}
use kali_scheme.Event.Clock.{when_alarm_interrupt, schedule_alarm_interrupt}
use kali_scheme.Event.Next.{is_due, go_on, poll_ports, get_next_event}

-- Some ticks of the interval timer.
unfoldable pub after_ticks : ℕ → State → State
after_ticks zero s = s
after_ticks (suc k) s = when_alarm_interrupt (after_ticks k s)

-- Ticks change the time and the flags alone.
after_ticks-clock :
    (k : ℕ) (s : State)
    → ((after_ticks k s).current_time ≡ s.current_time + k)
      × ((after_ticks k s).alarm_time ≡ s.alarm_time)
      × ((after_ticks k s).poll_time ≡ s.poll_time)
unfolding after_ticks when_alarm_interrupt
after_ticks-clock zero s = ground arith
after_ticks-clock (suc k) s = ground (arith, after_ticks-clock k s)

schedule_alarm_interrupt-clock :
    (delta : ℕ) (s : State)
    → let s' = (schedule_alarm_interrupt (pos delta) s).1 in
      (s'.alarm_time ≡ pos (delta / 50)) × (s'.current_time ≡ 0)
unfolding schedule_alarm_interrupt
schedule_alarm_interrupt-clock delta s = ground arith

-- After an alarm is scheduled `delta` ticks of the clock ahead, it is due from the
-- `delta / TICKS_PER_POLL`-th timer interrupt on, and not before.
pub schedule_alarm_interrupt-due :
    (delta k : ℕ) (s : State)
    → let s' = (schedule_alarm_interrupt (pos delta) s).1 in
      is_due (after_ticks k s').alarm_time (after_ticks k s').current_time ≡ leb (delta / 50) k
schedule_alarm_interrupt-due delta k s = ground (
  arith,
  schedule_alarm_interrupt-clock delta s,
  after_ticks-clock k (schedule_alarm_interrupt (pos delta) s).1,
)

-- Each timer interrupt at which the scheduled alarm is due raises the flag of pending events.
pub schedule_alarm_interrupt-flagged :
    (delta k : ℕ) (s : State)
    → delta / 50 ≤ suc k
    → (after_ticks (suc k) (schedule_alarm_interrupt (pos delta) s).1).pending_events ≡ true
unfolding after_ticks when_alarm_interrupt
schedule_alarm_interrupt-flagged delta k s h = ground (
  arith,
  schedule_alarm_interrupt-clock delta s,
  after_ticks-clock k (schedule_alarm_interrupt (pos delta) s).1,
)

-- With an alarm set `n` polls ahead and a poll set, `schedule_alarm_interrupt` returns what was
-- left of the alarm in ticks of the clock, and the poll keeps its distance from the current time.
pub schedule_alarm_interrupt-remaining :
    (delta : ℤ) (n : ℕ) (s : State)
    → s.alarm_time ≡ pos (s.current_time + n)
    → s.poll_time ≢ minus_one
    → let (old, s') = schedule_alarm_interrupt delta s in
      (old ≡ pos (n * 50))
      × (s'.poll_time -ℤ pos s'.current_time ≡ s.poll_time -ℤ pos s.current_time)
unfolding schedule_alarm_interrupt
schedule_alarm_interrupt-remaining delta n s h set = (ground (arith, h), ground (arith, set))

poll_ports-off :
    (fuel : ℕ) (eintr : ℤ) (select : Select) (s : State)
    → s.poll_time ≡ minus_one
    → poll_ports fuel eintr select s ≡ some (go_on, s)
unfolding poll_ports
poll_ports-off fuel eintr select s e = ground arith

get_next_event-off :
    (fuel : ℕ) (eintr : ℤ) (select select' : Select) (s : State)
    → s.poll_time ≡ minus_one
    → get_next_event fuel eintr select s ≡ get_next_event fuel eintr select' s
unfolding get_next_event
get_next_event-off fuel eintr select select' s e =
    rw (poll_ports-off fuel eintr select s e, poll_ports-off fuel eintr select' s e)

schedule_alarm_interrupt-late :
    (delta : ℤ) (s : State) (p : ℕ)
    → s.poll_time ≡ pos p
    → s.current_time ≡ p + 1
    → (schedule_alarm_interrupt delta s).1.poll_time ≡ minus_one
unfolding schedule_alarm_interrupt
schedule_alarm_interrupt-late delta s p e h = ground arith

-- When a poll is overdue by one timer interrupt, `schedule_alarm_interrupt` moves its time to -1,
-- which means no polling: `get_next_event` then does not look at `select`, whatever ports are
-- pending.
pub schedule_alarm_interrupt-stops_polling :
    (delta : ℤ) (s : State) (p fuel : ℕ) (eintr : ℤ) (select select' : Select)
    → s.poll_time ≡ pos p
    → s.current_time ≡ p + 1
    → let s' = (schedule_alarm_interrupt delta s).1 in
      (s'.poll_time ≡ minus_one)
      × (get_next_event fuel eintr select s' ≡ get_next_event fuel eintr select' s')
schedule_alarm_interrupt-stops_polling delta s p fuel eintr select select' e h =
    let off = schedule_alarm_interrupt-late delta s p e h in
    (off, get_next_event-off fuel eintr select select' (schedule_alarm_interrupt delta s).1 off)
