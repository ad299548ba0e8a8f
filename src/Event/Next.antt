-- ===== src/Event/Next.antt =====
-- `get_next_event` and `wait_for_event` of c/unix/event.c. A signal handler runs between two
-- calls; what one does in the midst of a call is not modelled. `eintr` is the platform's EINTR.
pub mod Due
pub mod Order
pub mod Wait
pub mod Rearm
use kali_scheme.Prelude.{
  ℕ, ◌+◌, ◌-◌, Bool, true, false, ◌&&◌, ◌||◌, not, Option, none, some, ltb, ◌==◌, if◌then◌else◌,
}
use kali_scheme.Prelude.Int.{ℤ, pos, minus_one, ◌*ℤ◌, ◌-ℤ◌, quot, leb_ℤ, ltb_ℤ, eqb_ℤ}
use kali_scheme.Event.State.{State, poll_interval, note_event}
use kali_scheme.Event.Ports.{there_are_ready_ports, next_ready_port}
use kali_scheme.Event.Poll.{Select, no_errors, ticks_per_second, queue_ready_ports}

-- The code that `get_next_event` returns, with what it stores through `ready_fd` and `status`.
pub data Event : Type 0 where
  keyboard_interrupt : Event
  io_completion : ℕ → ℤ → Event
  alarm : Event
  error : ℤ → Event
  no_event : Event

-- A time that is not -1 and has come.
abbrev pub is_due : ℤ → ℕ → Bool
is_due t now = not (eqb_ℤ t minus_one) && leb_ℤ t (pos now)

-- What is left to do after the poll: go on, or return the error.
pub data Outcome : Type 0 where
  go_on : Outcome
  fail : ℤ → Outcome

unfoldable pub poll_ports : ℕ → ℤ → Select → State → Option (Outcome × State)
poll_ports fuel eintr select s =
    if is_due s.poll_time s.current_time
    then (elim (queue_ready_ports fuel select false (pos 0) (pos 0) s) [
      | none ↦ none
      | some (r, s') ↦
          if eqb_ℤ r no_errors
          then some (go_on, record s' { poll_time = pos (s'.current_time + poll_interval) })
          else if eqb_ℤ r eintr
          then some (go_on, s')
          else some (fail r, s')
    ])
    else some (go_on, s)

-- The flag is cleared when nothing has come meanwhile.
unfoldable pub clear_pending : State → State
clear_pending s =
    if s.keyboard_interrupt_count == 0
      && not (is_due s.alarm_time s.current_time)
      && not (is_due s.poll_time s.current_time)
    then record s { pending_events = false }
    else s

unfoldable pub after_poll : State → Option (Event × State)
after_poll s =
    if there_are_ready_ports s
    then (elim (next_ready_port s) [
      | none ↦ none
      | some (fd, s') ↦ some (io_completion fd (pos 0), s')
    ])
    else if is_due s.alarm_time s.current_time
    then some (alarm, record s { alarm_time = minus_one })
    else some (no_event, clear_pending s)

unfoldable pub get_next_event : ℕ → ℤ → Select → State → Option (Event × State)
get_next_event fuel eintr select s =
    if ltb 0 s.keyboard_interrupt_count
    then some
        (keyboard_interrupt, record s { keyboard_interrupt_count = s.keyboard_interrupt_count - 1 })
    else (elim (poll_ports fuel eintr select s) [
      | none ↦ none
      | some (fail r, s') ↦ some (error r, s')
      | some (go_on, s') ↦ after_poll s'
    ])

-- The seconds and ticks that `wait_for_event` passes on; C's `%` takes the sign of its left side.
unfoldable pub wait_time : ℤ → Bool → ℤ × ℤ
wait_time max_wait is_minutes =
    if eqb_ℤ max_wait minus_one
    then (minus_one, pos 0)
    else if is_minutes
    then (max_wait *ℤ 60, pos 0)
    else (
      quot max_wait ticks_per_second,
      max_wait -ℤ (quot max_wait ticks_per_second *ℤ ticks_per_second),
    )

-- The alarm timer, which is stopped at the start and started at the end, is the system's.
unfoldable pub wait_for_event : ℕ → Select → ℤ → Bool → State → Option (ℤ × State)
wait_for_event fuel select max_wait is_minutes s =
    if ltb 0 s.keyboard_interrupt_count
    then some (no_errors, s)
    else (elim (queue_ready_ports fuel select true (wait_time max_wait is_minutes).0
        (wait_time max_wait is_minutes).1 s) [
          | none ↦ none
          | some (r, s') ↦ some (r, if there_are_ready_ports s' then note_event s' else s')
        ])
