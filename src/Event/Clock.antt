-- ===== src/Event/Clock.antt =====
-- The signal handlers of c/unix/event.c and `schedule_alarm_interrupt`. A C `long` that counts
-- ticks is an integer here: signed overflow is undefined in C, and is not modelled.
pub mod Schedule
use kali_scheme.Prelude.{ℕ, ◌+◌, Bool, true, false, ◌&&◌, ◌||◌, not, if◌then◌else◌}
use kali_scheme.Prelude.Int.{ℤ, pos, minus_one, ◌-ℤ◌, ◌*ℤ◌, quot, leb_ℤ, eqb_ℤ}
use kali_scheme.Event.State.{State, note_event}

-- `TICKS_PER_SECOND / POLLS_PER_SECOND` of c/event.h.
abbrev pub ticks_per_poll : ℕ
ticks_per_poll = 50

unfoldable pub when_keyboard_interrupt : State → State
when_keyboard_interrupt s =
    note_event (record s { keyboard_interrupt_count = s.keyboard_interrupt_count + 1 })

unfoldable pub when_sigpipe_interrupt : State → State
when_sigpipe_interrupt s = s

-- The test of `when_alarm_interrupt`: a time that is set and has come.
abbrev pub has_come : ℤ → ℕ → Bool
has_come t now = leb_ℤ (pos 0) t && leb_ℤ t (pos now)

unfoldable pub when_alarm_interrupt : State → State
when_alarm_interrupt s =
    let s' = record s { current_time = s.current_time + 1 } in
    if has_come s'.alarm_time s'.current_time || has_come s'.poll_time s'.current_time
    then note_event s'
    else s'

-- The time that was left of the alarm before.
abbrev pub remaining : State → ℤ
remaining s =
    if eqb_ℤ s.alarm_time minus_one
    then minus_one
    else (s.alarm_time -ℤ pos s.current_time) *ℤ ticks_per_poll

-- The times counted anew from now.
abbrev pub rebase : State → State
rebase s = record s {
  poll_time =
      if eqb_ℤ s.poll_time minus_one then s.poll_time else s.poll_time -ℤ pos s.current_time;
  current_time = 0;
}

unfoldable pub schedule_alarm_interrupt : ℤ → State → ℤ × State
schedule_alarm_interrupt delta s = (
  remaining s,
  if eqb_ℤ delta (pos 0)
      then record (note_event (rebase s)) { alarm_time = pos 0 }
      else record (rebase s) { alarm_time = quot delta ticks_per_poll },
)
