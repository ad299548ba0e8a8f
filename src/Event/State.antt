-- ===== src/Event/State.antt =====
-- The static variables of c/unix/event.c, with the structs that `malloc` returned.
-- `FD_SETSIZE` is a constant of the platform and `fuel` bounds the walks along a queue; the
-- operations take both as arguments.
use kali_scheme.Prelude.{ℕ, ◌≡◌, Bool, true, false, Option, none, some, ◌==◌, ltb, if◌then◌else◌}
use kali_scheme.Prelude.Int.{ℤ, pos, negsuc, minus_one}
use kali_scheme.Event.Queue.{Ptr, first, Queues}

-- `FD_QUIESCENT`, `FD_READY` and `FD_PENDING`.
pub data Status : Type 0 where
  fd_quiescent fd_ready fd_pending : Status

-- A `fd_struct` but for its `next`, which is a link of the queues.
pub record FdStruct : Type 0 where
  pub fd : ℕ
  pub status : Status
  pub is_input : Bool

-- Times are in ticks since the last `schedule_alarm_interrupt`. `current_time` and the count of
-- keyboard interrupts start at 0, and are lowered only to 0 or when positive.
pub record State : Type 0 where
  pub keyboard_interrupt_count : ℕ
  pub current_time : ℕ
  pub alarm_time : ℤ
  pub poll_time : ℤ
  pub pending_events : Bool
  pub pending_interrupt : Bool
  pub queues : Queues
  pub fds : ℕ → Option Ptr
  pub info : Ptr → Option FdStruct

abbrev pub poll_interval : ℕ
poll_interval = 5

-- The initial values of the variables.
abbrev pub initial : State
initial = record {
  keyboard_interrupt_count = 0;
  current_time = 0;
  alarm_time = minus_one;
  poll_time = minus_one;
  pending_events = false;
  pending_interrupt = false;
  queues = record { link = λ l. none; lastp = λ q. first q };
  fds = λ n. none;
  info = λ p. none;
}

-- The macro `NOTE_EVENT`.
abbrev pub note_event : State → State
note_event s = record s { pending_events = true; pending_interrupt = true }

abbrev pub update {ℓ} : {A : Type ℓ} → (ℕ → A) → ℕ → A → ℕ → A
update f k v n = if n == k then v else f n

-- The assignment to the `status` of a struct that is there.
abbrev pub set_status : Ptr → FdStruct → Status → State → State
set_status p d st s = record s { info = update s.info p (some (record d { status = st })) }

-- An `int` as an index of `fds`, if it is one.
abbrev pub fd_index : ℕ → ℤ → Option ℕ
fd_index setsize (pos n) = if ltb n setsize then some n else none
fd_index setsize (negsuc n) = none

-- The operations on the queues leave these alone.
pub record SameClock (s s' : State) : Type 0 where
  pub interrupts : s'.keyboard_interrupt_count ≡ s.keyboard_interrupt_count
  pub now : s'.current_time ≡ s.current_time
  pub alarm : s'.alarm_time ≡ s.alarm_time
  pub events : s'.pending_events ≡ s.pending_events
