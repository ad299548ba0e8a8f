-- ===== src/Event/Ports.antt =====
-- The operations of c/unix/event.c on the table of ports: `add_fd`, `add_pending_fd`,
-- `remove_fd`, `next_ready_port` and `there_are_ready_ports`. A result `none` is a read through
-- NULL or of a freed struct, or fuel that ran out.
pub mod Valid
pub mod Pending
pub mod Pend
pub mod Drop
use kali_scheme.Prelude.{ℕ, ◌+◌, Bool, true, false, Option, none, some, if◌then◌else◌}
use kali_scheme.Prelude.Int.{ℤ, pos, minus_one, eqb_ℤ}
use kali_scheme.Event.Queue.{Ptr, ready, pending, first, next, Queues, write, rmque, addque, findrm}
use kali_scheme.Event.State.{
  Status, fd_quiescent, fd_ready, fd_pending, FdStruct, State, poll_interval, update, set_status,
  fd_index,
}

abbrev pub is_null : Option Ptr → Bool
is_null none = true
is_null (some p) = false

unfoldable pub there_are_ready_ports : State → Bool
there_are_ready_ports s = elim (s.queues.link (first ready)) [ none ↦ false | some p ↦ true ]

unfoldable pub next_ready_port : State → Option (ℕ × State)
unfolding rmque
next_ready_port s = elim (rmque (first ready) ready s.queues) [
  | none ↦ none
  | some (p, qs) ↦ elim (s.info p) [
    | none ↦ none
    | some d ↦ some (d.fd, set_status p d fd_quiescent (record s { queues = qs }))
  ]
]

-- `alloc` is what `malloc` returns.
unfoldable pub add_fd : Option Ptr → ℕ → Bool → State → Option Ptr × State
add_fd none fd is_input s = (none, s)
add_fd (some p) fd is_input s = (
  some p,
  record s {
    info = update s.info p (some (record { fd = fd; status = fd_quiescent; is_input = is_input }));
    queues = record { link = write s.queues.link (next p) none; lastp = s.queues.lastp };
    fds = update s.fds fd (some p);
  },
)

-- The end of `add_pending_fd`: the struct becomes pending.
unfoldable pub make_pending : Ptr → FdStruct → State → State
make_pending p d s = set_status p d fd_pending (record s {
  queues = addque p pending s.queues;
  poll_time =
      if eqb_ℤ s.poll_time minus_one then pos (s.current_time + poll_interval) else s.poll_time;
})

-- The branches of `add_pending_fd` on a struct that is in the table.
unfoldable pub pend_known : ℕ → Ptr → FdStruct → Status → State → Option (Bool × State)
unfolding findrm make_pending
pend_known fuel p d fd_pending s = some (true, s)
pend_known fuel p d fd_ready s = elim (findrm fuel p ready s.queues) [
  | none ↦ none
  | some qs ↦ some (true, make_pending p d (record s { queues = qs }))
]
pend_known fuel p d fd_quiescent s = some (true, make_pending p d s)

-- The branch for a port that is not in the table, after `add_fd`.
unfoldable pub pend_new : Option Ptr → State → Option (Bool × State)
unfolding make_pending
pend_new none s = some (false, s)
pend_new (some p) s = elim (s.info p) [ none ↦ none | some d ↦ some (true, make_pending p d s) ]

unfoldable pub pend_at : ℕ → Option Ptr → ℕ → Bool → State → Option (Bool × State)
unfolding add_fd pend_new pend_known
pend_at fuel alloc n is_input s = elim (s.fds n) [
  | none ↦ pend_new (add_fd alloc n is_input s).0 (add_fd alloc n is_input s).1
  | some p ↦ elim (s.info p) [ none ↦ none | some d ↦ pend_known fuel p d d.status s ]
]

unfoldable pub add_pending_fd : ℕ → ℕ → Option Ptr → ℤ → Bool → State → Option (Bool × State)
unfolding pend_at
add_pending_fd setsize fuel alloc fd is_input s = elim (fd_index setsize fd) [
  | none ↦ some (false, s)
  | some n ↦ pend_at fuel alloc n is_input s
]

-- `free` and the reset of the table's entry.
unfoldable pub release : ℕ → Ptr → State → State
release n p s = record s { info = update s.info p none; fds = update s.fds n none }

-- Where `remove_fd` takes the struct off its queue, and stops the polling when no port is pending.
unfoldable pub dequeue : ℕ → Ptr → Status → State → Option State
unfolding findrm
dequeue fuel p fd_pending s = elim (findrm fuel p pending s.queues) [
  | none ↦ none
  | some qs ↦ some (record s {
    queues = qs;
    poll_time = if is_null (qs.link (first pending)) then minus_one else s.poll_time;
  })
]
dequeue fuel p fd_ready s = elim (findrm fuel p ready s.queues) [
  | none ↦ none
  | some qs ↦ some (record s { queues = qs })
]
dequeue fuel p fd_quiescent s = some s

unfoldable pub remove_at : ℕ → ℕ → State → Option (Bool × State)
unfolding dequeue release
remove_at fuel n s = elim (s.fds n) [
  | none ↦ some (false, s)
  | some p ↦ elim (s.info p) [
    | none ↦ none
    | some d ↦ elim (dequeue fuel p d.status s) [
      | none ↦ none
      | some s' ↦ some (true, release n p s')
    ]
  ]
]

unfoldable pub remove_fd : ℕ → ℕ → ℤ → State → Option (Bool × State)
unfolding remove_at
remove_fd setsize fuel fd s = elim (fd_index setsize fd) [
  | none ↦ some (false, s)
  | some n ↦ remove_at fuel n s
]
