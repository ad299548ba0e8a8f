-- ===== src/Event/Poll.antt =====
-- `queue_ready_ports` of c/unix/event.c. `select` is the system's: a parameter, from the sets and
-- the timeout that it is given to what it leaves. A result `none` is a read through NULL or of a
-- freed struct, or fuel that ran out.
pub mod Collect
pub mod Scan
pub mod Move
use kali_scheme.Prelude.{
  ℕ, zero, suc, ◌+◌, Bool, true, false, ◌||◌, ◌&&◌, not, Option, none, some, ◌==◌, leb,
  if◌then◌else◌,
}
use kali_scheme.Prelude.Int.{ℤ, pos, negsuc, minus_one, eqb_ℤ, ◌*ℤ◌}
use kali_scheme.Event.Queue.{ready, pending, Link, first, next, rmque, addque}
use kali_scheme.Event.State.{fd_ready, FdStruct, State, set_status}
use kali_scheme.Event.Ports.{is_null}

abbrev pub FdSet : Type 0
FdSet = ℕ → Bool

-- The arguments of `select`.
pub record FdSets : Type 0 where
  pub reads : FdSet
  pub writes : FdSet
  pub alls : FdSet
  pub limfd : ℕ

-- What `select` returns and leaves in the sets, with `errno`.
pub record Selected : Type 0 where
  pub left : ℤ
  pub errno : ℤ
  pub reads : FdSet
  pub writes : FdSet
  pub alls : FdSet

-- The timeout in seconds and microseconds; `none` is the NULL that waits for ever.
abbrev pub Timeout : Type 0
Timeout = Option (ℤ × ℤ)

abbrev pub Select : Type 0
Select = FdSets → Timeout → Selected

abbrev pub no_errors : ℤ
no_errors = pos 0

abbrev pub empty_sets : FdSets
empty_sets = record { reads = λ n. false; writes = λ n. false; alls = λ n. false; limfd = 0 }

-- `FD_SET`, if the flag says so.
abbrev pub fd_set : Bool → FdSet → ℕ → FdSet
fd_set on f k n = f n || (on && n == k)

abbrev pub add_to_sets : FdStruct → FdSets → FdSets
add_to_sets d t = record {
  reads = fd_set d.is_input t.reads d.fd;
  writes = fd_set (not d.is_input) t.writes d.fd;
  alls = fd_set true t.alls d.fd;
  limfd = if leb t.limfd d.fd then d.fd + 1 else t.limfd;
}

-- The `for` loop over the pending ports, from a link on.
unfoldable pub collect : ℕ → Link → FdSets → State → Option FdSets
collect zero l t s = none
collect (suc k) l t s = elim (s.queues.link l) [
  | none ↦ some t
  | some p ↦ elim (s.info p) [ none ↦ none | some d ↦ collect k (next p) (add_to_sets d t) s ]
]

abbrev pub ticks_per_second : ℕ
ticks_per_second = 1000

unfoldable pub poll_timeout : Bool → ℤ → ℤ → Timeout
poll_timeout wait seconds ticks =
    if wait
    then (if eqb_ℤ seconds minus_one then none else some (seconds, ticks *ℤ 1000))
    else some (pos 0, pos 0)

-- Whether `select` left a bit for the port.
abbrev pub is_set : Selected → FdStruct → Bool
is_set sel d = sel.alls d.fd || (if d.is_input then sel.reads d.fd else sel.writes d.fd)

-- The `while` loop, from a link on with `left` bits to account for.
unfoldable pub scan : ℕ → Link → ℕ → Selected → State → Option State
unfolding rmque
scan zero l zero sel s = some s
scan zero l (suc left) sel s = none
scan (suc k) l zero sel s = some s
scan (suc k) l (suc left) sel s = elim (s.queues.link l) [
  | none ↦ some s
  | some p ↦ elim (s.info p) [
    | none ↦ none
    | some d ↦ elim (is_set sel d) [
      | true ↦ elim (rmque l pending s.queues) [
        | none ↦ none
        | some (res, qs) ↦
            scan k l left sel (set_status p d fd_ready (record s { queues = addque p ready qs }))
      ]
      | false ↦ scan k (next p) (suc left) sel s
    ]
  ]
]

-- After the loop: no polling when no port is pending.
unfoldable pub stop_polling : State → State
stop_polling s =
    if is_null (s.queues.link (first pending)) then record s { poll_time = minus_one } else s

-- What follows the call of `select`: the status code, and the new state.
unfoldable pub after_select : ℕ → Selected → ℤ → State → Option (ℤ × State)
unfolding scan stop_polling
after_select fuel sel (negsuc n) s = some (sel.errno, s)
after_select fuel sel (pos zero) s = some (no_errors, s)
after_select fuel sel (pos (suc n)) s = elim (scan fuel (first pending) (suc n) sel s) [
  | none ↦ none
  | some s' ↦ some (no_errors, stop_polling s')
]

unfoldable pub queue_ready_ports : ℕ → Select → Bool → ℤ → ℤ → State → Option (ℤ × State)
unfolding collect poll_timeout after_select
queue_ready_ports fuel select wait seconds ticks s =
    if not wait && is_null (s.queues.link (first pending))
    then some (no_errors, s)
    else (elim (collect fuel (first pending) empty_sets s) [
      | none ↦ none
      | some t ↦
          let sel = select t (poll_timeout wait seconds ticks) in after_select fuel sel sel.left s
    ])
