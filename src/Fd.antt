-- ===== src/Fd.antt =====
-- c/unix/fd-io.c: input and output on file descriptors, which wait by way of the table of ports.
-- What the system calls answer is a list with an entry for each call; a result `none` is a list
-- that ended before the loop of retries did, or a failure of the table's operations.
pub mod Table
mod Tests
use kali_scheme.Prelude.{
  ℕ, zero, suc, Bool, true, false, ◌||◌, Option, none, some, List, [], ◌∷◌, if◌then◌else◌,
}
use kali_scheme.Prelude.Int.{ℤ, pos, minus_one, eqb_ℤ}
use kali_scheme.Event.Queue.{Ptr}
use kali_scheme.Event.State.{State}
use kali_scheme.Event.Ports.{add_pending_fd, remove_fd}

-- What the platform's headers define.
pub record Platform : Type 0 where
  pub setsize : ℕ
  pub eintr : ℤ
  pub eagain : ℤ
  pub enomem : ℤ

-- `open`: a descriptor, or -1 with `errno`.
pub data Opened : Type 0 where
  opened : ℕ → Opened
  open_failed : ℤ → Opened

-- The loop of `ps_open_fd`: the descriptor and the status.
unfoldable pub open_loop : Platform → List Opened → Option (ℤ × ℤ)
open_loop h [] = none
open_loop h (opened fd ∷ rest) = some (pos fd, pos 0)
open_loop h (open_failed e ∷ rest) =
    if eqb_ℤ e h.eintr then open_loop h rest else some (minus_one, e)

-- `expanded` is what `expand_file_name` returns, and `status` what `*status` held before.
unfoldable pub ps_open_fd :
    {A : Type 0} → Platform → Option A → ℤ → (A → List Opened) → Option (ℤ × ℤ)
unfolding open_loop
ps_open_fd h none status answers = some (minus_one, status)
ps_open_fd h (some name) status answers = open_loop h (answers name)

-- `answers` are those of `close`: `none` is success, and otherwise there is `errno`.
unfoldable pub ps_close_fd : Platform → ℕ → ℤ → List (Option ℤ) → State → Option (ℤ × State)
ps_close_fd h fuel fd [] s = none
ps_close_fd h fuel fd (none ∷ rest) s = elim (remove_fd h.setsize fuel fd s) [
  | none ↦ none
  | some (found, s') ↦ some (pos 0, s')
]
ps_close_fd h fuel fd (some e ∷ rest) s =
    if eqb_ℤ e h.eintr then ps_close_fd h fuel fd rest s else some (e, s)

-- What `read` returned: a count above 0, 0, or -1 with `errno`.
pub data Read : Type 0 where
  got : ℕ → Read
  end_of_file : Read
  read_failed : ℤ → Read

-- What a round's `select` returned: 0, -1 with `errno`, or a descriptor to `read` from.
pub data Selection : Type 0 where
  not_ready : Selection
  select_failed : ℤ → Selection
  waiting : Read → Selection

-- What `ps_read_fd` returns, and what it stores through its pointers.
pub record Transfer : Type 0 where
  pub count : ℕ
  pub eofp : Bool
  pub pending : Bool
  pub status : ℤ

abbrev pub transfer : ℕ → Bool → Bool → ℤ → Transfer
transfer n e p st = record { count = n; eofp = e; pending = p; status = st }

-- The port is added to the pending ones, unless there is no room for it.
unfoldable pub suspend : Platform → ℕ → Option Ptr → ℤ → Bool → State → Option (Transfer × State)
suspend h fuel alloc fd is_input s = elim (add_pending_fd h.setsize fuel alloc fd is_input s) [
  | none ↦ none
  | some (added, s') ↦
      some (if added then transfer 0 false true (pos 0) else transfer 0 false false h.enomem, s')
]

unfoldable pub wait_to_read :
    Platform → ℕ → Option Ptr → ℤ → Bool → State → Option (Transfer × State)
unfolding suspend
wait_to_read h fuel alloc fd waitp s =
    if waitp then suspend h fuel alloc fd true s else some (transfer 0 false false (pos 0), s)

unfoldable pub after_read :
    Platform → ℕ → Option Ptr → ℤ → Bool → Read → State → Option (Transfer × State)
unfolding wait_to_read
after_read h fuel alloc fd waitp (got n) s = some (transfer n false false (pos 0), s)
after_read h fuel alloc fd waitp end_of_file s = some (transfer 0 true false (pos 0), s)
after_read h fuel alloc fd waitp (read_failed e) s =
    if eqb_ℤ e h.eintr
    then some (transfer 0 false false (pos 0), s)
    else (if eqb_ℤ e h.eagain
        then wait_to_read h fuel alloc fd waitp s
        else some (transfer 0 false false e, s))

unfoldable pub ps_read_fd :
    Platform → ℕ → Option Ptr → ℤ → Bool → List Selection → State → Option (Transfer × State)
unfolding after_read wait_to_read
ps_read_fd h fuel alloc fd waitp [] s = none
ps_read_fd h fuel alloc fd waitp (not_ready ∷ rest) s = wait_to_read h fuel alloc fd waitp s
ps_read_fd h fuel alloc fd waitp (select_failed e ∷ rest) s =
    if eqb_ℤ e h.eintr
    then ps_read_fd h fuel alloc fd waitp rest s
    else some (transfer 0 false false e, s)
ps_read_fd h fuel alloc fd waitp (waiting r ∷ rest) s = after_read h fuel alloc fd waitp r s

-- What `write` returned, with the `errno` there is after it.
pub record Sent : Type 0 where
  pub sent : ℤ
  pub errno : ℤ

abbrev pub positive : ℤ → Option ℕ
positive (pos zero) = none
positive (pos (suc n)) = some (suc n)
positive n = none

unfoldable pub ps_write_fd :
    Platform → ℕ → Option Ptr → ℤ → Sent → State → Option (Transfer × State)
unfolding suspend
ps_write_fd h fuel alloc fd w s = elim (positive w.sent) [
  | some n ↦ some (transfer n false false (pos 0), s)
  | none ↦
      if eqb_ℤ w.errno h.eintr || eqb_ℤ w.errno h.eagain
      then suspend h fuel alloc fd false s
      else some (transfer 0 false false w.errno, s)
]

-- Whether `remove_fd` found an operation, which the source only prints, and the state.
unfoldable pub ps_abort_fd_op : Platform → ℕ → ℤ → State → Option (Bool × State)
ps_abort_fd_op h fuel fd s = remove_fd h.setsize fuel fd s
