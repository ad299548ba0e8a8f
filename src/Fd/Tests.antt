-- ===== src/Fd/Tests.antt =====
-- Examples for the model of c/unix/fd-io.c.
use kali_scheme.Prelude.{◌≡◌, refl, true, inr, some, [], ◌∷◌, arith}
use kali_scheme.Prelude.Int.{pos}
use kali_scheme.Event.Queue.{pending}
use kali_scheme.Event.Queue.Lists.{Contents, set_list}
use kali_scheme.Event.State.{fd_quiescent, FdStruct, State, initial}
use kali_scheme.Event.Ports.{add_fd, make_pending}
use kali_scheme.Event.Ports.Valid.{IsValid, initial-IsValid, add_fd-IsValid}
use kali_scheme.Event.Ports.Pending.{make_pending-IsValid}
use kali_scheme.Fd.{Platform, not_ready, select_failed, Transfer, ps_read_fd}
use kali_scheme.Fd.Table.{Waits, ps_read_fd-Waits}

abbrev platform : Platform
platform = record { setsize = 64; eintr = pos 4; eagain = pos 11; enomem = pos 12 }

abbrev no_ports : Contents
no_ports q = []

abbrev one_port : Contents
one_port = set_list no_ports pending (7 ∷ [])

abbrev input_port : FdStruct
input_port = record { fd = 3; status = fd_quiescent; is_input = true }

abbrev waiting_port : State
waiting_port = make_pending 7 input_port (add_fd (some 7) 3 true initial).1

waiting_port-IsValid : IsValid 64 one_port waiting_port
unfolding add_fd
waiting_port-IsValid =
    make_pending-IsValid (add_fd-IsValid (initial-IsValid 64) 7 3 true (omega arith) refl refl) 7
      input_port refl (λ q. refl)

ps_read_fd-Waits_example :
    (r : Transfer) × (s' : State) × (ps_read_fd platform 9
        (some 7)
        (pos 3)
        true
        (select_failed (pos 4) ∷ not_ready ∷ [])
        initial
      ≡ some (r, s'))
    × Waits 64 3 true no_ports initial r s'
ps_read_fd-Waits_example =
    ps_read_fd-Waits platform (initial-IsValid 64) 9 3 7 (omega arith) (omega arith) refl true
      (select_failed (pos 4) ∷ not_ready ∷ []) (inr tt)
