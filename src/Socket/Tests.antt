-- ===== src/Socket/Tests.antt =====
-- Examples for the model of c/unix/socket.c.
use kali_scheme.Prelude.{◌≡◌, refl, false, none, some, [], ◌∷◌, arith}
use kali_scheme.Prelude.Int.{ℤ, pos}
use kali_scheme.Event.Queue.Lists.{Contents}
use kali_scheme.Event.State.{State, initial}
use kali_scheme.Event.Ports.Valid.{initial-IsValid}
use kali_scheme.Socket.{Errors, Host, failed, socket_connect}
use kali_scheme.Socket.Suspend.{Suspends, socket_connect-Suspends}

abbrev platform : Errors
platform = record {
  setsize = 64;
  ewouldblock = pos 11;
  eintr = pos 4;
  eagain = pos 11;
  einprogress = pos 115;
  ealready = pos 114;
  eisconn = pos 106;
}

abbrev no_ports : Contents
no_ports q = []

abbrev loopback : Host
loopback = record { addrtype = 2; length = 4; addr = 127 ∷ 0 ∷ 0 ∷ 1 ∷ [] }

socket_connect-Suspends_example :
    (r : ℤ) × (s' : State) × (socket_connect platform 9
        (some 7)
        (λ n. n)
        none
        (λ name. some loopback)
        (λ host port. failed (pos 115))
        (pos 3)
        (b'a' ∷ [])
        80
        initial
      ≡ some (r, s'))
    × Suspends 64 3 false no_ports initial r s'
socket_connect-Suspends_example =
    socket_connect-Suspends platform (initial-IsValid 64) 9 3 7 (omega arith) (omega arith) refl
      (λ n. n) none (λ name. some loopback) (λ host port. failed (pos 115)) (b'a' ∷ []) 80
