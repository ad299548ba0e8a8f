-- ===== src/Socket/Suspend.antt =====
-- What the operations of c/unix/socket.c do to the table of ports.
use kali_scheme.Prelude.{
  ℕ, ◌<◌, ◌≡◌, ◌≢◌, refl, Bool, true, false, inl, inr, Option, none, some, List, [], ◌∷◌, arith,
  length, ltb, Bool-cases, Option-cases,
}
use kali_scheme.Prelude.Int.{ℤ, pos, minus_one, eqb_ℤ}
use kali_scheme.Event.Queue.{ready}
use kali_scheme.Event.Queue.Lists.{Contents}
use kali_scheme.Event.State.{State}
use kali_scheme.Event.Ports.Valid.{IsValid}
use kali_scheme.Event.Ports.Pending.{Pended}
use kali_scheme.Event.Ports.Pend.{add_pending_fd-Pended}
use kali_scheme.Socket.{
  Answer, answered, failed, Errors, minus_two, suspend_socket, accept_blocked, socket_accept, Host,
  after_connect, connect_to, socket_connect,
}

-- The result -2 stands for a socket that is pending, in the direction of the call if the table had no
-- struct for it, and otherwise in the direction that its struct already had; with any other result
-- the table is unchanged.
pub data Suspends (setsize n : ℕ) (is_input : Bool) (c : Contents) (s : State)
    : ℤ → State → Type 0 where
  suspended :
      (c' : Contents) (s' : State)
      → Pended setsize n is_input c c' s s'
      → Suspends setsize n is_input c s minus_two s'
  settled : (r : ℤ) → r ≢ minus_two → Suspends setsize n is_input c s r s

pos-ne : (n : ℕ) → pos n ≢ minus_two
pos-ne n e = cc

minus_one-ne : minus_one ≢ minus_two
minus_one-ne e = ground (arith, e)

module _ (h : Errors) {c : Contents} {s : State} (v : IsValid h.setsize c s) (fuel n fresh : ℕ)
    (low : n < h.setsize) (more : length (c ready) < fuel) (unused : s.info fresh ≡ none) where
  suspend_socket-Suspends :
      (is_input blocked : Bool)
      → (r : ℤ) × (s' : State) × (suspend_socket h fuel (some fresh) (pos n) is_input blocked s
          ≡ some (r, s'))
        × Suspends h.setsize n is_input c s r s'
  unfolding suspend_socket
  suspend_socket-Suspends is_input true =
      let (s', run, (c', done)) = add_pending_fd-Pended v fuel n fresh is_input low more unused in
      (minus_two, s', rw (run, suspend_socket), suspended c' s' done)
  suspend_socket-Suspends is_input false = (minus_one, s, refl, settled minus_one minus_one-ne)

  -- `socket_accept` on a valid table and a socket below `FD_SETSIZE`, when `malloc` returns an
  -- unused address and the fuel exceeds the ready queue, returns; it returns -2 only when the
  -- socket is pending, for input if the table had no struct for it, and otherwise in the direction of
  -- that struct, and with another result it leaves the table as it was.
  pub socket_accept-Suspends :
      (accept : Answer)
      → (r : ℤ) × (s' : State) × (socket_accept h fuel (some fresh) accept (pos n) s ≡ some (r, s'))
        × Suspends h.setsize n true c s r s'
  unfolding socket_accept
  socket_accept-Suspends (answered fd) = (pos fd, s, refl, settled (pos fd) (pos-ne fd))
  socket_accept-Suspends (failed e) = suspend_socket-Suspends true (accept_blocked h e)

  after_connect-Suspends :
      (a : Answer)
      → (r : ℤ) × (s' : State) × (after_connect h fuel (some fresh) a (pos n) s ≡ some (r, s'))
        × Suspends h.setsize n false c s r s'
  unfolding after_connect
  after_connect-Suspends (answered ok) = (pos n, s, refl, settled (pos n) (pos-ne n))
  after_connect-Suspends (failed e) = elim (Bool-cases (eqb_ℤ e h.eisconn)) [
    | inl done ↦ (pos n, s, rw done, settled (pos n) (pos-ne n))
    | inr apart ↦ rw apart (suspend_socket-Suspends false _)
  ]

  connect_to-Suspends :
      (gethostbyname : List ℕ → Option Host) (connect : Host → Answer) (mach : List ℕ)
      → (r : ℤ) × (s' : State) × (connect_to h fuel
            (some fresh)
            gethostbyname
            connect
            (pos n)
            mach
            s
          ≡ some (r, s'))
        × Suspends h.setsize n false c s r s'
  unfolding connect_to
  connect_to-Suspends gethostbyname connect mach = elim (Option-cases (gethostbyname mach)) [
    | inl unknown ↦ (minus_one, s, rw (unknown, connect_to), settled minus_one minus_one-ne)
    | inr (host, known) ↦ elim (Bool-cases (ltb 4 host.length)) [
      | inl long ↦ (minus_one, s, rw (known, connect_to, long), settled minus_one minus_one-ne)
      | inr short ↦
          let (r, s', run, done) = after_connect-Suspends (connect host) in
          (r, s', rw (known, connect_to, short) run, done)
    ]
  ]

  -- `socket_connect` on a valid table and a socket below `FD_SETSIZE`, when `malloc` returns an
  -- unused address and the fuel exceeds the ready queue, returns; it returns -2 only when the
  -- socket is pending, for output if the table had no struct for it, and otherwise in the direction of
  -- that struct, and with another result it leaves the table as it was.
  pub socket_connect-Suspends :
      (htons : ℕ → ℕ) (gethostname : Option (List ℕ)) (gethostbyname : List ℕ → Option Host)
      (connect : Host → ℕ → Answer) (mach : List ℕ) (port : ℕ)
      → (r : ℤ) × (s' : State) × (socket_connect h fuel
            (some fresh)
            htons
            gethostname
            gethostbyname
            connect
            (pos n)
            mach
            port
            s
          ≡ some (r, s'))
        × Suspends h.setsize n false c s r s'
  unfolding socket_connect
  socket_connect-Suspends htons none gethostbyname connect [] port =
      (minus_one, s, refl, settled minus_one minus_one-ne)
  socket_connect-Suspends htons (some name) gethostbyname connect [] port =
      connect_to-Suspends gethostbyname (λ host. connect host (htons port)) name
  socket_connect-Suspends htons gethostname gethostbyname connect (x ∷ mach) port =
      connect_to-Suspends gethostbyname (λ host. connect host (htons port)) (x ∷ mach)
