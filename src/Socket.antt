-- ===== src/Socket.antt =====
-- c/unix/socket.c: sockets, which wait for a client or a server by way of the table of ports. What
-- the system calls do and answer is an argument. A result `none` is a failure of the table's
-- operations.
pub mod Suspend
mod Tests
use kali_scheme.Prelude.{
  ℕ, Bool, true, false, ◌||◌, not, Option, none, some, List, [], ◌∷◌, ltb, ◌==◌, if◌then◌else◌,
}
use kali_scheme.Prelude.Int.{ℤ, pos, negsuc, minus_one, eqb_ℤ}
use kali_scheme.Event.Queue.{Ptr}
use kali_scheme.Event.State.{State}
use kali_scheme.Event.Ports.{add_pending_fd}

-- A small non-negative integer, or -1 with `errno`.
pub data Answer : Type 0 where
  answered : ℕ → Answer
  failed : ℤ → Answer

-- What the platform's headers define.
pub record Errors : Type 0 where
  pub setsize : ℕ
  pub ewouldblock : ℤ
  pub eintr : ℤ
  pub eagain : ℤ
  pub einprogress : ℤ
  pub ealready : ℤ
  pub eisconn : ℤ

unfoldable pub internet_stream_socket : Answer → ℤ
internet_stream_socket (answered fd) = pos fd
internet_stream_socket (failed e) = minus_one

-- `bind` gets the port in network order; `getsockname` gives whether the address is of the
-- internet family, and its port in network order.
unfoldable pub socket_bind :
    (htons : ℕ → ℕ) (bind : ℕ → Bool) (listen : Bool) (getsockname : Option (Bool × ℕ)) → ℕ → ℤ
socket_bind htons bind listen getsockname port =
    if not (bind (htons port)) || not listen
    then minus_one
    else (if port == 0
        then (elim getsockname [
          | none ↦ minus_one
          | some (internet, found) ↦ if internet then pos (htons found) else minus_one
        ])
        else pos port)

abbrev pub minus_two : ℤ
minus_two = negsuc 1

-- The end of `socket_accept` and `socket_connect`: wait, if the failure says so.
unfoldable pub suspend_socket :
    Errors → ℕ → Option Ptr → ℤ → Bool → Bool → State → Option (ℤ × State)
suspend_socket h fuel alloc sock is_input blocked s =
    if blocked
    then (elim (add_pending_fd h.setsize fuel alloc sock is_input s) [
      | none ↦ none
      | some (added, s') ↦ some (if added then minus_two else minus_one, s')
    ])
    else some (minus_one, s)

abbrev pub accept_blocked : Errors → ℤ → Bool
accept_blocked h e = eqb_ℤ e h.ewouldblock || eqb_ℤ e h.eintr || eqb_ℤ e h.eagain

unfoldable pub socket_accept :
    Errors → ℕ → Option Ptr → (accept : Answer) → ℤ → State → Option (ℤ × State)
unfolding suspend_socket
socket_accept h fuel alloc (answered fd) sock s = some (pos fd, s)
socket_accept h fuel alloc (failed e) sock s =
    suspend_socket h fuel alloc sock true (accept_blocked h e) s

abbrev pub connect_blocked : Errors → ℤ → Bool
connect_blocked h e =
    eqb_ℤ e h.ewouldblock
    || eqb_ℤ e h.eintr
    || eqb_ℤ e h.einprogress
    || eqb_ℤ e h.ealready
    || eqb_ℤ e h.eagain

-- What `gethostbyname` gives: `h_addrtype`, `h_length` and `h_addr`.
pub record Host : Type 0 where
  pub addrtype : ℕ
  pub length : ℕ
  pub addr : List ℕ

-- After the call of `connect`.
unfoldable pub after_connect : Errors → ℕ → Option Ptr → Answer → ℤ → State → Option (ℤ × State)
unfolding suspend_socket
after_connect h fuel alloc (answered ok) sock s = some (sock, s)
after_connect h fuel alloc (failed e) sock s =
    if eqb_ℤ e h.eisconn
    then some (sock, s)
    else suspend_socket h fuel alloc sock false (connect_blocked h e) s

unfoldable pub connect_to :
    Errors
    → ℕ
    → Option Ptr
    → (gethostbyname : List ℕ → Option Host) → (Host → Answer)
    → ℤ
    → List ℕ
    → State
    → Option (ℤ × State)
unfolding after_connect
connect_to h fuel alloc gethostbyname connect sock mach s = elim (gethostbyname mach) [
  | none ↦ some (minus_one, s)
  | some host ↦
      if ltb 4 host.length
      then some (minus_one, s)
      else after_connect h fuel alloc (connect host) sock s
]

-- `connect` is told the address and the port in network order.
unfoldable pub socket_connect :
    Errors
    → ℕ
    → Option Ptr
    → (htons : ℕ → ℕ) (gethostname : Option (List ℕ)) (gethostbyname : List ℕ → Option Host)
      (connect : Host → ℕ → Answer)
    → ℤ
    → List ℕ
    → ℕ
    → State
    → Option (ℤ × State)
unfolding connect_to
socket_connect h fuel alloc htons gethostname gethostbyname connect sock [] port s =
    elim gethostname [
      | none ↦ some (minus_one, s)
      | some name ↦
          connect_to h fuel alloc gethostbyname (λ host. connect host (htons port)) sock name s
    ]
socket_connect h fuel alloc htons gethostname gethostbyname connect sock (c ∷ mach) port s =
    connect_to h fuel alloc gethostbyname (λ host. connect host (htons port)) sock (c ∷ mach) s

unfoldable pub socket_nodelay : (setsockopt : ℤ → ℤ → ℤ) → ℤ → ℤ → Bool
socket_nodelay setsockopt sock nodelay =
    eqb_ℤ (setsockopt sock (if eqb_ℤ nodelay (pos 0) then pos 0 else pos 1)) (pos 0)
