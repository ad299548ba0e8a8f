-- ===== src/Io/Tests.antt =====
-- Examples for the model of c/unix/io.c, with streams that are interrupted.
use kali_scheme.Prelude.{◌+◌, ◌≡◌, refl, false, none, some, [], ◌∷◌, arith}
use kali_scheme.Prelude.Int.{ℤ, pos, negsuc}
use kali_scheme.Fd.{Platform}
use kali_scheme.Io.Stdio.{byte, failure, InPort, OutPort, putc, clear_out}
use kali_scheme.Io.Reader.{reading, ps_read_integer}
use kali_scheme.Io.Writer.{write_char, write_integer, ps_write_integer}
use kali_scheme.Io.Read.{bytes}
use kali_scheme.Io.RoundTrip.{ReadInteger, ps_read_integer-ps_write_integer}
use kali_scheme.Io.Block.{store, ps_read_block, ps_write_block}
use kali_scheme.Io.Block.Restart.{ps_read_block-restarts, ps_write_block-restarts}

abbrev platform : Platform
platform = record { setsize = 64; eintr = pos 4; eagain = pos 11; enomem = pos 12 }

abbrev eintr : ℤ
eintr = pos 4

abbrev einval : ℤ
einval = pos 22

-- " -70 ", interrupted between the digits.
abbrev typed : InPort
typed = record {
  input = byte b' ' ∷ byte b'-' ∷ byte b'7' ∷ failure eintr ∷ byte b'0' ∷ byte b' ' ∷ [];
  failed = false;
  ended = false;
  errno = pos 0;
}

abbrev unread : InPort
unread = record typed { input = byte b'-' ∷ byte b'7' ∷ failure eintr ∷ byte b'0' ∷ [] }

-- The second write is interrupted.
abbrev port : OutPort
port = record { output = []; faults = none ∷ some eintr ∷ []; failed = false; errno = pos 0 }

abbrev printed : OutPort
printed = record { output = b'-' ∷ b'7' ∷ b'0' ∷ []; faults = []; failed = false; errno = eintr }

ps_read_integer-ps_write_integer_example :
    ReadInteger eintr (negsuc 69) unread [] (ps_read_integer 9 eintr einval unread)
unfolding bytes ps_write_integer write_char write_integer putc clear_out
ps_read_integer-ps_write_integer_example =
    ps_read_integer-ps_write_integer 9 eintr einval (negsuc 69) port printed unread [] refl
      (refl, tt) (omega arith) (omega arith) refl
      (record { only = (refl, tt); text = refl; fine = refl }) tt (omega arith)

-- "ab", an interruption, "c": the buffer then starts with "cb".
ps_read_block-restarts_example :
    ps_read_block 2 eintr
      (2 + 1)
      (0 ∷ 0 ∷ 0 ∷ [])
      (record typed { input = byte b'a' ∷ byte b'b' ∷ failure eintr ∷ byte b'c' ∷ [] })
    ≡ some (
      reading (2 + 1) false (pos 0),
      store (b'c' ∷ []) (store (b'a' ∷ b'b' ∷ []) (0 ∷ 0 ∷ 0 ∷ [])),
      record typed { input = []; errno = eintr },
    )
ps_read_block-restarts_example =
    ps_read_block-restarts 0 eintr (b'a' ∷ b'b' ∷ []) (b'c' ∷ []) (0 ∷ 0 ∷ 0 ∷ []) []
      (record typed { input = byte b'a' ∷ byte b'b' ∷ failure eintr ∷ byte b'c' ∷ [] }) refl
      (omega arith)

-- "abc" is written as "aab".
ps_write_block-restarts_example :
    ps_write_block 2 eintr 3 (b'a' ∷ b'b' ∷ b'c' ∷ []) port
    ≡ some (pos 0, record port { output = b'a' ∷ b'a' ∷ b'b' ∷ []; faults = []; errno = eintr })
ps_write_block-restarts_example =
    ps_write_block-restarts 0 eintr 3 1 (b'a' ∷ b'b' ∷ b'c' ∷ []) port refl (omega arith)
      (omega arith)
