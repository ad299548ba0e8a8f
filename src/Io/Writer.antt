-- ===== src/Io/Writer.antt =====
-- The output operations of c/unix/io.c on characters and integers. A result `none` is fuel that
-- ran out: of the loop that tries again, or of the recursion on the digits.
use kali_scheme.Prelude.{
  ℕ, zero, suc, ◌+◌, ◌/◌, ◌%◌, true, false, Option, none, some, ◌==◌, if◌then◌else◌,
}
use kali_scheme.Prelude.Int.{ℤ, pos, negsuc, eqb_ℤ}
use kali_scheme.Io.Stdio.{OutPort, putc, clear_out}

-- `ps_write_char`: after a `putc` that returned EOF. The status, and the stream.
unfoldable pub ps_write_char : ℕ → ℤ → ℕ → OutPort → Option (ℤ × OutPort)
ps_write_char zero eintr c p = none
ps_write_char (suc k) eintr c p = elim (eqb_ℤ p.errno eintr) [
  | false ↦ some (p.errno, clear_out p)
  | true ↦ elim (putc c (clear_out p)).0 [
    | true ↦ some (pos 0, (putc c (clear_out p)).1)
    | false ↦ ps_write_char k eintr c (putc c (clear_out p)).1
  ]
]

-- The macro `WRITE_CHAR`.
unfoldable pub write_char : ℕ → ℤ → ℕ → OutPort → Option (ℤ × OutPort)
unfolding ps_write_char
write_char fuel eintr c p =
    if (putc c p).0 then some (pos 0, (putc c p).1) else ps_write_char fuel eintr c (putc c p).1

-- The recursion is on the number of digits; 20 are enough for an `unsigned long` of 64 bits.
unfoldable pub write_integer : ℕ → ℕ → ℤ → ℕ → OutPort → Option (ℤ × OutPort)
write_integer zero fuel eintr n p = if n == 0 then some (pos 0, p) else none
write_integer (suc k) fuel eintr n p =
    let rest = write_integer k fuel eintr (n / 10) p in
    if n == 0 then some (pos 0, p) else (elim rest [
      | none ↦ none
      | some (st, p') ↦
          if eqb_ℤ st (pos 0) then write_char fuel eintr (n % 10 + b'0') p' else some (st, p')
    ])

unfoldable pub ps_write_integer : ℕ → ℤ → ℤ → OutPort → Option (ℤ × OutPort)
ps_write_integer fuel eintr (pos n) p =
    if n == 0 then write_char fuel eintr b'0' p else write_integer 20 fuel eintr n p
ps_write_integer fuel eintr (negsuc n) p = elim (write_char fuel eintr b'-' p) [
  | none ↦ none
  | some (st, p') ↦
      if eqb_ℤ st (pos 0) then write_integer 20 fuel eintr (suc n) p' else some (st, p')
]
