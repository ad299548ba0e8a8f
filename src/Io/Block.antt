-- ===== src/Io/Block.antt =====
-- The block operations of c/unix/io.c. The loop of each goes on at the start of the buffer after
-- an interruption, as the source does.
pub mod Restart
use kali_scheme.Prelude.{
  ℕ, zero, suc, ◌+◌, ◌-◌, ◌≤◌, ◌<◌, ◌≡◌, refl, Bool, true, false, ◌&&◌, Option, none, some, List,
  [], ◌∷◌, ◌++◌, arith, length, take, drop, ◌==◌, if◌then◌else◌,
}
use kali_scheme.Prelude.Int.{ℤ, pos, eqb_ℤ}
use kali_scheme.Io.Stdio.{InPort, OutPort, fread, fwrite, clearerr, clear_out}
use kali_scheme.Io.Reader.{Reading, reading}

-- A copy to the start of a buffer.
abbrev pub store : List ℕ → List ℕ → List ℕ
store cs buffer = cs ++ drop (length cs) buffer

-- The last round of `ps_read_block`.
unfoldable pub read_block_end : ℕ → InPort → Reading ℕ × InPort
read_block_end got p = (reading got p.ended (if p.failed then p.errno else pos 0), clearerr p)

-- The reading returned, the buffer and the stream.
unfoldable pub read_block :
    ℕ → ℤ → (count got : ℕ) → (buffer : List ℕ) → InPort → Option (Reading ℕ × List ℕ × InPort)
unfolding read_block_end
read_block zero eintr count got buffer p = none
read_block (suc k) eintr count got buffer p =
    let (cs, p') = fread (count - got) p in
    let got' = got + length cs in
    elim (got' == count) [
      | true ↦ some (reading got' false (pos 0), store cs buffer, p')
      | false ↦ elim (p'.failed && eqb_ℤ p'.errno eintr) [
        | true ↦ read_block k eintr count got' (store cs buffer) (clearerr p')
        | false ↦ let (r, p'') = read_block_end got' p' in some (r, store cs buffer, p'')
      ]
    ]

unfoldable pub ps_read_block : ℕ → ℤ → ℕ → List ℕ → InPort → Option (Reading ℕ × List ℕ × InPort)
unfolding read_block
ps_read_block fuel eintr count buffer p = read_block fuel eintr count 0 buffer p

unfoldable pub write_block : ℕ → ℤ → (count sent : ℕ) → List ℕ → OutPort → Option (ℤ × OutPort)
write_block zero eintr count sent buffer p = none
write_block (suc k) eintr count sent buffer p =
    let (n, p') = fwrite (take (count - sent) buffer) p in
    let sent' = sent + n in
    elim (sent' == count) [
      | true ↦ some (pos 0, p')
      | false ↦ elim (p'.failed && eqb_ℤ p'.errno eintr) [
        | true ↦ write_block k eintr count sent' buffer (clear_out p')
        | false ↦ some (p'.errno, clear_out p')
      ]
    ]

unfoldable pub ps_write_block : ℕ → ℤ → ℕ → List ℕ → OutPort → Option (ℤ × OutPort)
unfolding write_block
ps_write_block fuel eintr count buffer p = write_block fuel eintr count 0 buffer p
