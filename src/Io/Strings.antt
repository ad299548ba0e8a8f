-- ===== src/Io/Strings.antt =====
-- `ps_write_string` of c/unix/io.c. After an interruption it writes the whole string again; `none`
-- is fuel that ran out in this loop. `fputs` of C's stdio writes the characters up to a failure.
use kali_scheme.Prelude.{
  ℕ, zero, suc, ◌≡◌, subst, sym, true, false, Option, none, some, List, [], ◌++◌, arith, length,
  ◌==◌,
}
use kali_scheme.Prelude.Int.{ℤ, pos, eqb_ℤ}
use kali_scheme.Io.Stdio.{OutPort, fwrite, clear_out}
use kali_scheme.Io.Block.Restart.{sink, fwrite-all}

unfoldable pub ps_write_string : ℕ → ℤ → List ℕ → OutPort → Option (ℤ × OutPort)
ps_write_string zero eintr text p = none
ps_write_string (suc k) eintr text p =
    let (n, p') = fwrite text p in
    elim (n == length text) [
      | true ↦ some (pos 0, p')
      | false ↦ elim (eqb_ℤ p'.errno eintr) [
        | true ↦ ps_write_string k eintr text (clear_out p')
        | false ↦ some (p'.errno, clear_out p')
      ]
    ]

-- On a stream that does not fail the string is written once.
pub ps_write_string-all :
    (k : ℕ) (eintr : ℤ) (text : List ℕ) (p : OutPort)
    → p.faults ≡ []
    → ps_write_string (suc k) eintr text p
      ≡ some (pos 0, record p { output = p.output ++ text; faults = [] })
unfolding ps_write_string
ps_write_string-all k eintr text p none_left =
    let run : fwrite text p ≡ (length text, sink (p.output ++ text) [] p.failed p.errno) =
      subst
        (λ x.
          fwrite text (sink p.output x p.failed p.errno)
          ≡ (length text, sink (p.output ++ text) [] p.failed p.errno))
        (sym none_left) (fwrite-all text p.output p.failed p.errno) in
    let same : (length text == length text) ≡ true = ground arith in
    rw (run, ps_write_string, same, run)
