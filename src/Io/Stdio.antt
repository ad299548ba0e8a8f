-- ===== src/Io/Stdio.antt =====
-- What c/unix/io.c uses of C's stdio: streams with their error indicators, and `errno`.
use kali_scheme.Prelude.{ℕ, zero, suc, Bool, true, false, Option, none, some, List, [], ◌∷◌, ◌++◌}
use kali_scheme.Prelude.Int.{ℤ}

-- What a read of the device behind a stream gives: a byte, or a failure with its `errno`. At the
-- end of the list is the end of the file.
pub data Item : Type 0 where
  byte : ℕ → Item
  failure : ℤ → Item

-- An input stream; `failed` is `ferror` and `ended` is `feof`. `errno` is kept with the stream.
pub record InPort : Type 0 where
  pub input : List Item
  pub failed : Bool
  pub ended : Bool
  pub errno : ℤ

-- `none` is EOF.
unfoldable pub getc_from : List Item → InPort → Option ℕ × InPort
getc_from [] p = (none, record p { ended = true })
getc_from (byte c ∷ rest) p = (some c, record p { input = rest })
getc_from (failure e ∷ rest) p = (none, record p { input = rest; failed = true; errno = e })

unfoldable pub getc : InPort → Option ℕ × InPort
unfolding getc_from
getc p = getc_from p.input p

unfoldable pub ungetc : ℕ → InPort → InPort
ungetc c p = record p { input = byte c ∷ p.input }

unfoldable pub clearerr : InPort → InPort
clearerr p = record p { failed = false; ended = false }

-- `fread` of single bytes: the bytes up to the count, the end or a failure.
unfoldable pub fread_from : List Item → ℕ → InPort → List ℕ × InPort
fread_from items zero p = ([], record p { input = items })
fread_from [] (suc n) p = ([], record p { input = []; ended = true })
fread_from (byte c ∷ rest) (suc n) p = let (got, p') = fread_from rest n p in (c ∷ got, p')
fread_from (failure e ∷ rest) (suc n) p = ([], record p { input = rest; failed = true; errno = e })

unfoldable pub fread : ℕ → InPort → List ℕ × InPort
unfolding fread_from
fread n p = fread_from p.input n p

-- An output stream: what was written, and for each further write of a byte whether it fails, and
-- how. With the list at its end every write succeeds.
pub record OutPort : Type 0 where
  pub output : List ℕ
  pub faults : List (Option ℤ)
  pub failed : Bool
  pub errno : ℤ

unfoldable pub putc_after : List (Option ℤ) → ℕ → OutPort → Bool × OutPort
putc_after [] c p = (true, record p { output = p.output ++ (c ∷ []) })
putc_after (none ∷ rest) c p = (true, record p { output = p.output ++ (c ∷ []); faults = rest })
putc_after (some e ∷ rest) c p = (false, record p { faults = rest; failed = true; errno = e })

-- `putc`, and whether it did not return EOF.
unfoldable pub putc : ℕ → OutPort → Bool × OutPort
unfolding putc_after
putc c p = putc_after p.faults c p

unfoldable pub clear_out : OutPort → OutPort
clear_out p = record p { failed = false }

-- `fwrite` of single bytes: how many were written before a failure.
unfoldable pub fwrite : List ℕ → OutPort → ℕ × OutPort
unfolding putc
fwrite [] p = (0, p)
fwrite (c ∷ cs) p =
    let (done, p') = putc c p in
    elim done [ true ↦ (let (n, p'') = fwrite cs p' in (suc n, p'')) | false ↦ (0, p') ]
