-- ===== src/Io/Block/Restart.antt =====
-- What an interruption in the middle of a block does to the block operations of c/unix/io.c.
use mathlib.Core.List.{append-nil, append_assoc}
use kali_scheme.Prelude.{
  ℕ, zero, suc, ◌+◌, ◌-◌, ◌≤◌, ◌<◌, ◌≡◌, refl, ap, subst, sym, ◌∙◌, Bool, true, false, ◌&&◌, Option,
  none, some, List, [], ◌∷◌, ◌++◌, arith, length, length-take, take, ◌==◌, map,
}
use kali_scheme.Prelude.Int.{ℤ, pos, eqb_ℤ}
use kali_scheme.Io.Stdio.{
  Item, byte, failure, InPort, OutPort, fread_from, fread, fwrite, putc, putc_after, clearerr,
  clear_out,
}
use kali_scheme.Io.Reader.{reading}
use kali_scheme.Io.Block.{store, read_block, ps_read_block, write_block, ps_write_block}

abbrev pub texts : List ℕ → List Item
texts cs = map byte cs

abbrev pub nones : ℕ → List (Option ℤ)
nones zero = []
nones (suc n) = none ∷ nones n

abbrev stream : List Item → Bool → Bool → ℤ → InPort
stream items f b e = record { input = items; failed = f; ended = b; errno = e }

abbrev pub sink : List ℕ → List (Option ℤ) → Bool → ℤ → OutPort
sink out faults f e = record { output = out; faults = faults; failed = f; errno = e }

eqb_ℤ-same : (a : ℤ) → eqb_ℤ a a ≡ true
eqb_ℤ-same a = ground arith

sub_zero : {n : ℕ} → n - 0 ≡ n
sub_zero = omega arith

zero_add : {n : ℕ} → 0 + n ≡ n
zero_add = omega arith

-- A round of `read_block` that is tried again, and one that is the last.
read_block-again :
    (k : ℕ) (eintr : ℤ) (count got : ℕ) (buffer cs : List ℕ) (p p' : InPort)
    → fread (count - got) p ≡ (cs, p')
    → (got + length cs == count) ≡ false
    → (p'.failed && eqb_ℤ p'.errno eintr) ≡ true
    → read_block (suc k) eintr count got buffer p
      ≡ read_block k eintr count (got + length cs) (store cs buffer) (clearerr p')
unfolding read_block
read_block-again k eintr count got buffer cs p p' run short again =
    rw (run, read_block, short, run, again, run)

read_block-full :
    (k : ℕ) (eintr : ℤ) (count got : ℕ) (buffer cs : List ℕ) (p p' : InPort)
    → fread (count - got) p ≡ (cs, p')
    → got + length cs ≡ count
    → read_block (suc k) eintr count got buffer p
      ≡ some (reading count false (pos 0), store cs buffer, p')
unfolding read_block
read_block-full k eintr count got buffer cs p p' run full =
    let same : (got + length cs == count) ≡ true = ground arith in
    rw (run, read_block, same, run, full)

write_block-again :
    (k : ℕ) (eintr : ℤ) (count sent n : ℕ) (buffer : List ℕ) (p p' : OutPort)
    → fwrite (take (count - sent) buffer) p ≡ (n, p')
    → (sent + n == count) ≡ false
    → (p'.failed && eqb_ℤ p'.errno eintr) ≡ true
    → write_block (suc k) eintr count sent buffer p
      ≡ write_block k eintr count (sent + n) buffer (clear_out p')
unfolding write_block
write_block-again k eintr count sent n buffer p p' run short again =
    rw (run, write_block, short, run, again, run)

write_block-full :
    (k : ℕ) (eintr : ℤ) (count sent n : ℕ) (buffer : List ℕ) (p p' : OutPort)
    → fwrite (take (count - sent) buffer) p ≡ (n, p')
    → (sent + n == count) ≡ true
    → write_block (suc k) eintr count sent buffer p ≡ some (pos 0, p')
unfolding write_block
write_block-full k eintr count sent n buffer p p' run full = rw (run, write_block, full, run)

fread_from-failure :
    (a : List ℕ) (e : ℤ) (rest : List Item) (n : ℕ) (p : InPort)
    → length a < n
    → fread_from (texts a ++ (failure e ∷ rest)) n p
      ≡ (a, record p { input = rest; failed = true; errno = e })
unfolding fread_from
fread_from-failure a e rest zero p h = absurd (omega arith)
fread_from-failure [] e rest (suc n) p h = refl
fread_from-failure (c ∷ a) e rest (suc n) p h = rw (fread_from-failure a e rest n p (omega arith))

fread_from-all :
    (b : List ℕ) (rest : List Item) (p : InPort)
    → fread_from (texts b ++ rest) (length b) p ≡ (b, record p { input = rest })
unfolding fread_from
fread_from-all [] rest p = refl
fread_from-all (c ∷ b) rest p = rw (fread_from-all b rest p)

-- `ps_read_block` of a block whose bytes come in two parts, the second not empty, with an
-- interruption between them, returns the whole count with status 0, and has stored the second
-- part over the first one at the start of the buffer.
pub ps_read_block-restarts :
    (k : ℕ) (eintr : ℤ) (a b buffer : List ℕ) (rest : List Item) (p : InPort)
    → p.input ≡ texts a ++ (failure eintr ∷ (texts b ++ rest))
    → 0 < length b
    → ps_read_block (suc (suc k)) eintr (length a + length b) buffer p
      ≡ some (
        reading (length a + length b) false (pos 0),
        store b (store a buffer),
        stream rest false false eintr,
      )
unfolding ps_read_block fread clearerr
ps_read_block-restarts k eintr a b buffer rest p e h =
    let first : fread (length a + length b) p
        ≡ (a, record p { input = texts b ++ rest; failed = true; errno = eintr }) =
      subst
        (λ x.
          fread_from x (length a + length b) p
          ≡ (a, record p { input = texts b ++ rest; failed = true; errno = eintr }))
        (sym e)
        (fread_from-failure a eintr (texts b ++ rest) (length a + length b) p (omega arith)) in
    let short : (0 + length a == length a + length b) ≡ false = ground arith in
    let second = fread_from-all b rest (stream (texts b ++ rest) false false eintr) in
    let left : length a + length b - (0 + length a) ≡ length b = omega arith in
    read_block-again (suc k) eintr (length a + length b) 0 buffer a p
      (stream (texts b ++ rest) true p.ended eintr) (rw sub_zero first) short (eqb_ℤ-same eintr)
    ∙ read_block-full k eintr (length a + length b) (0 + length a) (store a buffer) b
        (stream (texts b ++ rest) false false eintr) (stream rest false false eintr)
        (rw left second) (omega arith)

fwrite-fault :
    (n : ℕ) (cs out : List ℕ) (rest : List (Option ℤ)) (b : Bool) (e e' : ℤ)
    → n < length cs
    → fwrite cs (sink out (nones n ++ (some e ∷ rest)) b e')
      ≡ (n, sink (out ++ take n cs) rest true e)
unfolding fwrite putc putc_after
fwrite-fault n [] out rest b e e' h = absurd (omega arith)
fwrite-fault zero (c ∷ cs) out rest b e e' h = rw append-nil
fwrite-fault (suc n) (c ∷ cs) out rest b e e' h =
    rw (fwrite-fault n cs (out ++ (c ∷ [])) rest b e e' (omega arith), append_assoc)

pub fwrite-all :
    (cs out : List ℕ) (b : Bool) (e : ℤ)
    → fwrite cs (sink out [] b e) ≡ (length cs, sink (out ++ cs) [] b e)
unfolding fwrite putc putc_after
fwrite-all [] out b e = rw append-nil
fwrite-all (c ∷ cs) out b e = rw (fwrite-all cs (out ++ (c ∷ [])) b e, append_assoc)

take-take : (n m : ℕ) (xs : List ℕ) → n ≤ m → take n (take m xs) ≡ take n xs
take-take zero m xs h = refl
take-take (suc n) zero xs h = absurd (omega arith)
take-take (suc n) (suc m) [] h = refl
take-take (suc n) (suc m) (x ∷ xs) h = ap (λ l. x ∷ l) (take-take n m xs (omega arith))

length-take-le : (n : ℕ) (xs : List ℕ) → n ≤ length xs → length (take n xs) ≡ n
length-take-le n xs h = ground (arith, length-take n xs)

-- `ps_write_block` of a block interrupted after `n` bytes, fewer than the count, returns status 0,
-- and has written the first `n` bytes of the buffer and behind them, for the rest of the count,
-- bytes from the start of the buffer again.
pub ps_write_block-restarts :
    (k : ℕ) (eintr : ℤ) (count n : ℕ) (buffer : List ℕ) (p : OutPort)
    → p.faults ≡ nones n ++ (some eintr ∷ [])
    → n < count
    → count ≤ length buffer
    → ps_write_block (suc (suc k)) eintr count buffer p
      ≡ some (pos 0, sink ((p.output ++ take n buffer) ++ take (count - n) buffer) [] false eintr)
unfolding ps_write_block clear_out
ps_write_block-restarts k eintr count n buffer p e h fits =
    let len = length-take-le count buffer fits in
    let first : fwrite (take count buffer) p ≡ (n, sink (p.output ++ take n buffer) [] true eintr) =
      subst
        (λ x.
          fwrite (take count buffer) (sink p.output x p.failed p.errno)
          ≡ (n, sink (p.output ++ take n buffer) [] true eintr))
        (sym e)
        (fwrite-fault n (take count buffer) p.output [] p.failed eintr p.errno (omega (arith, len))
          ∙ rw (take-take n count buffer (omega arith))) in
    let short : (0 + n == count) ≡ false = ground arith in
    let second = fwrite-all (take (count - n) buffer) (p.output ++ take n buffer) false eintr in
    let len' = length-take-le (count - n) buffer (omega arith) in
    let full : (0 + n + length (take (count - n) buffer) == count) ≡ true = ground (arith, len') in
    let left : count - (0 + n) ≡ count - n = omega arith in
    write_block-again (suc k) eintr count 0 n buffer p
      (sink (p.output ++ take n buffer) [] true eintr) (rw sub_zero first) short (eqb_ℤ-same eintr)
    ∙ write_block-full k eintr count (0 + n) (length (take (count - n) buffer)) buffer
        (sink (p.output ++ take n buffer) [] false eintr)
        (sink ((p.output ++ take n buffer) ++ take (count - n) buffer) [] false eintr)
        (rw left second) full
