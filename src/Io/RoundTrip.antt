-- ===== src/Io/RoundTrip.antt =====
-- `ps_read_integer` of c/unix/io.c reads what `ps_write_integer` wrote.
use kali_scheme.Prelude.{
  ℕ, suc, ◌^◌, ◌≤◌, ◌<◌, ◌≡◌, ◌≢◌, refl, ap, subst, sym, ◌∙◌, false, inl, inr, Option, some, List,
  [], ◌∷◌, ◌++◌, arith, length, ◌==◌, Bool-cases,
}
use kali_scheme.Prelude.Int.{ℤ, pos, negsuc}
use kali_scheme.Io.Stdio.{InPort, OutPort}
use kali_scheme.Io.Reader.{Reading, reading, ps_read_integer}
use kali_scheme.Io.Writer.{ps_write_integer}
use kali_scheme.Io.Write.{OnlyFaults, ps_write_integer-Wrote}
use kali_scheme.Io.Decimal.{
  digits, decimal, magnitude, value, AllDigits, AllDigits-digits, value-digits, digits-ne,
}
use kali_scheme.Io.Read.{Holds}
use kali_scheme.Io.Parse.{
  NoDigit, AllSpaces, NonEmpty-ne, digit-Starts, value-zero, Holds-length, skip_space-start,
  read_signed-pos, read_signed-neg,
}

-- What a read of the integer `z` gives, with `rest` left to come.
pub record ReadInteger (eintr z : ℤ) (p : InPort) (rest : List ℕ) (r : Option (Reading ℤ × InPort))
    : Type 0 where
  pub after : InPort
  pub run : r ≡ some (reading z false (pos 0), after)
  pub holds : Holds eintr after rest
  pub fewer : length after.input ≤ suc (length p.input)

module _ (fuel : ℕ) (eintr einval : ℤ) (p : InPort) (spaces rest : List ℕ) where
  read-pos :
      (n d : ℕ) (ds : List ℕ)
      → value 0 (d ∷ ds) ≡ n
      → AllDigits (d ∷ ds)
      → Holds eintr p (spaces ++ ((d ∷ ds) ++ rest))
      → AllSpaces spaces
      → NoDigit rest
      → suc (length p.input) < fuel
      → ReadInteger eintr (pos n) p rest (ps_read_integer fuel eintr einval p)
  unfolding ps_read_integer
  read-pos n d ds e a h sp nd f =
      let long = Holds-length eintr p spaces ((d ∷ ds) ++ rest) h in
      let (p1, run1, h1, fewer) =
        skip_space-start fuel eintr fuel p spaces d (ds ++ rest) sp (digit-Starts d a.0) h f
          (omega (arith, long)) in
      let (p', run, h', fewer') =
        read_signed-pos fuel eintr einval p1 n d ds rest e a h1 nd (omega (arith, fewer))
          (omega (arith, fewer, Holds-length eintr p1 ds rest h1)) in
      record {
        after = p';
        run = rw (run1, ps_read_integer) run;
        holds = h';
        fewer = omega (arith, fewer, fewer');
      }

  read-neg :
      (n d : ℕ) (ds : List ℕ)
      → value 0 (d ∷ ds) ≡ suc n
      → AllDigits (d ∷ ds)
      → Holds eintr p (spaces ++ (b'-' ∷ ((d ∷ ds) ++ rest)))
      → AllSpaces spaces
      → NoDigit rest
      → suc (length p.input) < fuel
      → ReadInteger eintr (negsuc n) p rest (ps_read_integer fuel eintr einval p)
  unfolding ps_read_integer
  read-neg n d ds e a h sp nd f =
      let long = Holds-length eintr p spaces (b'-' ∷ ((d ∷ ds) ++ rest)) h in
      let (p1, run1, h1, fewer) =
        skip_space-start fuel eintr fuel p spaces b'-' ((d ∷ ds) ++ rest) sp refl h f
          (omega (arith, long)) in
      let (p', run, h', fewer') =
        read_signed-neg fuel eintr einval p1 n d ds rest e a h1 nd (omega (arith, fewer))
          (omega (arith, fewer, Holds-length eintr p1 (d ∷ ds) rest h1)) in
      record {
        after = p';
        run = rw (run1, ps_read_integer) run;
        holds = h';
        fewer = omega (arith, fewer, fewer');
      }

below_2_63 : (n : ℕ) → n < 2 ^ 63 → n < 10 ^ 20
below_2_63 n h = omega arith

-- `ps_read_integer`, on a stream with no failure but interruptions that holds whitespace, the
-- decimal text of a number below 2^63 in magnitude, and then no further digit, returns the number
-- with status 0 and no end of file, and leaves what stands behind the number to be read, when it
-- has fuel for one more round than the stream has items.
pub ps_read_integer-decimal :
    (fuel : ℕ) (eintr einval z : ℤ) (p : InPort) (spaces rest : List ℕ)
    → Holds eintr p (spaces ++ (decimal z ++ rest))
    → AllSpaces spaces
    → NoDigit rest
    → magnitude z < 2 ^ 63
    → suc (length p.input) < fuel
    → ReadInteger eintr z p rest (ps_read_integer fuel eintr einval p)
unfolding decimal
ps_read_integer-decimal fuel eintr einval (pos n) p spaces rest h sp nd small f =
    elim (Bool-cases (n == 0)) [
      | inl z ↦
          let zero_n : n ≡ 0 = ground arith in
          read-pos fuel eintr einval p spaces rest n b'0' [] (value-zero ∙ sym zero_n) (refl, tt)
            (rw z at h) sp nd f
      | inr nz ↦
          let ne : n ≢ 0 = ground arith in
          let (d, ds, e) = NonEmpty-ne (digits 20 n) (digits-ne 20 n ne (below_2_63 n small)) in
          read-pos fuel eintr einval p spaces rest n d ds
            (ap (value 0) (sym e) ∙ value-digits 20 n (below_2_63 n small))
            (subst AllDigits e (AllDigits-digits 20 n)) (rw (nz, e) at h) sp nd f
    ]
ps_read_integer-decimal fuel eintr einval (negsuc n) p spaces rest h sp nd small f =
    let (d, ds, e) =
      NonEmpty-ne (digits 20 (suc n))
        (digits-ne 20 (suc n) (ground arith) (below_2_63 (suc n) small)) in
    read-neg fuel eintr einval p spaces rest n d ds
      (ap (value 0) (sym e) ∙ value-digits 20 (suc n) (below_2_63 (suc n) small))
      (subst AllDigits e (AllDigits-digits 20 (suc n)))
      (subst (λ x. Holds eintr p (spaces ++ (b'-' ∷ (x ++ rest)))) e h) sp nd f

some-injective : {A : Type 0} → {a b : A} → some a ≡ some b → a ≡ b
some-injective e = cc

-- What `ps_write_integer` writes to an empty output for a number below 2^63 in magnitude is read
-- back by `ps_read_integer` as that number with status 0, also when both streams are interrupted,
-- when the input stream holds the output and no further digit right behind it; what follows is
-- left to be read. There is fuel for one more round than there are items and faults.
pub ps_read_integer-ps_write_integer :
    (fuel : ℕ) (eintr einval z : ℤ) (p done : OutPort) (q : InPort) (rest : List ℕ)
    → p.output ≡ []
    → OnlyFaults eintr p.faults
    → length p.faults < fuel
    → magnitude z < 2 ^ 63
    → ps_write_integer fuel eintr z p ≡ some (pos 0, done)
    → Holds eintr q (done.output ++ rest)
    → NoDigit rest
    → suc (length q.input) < fuel
    → ReadInteger eintr z q rest (ps_read_integer fuel eintr einval q)
ps_read_integer-ps_write_integer fuel eintr einval z p done q rest empty only h small run holds nd
      f =
    let wrote = ps_write_integer-Wrote fuel eintr z p only h small in
    let same : wrote.after ≡ done = ap (λ x. x.1) (some-injective (sym wrote.run ∙ run)) in
    let text : done.output ≡ decimal z =
      ap (λ x. x.output) (sym same) ∙ wrote.output ∙ ap (λ x. x ++ decimal z) empty in
    ps_read_integer-decimal fuel eintr einval z q [] rest
      (subst (λ x. Holds eintr q (x ++ rest)) text holds) tt nd small f
