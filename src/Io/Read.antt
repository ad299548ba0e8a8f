-- ===== src/Io/Read.antt =====
-- Reading in c/unix/io.c goes on after an interrupted system call.
use kali_scheme.Prelude.{
  ℕ, zero, suc, ◌≤◌, ◌<◌, ◌≡◌, refl, subst, sym, ◌∙◌, Bool, true, false, Option, none, some, List,
  [], ◌∷◌, arith, length,
}
use kali_scheme.Prelude.Int.{ℤ, eqb_ℤ}
use kali_scheme.Io.Stdio.{Item, byte, failure, InPort, getc, clearerr}
use kali_scheme.Io.Reader.{read_char, next_char}

-- The bytes that are still to come, past all failures.
unfoldable pub bytes : List Item → List ℕ
bytes [] = []
bytes (byte c ∷ rest) = c ∷ bytes rest
bytes (failure e ∷ rest) = bytes rest

-- Every failure to come is an interruption.
abbrev pub OnlyInterrupts : ℤ → List Item → Type 0
OnlyInterrupts eintr [] = Unit {0}
OnlyInterrupts eintr (byte c ∷ rest) = OnlyInterrupts eintr rest
OnlyInterrupts eintr (failure e ∷ rest) = (e ≡ eintr) × OnlyInterrupts eintr rest

-- The stream has these bytes to come, no failure but interruptions, and no error set.
pub record Holds (eintr : ℤ) (p : InPort) (cs : List ℕ) : Type 0 where
  pub only : OnlyInterrupts eintr p.input
  pub text : bytes p.input ≡ cs
  pub fine : p.failed ≡ false

abbrev pub head : List ℕ → Option ℕ
head [] = none
head (c ∷ cs) = some c

abbrev pub tail : List ℕ → List ℕ
tail [] = []
tail (c ∷ cs) = cs

-- What a read of one character from the stream `p` gives.
pub record Got (eintr : ℤ) (p : InPort) (r : Option (Option ℕ × InPort)) : Type 0 where
  pub after : InPort
  pub run : r ≡ some (head (bytes p.input), after)
  pub holds : Holds eintr after (tail (bytes p.input))
  pub fewer : length after.input ≤ length p.input

abbrev stream : List Item → Bool → Bool → ℤ → InPort
stream items f b e = record { input = items; failed = f; ended = b; errno = e }

eqb_ℤ-refl : (a : ℤ) → eqb_ℤ a a ≡ true
eqb_ℤ-refl a = ground arith

-- An interrupted `getc` in `read_char` is tried again.
read_char-again :
    (k : ℕ) (eintr e : ℤ) (rest : List Item) (b : Bool)
    → read_char (suc k) eintr (stream (failure e ∷ rest) true b eintr)
      ≡ read_char k eintr (stream rest true false e)
unfolding read_char getc clearerr
read_char-again k eintr e rest b = rw (eqb_ℤ-refl eintr, read_char)

read_char-Got :
    (k : ℕ) (eintr : ℤ) (items : List Item) (b : Bool)
    → OnlyInterrupts eintr items
    → suc (length items) < k
    → Got eintr (stream items true b eintr) (read_char k eintr (stream items true b eintr))
unfolding read_char getc clearerr bytes
read_char-Got zero eintr items b only h = absurd (omega arith)
read_char-Got (suc zero) eintr items b only h = absurd (omega arith)
read_char-Got (suc (suc k)) eintr [] b only h = record {
  after = stream [] false true eintr;
  run = rw (eqb_ℤ-refl eintr, read_char);
  holds = record { only = tt; text = refl; fine = refl };
  fewer = omega arith;
}
read_char-Got (suc (suc k)) eintr (byte c ∷ rest) b only h = record {
  after = stream rest false false eintr;
  run = rw (eqb_ℤ-refl eintr, read_char);
  holds = record { only = only; text = refl; fine = refl };
  fewer = omega arith;
}
read_char-Got (suc (suc k)) eintr (failure e ∷ rest) b only h =
    let more = read_char-Got (suc k) eintr rest false only.1 (omega arith) in
    record {
      after = more.after;
      run =
          read_char-again (suc k) eintr e rest b
          ∙ subst
              (λ x.
                read_char (suc k) eintr (stream rest true false x)
                ≡ some (head (bytes rest), more.after))
              (sym only.0) more.run;
      holds = more.holds;
      fewer = omega (arith, more.fewer);
    }

next_from-Got :
    (fuel : ℕ) (eintr : ℤ) (items : List Item) (b : Bool) (e : ℤ)
    → OnlyInterrupts eintr items
    → suc (length items) < fuel
    → Got eintr (stream items false b e) (next_char fuel eintr (stream items false b e))
unfolding next_char getc bytes
next_from-Got zero eintr items b e only h = absurd (omega arith)
next_from-Got (suc k) eintr [] b e only h = record {
  after = stream [] false true e;
  run = refl;
  holds = record { only = tt; text = refl; fine = refl };
  fewer = omega arith;
}
next_from-Got (suc k) eintr (byte c ∷ rest) b e only h = record {
  after = stream rest false b e;
  run = refl;
  holds = record { only = only; text = refl; fine = refl };
  fewer = omega arith;
}
next_from-Got (suc k) eintr (failure e' ∷ rest) b e only h =
    let more = read_char-Got (suc k) eintr rest b only.1 (omega arith) in
    record {
      after = more.after;
      run =
          subst
            (λ x.
              read_char (suc k) eintr (stream rest true b x) ≡ some (head (bytes rest), more.after))
            (sym only.0) more.run;
      holds = more.holds;
      fewer = omega (arith, more.fewer);
    }

-- `READ_CHAR` on a stream with no failure but interruptions, and with fuel for one more round than
-- there are items to come, gives the next byte of the stream past all interruptions, or EOF at the
-- end, and leaves the bytes behind it to come.
pub next_char-Got :
    (fuel : ℕ) (eintr : ℤ) (p : InPort)
    → OnlyInterrupts eintr p.input
    → p.failed ≡ false
    → suc (length p.input) < fuel
    → Got eintr p (next_char fuel eintr p)
next_char-Got fuel eintr p only fine h =
    subst
      (λ b.
        Got eintr (stream p.input b p.ended p.errno)
          (next_char fuel eintr (stream p.input b p.ended p.errno)))
      (sym fine) (next_from-Got fuel eintr p.input p.ended p.errno only h)

-- The same with the bytes to come named.
pub next_char-Holds :
    (fuel : ℕ) (eintr : ℤ) (p : InPort) (cs : List ℕ)
    → Holds eintr p cs
    → suc (length p.input) < fuel
    → (p' : InPort) × (next_char fuel eintr p ≡ some (head cs, p'))
      × Holds eintr p' (tail cs)
      × (length p'.input ≤ length p.input)
next_char-Holds fuel eintr p cs holds h =
    let got = next_char-Got fuel eintr p holds.only holds.fine h in
    (got.after, rw (← holds.text) got.run, rw (← holds.text) got.holds, got.fewer)
