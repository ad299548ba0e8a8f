-- ===== src/Io/Write.antt =====
-- Writing in c/unix/io.c goes on after an interrupted system call.
use kali_scheme.Prelude.{
  ℕ, zero, suc, ◌+◌, ◌/◌, ◌%◌, ◌^◌, ◌≤◌, ◌<◌, ◌≡◌, refl, subst, sym, ◌∙◌, Bool, true, false, inl,
  inr, Option, none, some, List, [], ◌∷◌, ◌++◌, arith, length, ◌==◌, Bool-cases,
}
use mathlib.Core.List.{append-nil, append_assoc}
use kali_scheme.Prelude.Int.{ℤ, pos, negsuc, eqb_ℤ}
use kali_scheme.Io.Stdio.{OutPort, putc, clear_out}
use kali_scheme.Io.Writer.{ps_write_char, write_char, write_integer, ps_write_integer}
use kali_scheme.Io.Decimal.{digits, decimal, magnitude, div-lt-pow}

-- Every fault to come is an interruption.
abbrev pub OnlyFaults : ℤ → List (Option ℤ) → Type 0
OnlyFaults eintr [] = Unit {0}
OnlyFaults eintr (none ∷ rest) = OnlyFaults eintr rest
OnlyFaults eintr (some e ∷ rest) = (e ≡ eintr) × OnlyFaults eintr rest

-- What a successful write of a text leaves.
pub record Wrote (eintr : ℤ) (p : OutPort) (text : List ℕ) (r : Option (ℤ × OutPort)) : Type 0 where
  pub after : OutPort
  pub run : r ≡ some (pos 0, after)
  pub output : after.output ≡ p.output ++ text
  pub only : OnlyFaults eintr after.faults
  pub fewer : length after.faults ≤ length p.faults

abbrev sink : List ℕ → List (Option ℤ) → Bool → ℤ → OutPort
sink out faults f e = record { output = out; faults = faults; failed = f; errno = e }

eqb_ℤ-refl' : (a : ℤ) → eqb_ℤ a a ≡ true
eqb_ℤ-refl' a = ground arith

ps_write_char-again :
    (k : ℕ) (eintr e : ℤ) (c : ℕ) (out : List ℕ) (rest : List (Option ℤ)) (b : Bool)
    → ps_write_char (suc k) eintr c (sink out (some e ∷ rest) b eintr)
      ≡ ps_write_char k eintr c (sink out rest true e)
unfolding ps_write_char putc clear_out
ps_write_char-again k eintr e c out rest b = rw (eqb_ℤ-refl' eintr, ps_write_char)

ps_write_char-Wrote :
    (k : ℕ) (eintr : ℤ) (c : ℕ) (out : List ℕ) (faults : List (Option ℤ)) (b : Bool)
    → OnlyFaults eintr faults
    → length faults < k
    → Wrote eintr
        (sink out faults b eintr)
        (c ∷ [])
        (ps_write_char k eintr c (sink out faults b eintr))
unfolding ps_write_char putc clear_out
ps_write_char-Wrote zero eintr c out faults b only h = absurd (omega arith)
ps_write_char-Wrote (suc k) eintr c out [] b only h = record {
  after = sink (out ++ (c ∷ [])) [] false eintr;
  run = rw (eqb_ℤ-refl' eintr, ps_write_char);
  output = refl;
  only = tt;
  fewer = omega arith;
}
ps_write_char-Wrote (suc k) eintr c out (none ∷ rest) b only h = record {
  after = sink (out ++ (c ∷ [])) rest false eintr;
  run = rw (eqb_ℤ-refl' eintr, ps_write_char);
  output = refl;
  only = only;
  fewer = omega arith;
}
ps_write_char-Wrote (suc k) eintr c out (some e ∷ rest) b only h =
    let more = ps_write_char-Wrote k eintr c out rest true only.1 (omega arith) in
    record {
      after = more.after;
      run =
          ps_write_char-again k eintr e c out rest b
          ∙ subst (λ x. ps_write_char k eintr c (sink out rest true x) ≡ some (pos 0, more.after))
              (sym only.0) more.run;
      output = more.output;
      only = more.only;
      fewer = omega (arith, more.fewer);
    }

write_after-Wrote :
    (fuel : ℕ) (eintr : ℤ) (c : ℕ) (out : List ℕ) (faults : List (Option ℤ)) (b : Bool) (e : ℤ)
    → OnlyFaults eintr faults
    → length faults < fuel
    → Wrote eintr (sink out faults b e) (c ∷ []) (write_char fuel eintr c (sink out faults b e))
unfolding write_char putc
write_after-Wrote fuel eintr c out [] b e only h = record {
  after = sink (out ++ (c ∷ [])) [] b e;
  run = refl;
  output = refl;
  only = tt;
  fewer = omega arith;
}
write_after-Wrote fuel eintr c out (none ∷ rest) b e only h = record {
  after = sink (out ++ (c ∷ [])) rest b e;
  run = refl;
  output = refl;
  only = only;
  fewer = omega arith;
}
write_after-Wrote fuel eintr c out (some e' ∷ rest) b e only h =
    let more = ps_write_char-Wrote fuel eintr c out rest true only.1 (omega arith) in
    record {
      after = more.after;
      run =
          subst (λ x. ps_write_char fuel eintr c (sink out rest true x) ≡ some (pos 0, more.after))
            (sym only.0) more.run;
      output = more.output;
      only = more.only;
      fewer = omega (arith, more.fewer);
    }

-- `WRITE_CHAR`, with more fuel than faults are to come, writes the character once past all
-- interruptions.
pub write_char-Wrote :
    (fuel : ℕ) (eintr : ℤ) (c : ℕ) (p : OutPort)
    → OnlyFaults eintr p.faults
    → length p.faults < fuel
    → Wrote eintr p (c ∷ []) (write_char fuel eintr c p)
write_char-Wrote fuel eintr c p = write_after-Wrote fuel eintr c p.output p.faults p.failed p.errno

write_integer-Wrote :
    (k fuel : ℕ) (eintr : ℤ) (n : ℕ) (p : OutPort)
    → OnlyFaults eintr p.faults
    → length p.faults < fuel
    → n < 10 ^ k
    → Wrote eintr p (digits k n) (write_integer k fuel eintr n p)
unfolding write_integer digits
write_integer-Wrote zero fuel eintr n p only h small =
    let z : (n == 0) ≡ true = ground arith in
    record { after = p; run = rw z; output = rw append-nil; only = only; fewer = omega arith }
write_integer-Wrote (suc k) fuel eintr n p only h small = elim (Bool-cases (n == 0)) [
  | inl z ↦ record {
    after = p;
    run = rw z;
    output = rw (z, append-nil);
    only = only;
    fewer = omega arith;
  }
  | inr nz ↦
      let front = write_integer-Wrote k fuel eintr (n / 10) p only h (div-lt-pow k n small) in
      let last =
        write_char-Wrote fuel eintr (n % 10 + b'0') front.after front.only
          (omega (arith, front.fewer)) in
      record {
        after = last.after;
        run = rw (nz, front.run) last.run;
        output =
            rw nz (last.output ∙ rw front.output (append_assoc p.output (digits k (n / 10)) _));
        only = last.only;
        fewer = omega (arith, front.fewer, last.fewer);
      }
]

-- `ps_write_integer` of a number below 2^63 in magnitude, on a stream whose faults are all
-- interruptions and with more fuel than faults are to come, appends the decimal text of the number
-- to the output and returns status 0.
pub ps_write_integer-Wrote :
    (fuel : ℕ) (eintr z : ℤ) (p : OutPort)
    → OnlyFaults eintr p.faults
    → length p.faults < fuel
    → magnitude z < 2 ^ 63
    → Wrote eintr p (decimal z) (ps_write_integer fuel eintr z p)
unfolding ps_write_integer decimal
ps_write_integer-Wrote fuel eintr (pos n) p only h small = elim (Bool-cases (n == 0)) [
  | inl z ↦ rw z (write_char-Wrote fuel eintr b'0' p only h)
  | inr nz ↦ rw nz (write_integer-Wrote 20 fuel eintr n p only h (omega arith))
]
ps_write_integer-Wrote fuel eintr (negsuc n) p only h small =
    let sign = write_char-Wrote fuel eintr b'-' p only h in
    let rest =
      write_integer-Wrote 20 fuel eintr (suc n) sign.after sign.only (omega (arith, sign.fewer))
        (omega arith) in
    record {
      after = rest.after;
      run = rw (sign.run, ps_write_integer) rest.run;
      output = rest.output ∙ rw sign.output (append_assoc p.output (b'-' ∷ []) _);
      only = rest.only;
      fewer = omega (arith, sign.fewer, rest.fewer);
    }
