-- ===== src/Image/Write/Steps.antt =====
-- The writes of `write_image` of c/scheme48heap.c one after the other, and the header that they
-- make, which `check_image_header` accepts.
use mathlib.Core.List.{append-nil, append_assoc}
use kali_scheme.Prelude.{
  ℕ, suc, ◌^◌, ◌≤◌, ◌<◌, ◌≡◌, refl, sym, subst, ◌∙◌, inl, inr, false, some, List, [], ◌∷◌, ◌++◌,
  arith, length, Bool-cases, ◌>>=◌, Option-cases,
}
use kali_scheme.Prelude.Int.{ℤ, pos, eqb_ℤ}
use kali_scheme.Io.Stdio.{OutPort}
use kali_scheme.Io.Writer.{write_char, ps_write_integer}
use kali_scheme.Io.Write.{OnlyFaults, Wrote, write_char-Wrote, ps_write_integer-Wrote}
use kali_scheme.Io.Strings.{ps_write_string, ps_write_string-all}
use kali_scheme.Io.Decimal.{decimal, magnitude}
use kali_scheme.Image.Write.{Write, write_all}

-- After an error nothing more is written, and the status is the error's.
pub write_all-failed :
    (ops : List Write) (status : ℤ) (p : OutPort)
    → eqb_ℤ status (pos 0) ≡ false
    → write_all ops (status, p) ≡ some (status, p)
unfolding write_all
write_all-failed [] status p e = refl
write_all-failed (op ∷ ops) status p e = rw (e, write_all) (write_all-failed ops status p e)

-- Two lists of writes run one after the other.
pub write_all-append :
    (ops ops' : List Write) (r : ℤ × OutPort)
    → write_all (ops ++ ops') r ≡ (write_all ops r >>= write_all ops')
unfolding write_all
write_all-append [] ops' r = refl
write_all-append (op ∷ ops) ops' (status, p) = elim (Bool-cases (eqb_ℤ status (pos 0))) [
  | inr failed ↦ rw (failed, write_all) (write_all-append ops ops' (status, p))
  | inl fine ↦ elim (Option-cases (op p)) [
    | inl stuck ↦ rw (fine, write_all, stuck)
    | inr (r, run) ↦ rw (fine, write_all, run) (write_all-append ops ops' r)
  ]
]

-- What an operation appends to a stream that does not fail.
abbrev pub Appends : Write → List ℕ → Type 0
Appends op text =
    (p : OutPort)
    → p.faults ≡ []
    → (p' : OutPort) × (op p ≡ some (pos 0, p')) × (p'.output ≡ p.output ++ text) × (p'.faults ≡ [])

-- Operations with their texts.
abbrev pub Chain : List (Write × List ℕ) → Type 0
Chain [] = Unit {0}
Chain ((op, text) ∷ rest) = Appends op text × Chain rest

abbrev pub ops_of : List (Write × List ℕ) → List Write
ops_of [] = []
ops_of ((op, text) ∷ rest) = op ∷ ops_of rest

abbrev pub text_of : List (Write × List ℕ) → List ℕ
text_of [] = []
text_of ((op, text) ∷ rest) = text ++ text_of rest

pub Chain-Appends :
    (steps : List (Write × List ℕ))
    → Chain steps
    → Appends (λ p. write_all (ops_of steps) (pos 0, p)) (text_of steps)
unfolding write_all
Chain-Appends [] c p e = (p, refl, rw append-nil, e)
Chain-Appends ((op, text) ∷ rest) c p e =
    let (p₁, run₁, out₁, e₁) = c.0 p e in
    let (p', run, out, e') = Chain-Appends rest c.1 p₁ e₁ in
    (p', rw (run₁, write_all) run, out ∙ rw out₁ (append_assoc p.output text (text_of rest)), e')

no_faults : {A : Type 0} → (xs : List A) → length xs ≤ 0 → xs ≡ []
no_faults [] h = refl
no_faults (x ∷ xs) h = absurd (omega arith)

Wrote-Appends :
    (eintr : ℤ) (op : Write) (text : List ℕ)
    → ((p : OutPort) → OnlyFaults eintr p.faults → length p.faults < 1 → Wrote eintr p text (op p))
    → Appends op text
Wrote-Appends eintr op text wrote p e =
    let short : length p.faults < 1 = rw e (omega arith) in
    let w = wrote p (subst (OnlyFaults eintr) (sym e) tt) short in
    (w.after, w.run, w.output, no_faults w.after.faults (omega (arith, w.fewer, short)))

module _ (fuel : ℕ) (eintr : ℤ) where
  pub write_char-Appends : (c : ℕ) → Appends (write_char (suc fuel) eintr c) (c ∷ [])
  write_char-Appends c =
      Wrote-Appends eintr (write_char (suc fuel) eintr c) (c ∷ [])
        (λ p only h. write_char-Wrote (suc fuel) eintr c p only (omega (arith, h)))

  pub ps_write_integer-Appends :
      (z : ℤ) → magnitude z < 2 ^ 63 → Appends (ps_write_integer (suc fuel) eintr z) (decimal z)
  ps_write_integer-Appends z small =
      Wrote-Appends eintr (ps_write_integer (suc fuel) eintr z) (decimal z)
        (λ p only h. ps_write_integer-Wrote (suc fuel) eintr z p only (omega (arith, h)) small)

  pub ps_write_string-Appends :
      (text : List ℕ) → Appends (ps_write_string (suc fuel) eintr text) text
  ps_write_string-Appends text p e = (_, ps_write_string-all fuel eintr text p e, refl, refl)
