-- ===== src/Io/Parse.antt =====
-- The parts of `ps_read_integer` of c/unix/io.c: whitespace, the sign and the digits.
use kali_scheme.Prelude.{
  ℕ, zero, suc, ◌+◌, ◌-◌, ◌*◌, ◌≤◌, ◌<◌, ◌≡◌, ◌≢◌, refl, ap, ◌∙◌, Bool, true, false, some, List, [],
  ◌∷◌, ◌++◌, arith, length, length-append, ◌==◌,
}
use kali_scheme.Prelude.Int.{ℤ, pos, negsuc}
use kali_scheme.Io.Stdio.{Item, byte, failure, InPort, ungetc}
use kali_scheme.Io.Reader.{
  reading, is_space, is_digit, signed, skip_space, read_digits, put_back, read_number, read_signed,
}
use kali_scheme.Io.Decimal.{value, AllDigits}
use kali_scheme.Io.Read.{bytes, Holds, head, tail, next_char-Holds}

-- The text goes on with something that is no digit, or ends.
abbrev pub NoDigit : List ℕ → Type 0
NoDigit [] = Unit {0}
NoDigit (c ∷ cs) = is_digit c ≡ false

put_back-Holds :
    (eintr : ℤ) (p : InPort) (rest : List ℕ)
    → Holds eintr p (tail rest)
    → Holds eintr (put_back (head rest) p) rest
unfolding put_back ungetc bytes
put_back-Holds eintr p [] h = h
put_back-Holds eintr p (c ∷ rest) h = record {
  only = h.only;
  text = ap (λ l. c ∷ l) h.text;
  fine = h.fine;
}

put_back-length :
    (p : InPort) (rest : List ℕ) → length (put_back (head rest) p).input ≤ suc (length p.input)
unfolding put_back ungetc
put_back-length p [] = omega arith
put_back-length p (c ∷ rest) = omega arith

value-first : (d : ℕ) (ds : List ℕ) → value 0 (d ∷ ds) ≡ value (d - b'0') ds
unfolding value
value-first d ds = ap (λ x. value x ds) (omega arith)

signed-suc : (n : ℕ) → signed true (suc n) ≡ negsuc n
signed-suc n = ground arith

abbrev pub AllSpaces : List ℕ → Type 0
AllSpaces [] = Unit {0}
AllSpaces (c ∷ cs) = (is_space c ≡ true) × AllSpaces cs

-- A digit or a sign.
abbrev pub Starts : ℕ → Type 0
Starts c = is_space c ≡ false

pub digit-Starts : (d : ℕ) → is_digit d ≡ true → Starts d
digit-Starts d h = ground (arith, h)

abbrev pub NonEmpty : List ℕ → Type 0
NonEmpty cs = (d : ℕ) × (ds : List ℕ) × (cs ≡ d ∷ ds)

pub NonEmpty-ne : (cs : List ℕ) → cs ≢ [] → NonEmpty cs
NonEmpty-ne [] ne = absurd (ne refl)
NonEmpty-ne (c ∷ cs) ne = (c, cs, refl)

pub value-zero : value 0 (b'0' ∷ []) ≡ 0
unfolding value
value-zero = refl

module _ (fuel : ℕ) (eintr : ℤ) where
  -- The loop reads all digits, and the character behind them.
  read_digits-value :
      (k acc : ℕ) (p : InPort) (ds rest : List ℕ)
      → Holds eintr p (ds ++ rest)
      → AllDigits ds
      → NoDigit rest
      → suc (length p.input) < fuel
      → length ds < k
      → (p' : InPort) × (read_digits k fuel eintr acc p ≡ some (value acc ds, head rest, p'))
        × Holds eintr p' (tail rest)
        × (length p'.input ≤ length p.input)
  unfolding read_digits value
  read_digits-value zero acc p ds rest h a nd f l = absurd (omega arith)
  read_digits-value (suc k) acc p [] [] h a nd f l =
      let (p', run, h', fewer) = next_char-Holds fuel eintr p [] h f in
      (p', rw (run, read_digits), h', fewer)
  read_digits-value (suc k) acc p [] (c ∷ rest) h a nd f l =
      let (p', run, h', fewer) = next_char-Holds fuel eintr p (c ∷ rest) h f in
      (p', rw (run, read_digits, nd), h', fewer)
  read_digits-value (suc k) acc p (d ∷ ds) rest h a nd f l =
      let (p', run, h', fewer) = next_char-Holds fuel eintr p (d ∷ (ds ++ rest)) h f in
      let (p'', run', h'', fewer') =
        read_digits-value k (10 * acc + (d - b'0')) p' ds rest h' a.1 nd (omega (arith, fewer))
          (omega arith) in
      (p'', rw (run, read_digits, a.0) run', h'', omega (arith, fewer, fewer'))

  read_number-value :
      (einval : ℤ) (negate : Bool) (p : InPort) (d : ℕ) (ds rest : List ℕ)
      → Holds eintr p (ds ++ rest)
      → AllDigits (d ∷ ds)
      → NoDigit rest
      → suc (length p.input) < fuel
      → length ds < fuel
      → (p' : InPort) × (read_number fuel eintr einval negate (some d) p
          ≡ some (reading (signed negate (value 0 (d ∷ ds))) false (pos 0), p'))
        × Holds eintr p' rest
        × (length p'.input ≤ suc (length p.input))
  unfolding read_number
  read_number-value einval negate p d ds rest h a nd f l =
      let (p', run, h', fewer) = read_digits-value fuel (d - b'0') p ds rest h a.1 nd f l in
      (
        put_back (head rest) p',
        rw (a.0, run, value-first d ds),
        put_back-Holds eintr p' rest h',
        omega (arith, fewer, put_back-length p' rest),
      )

  -- The sign, if any, and the digits.
  pub read_signed-pos :
      (einval : ℤ) (p : InPort) (n d : ℕ) (ds rest : List ℕ)
      → value 0 (d ∷ ds) ≡ n
      → AllDigits (d ∷ ds)
      → Holds eintr p (ds ++ rest)
      → NoDigit rest
      → suc (length p.input) < fuel
      → length ds < fuel
      → (p' : InPort) × (read_signed fuel eintr einval (some d) p
          ≡ some (reading (pos n) false (pos 0), p'))
        × Holds eintr p' rest
        × (length p'.input ≤ suc (length p.input))
  unfolding read_signed
  read_signed-pos einval p n d ds rest e a h nd f l =
      let nm : (d == b'-') ≡ false = ground (arith, a.0) in
      let (p', run, h', fewer) = read_number-value einval false p d ds rest h a nd f l in
      (p', rw (nm, run, e), h', fewer)

  pub read_signed-neg :
      (einval : ℤ) (p : InPort) (n d : ℕ) (ds rest : List ℕ)
      → value 0 (d ∷ ds) ≡ suc n
      → AllDigits (d ∷ ds)
      → Holds eintr p ((d ∷ ds) ++ rest)
      → NoDigit rest
      → suc (length p.input) < fuel
      → length ds < fuel
      → (p' : InPort) × (read_signed fuel eintr einval (some b'-') p
          ≡ some (reading (negsuc n) false (pos 0), p'))
        × Holds eintr p' rest
        × (length p'.input ≤ suc (length p.input))
  unfolding read_signed
  read_signed-neg einval p n d ds rest e a h nd f l =
      let (p1, run1, h1, fewer) = next_char-Holds fuel eintr p (d ∷ (ds ++ rest)) h f in
      let (p', run, h', fewer') =
        read_number-value einval true p1 d ds rest h1 a nd (omega (arith, fewer)) l in
      (p', rw (run1, run, e, signed-suc n), h', omega (arith, fewer, fewer'))

  pub skip_space-start :
      (k : ℕ) (p : InPort) (spaces : List ℕ) (c : ℕ) (rest : List ℕ)
      → AllSpaces spaces
      → Starts c
      → Holds eintr p (spaces ++ (c ∷ rest))
      → suc (length p.input) < fuel
      → length spaces < k
      → (p' : InPort) × (skip_space k fuel eintr p ≡ some (some c, p'))
        × Holds eintr p' rest
        × (length p'.input ≤ length p.input)
  unfolding skip_space
  skip_space-start zero p spaces c rest a start h f l = absurd (omega arith)
  skip_space-start (suc k) p [] c rest a start h f l =
      let (p', run, h', fewer) = next_char-Holds fuel eintr p (c ∷ rest) h f in
      (p', rw (run, skip_space, start), h', fewer)
  skip_space-start (suc k) p (s ∷ spaces) c rest a start h f l =
      let (p1, run1, h1, fewer1) = next_char-Holds fuel eintr p (s ∷ (spaces ++ (c ∷ rest))) h f in
      let (p', run, h', fewer) =
        skip_space-start k p1 spaces c rest a.1 start h1 (omega (arith, fewer1)) (omega arith) in
      (p', rw (run1, skip_space, a.0) run, h', omega (arith, fewer1, fewer))

length-bytes : (items : List Item) → length (bytes items) ≤ length items
unfolding bytes
length-bytes [] = omega arith
length-bytes (byte c ∷ rest) = omega (arith, length-bytes rest)
length-bytes (failure e ∷ rest) = omega (arith, length-bytes rest)

pub Holds-length :
    (eintr : ℤ) (p : InPort) (cs rest : List ℕ)
    → Holds eintr p (cs ++ rest)
    → length cs ≤ length p.input
Holds-length eintr p cs rest h =
    let same : length (bytes p.input) ≡ length cs + length rest =
      ap length h.text ∙ length-append cs rest in
    omega (arith, length-bytes p.input, same)
