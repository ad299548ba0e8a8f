-- ===== src/Io/Reader.antt =====
-- The input operations of c/unix/io.c on characters and integers. `eintr` and `einval` are the
-- platform's; a result `none` is fuel that ran out in a loop that tries again.
use kali_scheme.Prelude.{
  ℕ, zero, suc, ◌+◌, ◌-◌, ◌*◌, Bool, true, false, ◌&&◌, ◌||◌, Option, none, some, leb, ◌==◌,
  if◌then◌else◌,
}
use kali_scheme.Prelude.Int.{ℤ, pos, sub_ℕ, eqb_ℤ}
use kali_scheme.Io.Stdio.{InPort, getc, ungetc, clearerr}

-- `read_char`: after a `getc` that returned EOF.
unfoldable pub read_char : ℕ → ℤ → InPort → Option (Option ℕ × InPort)
read_char zero eintr p = none
read_char (suc k) eintr p = elim (p.failed && eqb_ℤ p.errno eintr) [
  | false ↦ some (none, p)
  | true ↦ elim (getc (clearerr p)).0 [
    | some c ↦ some (some c, (getc (clearerr p)).1)
    | none ↦ read_char k eintr (getc (clearerr p)).1
  ]
]

-- The macro `READ_CHAR`.
unfoldable pub next_char : ℕ → ℤ → InPort → Option (Option ℕ × InPort)
unfolding read_char
next_char fuel eintr p = elim (getc p).0 [
  | none ↦ read_char fuel eintr (getc p).1
  | some c ↦ some (some c, (getc p).1)
]

-- What a reading operation returns: its value, `*eofp` and `*status`.
pub record Reading (A : Type 0) : Type 0 where
  pub value : A
  pub eofp : Bool
  pub status : ℤ

abbrev pub reading : {A : Type 0} → A → Bool → ℤ → Reading A
reading a e st = record { value = a; eofp = e; status = st }

-- The end of a read that met EOF: an error, if the stream has one, or the end of the file.
unfoldable pub at_eof : {A : Type 0} → A → InPort → Reading A × InPort
at_eof a p =
    if p.failed then (reading a false p.errno, clearerr p) else (reading a true (pos 0), clearerr p)

unfoldable pub ps_read_char : ℕ → ℤ → Bool → InPort → Option (Reading ℕ × InPort)
unfolding read_char at_eof
ps_read_char fuel eintr peekp p = elim (read_char fuel eintr p) [
  | none ↦ none
  | some (some c, p') ↦ some (reading c false (pos 0), if peekp then ungetc c p' else p')
  | some (none, p') ↦ some (at_eof 0 p')
]

abbrev pub is_space : ℕ → Bool
is_space c = c == b' ' || c == 9 || c == 10

abbrev pub is_digit : ℕ → Bool
is_digit c = leb b'0' c && leb c b'9'

-- The first character that is no whitespace.
unfoldable pub skip_space : ℕ → ℕ → ℤ → InPort → Option (Option ℕ × InPort)
skip_space zero fuel eintr p = none
skip_space (suc k) fuel eintr p = elim (next_char fuel eintr p) [
  | none ↦ none
  | some (none, p') ↦ some (none, p')
  | some (some c, p') ↦ elim (is_space c) [
    | true ↦ skip_space k fuel eintr p'
    | false ↦ some (some c, p')
  ]
]

-- The loop over the digits: the number so far, and the character that ends it.
unfoldable pub read_digits : ℕ → ℕ → ℤ → ℕ → InPort → Option (ℕ × Option ℕ × InPort)
read_digits zero fuel eintr acc p = none
read_digits (suc k) fuel eintr acc p = elim (next_char fuel eintr p) [
  | none ↦ none
  | some (none, p') ↦ some (acc, none, p')
  | some (some c, p') ↦ elim (is_digit c) [
    | true ↦ read_digits k fuel eintr (10 * acc + (c - b'0')) p'
    | false ↦ some (acc, some c, p')
  ]
]

abbrev pub signed : Bool → ℕ → ℤ
signed negate n = if negate then sub_ℕ 0 n else pos n

unfoldable pub put_back : Option ℕ → InPort → InPort
put_back none p = p
put_back (some c) p = ungetc c p

-- From the first character behind the sign on.
unfoldable pub read_number :
    ℕ → (eintr einval : ℤ) → Bool → Option ℕ → InPort → Option (Reading ℤ × InPort)
read_number fuel eintr einval negate none p = some (at_eof (pos 0) p)
read_number fuel eintr einval negate (some c) p =
    if is_digit c
    then (elim (read_digits fuel fuel eintr (c - b'0') p) [
      | none ↦ none
      | some (n, last, p') ↦ some (reading (signed negate n) false (pos 0), put_back last p')
    ])
    else some (reading (pos 0) false einval, p)

-- The optional sign.
unfoldable pub read_signed :
    ℕ → (eintr einval : ℤ) → Option ℕ → InPort → Option (Reading ℤ × InPort)
read_signed fuel eintr einval none p = read_number fuel eintr einval false none p
read_signed fuel eintr einval (some c) p =
    if c == b'-'
    then (elim (next_char fuel eintr p) [
      | none ↦ none
      | some (ch, p') ↦ read_number fuel eintr einval true ch p'
    ])
    else read_number fuel eintr einval false (some c) p

-- A `long` is an integer here: a number that overflows it is undefined in C.
unfoldable pub ps_read_integer : ℕ → (eintr einval : ℤ) → InPort → Option (Reading ℤ × InPort)
ps_read_integer fuel eintr einval p = elim (skip_space fuel fuel eintr p) [
  | none ↦ none
  | some (ch, p') ↦ read_signed fuel eintr einval ch p'
]
