-- ===== src/Image/Header.antt =====
-- `check_image_header` of c/scheme48heap.c. `eintr`, `einval` and `edom` are the platform's numbers
-- of errors; `none` is fuel that ran out in a loop over the characters of the file.
pub mod Text
pub mod Accept
pub mod Errors
use kali_scheme.Prelude.{
  ℕ, zero, suc, ◌+◌, ◌-◌, ◌*◌, ◌%◌, ◌^◌, Bool, true, false, Option, none, some, List, [], ◌∷◌, ◌++◌,
  ltb, ◌==◌, if◌then◌else◌, ◌>>=◌,
}
use kali_scheme.Prelude.Int.{ℤ, pos, negsuc, minus_one, sub_ℕ, eqb_ℤ}
use kali_scheme.Io.Stdio.{InPort, getc}
use kali_scheme.Io.Reader.{Reading, reading, ps_read_char, ps_read_integer}
use kali_scheme.Io.Open.{ps_close}

-- The static variables on the image, with the stream of `Simage_portS`.
pub record Image : Type 0 where
  pub status : ℤ
  pub eofp : Bool
  pub old_begin : ℕ
  pub old_hp : ℕ
  pub startup_proc : ℤ
  pub port : InPort

-- What is written on stderr.
pub data Message : Type 0 where
  cannot_open premature_eof bad_bytes_per_cell bad_format read_error close_error : Message
  few_bytes bad_byte_order heap_small extraneous_data correcting_order : Message
  error_string : ℤ → Message

-- "Kali 19".
abbrev pub architecture_version : List ℕ
architecture_version = b'K' ∷ b'a' ∷ b'l' ∷ b'i' ∷ b' ' ∷ b'1' ∷ b'9' ∷ []

abbrev pub page : ℕ
page = 12

abbrev pub newline : ℕ
newline = 10

-- The macro `PS_READ_CHAR`.
unfoldable pub get_char : ℕ → ℤ → InPort → Option (Reading ℕ × InPort)
get_char fuel eintr p = elim (getc p).0 [
  | some c ↦ some (reading c false (pos 0), (getc p).1)
  | none ↦ ps_read_char fuel eintr false (getc p).1
]

-- What a read does to the image after its end of file and its status. The test is of the static
-- variable, as in the source.
abbrev pub note_read : Bool → ℤ → Image → Image
note_read eofp status s =
    if eofp
    then record s { eofp = true }
    else (if eqb_ℤ s.status (pos 0) then s else record s { eofp = true; status = status })

-- The characters up to `c`: whether the file ended, and the status.
unfoldable pub skip_to : ℕ → ℕ → ℤ → ℕ → InPort → Option (Reading Bool × InPort)
unfolding get_char
skip_to zero fuel eintr c p = none
skip_to (suc k) fuel eintr c p = elim (get_char fuel eintr p) [
  | none ↦ none
  | some (r, p') ↦ elim r.eofp [
    | true ↦ some (reading false r.eofp r.status, p')
    | false ↦ elim (eqb_ℤ r.status (pos 0)) [
      | false ↦ some (reading false r.eofp r.status, p')
      | true ↦ elim (c == r.value) [
        | true ↦ some (reading true false r.status, p')
        | false ↦ skip_to k fuel eintr c p'
      ]
    ]
  ]
]

-- A read into the image.
unfoldable pub noted :
    {A : Type 0} → Option (Reading A × InPort) → Image → Option (Reading A × Image)
noted none s = none
noted (some (r, p)) s = some (r, note_read r.eofp r.status (record s { port = p }))

unfoldable pub read_until : ℕ → ℤ → ℕ → Image → Option Image
unfolding skip_to noted
read_until fuel eintr c s =
    if s.eofp
    then some s
    else elim (noted (skip_to fuel fuel eintr c s.port) s) [ none ↦ none | some (r, s') ↦ some s' ]

-- The rest of the version, and a newline behind it.
unfoldable pub match_version : ℕ → ℤ → List ℕ → InPort → Option (Reading Bool × InPort)
unfolding get_char
match_version fuel eintr [] p = elim (get_char fuel eintr p) [
  | none ↦ none
  | some (r, p') ↦ elim r.eofp [
    | true ↦ some (reading false r.eofp r.status, p')
    | false ↦
        some (
          reading (if eqb_ℤ r.status (pos 0) then newline == r.value else false) false r.status,
          p',
        )
  ]
]
match_version fuel eintr (c ∷ cs) p = elim (get_char fuel eintr p) [
  | none ↦ none
  | some (r, p') ↦ elim r.eofp [
    | true ↦ some (reading false r.eofp r.status, p')
    | false ↦ elim (eqb_ℤ r.status (pos 0)) [
      | false ↦ some (reading false r.eofp r.status, p')
      | true ↦ elim (r.value == c) [
        | true ↦ match_version fuel eintr cs p'
        | false ↦ some (reading false false r.status, p')
      ]
    ]
  ]
]

-- Whether a read ended with the file or, by the static variable, with an error.
abbrev pub lost : {A : Type 0} → Reading A → Image → Bool
lost r s = if r.eofp then true else (if eqb_ℤ s.status (pos 0) then false else true)

unfoldable pub read_version : ℕ → ℤ → Image → Option (Bool × Image)
unfolding match_version noted
read_version fuel eintr s =
    if s.eofp
    then some (false, s)
    else elim (noted (match_version fuel eintr architecture_version s.port) s) [
      | none ↦ none
      | some (r, s') ↦ some (if lost r s then false else r.value, s')
    ]

unfoldable pub read_field : ℕ → (eintr einval : ℤ) → Image → Option (ℤ × Image)
unfolding noted
read_field fuel eintr einval s =
    if s.eofp
    then some (minus_one, s)
    else elim (noted (ps_read_integer fuel eintr einval s.port) s) [
      | none ↦ none
      | some (r, s') ↦ some (if lost r s then minus_one else r.value, s')
    ]

-- The bit pattern of a `long` of 32 bits as a number.
abbrev pub as_long : ℕ → ℤ
as_long d = if ltb d (2 ^ 31) then pos d else negsuc (2 ^ 32 - 1 - d)

-- `(char *) (cells << 2)`: an address of 32 bits.
abbrev pub cells_address : ℤ → ℕ
cells_address (pos n) = n * 4 % 2 ^ 32
cells_address (negsuc n) = (2 ^ 32 - (n + 1) * 4 % 2 ^ 32) % 2 ^ 32

-- The four numbers of the header: the bytes of a cell, which are returned, and three fields.
unfoldable pub read_fields : ℕ → (eintr einval : ℤ) → Image → Option (ℤ × Image)
unfolding read_field
read_fields fuel eintr einval s = do
  (bytes_per_cell, s) ← read_field fuel eintr einval s
  (begin, s) ← read_field fuel eintr einval s
  (hp, s) ← read_field fuel eintr einval (record s { old_begin = cells_address begin })
  (proc, s) ← read_field fuel eintr einval (record s { old_hp = cells_address hp })
  some (bytes_per_cell, record s { startup_proc = proc })

-- The lines of the header, in their order: whether the version is this system's, the bytes of a
-- cell, and the image.
unfoldable pub read_header : ℕ → (eintr einval : ℤ) → Image → Option (Bool × ℤ × Image)
unfolding read_until read_version read_fields
read_header fuel eintr einval s = do
  s ← read_until fuel eintr page s
  s ← read_until fuel eintr newline s
  (same_version, s) ← read_version fuel eintr s
  (bytes_per_cell, s) ← read_fields fuel eintr einval s
  s ← read_until fuel eintr page s
  some (same_version, bytes_per_cell, s)

-- What is written when the image is not accepted; `fclosed` is what `fclose` gives.
abbrev pub refuse : Message → Option ℤ → Image → List Message
refuse message fclosed s =
    (message ∷ (if eqb_ℤ s.status (pos 0) then [] else error_string s.status ∷ []))
    ++ (if eqb_ℤ (ps_close fclosed) (pos 0) then [] else close_error ∷ [])

-- The result, what is written, and the image.
unfoldable pub judge_header : (edom : ℤ) → Option ℤ → Bool → ℤ → Image → ℤ × List Message × Image
judge_header edom fclosed same_version bytes_per_cell s =
    if eqb_ℤ s.status (pos 0)
    then (if s.eofp
        then (let s' = record s { status = edom } in
            (minus_one, refuse premature_eof fclosed s', s'))
        else (if same_version
            then (if eqb_ℤ (pos 4) bytes_per_cell
                then (sub_ℕ s.old_hp s.old_begin, [], s)
                else (minus_one, refuse bad_bytes_per_cell fclosed s, s))
            else (minus_one, refuse bad_format fclosed s, s)))
    else (minus_one, refuse read_error fclosed s, s)

-- `opened` is what `ps_open_input_file` gives: the stream, and the status.
unfoldable pub check_image_header :
    ℕ
    → (eintr einval edom : ℤ) → (opened : InPort × ℤ) → (fclosed : Option ℤ) → Image
    → Option (ℤ × List Message × Image)
unfolding read_header judge_header
check_image_header fuel eintr einval edom (port, status) fclosed s =
    if eqb_ℤ status (pos 0)
    then (do
      (same_version, bytes_per_cell, s') ←
          read_header fuel eintr einval (record s { status = pos 0; eofp = false; port = port })
      some (judge_header edom fclosed same_version bytes_per_cell s'))
    else some (minus_one, cannot_open ∷ error_string status ∷ [], s)
