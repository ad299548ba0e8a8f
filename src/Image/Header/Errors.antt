-- ===== src/Image/Header/Errors.antt =====
-- What `check_image_header` of c/scheme48heap.c makes of errors of its reads: it tests the static
-- variable `SstatusS` and not the status of the read, and so no read sets `SstatusS`.
use kali_scheme.Prelude.{
  ℕ, ◌≡◌, refl, sym, ap, subst, ◌⊎◌, inl, inr, Bool, true, false, Option, none, some, List, [], ◌∷◌,
  ◌++◌, ◌||◌, if◌then◌else◌, ◌>>=◌,
}
use kali_scheme.Prelude.Int.{ℤ, pos, minus_one, eqb_ℤ, sub_ℕ}
use kali_scheme.Io.Stdio.{InPort}
use kali_scheme.Io.Reader.{Reading, ps_read_integer}
use kali_scheme.Io.Open.{ps_close}
use kali_scheme.Image.Header.{
  Image, Message, premature_eof, bad_bytes_per_cell, bad_format, read_error, close_error,
  error_string, page, newline, architecture_version, note_read, skip_to, noted, read_until,
  match_version, read_version, read_field, read_fields, read_header, judge_header, refuse,
  cells_address, check_image_header,
}

some-injective : {A : Type 0} → {a b : A} → some a ≡ some b → a ≡ b
some-injective e = cc

-- A result, if there is one, has an image without an error.
abbrev Fine : {A : Type 0} → (A → Image) → Option A → Type 0
Fine image none = Unit {0}
Fine image (some a) = (image a).status ≡ pos 0

Fine-bind :
    {A B : Type 0} (f : A → Image) (g : B → Image) (r : Option A) (k : A → Option B)
    → Fine f r
    → ((a : A) → (f a).status ≡ pos 0 → Fine g (k a))
    → Fine g (r >>= k)
Fine-bind f g none k fine next = tt
Fine-bind f g (some a) k fine next = next a fine

note_read-fine :
    (eofp : Bool) (status : ℤ) (s : Image)
    → s.status ≡ pos 0
    → (note_read eofp status s).status ≡ pos 0
note_read-fine true status s fine = fine
note_read-fine false status s fine = rw fine

noted-Fine :
    {A : Type 0} (r : Option (Reading A × InPort)) (s : Image)
    → s.status ≡ pos 0
    → Fine (λ x. x.1) (noted r s)
unfolding noted
noted-Fine none s fine = tt
noted-Fine (some (r, p)) s fine = note_read-fine r.eofp r.status (record s { port = p }) fine

if-Fine :
    {A : Type 0} (image : A → Image) (b : Bool) (r r' : Option A)
    → Fine image r
    → Fine image r'
    → Fine image (if b then r else r')
if-Fine image true r r' fine fine' = fine
if-Fine image false r r' fine fine' = fine'

-- The last step of a read: another result, and the same image.
again-Fine :
    {A B : Type 0} (image : B → Image) (r : Option (A × Image)) (value : A → Image → B)
    → ((a : A) (s : Image) → image (value a s) ≡ s)
    → Fine {A = A × Image} (λ x. x.1) r
    → Fine image (elim r [ none ↦ none | some x ↦ some (value x.0 x.1) ])
again-Fine image none value same fine = tt
again-Fine image (some x) value same fine = rw (same x.0 x.1) fine

module _ (fuel : ℕ) (eintr einval : ℤ) where
  read_until-Fine :
      (c : ℕ) (s : Image) → s.status ≡ pos 0 → Fine (λ x. x) (read_until fuel eintr c s)
  unfolding read_until
  read_until-Fine c s fine =
      if-Fine (λ x. x) s.eofp (some s) _ fine
        (again-Fine (λ x. x) (noted (skip_to fuel fuel eintr c s.port) s) (λ a s'. s')
          (λ a s'. refl) (noted-Fine (skip_to fuel fuel eintr c s.port) s fine))

  read_version-Fine :
      (s : Image)
      → s.status ≡ pos 0
      → Fine {A = Bool × Image} (λ x. x.1) (read_version fuel eintr s)
  unfolding read_version
  read_version-Fine s fine =
      let r = noted (match_version fuel eintr architecture_version s.port) s in
      if-Fine {A = Bool × Image} (λ x. x.1) s.eofp (some (false, s)) _ fine
        (again-Fine {B = Bool × Image} (λ x. x.1) r _ (λ a s'. refl)
          (noted-Fine (match_version fuel eintr architecture_version s.port) s fine))

  read_field-Fine :
      (s : Image)
      → s.status ≡ pos 0
      → Fine {A = ℤ × Image} (λ x. x.1) (read_field fuel eintr einval s)
  unfolding read_field
  read_field-Fine s fine =
      let r = noted (ps_read_integer fuel eintr einval s.port) s in
      if-Fine {A = ℤ × Image} (λ x. x.1) s.eofp (some (minus_one, s)) _ fine
        (again-Fine {B = ℤ × Image} (λ x. x.1) r _ (λ a s'. refl)
          (noted-Fine (ps_read_integer fuel eintr einval s.port) s fine))

  read_fields-Fine :
      (s : Image)
      → s.status ≡ pos 0
      → Fine {A = ℤ × Image} (λ x. x.1) (read_fields fuel eintr einval s)
  unfolding read_fields
  read_fields-Fine s fine =
      let next = Fine-bind {A = ℤ × Image} {B = ℤ × Image} (λ x. x.1) (λ x. x.1) in
      next (read_field fuel eintr einval s) _ (read_field-Fine s fine) λ a fine.
        next (read_field fuel eintr einval a.1) _ (read_field-Fine a.1 fine) λ b fine.
          next _ _ (read_field-Fine (record b.1 { old_begin = cells_address b.0 }) fine) λ c fine.
            next _ _ (read_field-Fine (record c.1 { old_hp = cells_address c.0 }) fine)
              λ d fine. fine

  read_header-Fine :
      (s : Image)
      → s.status ≡ pos 0
      → Fine {A = Bool × ℤ × Image} (λ x. x.2) (read_header fuel eintr einval s)
  unfolding read_header
  read_header-Fine s fine =
      let image : Bool × ℤ × Image → Image = λ x. x.2 in
      Fine-bind {A = Image} (λ x. x) image _ _ (read_until-Fine page s fine)
        λ a fine.
          Fine-bind {A = Image} (λ x. x) image _ _ (read_until-Fine newline a fine)
            λ b fine.
              Fine-bind {A = Bool × Image} (λ x. x.1) image _ _ (read_version-Fine b fine)
                λ c fine.
                  Fine-bind {A = ℤ × Image} (λ x. x.1) image _ _ (read_fields-Fine c.1 fine)
                    λ d fine.
                      Fine-bind {A = Image} (λ x. x) image _ _ (read_until-Fine page d.1 fine)
                        λ e fine. fine

-- Whether one of the messages says that there was an error of a read.
abbrev is_read_error : Message → Bool
is_read_error read_error = true
is_read_error _ = false

abbrev pub blames_read : List Message → Bool
blames_read [] = false
blames_read (message ∷ messages) = is_read_error message || blames_read messages

messages-quiet :
    (message : Message) (a b : Bool) (e : ℤ)
    → is_read_error message ≡ false
    → blames_read (
        (message ∷ (if a then [] else error_string e ∷ [])) ++ (if b then [] else close_error ∷ []))
      ≡ false
messages-quiet message true true e quiet = rw quiet
messages-quiet message true false e quiet = rw quiet
messages-quiet message false true e quiet = rw quiet
messages-quiet message false false e quiet = rw quiet

-- What is said of a file that could be opened: no error of a read, and an error only at its end.
abbrev Unnoticed : ℤ → ℤ × List Message × Image → Type 0
Unnoticed edom (result, messages, s) =
    ((s.status ≡ pos 0) ⊎ (s.status ≡ edom)) × (blames_read messages ≡ false)

if-Unnoticed :
    (edom : ℤ) (b : Bool) (r r' : ℤ × List Message × Image)
    → Unnoticed edom r
    → Unnoticed edom r'
    → Unnoticed edom (if b then r else r')
if-Unnoticed edom true r r' u u' = u
if-Unnoticed edom false r r' u u' = u'

judge_header-Unnoticed :
    (edom : ℤ) (fclosed : Option ℤ) (same_version : Bool) (bytes_per_cell : ℤ) (s : Image)
    → s.status ≡ pos 0
    → Unnoticed edom (judge_header edom fclosed same_version bytes_per_cell s)
unfolding judge_header
judge_header-Unnoticed edom fclosed same_version bytes_per_cell s fine =
    let test : eqb_ℤ s.status (pos 0) ≡ true = ap (λ x. eqb_ℤ x (pos 0)) fine in
    let refused : Message → Image → ℤ × List Message × Image =
      λ message t. (minus_one, refuse message fclosed t, t) in
    let ended = refused premature_eof (record s { status = edom }) in
    let cells =
      if eqb_ℤ (pos 4) bytes_per_cell
      then (sub_ℕ s.old_hp s.old_begin, [], s)
      else refused bad_bytes_per_cell s in
    let version = if same_version then cells else refused bad_format s in
    let quiet = messages-quiet in
    let closed = eqb_ℤ (ps_close fclosed) (pos 0) in
    subst
      (λ b.
        Unnoticed edom (if b then (if s.eofp then ended else version) else refused read_error s))
      (sym test)
      (if-Unnoticed edom s.eofp ended version
        (inr refl, quiet premature_eof (eqb_ℤ edom (pos 0)) closed edom refl)
        (if-Unnoticed edom same_version cells (refused bad_format s)
          (if-Unnoticed edom (eqb_ℤ (pos 4) bytes_per_cell) (sub_ℕ s.old_hp s.old_begin, [], s)
            (refused bad_bytes_per_cell s) (inl fine, refl)
            (inl fine, quiet bad_bytes_per_cell (eqb_ℤ s.status (pos 0)) closed s.status refl))
          (inl fine, quiet bad_format (eqb_ℤ s.status (pos 0)) closed s.status refl)))

-- What `check_image_header` returns, if there is fuel for it, for a file that could be opened: the
-- static variable for the status is 0 or, at an early end of the file, EDOM, and the message on an
-- error of a read is not written, whatever errors the reads of the file have.
pub check_image_header-Unnoticed :
    (fuel : ℕ) (eintr einval edom : ℤ) (p : InPort) (fclosed : Option ℤ) (s s' : Image) (result : ℤ)
    (messages : List Message)
    → check_image_header fuel eintr einval edom (p, pos 0) fclosed s ≡ some (result, messages, s')
    → ((s'.status ≡ pos 0) ⊎ (s'.status ≡ edom)) × (blames_read messages ≡ false)
unfolding check_image_header
check_image_header-Unnoticed fuel eintr einval edom p fclosed s s' result messages run =
    judged (read_header fuel eintr einval (record s { status = pos 0; eofp = false; port = p }))
      (read_header-Fine fuel eintr einval (record s { status = pos 0; eofp = false; port = p })
        refl)
      run
  where
    judged :
        (r : Option (Bool × ℤ × Image))
        → Fine {A = Bool × ℤ × Image} (λ x. x.2) r
        → (r >>= (λ x. some (judge_header edom fclosed x.0 x.1 x.2))) ≡ some (result, messages, s')
        → Unnoticed edom (result, messages, s')
    judged none fine e = absurd (cc)
    judged (some x) fine e =
        subst (Unnoticed edom) (some-injective e)
          (judge_header-Unnoticed edom fclosed x.0 x.1 x.2 fine)
