-- ===== src/Image/Header/Accept.antt =====
-- `check_image_header` of c/scheme48heap.c accepts a file with a header of its own kind.
use native.Mathlib.Nat.{pow-le-pow_right}
use kali_scheme.Prelude.{
  ℕ, suc, ◌+◌, ◌^◌, ◌≤◌, ◌<◌, ◌≡◌, refl, ◌∙◌, true, Option, some, List, [], ◌∷◌, ◌++◌, arith,
  length, bind-some,
}
use kali_scheme.Prelude.Int.{ℤ, pos, negsuc, sub_ℕ}
use kali_scheme.Io.Stdio.{InPort}
use kali_scheme.Io.Read.{Holds}
use kali_scheme.Io.Parse.{Holds-length, AllSpaces}
use kali_scheme.Io.Decimal.{decimal, magnitude}
use kali_scheme.Io.RoundTrip.{ps_read_integer-decimal}
use kali_scheme.Image.Header.{
  Image, Message, architecture_version, page, newline, noted, read_until, read_version, read_field,
  read_fields, cells_address, read_header, judge_header, check_image_header,
}
use kali_scheme.Image.Header.Text.{Without, reading_image, skip_to-Holds, match_version-Holds}

module _ (fuel : ℕ) (eintr einval : ℤ) (b e : ℕ) (proc : ℤ) where
  read_until-Holds :
      (p : InPort) (c : ℕ) (cs rest : List ℕ)
      → Without c cs
      → Holds eintr p (cs ++ (c ∷ rest))
      → suc (length p.input) < fuel
      → (p' : InPort) × (read_until fuel eintr c (reading_image b e proc p)
          ≡ some (reading_image b e proc p'))
        × Holds eintr p' rest
        × (length p'.input ≤ length p.input)
  unfolding read_until noted
  read_until-Holds p c cs rest w h f =
      let (p', run, h', fewer) =
        skip_to-Holds fuel eintr fuel p c cs rest w h f
          (omega (arith, f, Holds-length eintr p cs (c ∷ rest) h)) in
      (p', rw (run, read_until, noted), h', fewer)

  read_version-Holds :
      (p : InPort) (rest : List ℕ)
      → Holds eintr p (architecture_version ++ (newline ∷ rest))
      → suc (length p.input) < fuel
      → (p' : InPort) × (read_version fuel eintr (reading_image b e proc p)
          ≡ some (true, reading_image b e proc p'))
        × Holds eintr p' rest
        × (length p'.input ≤ length p.input)
  unfolding read_version noted
  read_version-Holds p rest h f =
      let (p', run, h', fewer) = match_version-Holds fuel eintr p architecture_version rest h f in
      (p', rw (run, read_version, noted), h', fewer)

  read_field-Holds :
      (p : InPort) (z : ℤ) (spaces rest : List ℕ)
      → Holds eintr p (spaces ++ (decimal z ++ (newline ∷ rest)))
      → AllSpaces spaces
      → magnitude z < 2 ^ 63
      → suc (length p.input) < fuel
      → (p' : InPort) × (read_field fuel eintr einval (reading_image b e proc p)
          ≡ some (z, reading_image b e proc p'))
        × Holds eintr p' (newline ∷ rest)
        × (length p'.input ≤ suc (length p.input))
  unfolding read_field noted
  read_field-Holds p z spaces rest h sp small f =
      let r =
        ps_read_integer-decimal fuel eintr einval z p spaces (newline ∷ rest) h sp refl small f in
      (r.after, rw (r.run, read_field, noted), r.holds, r.fewer)

-- The lines of the numbers of a header, and the form feed.
abbrev pub field_lines : (begin hp proc : ℤ) → List ℕ → List ℕ
field_lines begin hp proc rest =
    decimal (pos 4)
    ++ (newline
        ∷ (decimal begin
            ++ (newline ∷ (decimal hp ++ (newline ∷ (decimal proc ++ (newline ∷ rest)))))))

field-lt : magnitude (pos 4) < 2 ^ 63
field-lt = omega arith

module _ (fuel : ℕ) (eintr einval : ℤ) (p : InPort) (begin hp proc : ℤ) (rest : List ℕ) where
  read_fields-Holds :
      (b e : ℕ) (v : ℤ)
      → Holds eintr p (field_lines begin hp proc rest)
      → magnitude begin < 2 ^ 63
      → magnitude hp < 2 ^ 63
      → magnitude proc < 2 ^ 63
      → length p.input + 4 < fuel
      → (p' : InPort) × (read_fields fuel eintr einval (reading_image b e v p)
          ≡ some (pos 4, reading_image (cells_address begin) (cells_address hp) proc p'))
        × Holds eintr p' (newline ∷ rest)
        × (length p'.input ≤ 4 + length p.input)
  unfolding read_fields
  read_fields-Holds b e v h sb sh sp f =
      let (p₄, run₄, h₄, l₄) =
        read_field-Holds fuel eintr einval b e v p (pos 4) [] _ h tt field-lt (omega arith) in
      let f₄ : length p₄.input + 3 < fuel = omega arith in
      let (p₅, run₅, h₅, l₅) =
        read_field-Holds fuel eintr einval b e v p₄ begin (newline ∷ []) _ h₄ (refl, tt) sb
          (omega arith) in
      let f₅ : length p₅.input + 2 < fuel = omega arith in
      let (p₆, run₆, h₆, l₆) =
        read_field-Holds fuel eintr einval (cells_address begin) e v p₅ hp (newline ∷ []) _ h₅
          (refl, tt) sh (omega arith) in
      let (p₇, run₇, h₇, l₇) =
        read_field-Holds fuel eintr einval (cells_address begin) (cells_address hp) v p₆ proc
          (newline ∷ []) _ h₆ (refl, tt) sp (omega arith) in
      (
        p₇,
        bind-some _ run₄ ∙ bind-some _ run₅ ∙ bind-some _ run₆ ∙ bind-some _ run₇,
        h₇,
        omega (arith, l₄, l₅, l₆, l₇),
      )

-- A file that starts with `before` and a form feed, a line `line`, the version and the numbers.
abbrev pub header_text : (before line : List ℕ) (begin hp proc : ℤ) → List ℕ → List ℕ
header_text before line begin hp proc cells =
    before
    ++ (page
        ∷ (line
            ++ (newline
                ∷ (architecture_version ++ (newline ∷ field_lines begin hp proc (page ∷ cells))))))

-- The numbers of so many bits and a sign.
abbrev pub InBits : (width : ℕ) → ℤ → Type 0
InBits width (pos n) = n < 2 ^ width
InBits width (negsuc n) = n < 2 ^ width

InBits-magnitude : (width : ℕ) (z : ℤ) → width ≤ 31 → InBits width z → magnitude z < 2 ^ 63
InBits-magnitude width (pos n) le h =
    let most : 2 ^ width ≤ 2 ^ 31 = pow-le-pow_right (omega arith) le in omega (arith, most, h)
InBits-magnitude width (negsuc n) le h =
    let most : 2 ^ width ≤ 2 ^ 31 = pow-le-pow_right (omega arith) le in omega (arith, most, h)

-- What the check of a header leaves: the length of the cells, no message, the addresses, and a
-- stream that goes on with the cells.
pub record Accepted (eintr begin hp proc : ℤ) (cells : List ℕ)
    (r : Option (ℤ × List Message × Image)) : Type 0 where
  pub port : InPort
  pub run :
      r
      ≡ some (
        sub_ℕ (cells_address hp) (cells_address begin),
        [],
        reading_image (cells_address begin) (cells_address hp) proc port,
      )
  pub holds : Holds eintr port cells

module _ (fuel : ℕ) (eintr einval : ℤ) (p : InPort) (before line : List ℕ) (begin hp proc : ℤ)
    (cells : List ℕ) where
  read_header-Holds :
      (b e : ℕ) (v : ℤ)
      → Without page before
      → Without newline line
      → Holds eintr p (header_text before line begin hp proc cells)
      → magnitude begin < 2 ^ 63
      → magnitude hp < 2 ^ 63
      → magnitude proc < 2 ^ 63
      → length p.input + 5 < fuel
      → (p' : InPort) × (read_header fuel eintr einval (reading_image b e v p)
          ≡ some (true, pos 4, reading_image (cells_address begin) (cells_address hp) proc p'))
        × Holds eintr p' cells
  unfolding read_header
  read_header-Holds b e v nb nl h sb sh sp f =
      let (p₁, run₁, h₁, l₁) =
        read_until-Holds fuel eintr einval b e v p page before _ nb h (omega arith) in
      let (p₂, run₂, h₂, l₂) =
        read_until-Holds fuel eintr einval b e v p₁ newline line _ nl h₁ (omega (arith, l₁)) in
      let (p₃, run₃, h₃, l₃) =
        read_version-Holds fuel eintr einval b e v p₂ _ h₂ (omega (arith, l₁, l₂)) in
      let (p₇, run₇, h₇, l₇) =
        read_fields-Holds fuel eintr einval p₃ begin hp proc (page ∷ cells) b e v h₃ sb sh sp
          (omega (arith, l₁, l₂, l₃)) in
      let (p₈, run₈, h₈, l₈) =
        read_until-Holds fuel eintr einval (cells_address begin) (cells_address hp) proc p₇ page
          (newline ∷ []) cells (refl, tt) h₇ (omega (arith, l₁, l₂, l₃, l₇)) in
      (
        p₈,
        bind-some _ run₁
            ∙ bind-some _ run₂
            ∙ bind-some _ run₃
            ∙ bind-some _ run₇
            ∙ bind-some _ run₈,
        h₈,
      )

  -- A file, with no failure but interruptions, in which text without a form feed, a form feed, a
  -- line, the line "Kali 19", the line "4" and the decimals of the start and the end of the cells
  -- and of the startup procedure, each on a line, come before a form feed, with the counts of cells
  -- from -2^29 up to below 2^29 and the procedure from -2^31 up to below 2^31, the `long`s of 4 bytes,
  -- is accepted by `check_image_header`: the result is the distance of the end from the start, the
  -- addresses and the startup procedure are the file's, nothing is written on stderr, and the
  -- stream goes on behind the last form feed. There is fuel for six more rounds than there are items.
  pub check_image_header-Accepted :
      (edom : ℤ) (fclosed : Option ℤ) (s : Image)
      → Without page before
      → Without newline line
      → Holds eintr p (header_text before line begin hp proc cells)
      → InBits 29 begin
      → InBits 29 hp
      → InBits 31 proc
      → length p.input + 5 < fuel
      → Accepted eintr begin hp proc cells
          (check_image_header fuel eintr einval edom (p, pos 0) fclosed s)
  unfolding check_image_header judge_header
  check_image_header-Accepted edom fclosed s nb nl h sb sh sp f =
      let (p', run, h') =
        read_header-Holds s.old_begin s.old_hp s.startup_proc nb nl h
          (InBits-magnitude 29 begin (omega arith) sb) (InBits-magnitude 29 hp (omega arith) sh)
          (InBits-magnitude 31 proc (omega arith) sp) f in
      record { port = p'; run = bind-some _ run; holds = h' }
