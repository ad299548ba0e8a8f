-- ===== src/Image/Write/Header.antt =====
-- `check_image_header` of c/scheme48heap.c accepts the header that `write_image` writes.
use mathlib.Core.List.{append_assoc}
use kali_scheme.Prelude.{
  ℕ, suc, ◌+◌, ◌%◌, ◌^◌, ◌<◌, ◌≡◌, refl, sym, ap, subst, ◌∙◌, inl, inr, Option, some, List, [], ◌∷◌,
  ◌++◌, arith, length, ltb, Bool-cases,
}
use kali_scheme.Prelude.Int.{ℤ, pos, sub_ℕ}
use kali_scheme.Io.Stdio.{InPort, OutPort}
use kali_scheme.Io.Writer.{write_char, ps_write_integer}
use kali_scheme.Io.Strings.{ps_write_string}
use kali_scheme.Io.Decimal.{decimal, magnitude}
use kali_scheme.Io.Read.{Holds}
use kali_scheme.Image.Header.{
  Image, as_long, architecture_version, page, newline, cells_address, check_image_header,
}
use kali_scheme.Image.Header.Text.{Without, reading_image}
use kali_scheme.Image.Header.Accept.{InBits, header_text, field_lines, check_image_header-Accepted}
use kali_scheme.Image.Write.{Write, write_all, address_cells, header_writes}
use kali_scheme.Image.Write.Steps.{
  Appends, Chain, Chain-Appends, write_char-Appends, ps_write_integer-Appends,
  ps_write_string-Appends,
}

as_long-lt : (d : ℕ) → d < 2 ^ 32 → magnitude (as_long d) < 2 ^ 63
as_long-lt d h = elim (Bool-cases (ltb d (2 ^ 31))) [
  | inl e ↦ rw e (ground (arith, e))
  | inr e ↦ rw e (ground arith)
]

address_cells-lt : (a : ℕ) → a < 2 ^ 32 → magnitude (address_cells a) < 2 ^ 63
address_cells-lt a h = elim (Bool-cases (ltb a (2 ^ 31))) [
  | inl e ↦ rw e (ground (arith, e))
  | inr e ↦ rw e (ground arith)
]

as_long-InBits : (d : ℕ) → d < 2 ^ 32 → InBits 31 (as_long d)
as_long-InBits d h = elim (Bool-cases (ltb d (2 ^ 31))) [
  | inl e ↦ rw e (ground (arith, e))
  | inr e ↦ rw e (ground (arith, e))
]

address_cells-InBits : (a : ℕ) → a < 2 ^ 32 → InBits 29 (address_cells a)
address_cells-InBits a h = elim (Bool-cases (ltb a (2 ^ 31))) [
  | inl e ↦ rw e (ground (arith, e))
  | inr e ↦ rw e (ground (arith, e))
]

-- An address of 32 bits at a whole cell comes back from its number of cells.
cells_address-address_cells : (a : ℕ) → a < 2 ^ 32 → a % 4 ≡ 0 → cells_address (address_cells a) ≡ a
cells_address-address_cells a h even = elim (Bool-cases (ltb a (2 ^ 31))) [
  | inl e ↦ rw e (ground (arith, e))
  | inr e ↦ rw e (ground (arith, e))
]

module _ (fuel : ℕ) (eintr : ℤ) (begin hp proc : ℕ) where
  abbrev steps : List (Write × List ℕ)
  steps =
      (write_char (suc fuel) eintr newline, newline ∷ [])
      ∷ (write_char (suc fuel) eintr page, page ∷ [])
      ∷ (write_char (suc fuel) eintr newline, newline ∷ [])
      ∷ (ps_write_string (suc fuel) eintr architecture_version, architecture_version)
      ∷ (write_char (suc fuel) eintr newline, newline ∷ [])
      ∷ (ps_write_integer (suc fuel) eintr (pos 4), decimal (pos 4))
      ∷ (write_char (suc fuel) eintr newline, newline ∷ [])
      ∷ (ps_write_integer (suc fuel) eintr (address_cells begin), decimal (address_cells begin))
      ∷ (write_char (suc fuel) eintr newline, newline ∷ [])
      ∷ (ps_write_integer (suc fuel) eintr (address_cells hp), decimal (address_cells hp))
      ∷ (write_char (suc fuel) eintr newline, newline ∷ [])
      ∷ (ps_write_integer (suc fuel) eintr (as_long proc), decimal (as_long proc))
      ∷ (write_char (suc fuel) eintr newline, newline ∷ [])
      ∷ (write_char (suc fuel) eintr page, page ∷ [])
      ∷ []

  steps-Chain : begin < 2 ^ 32 → hp < 2 ^ 32 → proc < 2 ^ 32 → Chain steps
  steps-Chain sb sh sp =
      let ch = write_char-Appends fuel eintr in
      let int = ps_write_integer-Appends fuel eintr in
      (
        ch newline,
        (
          ch page,
          (
            ch newline,
            (
              ps_write_string-Appends fuel eintr architecture_version,
              (
                ch newline,
                (
                  int (pos 4) (omega arith),
                  (
                    ch newline,
                    (
                      int (address_cells begin) (address_cells-lt begin sb),
                      (
                        ch newline,
                        (
                          int (address_cells hp) (address_cells-lt hp sh),
                          (
                            ch newline,
                            (int (as_long proc) (as_long-lt proc sp), (ch newline, (ch page, tt))),
                          ),
                        ),
                      ),
                    ),
                  ),
                ),
              ),
            ),
          ),
        ),
      )

  -- For addresses and a startup procedure below 2^32 and a stream whose writes do not fail, the
  -- writes of the header return status 0, and append a newline, a form feed, a newline, the version,
  -- the number 4, the number of cells in front of the start and the end of the cells and the startup
  -- procedure, each with a newline, and a form feed.
  pub header_writes-Appends :
      begin < 2 ^ 32
      → hp < 2 ^ 32
      → proc < 2 ^ 32
      → Appends
          (λ p. write_all (header_writes (suc fuel) eintr begin hp proc) (pos 0, p))
          (header_text (newline ∷ []) [] (address_cells begin) (address_cells hp) (as_long proc) [])
  unfolding header_writes
  header_writes-Appends sb sh sp = Chain-Appends steps (steps-Chain sb sh sp)

field_lines-append :
    (b h v : ℤ) (rest cells : List ℕ)
    → field_lines b h v rest ++ cells ≡ field_lines b h v (rest ++ cells)
field_lines-append b h v rest cells = rw (
  append_assoc (decimal (pos 4)) _ cells,
  append_assoc (decimal b) _ cells,
  append_assoc (decimal h) _ cells,
  append_assoc (decimal v) _ cells,
)

header_text-append :
    (out : List ℕ) (b h v : ℤ) (cells : List ℕ)
    → (out ++ header_text (newline ∷ []) [] b h v []) ++ cells
      ≡ header_text (out ++ (newline ∷ [])) [] b h v cells
header_text-append out b h v cells =
    append_assoc out _ cells
    ∙ ap (λ x. out ++ (newline ∷ (page ∷ (newline ∷ (architecture_version ++ (newline ∷ x))))))
        (field_lines-append b h v (page ∷ []) cells)
    ∙ sym (append_assoc out (newline ∷ []) _)

Without-append : (c : ℕ) (xs ys : List ℕ) → Without c xs → Without c ys → Without c (xs ++ ys)
Without-append c [] ys w w' = w'
Without-append c (x ∷ xs) ys w w' = (w.0, Without-append c xs ys w.1 w')

some-injective : {A : Type 0} → {a b : A} → some a ≡ some b → a ≡ b
some-injective e = cc

-- When the writes of the header by `write_image`, behind a text without a form feed, on a stream
-- whose writes do not fail, with fuel, for a start and an end of the cells below 2^32 and at
-- whole cells and a startup procedure below 2^32, end with a status and a stream, then the
-- status is 0, and a file without failures but interruptions that holds what was written, and
-- then the cells, is accepted by `check_image_header`, with fuel for six more rounds than the
-- file has items: the result is the distance of the end of the cells from their start, the
-- addresses and the startup procedure are those that were written, and the cells are left to be
-- read.
pub check_image_header-header_writes :
    (fuel : ℕ) (eintr einval edom : ℤ) (begin hp proc : ℕ) (cells : List ℕ) (p done : OutPort)
    (status : ℤ) (q : InPort) (fclosed : Option ℤ) (s : Image)
    → begin < 2 ^ 32
    → hp < 2 ^ 32
    → proc < 2 ^ 32
    → begin % 4 ≡ 0
    → hp % 4 ≡ 0
    → p.faults ≡ []
    → Without page p.output
    → write_all (header_writes (suc fuel) eintr begin hp proc) (pos 0, p) ≡ some (status, done)
    → Holds eintr q (done.output ++ cells)
    → length q.input + 4 < fuel
    → (status ≡ pos 0)
      × ((port : InPort) × (check_image_header (suc fuel) eintr einval edom (q, pos 0) fclosed s
            ≡ some (sub_ℕ hp begin, [], reading_image begin hp (as_long proc) port))
          × Holds eintr port cells)
check_image_header-header_writes fuel eintr einval edom begin hp proc cells p done status q fclosed
      s sb sh sp eb eh clean plain run holds f =
    let fits : length q.input + 5 < suc fuel = omega arith in
    let (p', wrote, text, _) = header_writes-Appends fuel eintr begin hp proc sb sh sp p clean in
    let same : (status, done) ≡ (pos 0, p') = some-injective (sym run ∙ wrote) in
    let out : done.output
        ≡ p.output
          ++ header_text (newline ∷ []) [] (address_cells begin) (address_cells hp) (as_long proc)
              [] =
      ap (λ r. r.1.output) same ∙ text in
    let file =
      ap (λ x. x ++ cells) out
      ∙ header_text-append p.output (address_cells begin) (address_cells hp) (as_long proc) cells in
    let read =
      check_image_header-Accepted (suc fuel) eintr einval q (p.output ++ (newline ∷ [])) []
        (address_cells begin) (address_cells hp) (as_long proc) cells edom fclosed s
        (Without-append page p.output (newline ∷ []) plain (refl, tt)) tt
        (subst (Holds eintr q) file holds) (address_cells-InBits begin sb)
        (address_cells-InBits hp sh) (as_long-InBits proc sp) fits in
    (
      ap (λ r. r.0) same,
      (
        read.port,
        read.run
            ∙ ap
                (λ a. some (
                  sub_ℕ (cells_address (address_cells hp)) a,
                  [],
                  reading_image a (cells_address (address_cells hp)) (as_long proc) read.port,
                ))
                (cells_address-address_cells begin sb eb)
            ∙ ap (λ a. some (sub_ℕ a begin, [], reading_image begin a (as_long proc) read.port))
                (cells_address-address_cells hp sh eh),
        read.holds,
      ),
    )
