-- ===== src/Image/Tests.antt =====
-- Examples for the images of c/scheme48heap.c.
use kali_scheme.Prelude.{
  ◌≡◌, ◌⊎◌, inr, refl, arith, false, true, none, some, List, [], ◌∷◌, ◌++◌, map, ℕ, ◌==◌,
  if◌then◌else◌,
}
use kali_scheme.Prelude.Int.{ℤ, pos, minus_one, sub_ℕ}
use kali_scheme.Io.Stdio.{byte, failure, InPort, OutPort, getc, clearerr, putc, clear_out, fwrite}
use kali_scheme.Io.Reader.{read_char, ps_read_char, at_eof}
use kali_scheme.Io.Writer.{write_char, write_integer, ps_write_integer}
use kali_scheme.Io.Strings.{ps_write_string}
use kali_scheme.Io.Open.{ps_close}
use kali_scheme.Io.Decimal.{decimal, digits}
use kali_scheme.Io.Read.{bytes, Holds}
use kali_scheme.Heap.Memory.{Memory, load}
use kali_scheme.Image.Header.{
  Image, premature_eof, error_string, judge_header, read_header, read_fields, read_until,
  read_version, read_field, skip_to, match_version, get_char, noted, as_long, cells_address,
  newline, check_image_header,
}
use kali_scheme.Image.Header.Text.{reading_image}
use kali_scheme.Image.Header.Accept.{Accepted, header_text, check_image_header-Accepted}
use kali_scheme.Image.Header.Errors.{blames_read, check_image_header-Unnoticed}
use kali_scheme.Image.Read.{swap_word, relocate, correct_order}
use kali_scheme.Image.Read.Relocate.{Moved, relocate-Moved}
use kali_scheme.Image.Read.Order.{contents, slot, area_end, Corrected, correct_order-Corrected}
use kali_scheme.Image.Write.{write_all, header_writes, restore}
use kali_scheme.Image.Write.Restore.{at_end, moved, Restored, restore-Restored}
use kali_scheme.Image.Write.Header.{check_image_header-header_writes}

abbrev eintr : ℤ
eintr = pos 4

abbrev stream : List ℕ → InPort
stream cs = record { input = map byte cs; failed = false; ended = false; errno = pos 0 }

abbrev blank : Image
blank = record {
  status = pos 0;
  eofp = false;
  old_begin = 0;
  old_hp = 0;
  startup_proc = pos 0;
  port = stream [];
}

-- Cells from 8 to 16, with the startup procedure 15.
abbrev file : InPort
file = stream (header_text (b'#' ∷ newline ∷ []) [] (pos 2) (pos 4) (pos 15) (1 ∷ 0 ∷ []))

file-Holds :
    Holds eintr file (header_text (b'#' ∷ newline ∷ []) [] (pos 2) (pos 4) (pos 15) (1 ∷ 0 ∷ []))
unfolding bytes decimal digits
file-Holds = record { only = tt; text = refl; fine = refl }

check_image_header-Accepted_example :
    Accepted eintr
      (pos 2)
      (pos 4)
      (pos 15)
      (1 ∷ 0 ∷ [])
      (check_image_header 60 eintr (pos 22) (pos 33) (file, pos 0) none blank)
unfolding decimal digits
check_image_header-Accepted_example =
    check_image_header-Accepted 60 eintr (pos 22) file (b'#' ∷ newline ∷ []) [] (pos 2) (pos 4)
      (pos 15) (1 ∷ 0 ∷ []) (pos 33) none blank (refl, (refl, tt)) tt file-Holds (omega arith)
      (omega arith) (omega arith) (omega arith)

-- The writes go behind "#" and a newline.
abbrev script : OutPort
script = record { output = b'#' ∷ newline ∷ []; faults = []; failed = false; errno = pos 0 }

abbrev written : OutPort
written = record script {
  output = (b'#' ∷ newline ∷ []) ++ header_text (newline ∷ []) [] (pos 2) (pos 4) (pos 15) [];
}

check_image_header-header_writes_example :
    (pos 0 ≡ pos 0)
    × ((port : InPort) × (check_image_header 60 eintr
            (pos 22)
            (pos 33)
            (stream (written.output ++ (1 ∷ 0 ∷ [])), pos 0)
            none
            blank
          ≡ some (sub_ℕ 16 8, [], reading_image 8 16 (as_long 15) port))
        × Holds eintr port (1 ∷ 0 ∷ []))
unfolding bytes decimal digits write_all header_writes write_char ps_write_integer write_integer
    putc clear_out ps_write_string fwrite
check_image_header-header_writes_example =
    check_image_header-header_writes 59 eintr (pos 22) (pos 33) 8 16 15 (1 ∷ 0 ∷ []) script written
      (pos 0) (stream (written.output ++ (1 ∷ 0 ∷ []))) none blank (omega arith) (omega arith)
      (omega arith) refl refl refl (refl, (refl, tt)) refl
      (record { only = tt; text = refl; fine = refl }) (omega arith)

-- A file that cannot be read.
abbrev unreadable : InPort
unreadable = record { input = failure (pos 5) ∷ []; failed = false; ended = false; errno = pos 0 }

check_image_header-Unnoticed_example :
    ((pos 33 ≡ pos 0) ⊎ (pos 33 ≡ pos 33))
    × (blames_read (premature_eof ∷ error_string (pos 33) ∷ []) ≡ false)
unfolding check_image_header judge_header read_header read_fields read_until read_version read_field
    skip_to match_version get_char noted ps_read_char read_char at_eof getc clearerr ps_close
check_image_header-Unnoticed_example =
    check_image_header-Unnoticed 9 eintr (pos 22) (pos 33) unreadable none blank
      (record blank {
        status = pos 33;
        eofp = true;
        old_begin = cells_address minus_one;
        old_hp = cells_address minus_one;
        startup_proc = minus_one;
        port = record unreadable { input = []; errno = pos 5 };
      })
      minus_one (premature_eof ∷ error_string (pos 33) ∷ []) refl

-- An object of 4 bytes behind a header at 1000, with its copy behind a header at 1040.
abbrev before_copy : Memory
before_copy x = if x == 1000 then 2 else (if x == 1001 then 4 else 0)

abbrev after_copy : Memory
after_copy x =
    if x == 1000
    then 23
    else (if x == 1001 then 4 else (if x == 1040 then 2 else (if x == 1041 then 4 else 0)))

restore-Restored_example :
    Restored after_copy before_copy 1000 1008 (restore 9 1000 1008 after_copy)
unfolding load
restore-Restored_example =
    restore-Restored 9 1000 1000 1008 after_copy before_copy (λ x. ground arith) (omega arith)
      (moved 1000 (omega arith) refl refl (inr (omega arith)) (λ x lo hi. ground arith)
        (at_end 1008 (omega arith)))
      (omega arith)

-- At 8 stand the header of a string of 4 bytes and its contents, which look like an address, and at
-- 16 an address.
abbrev image_cells : Memory
image_cells x =
    if x == 8
    then 78
    else (if x == 9 then 4 else (if x == 12 then 15 else (if x == 16 then 15 else 0)))

relocate-Moved_example : Moved 992 image_cells 8 20 (relocate 13 992 8 20 image_cells)
relocate-Moved_example =
    relocate-Moved 13 992 8 20 image_cells (λ x. ground arith) refl refl refl (omega arith)

-- The same cells in the other order.
abbrev foreign_cells : Memory
foreign_cells x =
    if x == 11
    then 78
    else (if x == 10 then 4 else (if x == 12 then 15 else (if x == 19 then 15 else 0)))

correct_order-Corrected_example :
    Corrected image_cells foreign_cells 8 20 (correct_order 13 8 20 foreign_cells)
unfolding load swap_word
correct_order-Corrected_example =
    correct_order-Corrected 13 8 20 image_cells foreign_cells refl refl
      (contents 8 (omega arith) refl (refl, refl, refl, refl) (λ x lo hi. ground (arith, lo, hi))
        (slot 16 (omega arith) refl (refl, refl, refl, refl) (area_end 20 (omega arith))))
      (omega arith)
