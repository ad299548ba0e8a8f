-- ===== src/Io/Open.antt =====
-- The opening and closing of streams in c/unix/io.c. `fopen` and `fclose` are arguments.
use kali_scheme.Prelude.{ℕ, ◌≡◌, Option, none, some, List}
use kali_scheme.Prelude.Int.{ℤ, pos, minus_one}
use kali_scheme.FileName.{expand_file_name}
use kali_scheme.Fd.{Platform, Opened, ps_open_fd}

abbrev pub file_name_size : ℕ
file_name_size = 1024

-- `fopen`: a stream, or NULL with `errno`.
pub data Fopened : Type 0 where
  stream_of : ℕ → Fopened
  no_stream : ℤ → Fopened

-- `r` and `w`.
pub data Mode : Type 0 where
  read_mode write_mode : Mode

unfoldable pub after_fopen : Fopened → Option ℕ × ℤ
after_fopen (stream_of f) = (some f, pos 0)
after_fopen (no_stream e) = (none, e)

-- The stream, and what is stored in `*status`. `expand` is `expand_file_name` for a size.
unfoldable pub ps_really_open_file :
    (expand : ℕ → List ℕ → Option (List ℕ)) (fopen : List ℕ → Mode → Fopened) (edom : ℤ)
    → List ℕ
    → Mode
    → Option ℕ × ℤ
unfolding after_fopen
ps_really_open_file expand fopen edom filename mode = elim (expand file_name_size filename) [
  | none ↦ (none, edom)
  | some expanded ↦ after_fopen (fopen expanded mode)
]

unfoldable pub ps_open_input_file :
    (expand : ℕ → List ℕ → Option (List ℕ)) (fopen : List ℕ → Mode → Fopened) (edom : ℤ)
    → List ℕ
    → Option ℕ × ℤ
unfolding ps_really_open_file
ps_open_input_file expand fopen edom name = ps_really_open_file expand fopen edom name read_mode

unfoldable ps_open_output_file :
    (expand : ℕ → List ℕ → Option (List ℕ)) (fopen : List ℕ → Mode → Fopened) (edom : ℤ)
    → List ℕ
    → Option ℕ × ℤ
unfolding ps_really_open_file
ps_open_output_file expand fopen edom name = ps_really_open_file expand fopen edom name write_mode

-- `none` is the result 0 of `fclose`, and otherwise there is `errno`.
unfoldable pub ps_close : Option ℤ → ℤ
ps_close none = pos 0
ps_close (some e) = e

ps_really_open_file-rejected :
    (expand : ℕ → List ℕ → Option (List ℕ)) (fopen : List ℕ → Mode → Fopened) (edom : ℤ)
    (name : List ℕ) (mode : Mode)
    → expand file_name_size name ≡ none
    → ps_really_open_file expand fopen edom name mode ≡ (none, edom)
unfolding ps_really_open_file
ps_really_open_file-rejected expand fopen edom name mode e = rw (e, ps_really_open_file)

-- When `expand_file_name` rejects a name, both ways to open a stream store EDOM in `*status`, but
-- `ps_open_fd` returns -1 with `*status` as it was before.
ps_open_fd-unset :
    (getenv getpwnam : List ℕ → Option (List ℕ)) (fopen : List ℕ → Mode → Fopened) (edom : ℤ)
    (h : Platform) (status : ℤ) (answers : List ℕ → List Opened) (name : List ℕ)
    → expand_file_name getenv getpwnam file_name_size name ≡ none
    → (ps_open_input_file (expand_file_name getenv getpwnam) fopen edom name ≡ (none, edom))
      × (ps_open_output_file (expand_file_name getenv getpwnam) fopen edom name ≡ (none, edom))
      × (ps_open_fd h (expand_file_name getenv getpwnam file_name_size name) status answers
          ≡ some (minus_one, status))
unfolding ps_open_input_file ps_open_output_file ps_open_fd
ps_open_fd-unset getenv getpwnam fopen edom h status answers name e =
    let rejected =
      ps_really_open_file-rejected (expand_file_name getenv getpwnam) fopen edom name in
    (rejected read_mode e, rejected write_mode e, rw (e, ps_open_fd))
