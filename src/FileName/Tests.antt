-- ===== src/FileName/Tests.antt =====
-- Examples for the model of c/unix/misc.c.
use kali_scheme.Prelude.{ℕ, Option, none, some, List, [], ◌∷◌}
use kali_scheme.FileName.{expand_file_name}
use kali_scheme.FileName.Expand.{Fits, expand_file_name-Fits}

-- Every name that is not empty is in the directory "/h".
abbrev lookup : List ℕ → Option (List ℕ)
lookup [] = none
lookup (c ∷ name) = some (b'/' ∷ b'h' ∷ [])

expand_file_name-Fits_example :
    Fits 4 (expand_file_name lookup lookup 4 (b'~' ∷ b'u' ∷ b'/' ∷ b'x' ∷ []))
expand_file_name-Fits_example =
    expand_file_name-Fits lookup lookup 4 (b'~' ∷ b'u' ∷ b'/' ∷ b'x' ∷ [])
