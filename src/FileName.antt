-- ===== src/FileName.antt =====
-- `expand_file_name` of c/unix/misc.c. A string is the list of its characters before the NUL;
-- `getenv` and `getpwnam` (here the directory of the user) are arguments, and `none` is NULL.
pub mod Expand
mod Tests
use kali_scheme.Prelude.{
  ℕ, zero, suc, ◌+◌, Bool, true, false, ◌||◌, Option, none, some, List, [], ◌∷◌, ◌++◌, length, ltb,
  ◌==◌, if◌then◌else◌,
}

abbrev pub user_name_size : ℕ
user_name_size = 256

-- The loop over the name up to a slash, from the index `i` on: that part, and what follows it.
unfoldable pub user_part : ℕ → List ℕ → Option (List ℕ × List ℕ)
user_part i [] = some ([], [])
user_part i (c ∷ name) =
    let more = user_part (suc i) name in
    if c == b'/'
    then some ([], c ∷ name)
    else (if ltb 254 i
        then none
        else (elim more [ none ↦ none | some (user, rest) ↦ some (c ∷ user, rest) ]))

-- The end of the function: the directory, if any, and the name are copied to the buffer.
unfoldable pub place : ℕ → Option (List ℕ) → List ℕ → Option (List ℕ)
place buffer_len (some dir) name =
    if ltb buffer_len (length name + length dir + 1) then none else some (dir ++ name)
place buffer_len none name = if ltb buffer_len (length name + 1) then none else some name

abbrev pub ends_user : List ℕ → Bool
ends_user [] = true
ends_user (c ∷ name) = c == b'/'

-- The branch behind a tilde.
unfoldable pub expand_user :
    (getenv getpwnam : List ℕ → Option (List ℕ)) → List ℕ → ℕ → List ℕ → Option (List ℕ)
unfolding place user_part
expand_user getenv getpwnam home buffer_len name =
    if ends_user name then place buffer_len (getenv home) name else (elim (user_part 0 name) [
      | none ↦ none
      | some (user, rest) ↦ elim (getpwnam user) [
        | none ↦ none
        | some dir ↦ place buffer_len (some dir) rest
      ]
    ])

-- The branch behind a dollar sign.
unfoldable pub expand_variable : (getenv : List ℕ → Option (List ℕ)) → ℕ → List ℕ → Option (List ℕ)
unfolding place user_part
expand_variable getenv buffer_len name = elim (user_part 0 name) [
  | none ↦ none
  | some (user, rest) ↦ place buffer_len (getenv user) rest
]

-- "HOME".
abbrev pub home_variable : List ℕ
home_variable = b'H' ∷ b'O' ∷ b'M' ∷ b'E' ∷ []

unfoldable pub expand_file_name :
    (getenv getpwnam : List ℕ → Option (List ℕ)) → ℕ → List ℕ → Option (List ℕ)
unfolding expand_user expand_variable place
expand_file_name getenv getpwnam buffer_len [] = place buffer_len none []
expand_file_name getenv getpwnam buffer_len (c ∷ name) =
    if c == b'~'
    then expand_user getenv getpwnam home_variable buffer_len name
    else (if c == b'$'
        then expand_variable getenv buffer_len name
        else place buffer_len none (c ∷ name))
