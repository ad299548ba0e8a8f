-- ===== src/FileName/Expand.antt =====
-- What `expand_file_name` of c/unix/misc.c returns.
use kali_scheme.Prelude.{
  ℕ, suc, ◌+◌, ◌≤◌, ◌<◌, ◌≡◌, ◌≢◌, refl, true, false, inl, inr, Option, none, some, List, [], ◌∷◌,
  ◌++◌, length, length-append, arith, ltb, ◌==◌, Bool-cases, Option-cases,
}
use kali_scheme.FileName.{
  user_part, place, ends_user, expand_user, expand_variable, home_variable, expand_file_name,
}

-- No slash is in the text.
abbrev pub NoSlash : List ℕ → Type 0
NoSlash [] = Unit {0}
NoSlash (c ∷ cs) = ((c == b'/') ≡ false) × NoSlash cs

-- What a result in the buffer promises: with its NUL it fits.
abbrev pub Fits : ℕ → Option (List ℕ) → Type 0
Fits buffer_len none = Unit {0}
Fits buffer_len (some text) = length text < buffer_len

place-Fits :
    (buffer_len : ℕ) (dir : Option (List ℕ)) (name : List ℕ)
    → Fits buffer_len (place buffer_len dir name)
unfolding place
place-Fits buffer_len (some dir) name =
    elim (Bool-cases (ltb buffer_len (length name + length dir + 1))) [
      | inl big ↦ rw big tt
      | inr ok ↦ rw ok (ground (arith, length-append dir name))
    ]
place-Fits buffer_len none name = elim (Bool-cases (ltb buffer_len (length name + 1))) [
  | inl big ↦ rw big tt
  | inr ok ↦ rw ok (ground arith)
]

module _ (getenv getpwnam : List ℕ → Option (List ℕ)) (buffer_len : ℕ) where
  expand_variable-Fits : (name : List ℕ) → Fits buffer_len (expand_variable getenv buffer_len name)
  unfolding expand_variable
  expand_variable-Fits name = elim (Option-cases (user_part 0 name)) [
    | inl long ↦ rw (long, expand_variable) tt
    | inr ((user, rest), found) ↦
        rw (found, expand_variable) (place-Fits buffer_len (getenv user) rest)
  ]

  expand_user-Fits :
      (name : List ℕ) → Fits buffer_len (expand_user getenv getpwnam home_variable buffer_len name)
  unfolding expand_user
  expand_user-Fits name = elim (Bool-cases (ends_user name)) [
    | inl own ↦ rw own (place-Fits buffer_len (getenv home_variable) name)
    | inr other ↦ elim (Option-cases (user_part 0 name)) [
      | inl long ↦ rw (other, long) tt
      | inr ((user, rest), found) ↦ elim (Option-cases (getpwnam user)) [
        | inl unknown ↦ rw (other, found, unknown) tt
        | inr (dir, known) ↦ rw (other, found, known) (place-Fits buffer_len (some dir) rest)
      ]
    ]
  ]

  -- Whatever the name, the environment and the users are, what `expand_file_name` leaves in the
  -- buffer fits in it with its NUL.
  pub expand_file_name-Fits :
      (name : List ℕ) → Fits buffer_len (expand_file_name getenv getpwnam buffer_len name)
  unfolding expand_file_name
  expand_file_name-Fits [] = place-Fits buffer_len none []
  expand_file_name-Fits (c ∷ name) = elim (Bool-cases (c == b'~')) [
    | inl tilde ↦ rw tilde (expand_user-Fits name)
    | inr no_tilde ↦ elim (Bool-cases (c == b'$')) [
      | inl dollar ↦ rw (no_tilde, dollar) (expand_variable-Fits name)
      | inr plain ↦ rw (no_tilde, plain) (place-Fits buffer_len none (c ∷ name))
    ]
  ]

-- The part up to the slash is found, when with its NUL it fits in `user_name`.
user_part-splits :
    (i : ℕ) (user rest : List ℕ)
    → NoSlash user
    → ends_user rest ≡ true
    → i + length user ≤ 255
    → user_part i (user ++ rest) ≡ some (user, rest)
unfolding user_part
user_part-splits i [] [] ns e h = refl
user_part-splits i [] (c ∷ rest) ns e h = rw e
user_part-splits i (u ∷ user) rest ns e h =
    let small : ltb 254 i ≡ false = ground arith in
    rw (ns.0, small, user_part-splits (suc i) user rest ns.1 e (omega arith))

ends_user-append :
    (user rest : List ℕ) → NoSlash user → user ≢ [] → ends_user (user ++ rest) ≡ false
ends_user-append [] rest ns ne = absurd (ne refl)
ends_user-append (u ∷ user) rest ns ne = ns.0

module _ (getenv getpwnam : List ℕ → Option (List ℕ)) (buffer_len : ℕ)
    (user rest dir : List ℕ) where
  place-fits :
      length dir + length rest < buffer_len → place buffer_len (some dir) rest ≡ some (dir ++ rest)
  unfolding place
  place-fits h =
      let ok : ltb buffer_len (length rest + length dir + 1) ≡ false = ground arith in rw ok

  -- A name `~user/...` of a known user with at most 255 characters is expanded to the user's
  -- directory and the rest of the name, if that fits in the buffer.
  pub expand_file_name-user :
      NoSlash user
      → user ≢ []
      → length user ≤ 255
      → ends_user rest ≡ true
      → getpwnam user ≡ some dir
      → length dir + length rest < buffer_len
      → expand_file_name getenv getpwnam buffer_len (b'~' ∷ (user ++ rest)) ≡ some (dir ++ rest)
  unfolding expand_file_name expand_user
  expand_file_name-user ns ne len e known h = rw (
    ends_user-append user rest ns ne,
    expand_user,
    user_part-splits 0 user rest ns e (omega arith),
    known,
    place-fits h,
  )

  -- A name `$variable/...` of a set variable with at most 255 characters is expanded to the
  -- value and the rest of the name, if that fits in the buffer.
  pub expand_file_name-variable :
      NoSlash user
      → length user ≤ 255
      → ends_user rest ≡ true
      → getenv user ≡ some dir
      → length dir + length rest < buffer_len
      → expand_file_name getenv getpwnam buffer_len (b'$' ∷ (user ++ rest)) ≡ some (dir ++ rest)
  unfolding expand_file_name expand_variable
  expand_file_name-variable ns len e known h =
      rw (user_part-splits 0 user rest ns e (omega arith), expand_variable, known, place-fits h)
