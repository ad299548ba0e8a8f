-- ===== src/Image/Header/Text.antt =====
-- What `check_image_header` of c/scheme48heap.c reads from a stream that holds the text of a header.
use kali_scheme.Prelude.{
  ℕ, zero, suc, ◌≤◌, ◌<◌, ◌≡◌, true, false, Option, none, some, List, [], ◌∷◌, ◌++◌, arith, length,
  ◌==◌,
}
use kali_scheme.Prelude.Int.{ℤ, pos}
use kali_scheme.Io.Stdio.{InPort, getc}
use kali_scheme.Io.Reader.{reading, read_char, next_char, ps_read_char}
use kali_scheme.Io.Read.{Holds, next_char-Holds}
use kali_scheme.Image.Header.{Image, newline, get_char, skip_to, match_version}

-- The character `c` is not in the list.
abbrev pub Without : ℕ → List ℕ → Type 0
Without c [] = Unit {0}
Without c (x ∷ xs) = ((c == x) ≡ false) × Without c xs

-- An image with no error and no end of the file.
abbrev pub reading_image : (begin hp : ℕ) → ℤ → InPort → Image
reading_image begin hp proc p = record {
  status = pos 0;
  eofp = false;
  old_begin = begin;
  old_hp = hp;
  startup_proc = proc;
  port = p;
}

ps_read_char-some :
    (fuel : ℕ) (eintr : ℤ) (p p' : InPort) (c : ℕ)
    → read_char fuel eintr p ≡ some (some c, p')
    → ps_read_char fuel eintr false p ≡ some (reading c false (pos 0), p')
unfolding ps_read_char
ps_read_char-some fuel eintr p p' c run = rw (run, ps_read_char)

got-char :
    (fuel : ℕ) (eintr : ℤ) (g : Option ℕ) (q p' : InPort) (c : ℕ)
    → elim g [ none ↦ read_char fuel eintr q | some d ↦ some (some d, q) ] ≡ some (some c, p')
    → elim g [ some d ↦ some (reading d false (pos 0), q) | none ↦ ps_read_char fuel eintr false q ]
      ≡ some (reading c false (pos 0), p')
got-char fuel eintr none q p' c run = ps_read_char-some fuel eintr q p' c run
got-char fuel eintr (some d) q p' c run = cc

module _ (fuel : ℕ) (eintr : ℤ) where
  pub get_char-Holds :
      (p : InPort) (c : ℕ) (cs : List ℕ)
      → Holds eintr p (c ∷ cs)
      → suc (length p.input) < fuel
      → (p' : InPort) × (get_char fuel eintr p ≡ some (reading c false (pos 0), p'))
        × Holds eintr p' cs
        × (length p'.input ≤ length p.input)
  unfolding get_char next_char
  get_char-Holds p c cs h f =
      let (p', run, h', fewer) = next_char-Holds fuel eintr p (c ∷ cs) h f in
      (p', got-char fuel eintr (getc p).0 (getc p).1 p' c run, h', fewer)

  -- The text up to the character that is looked for.
  pub skip_to-Holds :
      (k : ℕ) (p : InPort) (c : ℕ) (cs rest : List ℕ)
      → Without c cs
      → Holds eintr p (cs ++ (c ∷ rest))
      → suc (length p.input) < fuel
      → length cs < k
      → (p' : InPort) × (skip_to k fuel eintr c p ≡ some (reading true false (pos 0), p'))
        × Holds eintr p' rest
        × (length p'.input ≤ length p.input)
  unfolding skip_to
  skip_to-Holds zero p c cs rest w h f l = absurd (omega arith)
  skip_to-Holds (suc k) p c [] rest w h f l =
      let (p', run, h', fewer) = get_char-Holds p c rest h f in
      let same : (c == c) ≡ true = ground arith in (p', rw (run, skip_to, same), h', fewer)
  skip_to-Holds (suc k) p c (x ∷ xs) rest w h f l =
      let (p₁, run, h₁, fewer) = get_char-Holds p x (xs ++ (c ∷ rest)) h f in
      let (p', run', h', fewer') =
        skip_to-Holds k p₁ c xs rest w.1 h₁ (omega (arith, fewer)) (omega arith) in
      (p', rw (run, skip_to, w.0) run', h', omega (arith, fewer, fewer'))

  pub match_version-Holds :
      (p : InPort) (cs rest : List ℕ)
      → Holds eintr p (cs ++ (newline ∷ rest))
      → suc (length p.input) < fuel
      → (p' : InPort) × (match_version fuel eintr cs p ≡ some (reading true false (pos 0), p'))
        × Holds eintr p' rest
        × (length p'.input ≤ length p.input)
  unfolding match_version
  match_version-Holds p [] rest h f =
      let (p', run, h', fewer) = get_char-Holds p newline rest h f in
      (p', rw (run, match_version), h', fewer)
  match_version-Holds p (c ∷ cs) rest h f =
      let (p₁, run, h₁, fewer) = get_char-Holds p c (cs ++ (newline ∷ rest)) h f in
      let same : (c == c) ≡ true = ground arith in
      let (p', run', h', fewer') = match_version-Holds p₁ cs rest h₁ (omega (arith, fewer)) in
      (p', rw (run, match_version, same) run', h', omega (arith, fewer, fewer'))
