-- ===== src/Heap/Trace/Sound.antt =====
-- Areas of the memory of c/scheme48heap.c whose words point to objects.
use kali_scheme.Prelude.{ℕ, ◌+◌, ◌≤◌, ◌<◌, ◌≡◌, sym, subst, ◌∙◌, Bool, true, false, arith}
use kali_scheme.Heap.Memory.{Memory, load, load-agree_all}
use kali_scheme.Heap.Space.{Space, round_up}
use kali_scheme.Heap.Copy.{header_length, data_address, is_old}
use kali_scheme.Heap.Trace.{has_bytes}

-- A descriptor that points to the old space points to an object.
abbrev pub Points : (ℕ → Bool) → Space → ℕ → Type 0
Points object s d = is_old s d ≡ true → object (data_address d) ≡ true

-- An area up to `end` whose words, with the contents of byte vectors left out, point to objects, if
-- they point to the old space.
pub data Sound (object : ℕ → Bool) (s : Space) (m : Memory) (end : ℕ) : ℕ → Type 0 where
  sound_end : (a : ℕ) → a ≡ end → Sound object s m end a
  sound_slot :
      (a : ℕ)
      → a + 4 ≤ end
      → has_bytes (load m a) ≡ false
      → Points object s (load m a)
      → Sound object s m end (a + 4)
      → Sound object s m end a
  sound_bytes :
      (a : ℕ)
      → a + 4 ≤ end
      → has_bytes (load m a) ≡ true
      → Sound object s m end (a + 4 + round_up (header_length (load m a)))
      → Sound object s m end a

pub Sound-agree :
    (object : ℕ → Bool) (s : Space) (m m' : Memory) (start end a : ℕ)
    → ((x : ℕ) → start ≤ x → x < end → m' x ≡ m x)
    → start ≤ a
    → Sound object s m end a
    → Sound object s m' end a
Sound-agree object s m m' start end a same low (sound_end _ e) = sound_end a e
Sound-agree object s m m' start end a same low (sound_slot _ le plain points rest) =
    let e : load m' a ≡ load m a =
      load-agree_all m m' a (λ x lo hi. same x (omega arith) (omega arith)) in
    sound_slot a le (rw e plain) (subst (Points object s) (sym e) points)
      (Sound-agree object s m m' start end (a + 4) same (omega arith) rest)
Sound-agree object s m m' start end a same low (sound_bytes _ le skip rest) =
    let e : load m' a ≡ load m a =
      load-agree_all m m' a (λ x lo hi. same x (omega arith) (omega arith)) in
    sound_bytes a le (rw e skip) (
      subst (λ d. Sound object s m' end (a + 4 + round_up (header_length d))) (sym e)
        (Sound-agree object s m m' start end _ same (omega arith) rest))

pub Sound-append :
    (object : ℕ → Bool) (s : Space) (m : Memory) (mid end a : ℕ)
    → mid ≤ end
    → Sound object s m mid a
    → Sound object s m end mid
    → Sound object s m end a
Sound-append object s m mid end a le (sound_end _ e) more =
    subst (Sound object s m end) (sym e) more
Sound-append object s m mid end a le (sound_slot _ lt plain points rest) more =
    sound_slot a (omega arith) plain points (Sound-append object s m mid end (a + 4) le rest more)
Sound-append object s m mid end a le (sound_bytes _ lt skip rest) more =
    sound_bytes a (omega arith) skip (Sound-append object s m mid end _ le rest more)

is_old-same :
    (s t : Space) (d : ℕ)
    → s.oldspace_begin ≡ t.oldspace_begin
    → s.oldspace_end ≡ t.oldspace_end
    → is_old s d ≡ is_old t d
is_old-same s t d b e = rw (b, e)

-- Only the limits of the old space matter.
pub Sound-same :
    (object : ℕ → Bool) (s t : Space) (m : Memory) (end a : ℕ)
    → s.oldspace_begin ≡ t.oldspace_begin
    → s.oldspace_end ≡ t.oldspace_end
    → Sound object t m end a
    → Sound object s m end a
Sound-same object s t m end a b e (sound_end _ h) = sound_end a h
Sound-same object s t m end a b e (sound_slot _ le plain points rest) =
    sound_slot a le plain (λ old. points (sym (is_old-same s t (load m a) b e) ∙ old))
      (Sound-same object s t m end (a + 4) b e rest)
Sound-same object s t m end a b e (sound_bytes _ le skip rest) =
    sound_bytes a le skip (Sound-same object s t m end _ b e rest)

-- A sound area does not start behind its end.
pub Sound-le :
    (object : ℕ → Bool) (s : Space) (m : Memory) (end a : ℕ) → Sound object s m end a → a ≤ end
Sound-le object s m end a (sound_end _ e) = omega arith
Sound-le object s m end a (sound_slot _ le _ _ rest) = omega arith
Sound-le object s m end a (sound_bytes _ le _ rest) = omega arith

-- The parts of a sound area.
pub sound-slot :
    (object : ℕ → Bool) (s : Space) (m : Memory) (end a : ℕ)
    → Sound object s m end a
    → a < end
    → has_bytes (load m a) ≡ false
    → Points object s (load m a) × Sound object s m end (a + 4)
sound-slot object s m end a (sound_end _ e) lt plain = absurd (omega arith)
sound-slot object s m end a (sound_slot _ le _ points rest) lt plain = (points, rest)
sound-slot object s m end a (sound_bytes _ le skip rest) lt plain = absurd (both skip plain)
  where
    both : {b : Bool} → b ≡ true → b ≡ false → ⊥
    both e e' = cc

pub sound-bytes :
    (object : ℕ → Bool) (s : Space) (m : Memory) (end a : ℕ)
    → Sound object s m end a
    → a < end
    → has_bytes (load m a) ≡ true
    → Sound object s m end (a + 4 + round_up (header_length (load m a)))
sound-bytes object s m end a (sound_end _ e) lt skip = absurd (omega arith)
sound-bytes object s m end a (sound_slot _ le plain points rest) lt skip = absurd (both skip plain)
  where
    both : {b : Bool} → b ≡ true → b ≡ false → ⊥
    both e e' = cc
sound-bytes object s m end a (sound_bytes _ le _ rest) lt skip = rest
