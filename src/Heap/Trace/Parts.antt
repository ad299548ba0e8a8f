-- ===== src/Heap/Trace/Parts.antt =====
-- Areas of c/scheme48heap.c that were traced: they meet, and they depend on their bytes only.
use kali_scheme.Prelude.{Bool, ℕ, ◌+◌, ◌%◌, ◌≤◌, ◌<◌, ◌≡◌, sym, subst, ◌∙◌, arith}
use kali_scheme.Heap.Memory.{Memory, load, load-agree_all}
use kali_scheme.Heap.Space.{Space, round_up}
use kali_scheme.Heap.Copy.{Heap, header_length}
use kali_scheme.Heap.Trace.Area.{Clean, at_end, slot, bytes}
use kali_scheme.Heap.Trace.Loop.{Cleaned}

-- Clean areas that meet.
pub Clean-append :
    (s : Space) (m : Memory) (mid end a : ℕ)
    → mid ≤ end
    → Clean s m mid a
    → Clean s m end mid
    → Clean s m end a
Clean-append s m mid end a le (at_end _ e) more = subst (Clean s m end) (sym e) more
Clean-append s m mid end a le (slot _ fits word new rest) more =
    slot a (omega arith) word new (Clean-append s m mid end (a + 4) le rest more)
Clean-append s m mid end a le (bytes _ fits skip rest) more =
    bytes a (omega arith) skip (Clean-append s m mid end _ le rest more)

-- A clean area stays clean when its bytes stay.
pub Clean-agree :
    (s : Space) (m m' : Memory) (start end a : ℕ)
    → ((x : ℕ) → start ≤ x → x < end → m' x ≡ m x)
    → end % 4 ≡ 0
    → a % 4 ≡ 0
    → start ≤ a
    → Clean s m end a
    → Clean s m' end a
Clean-agree s m m' start end a same even even' low (at_end _ h) = at_end a h
Clean-agree s m m' start end a same even even' low (slot _ lt word new rest) =
    let e : load m' a ≡ load m a =
      load-agree_all m m' a (λ x lo hi. same x (omega arith) (omega arith)) in
    slot a lt (rw e word) (rw e new)
      (Clean-agree s m m' start end (a + 4) same even (omega arith) (omega arith) rest)
Clean-agree s m m' start end a same even even' low (bytes _ lt skip rest) =
    let e : load m' a ≡ load m a =
      load-agree_all m m' a (λ x lo hi. same x (omega arith) (omega arith)) in
    bytes a lt (rw e skip) (
      subst (λ d. Clean s m' end (a + 4 + round_up (header_length d))) (sym e)
        (Clean-agree s m m' start end (a + 4 + round_up (header_length (load m a))) same even
          (omega arith) (omega arith) rest))

-- The limit and the old space of `s` are those of `t`.
pub record Same (s t : Space) : Type 0 where
  pub limit : t.limit ≡ s.limit
  pub begins : t.oldspace_begin ≡ s.oldspace_begin
  pub ends : t.oldspace_end ≡ s.oldspace_end
  pub weak : t.weak_pointer_hp ≡ s.weak_pointer_hp

Clean-Same : (s t : Space) (m : Memory) (end a : ℕ) → Same s t → Clean t m end a → Clean s m end a
Clean-Same s t m end a same (at_end _ h) = at_end a h
Clean-Same s t m end a same (slot _ lt word new rest) =
    slot a lt word (rw (sym same.begins, sym same.ends) new)
      (Clean-Same s t m end (a + 4) same rest)
Clean-Same s t m end a same (bytes _ lt skip rest) =
    bytes a lt skip (Clean-Same s t m end (a + 4 + round_up (header_length (load m a))) same rest)

pub Cleaned-Same :
    {object : ℕ → Bool} {start mark : ℕ} (s t : Space) (end a : ℕ) (h h' : Heap)
    → Same s t
    → Cleaned object mark t start end a h h'
    → Cleaned object mark s start end a h h'
Cleaned-Same s t end a h h' same c = record {
  clean = Clean-Same s t h'.memory end a same c.clean;
  ready = c.ready;
  same_old = (c.same_old.0 ∙ same.begins, c.same_old.1 ∙ same.ends);
  weak = c.weak ∙ same.weak;
  before = c.before;
}
