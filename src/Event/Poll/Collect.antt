-- ===== src/Event/Poll/Collect.antt =====
-- The sets that `queue_ready_ports` of c/unix/event.c gives to `select`.
use kali_scheme.Prelude.{
  ℕ, zero, suc, ◌<◌, ◌≤◌, ◌≡◌, Bool, true, false, ◌||◌, ◌&&◌, not, none, some, List, [], ◌∷◌, arith,
  ◌==◌, length,
}
use kali_scheme.Event.Queue.{Ptr, Link, next}
use kali_scheme.Event.Queue.Chain.{has, Chain}
use kali_scheme.Event.State.{FdStruct, State}
use kali_scheme.Event.Poll.{FdSets, add_to_sets, collect}

-- Whether a port of the list that satisfies `f` has the descriptor.
unfoldable pub watches : (FdStruct → Bool) → State → List Ptr → ℕ → Bool
watches f s [] n = false
watches f s (p ∷ ps) n =
    (elim (s.info p) [ none ↦ false | some d ↦ f d && n == d.fd ]) || watches f s ps n

-- The sets hold these ports beside what they held before.
pub record Collected (s : State) (ps : List Ptr) (t t' : FdSets) : Type 0 where
  pub reads : (n : ℕ) → t'.reads n ≡ (t.reads n || watches (λ d. d.is_input) s ps n)
  pub writes : (n : ℕ) → t'.writes n ≡ (t.writes n || watches (λ d. not d.is_input) s ps n)
  pub alls : (n : ℕ) → t'.alls n ≡ (t.alls n || watches (λ d. true) s ps n)
  pub grows : t.limfd ≤ t'.limfd
  pub covers : (n : ℕ) → watches (λ d. true) s ps n ≡ true → n < t'.limfd

pub collect-Collected :
    (k : ℕ) (l : Link) (t : FdSets) (s : State) (ps : List Ptr)
    → Chain s.queues.link l ps
    → ((p : Ptr) → has p ps ≡ true → (d : FdStruct) × (s.info p ≡ some d))
    → length ps < k
    → (t' : FdSets) × (collect k l t s ≡ some t') × Collected s ps t t'
unfolding collect watches
collect-Collected zero l t s ps c live h = absurd (omega arith)
collect-Collected (suc k) l t s [] c live h = (
  t,
  rw (c, collect),
  record {
    reads = λ n. ground arith;
    writes = λ n. ground arith;
    alls = λ n. ground arith;
    grows = omega arith;
    covers = λ n h. cc;
  },
)
collect-Collected (suc k) l t s (p ∷ ps) c live h =
    let (d, at) = live p (ground arith) in
    let (t', got, is) =
      collect-Collected k (next p) (add_to_sets d t) s ps c.1 (λ x on. live x (ground arith))
        (omega arith) in
    (
      t',
      rw (c.0, collect, at) got,
      record {
        reads = λ n. ground (arith, at, is.reads n);
        writes = λ n. ground (arith, at, is.writes n);
        alls = λ n. ground (arith, at, is.alls n);
        grows = ground (arith, is.grows);
        covers = λ n on. ground (arith, at, is.covers n, is.grows);
      },
    )
