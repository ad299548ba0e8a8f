-- ===== src/Fd/Table.antt =====
-- What the operations of c/unix/fd-io.c do to the table of ports.
use kali_scheme.Prelude.{
  ℕ, ◌<◌, ◌≡◌, ◌≢◌, refl, Bool, true, false, inl, inr, ◌⊎◌, Option, none, some, List, [], ◌∷◌,
  arith, length, Bool-cases,
}
use kali_scheme.Prelude.Int.{ℤ, pos, eqb_ℤ}
use kali_scheme.Event.Queue.{QueName, ready}
use kali_scheme.Event.Queue.Lists.{Contents}
use kali_scheme.Event.State.{State}
use kali_scheme.Event.Ports.Valid.{IsValid}
use kali_scheme.Event.Ports.Pending.{Pended}
use kali_scheme.Event.Ports.Pend.{add_pending_fd-Pended}
use kali_scheme.Event.Ports.Drop.{Removed, remove_fd-Removed}
use kali_scheme.Fd.{
  Platform, Read, got, end_of_file, read_failed, Selection, not_ready, select_failed, waiting,
  Transfer, transfer, suspend, wait_to_read, after_read, ps_close_fd, ps_read_fd,
}

-- The calls of `close` after which `ps_close_fd` returns NO_ERRORS: some are interrupted.
abbrev pub Closes : ℤ → List (Option ℤ) → Type 0
Closes eintr [] = ⊥
Closes eintr (none ∷ rest) = Unit {0}
Closes eintr (some e ∷ rest) = (e ≡ eintr) × Closes eintr rest

-- The rounds of `select` after which `ps_read_fd` returns.
abbrev pub Settles : ℤ → List Selection → Type 0
Settles eintr [] = ⊥
Settles eintr (select_failed e ∷ rest) = (e ≢ eintr) ⊎ Settles eintr rest
Settles eintr (not_ready ∷ rest) = Unit {0}
Settles eintr (waiting r ∷ rest) = Unit {0}

-- The operation waits for the descriptor: nothing is transferred, and the port is pending.
-- Otherwise the table is as it was.
pub data Waits (setsize n : ℕ) (is_input : Bool) (c : Contents) (s : State)
    : Transfer → State → Type 0 where
  waits :
      (c' : Contents) (s' : State)
      → Pended setsize n is_input c c' s s'
      → Waits setsize n is_input c s (transfer 0 false true (pos 0)) s'
  returns : (k : ℕ) (e : Bool) (st : ℤ) → Waits setsize n is_input c s (transfer k e false st) s

eqb_ℤ-same : (a : ℤ) → eqb_ℤ a a ≡ true
eqb_ℤ-same a = ground arith

eqb_ℤ-other : (a b : ℤ) → a ≢ b → eqb_ℤ a b ≡ false
eqb_ℤ-other a b ne = ground arith

module _ (h : Platform) {c : Contents} {s : State} (v : IsValid h.setsize c s) where
  module _ (fuel n fresh : ℕ) (low : n < h.setsize) (more : length (c ready) < fuel)
      (unused : s.info fresh ≡ none) where
    suspend-Waits :
        (is_input : Bool)
        → (r : Transfer) × (s' : State) × (suspend h fuel (some fresh) (pos n) is_input s
            ≡ some (r, s'))
          × Waits h.setsize n is_input c s r s'
    unfolding suspend
    suspend-Waits is_input =
        let (s', run, (c', done)) = add_pending_fd-Pended v fuel n fresh is_input low more unused in
        (transfer 0 false true (pos 0), s', rw (run, suspend), waits c' s' done)

    wait_to_read-Waits :
        (waitp : Bool)
        → (r : Transfer) × (s' : State) × (wait_to_read h fuel (some fresh) (pos n) waitp s
            ≡ some (r, s'))
          × Waits h.setsize n true c s r s'
    unfolding wait_to_read
    wait_to_read-Waits true = suspend-Waits true
    wait_to_read-Waits false = (_, s, refl, returns 0 false (pos 0))

    after_read-Waits :
        (waitp : Bool) (r₀ : Read)
        → (r : Transfer) × (s' : State) × (after_read h fuel (some fresh) (pos n) waitp r₀ s
            ≡ some (r, s'))
          × Waits h.setsize n true c s r s'
    unfolding after_read
    after_read-Waits waitp (got k) = (_, s, refl, returns k false (pos 0))
    after_read-Waits waitp end_of_file = (_, s, refl, returns 0 true (pos 0))
    after_read-Waits waitp (read_failed e) = elim (Bool-cases (eqb_ℤ e h.eintr)) [
      | inl i ↦ (_, s, rw i, returns 0 false (pos 0))
      | inr ni ↦ elim (Bool-cases (eqb_ℤ e h.eagain)) [
        | inl a ↦ rw (ni, a) (wait_to_read-Waits waitp)
        | inr na ↦ (_, s, rw (ni, na), returns 0 false e)
      ]
    ]

    -- `ps_read_fd` on a valid table and a descriptor below `FD_SETSIZE`, when `select` is not interrupted for ever,
    -- `malloc` returns an unused address and the fuel exceeds the ready queue, returns; and either
    -- nothing was transferred, the operation is pending and so is the descriptor's port in the
    -- table, or the operation is not pending and the table is unchanged.
    pub ps_read_fd-Waits :
        (waitp : Bool) (answers : List Selection)
        → Settles h.eintr answers
        → (r : Transfer) × (s' : State) × (ps_read_fd h fuel (some fresh) (pos n) waitp answers s
            ≡ some (r, s'))
          × Waits h.setsize n true c s r s'
    unfolding ps_read_fd
    ps_read_fd-Waits waitp [] never = absurd never
    ps_read_fd-Waits waitp (not_ready ∷ rest) ok = wait_to_read-Waits waitp
    ps_read_fd-Waits waitp (waiting r ∷ rest) ok = after_read-Waits waitp r
    ps_read_fd-Waits waitp (select_failed e ∷ rest) (inl ne) =
        (_, s, rw (eqb_ℤ-other e h.eintr ne), returns 0 false e)
    ps_read_fd-Waits waitp (select_failed e ∷ rest) (inr ok) = elim (Bool-cases (eqb_ℤ e h.eintr)) [
      | inl again ↦ rw again (ps_read_fd-Waits waitp rest ok)
      | inr stop ↦ (_, s, rw stop, returns 0 false e)
    ]

  -- `ps_close_fd` of a descriptor with a port in a valid table, when `close` succeeds after any number
  -- of interruptions and the fuel exceeds both queues, returns NO_ERRORS and has removed the port:
  -- it waits for nothing any more.
  pub ps_close_fd-Removed :
      (fuel n : ℕ) (answers : List (Option ℤ))
      → Closes h.eintr answers
      → ((q : QueName) → length (c q) < fuel)
      → s.fds n ≢ none
      → n < h.setsize
      → (s' : State) × (ps_close_fd h fuel (pos n) answers s ≡ some (pos 0, s'))
        × Removed h.setsize n c s s'
  unfolding ps_close_fd
  ps_close_fd-Removed fuel n [] never more there low = absurd never
  ps_close_fd-Removed fuel n (none ∷ rest) ok more there low =
      let (s', run, done) = remove_fd-Removed v fuel n more there low in
      (s', rw (run, ps_close_fd), done)
  ps_close_fd-Removed fuel n (some e ∷ rest) ok more there low =
      let again : eqb_ℤ e h.eintr ≡ true = rw ok.0 (eqb_ℤ-same h.eintr) in
      let (s', run, done) = ps_close_fd-Removed fuel n rest ok.1 more there low in
      (s', rw (again, ps_close_fd) run, done)
