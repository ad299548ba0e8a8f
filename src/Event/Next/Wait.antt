-- ===== src/Event/Next/Wait.antt =====
-- `wait_for_event` of c/unix/event.c.
use kali_scheme.Prelude.{
  ◌∙◌, ap, ℕ, zero, suc, ◌+◌, ◌-◌, ◌*◌, ◌/◌, ◌%◌, ◌<◌, ◌≤◌, ◌≡◌, ◌≢◌, ◌⊎◌, ◌==◌, ==→≡, none, [],
  ◌++◌, refl, inl, inr, Bool, true, false, some, List, ◌∷◌, arith, ltb, length, if◌then◌else◌,
  Bool-cases,
}
use kali_scheme.Prelude.Int.{ℤ, pos, negsuc, minus_one, sub_ℕ, eqb_ℤ, ◌-ℤ◌, ◌*ℤ◌}
use kali_scheme.Event.Queue.{Ptr, ready, first}
use kali_scheme.Event.Queue.Lists.{Contents}
use kali_scheme.Event.State.{State, note_event}
use kali_scheme.Event.Ports.{there_are_ready_ports}
use kali_scheme.Event.Ports.Valid.{IsValid}
use kali_scheme.Event.Poll.{FdSets, Select, Timeout, empty_sets, poll_timeout}
use kali_scheme.Event.Poll.Collect.{Collected}
use kali_scheme.Event.Poll.Scan.{contents}
use kali_scheme.Event.Poll.Move.{Polled, moved_by, left_by, reported, queue_ready_ports-Polled}
use kali_scheme.Event.Next.{wait_time, wait_for_event}

-- The flag is raised when a port is ready.
noted : State → State
noted s = if there_are_ready_ports s then note_event s else s

noted-IsValid :
    {setsize : ℕ} {c : Contents} (s : State) → IsValid setsize c s → IsValid setsize c (noted s)
unfolding noted
noted-IsValid s v = elim (Bool-cases (there_are_ready_ports s)) [
  | inl t ↦ rw t (record { queues = v.queues; known = v.known; owner = v.owner; alive = v.alive })
  | inr t ↦ rw t v
]

-- The ports of the ready queue decide whether the flag is raised.
noted-cases :
    {setsize : ℕ} {rs ps : List Ptr} (s : State)
    → IsValid setsize (contents rs ps) s
    → ((rs ≡ []) × (noted s ≡ s)) ⊎ ((rs ≢ []) × (noted s ≡ note_event s))
unfolding noted there_are_ready_ports
noted-cases {rs = []} s v =
    let link : s.queues.link (first ready) ≡ none = (v.queues.each ready).chain in
    inl (refl, rw (link, noted, there_are_ready_ports) refl)
noted-cases {rs = p ∷ rs} s v =
    let link = (v.queues.each ready).chain.0 in
    inr ((λ e. cc), rw (link, noted, there_are_ready_ports) refl)

-- The timeout of a wait, in seconds and microseconds: none for -1, and otherwise the minutes, or the
-- ticks, which are milliseconds. There is none either for ticks that are cut to -1 seconds.
abbrev pub TimeoutOf : (max_wait : ℤ) (is_minutes : Bool) → Timeout → Type 0
TimeoutOf (negsuc zero) is_minutes t = t ≡ none
TimeoutOf (pos n) true t = t ≡ some (pos (60 * n), pos 0)
TimeoutOf (pos n) false t =
    (s : ℕ) × (us : ℕ) × (t ≡ some (pos s, pos us)) × (s * 1000000 + us ≡ n * 1000) × (us < 1000000)
TimeoutOf (negsuc (suc n)) true t = t ≡ some (negsuc (60 * n + 119), pos 0)
TimeoutOf (negsuc (suc n)) false t =
    ((t ≡ none) × (1000 ≤ n + 2) × (n + 2 < 2000))
    ⊎ ((s : ℕ) × (us : ℕ) × (t ≡ some (sub_ℕ 0 s, sub_ℕ 0 us))
        × (s * 1000000 + us ≡ (n + 2) * 1000)
        × (us < 1000000))

left_over :
    (m q : ℕ)
    → q * 1000 ≤ suc m
    → (negsuc m -ℤ sub_ℕ 0 q *ℤ 1000) *ℤ 1000 ≡ sub_ℕ 0 ((suc m - q * 1000) * 1000)
left_over m zero h = ground (arith, h)
left_over m (suc q) h = ground (arith, h)

negative_timeout :
    (m q : ℕ)
    → q * 1000 ≤ suc m
    → (q == 1) ≡ false
    → poll_timeout true (sub_ℕ 0 q) (negsuc m -ℤ sub_ℕ 0 q *ℤ 1000)
      ≡ some (sub_ℕ 0 q, sub_ℕ 0 ((suc m - q * 1000) * 1000))
unfolding poll_timeout
negative_timeout m q h other =
    let e : eqb_ℤ (sub_ℕ 0 q) minus_one ≡ false = ground (arith, other) in
    rw (e, poll_timeout, left_over m q h) refl

whole_second :
    (m q : ℕ) → q ≡ 1 → poll_timeout true (sub_ℕ 0 q) (negsuc m -ℤ sub_ℕ 0 q *ℤ 1000) ≡ none
unfolding poll_timeout
whole_second m q e = rw e refl

wait_time-negative :
    (n q : ℕ)
    → q ≡ suc (suc n) / 1000
    → wait_time (negsuc (suc n)) false ≡ (sub_ℕ 0 q, negsuc (suc n) -ℤ sub_ℕ 0 q *ℤ 1000)
unfolding wait_time
wait_time-negative n q e =
    let apart : eqb_ℤ (negsuc (suc n)) minus_one ≡ false = ground arith in
    rw (e, apart, wait_time) refl

wait_time-TimeoutOf :
    (max_wait : ℤ) (is_minutes : Bool)
    → TimeoutOf max_wait is_minutes
        (poll_timeout true (wait_time max_wait is_minutes).0 (wait_time max_wait is_minutes).1)
unfolding wait_time poll_timeout
wait_time-TimeoutOf (negsuc zero) is_minutes = refl
wait_time-TimeoutOf (pos n) true = ground arith
wait_time-TimeoutOf (pos n) false =
    (n / 1000, n % 1000 * 1000, ground arith, omega arith, omega arith)
wait_time-TimeoutOf (negsuc (suc n)) true = ground arith
wait_time-TimeoutOf (negsuc (suc n)) false =
    let q = suc (suc n) / 1000 in
    let parts = ap (λ w. poll_timeout true w.0 w.1) (wait_time-negative n q refl) in
    elim (Bool-cases (q == 1)) [
      | inl one ↦
          let is_one : q ≡ 1 = ==→≡ q 1 one in
          inl (parts ∙ whole_second (suc n) q is_one, omega (arith, is_one), omega (arith, is_one))
      | inr other ↦ inr (
        q,
        (suc (suc n) - q * 1000) * 1000,
        parts ∙ negative_timeout (suc n) q (omega arith) other,
        omega arith,
        omega arith,
      )
    ]

-- What `wait_for_event` makes of the state `s₁` after the poll: the table with the same ports on its
-- queues, with the flags of an event raised exactly when a port is ready.
pub record Waited (setsize : ℕ) (rs ps : List Ptr) (s₁ s' : State) : Type 0 where
  pub valid : IsValid setsize (contents rs ps) s'
  pub flagged : ((rs ≡ []) × (s' ≡ s₁)) ⊎ ((rs ≢ []) × (s' ≡ note_event s₁))

-- `wait_for_event`, on a valid table, with no keyboard interrupt counted and with more fuel than
-- ports are pending, calls `select` on exactly the pending ports, without a timeout for -1 (and for
-- -1000 to -1999 ticks, which are cut to -1 seconds), and otherwise with that of its minutes or ticks. It leaves what the poll left: the ports that
-- `select` reported, as many as it counted, are behind those that were ready, the others are
-- pending, the table is valid, and the flags of an event are raised exactly when a port is ready.
pub wait_for_event-Waited :
    {setsize : ℕ} (fuel : ℕ) (select : Select) (max_wait : ℤ) (is_minutes : Bool) (s : State)
    (rs ps : List Ptr)
    → IsValid setsize (contents rs ps) s
    → length ps < fuel
    → s.keyboard_interrupt_count ≡ 0
    → (t : FdSets) × (timeout : Timeout) × Collected s ps empty_sets t
      × TimeoutOf max_wait is_minutes timeout
      × (let sel = select t timeout in
          (r : ℤ) × (s₁ : State) × (s' : State) × Polled setsize sel sel.left rs ps s r s₁
          × (wait_for_event fuel select max_wait is_minutes s ≡ some (r, s'))
          × Waited setsize
              (rs ++ moved_by sel.left (reported s sel) ps)
              (left_by sel.left (reported s sel) ps)
              s₁
              s')
unfolding wait_for_event noted
wait_for_event-Waited fuel select max_wait is_minutes s rs ps v more quiet =
    let (seconds, ticks) = wait_time max_wait is_minutes in
    let (t, is, (r, s₁, run, done)) =
      queue_ready_ports-Polled v fuel select true seconds ticks more (inl refl) in
    (
      t,
      poll_timeout true seconds ticks,
      is,
      wait_time-TimeoutOf max_wait is_minutes,
      (
        r,
        s₁,
        noted s₁,
        done,
        rw (none_typed quiet, run),
        record { valid = noted-IsValid s₁ done.valid; flagged = noted-cases s₁ done.valid },
      ),
    )
  where
    none_typed : s.keyboard_interrupt_count ≡ 0 → ltb 0 s.keyboard_interrupt_count ≡ false
    none_typed quiet = ground arith
