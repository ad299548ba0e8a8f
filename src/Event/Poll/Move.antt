-- ===== src/Event/Poll/Move.antt =====
-- What `queue_ready_ports` of c/unix/event.c does to the queues of ports.
use kali_scheme.Prelude.{
  ℕ, zero, suc, ◌<◌, ◌≡◌, ◌≢◌, refl, subst, inl, inr, ◌⊎◌, ◌&&◌, Bool, true, false, not, none, some,
  List, [], ◌++◌, arith, length, Option-cases, Bool-cases,
}
use mathlib.Core.List.{append-nil}
use kali_scheme.Prelude.Int.{ℤ, pos, negsuc, minus_one}
use kali_scheme.Event.Queue.{Ptr, pending, first}
use kali_scheme.Event.Queue.Chain.{has, Chain}
use kali_scheme.Event.Queue.Lists.{Contents}
use kali_scheme.Event.State.{FdStruct, State, SameClock}
use kali_scheme.Event.Ports.{is_null}
use kali_scheme.Event.Ports.Valid.{IsValid, retime-IsValid}
use kali_scheme.Event.Ports.Pending.{IsPolled}
use kali_scheme.Event.Ports.Drop.{is_null-Chain}
use kali_scheme.Event.Poll.{
  FdSets, Selected, Select, no_errors, empty_sets, is_set, poll_timeout, stop_polling, after_select,
  queue_ready_ports,
}
use kali_scheme.Event.Poll.Collect.{Collected, collect-Collected}
use kali_scheme.Event.Poll.Scan.{taken, kept, contents, Reports, scan-moves}

-- The report of a `select` on the structs of a state.
unfoldable pub reported : State → Selected → Ptr → Bool
reported s sel p = elim (s.info p) [ none ↦ false | some d ↦ is_set sel d ]

-- The ports that are moved when `select` returned a count, and those that stay.
unfoldable pub moved_by : ℤ → (Ptr → Bool) → List Ptr → List Ptr
moved_by (pos n) f ps = taken n f ps
moved_by (negsuc n) f ps = []

unfoldable pub left_by : ℤ → (Ptr → Bool) → List Ptr → List Ptr
left_by (pos n) f ps = kept n f ps
left_by (negsuc n) f ps = ps

unfoldable pub poll_status : Selected → ℤ → ℤ
poll_status sel (pos n) = no_errors
poll_status sel (negsuc n) = sel.errno

-- What holds when `queue_ready_ports` has called `select`, which returned the count `left`.
pub record Polled (setsize : ℕ) (sel : Selected) (left : ℤ) (rs ps : List Ptr) (s : State) (r : ℤ)
    (s' : State) : Type 0 where
  pub status : r ≡ poll_status sel left
  pub valid :
      IsValid setsize
        (contents (rs ++ moved_by left (reported s sel) ps) (left_by left (reported s sel) ps))
        s'
  pub polled :
      IsPolled (contents rs ps) s → IsPolled (contents [] (left_by left (reported s sel) ps)) s'
  pub clock : SameClock s s'
  pub stopped :
      (n : ℕ)
      → left ≡ pos (suc n)
      → left_by left (reported s sel) ps ≡ []
      → s'.poll_time ≡ minus_one

kept-nil : (n : ℕ) (f : Ptr → Bool) → kept n f [] ≡ []
unfolding kept
kept-nil zero f = refl
kept-nil (suc n) f = refl

kept-ne : (n : ℕ) (f : Ptr → Bool) (ps : List Ptr) → kept n f ps ≢ [] → ps ≢ []
kept-ne n f ps ne e = ne (rw e (kept-nil n f))

pub Reports-reported : (s : State) (sel : Selected) → Reports s sel (reported s sel)
unfolding reported
Reports-reported s sel p d e = rw (e, reported)

stop_polling-IsValid :
    {setsize : ℕ} {c : Contents} (s : State)
    → IsValid setsize c s
    → IsValid setsize c (stop_polling s)
unfolding stop_polling
stop_polling-IsValid s v = elim (Bool-cases (is_null (s.queues.link (first pending)))) [
  | inl t ↦ rw t (retime-IsValid v minus_one)
  | inr t ↦ rw t v
]

stop_polling-time :
    {setsize : ℕ} {c : Contents} (s : State)
    → IsValid setsize c s
    → c pending ≢ []
    → (stop_polling s).poll_time ≡ s.poll_time
unfolding stop_polling
stop_polling-time {c} s v ne =
    rw (is_null-Chain s.queues.link (first pending) (c pending) (v.queues.each pending).chain ne)

stop_polling-stops :
    {setsize : ℕ} {c : Contents} (s : State)
    → IsValid setsize c s
    → c pending ≡ []
    → (stop_polling s).poll_time ≡ minus_one
unfolding stop_polling
stop_polling-stops s v e =
    let link : s.queues.link (first pending) ≡ none =
      subst (Chain s.queues.link (first pending)) e (v.queues.each pending).chain in
    rw (link, stop_polling) refl

stop_polling-clock : {s : State} (s' : State) → SameClock s s' → SameClock s (stop_polling s')
unfolding stop_polling
stop_polling-clock s' c = elim (Bool-cases (is_null (s'.queues.link (first pending)))) [
  | inl t ↦
      rw t (record { interrupts = c.interrupts; now = c.now; alarm = c.alarm; events = c.events })
  | inr t ↦ rw t c
]

module _ {setsize : ℕ} {s : State} {rs ps : List Ptr} (v : IsValid setsize (contents rs ps) s) where
  after_select-Polled :
      (fuel : ℕ) (sel : Selected) (left : ℤ)
      → length ps < fuel
      → (r : ℤ) × (s' : State) × (after_select fuel sel left s ≡ some (r, s'))
        × Polled setsize sel left rs ps s r s'
  unfolding after_select moved_by left_by poll_status taken kept
  after_select-Polled fuel sel (negsuc n) more = (
    sel.errno,
    s,
    refl,
    record {
      status = refl;
      valid = rw (append-nil rs) v;
      polled = λ h. h;
      clock = ground arith;
      stopped = λ n e. absurd (cc);
    },
  )
  after_select-Polled fuel sel (pos zero) more = (
    no_errors,
    s,
    refl,
    record {
      status = refl;
      valid = rw (append-nil rs) v;
      polled = λ h. h;
      clock = ground arith;
      stopped = λ n e. absurd (cc);
    },
  )
  after_select-Polled fuel sel (pos (suc n)) more =
      let (s', run, v', same, clock) =
        scan-moves fuel (suc n) sel (reported s sel) s rs [] ps v (Reports-reported s sel) more in
      (
        no_errors,
        stop_polling s',
        rw (run, after_select),
        record {
          status = refl;
          valid = stop_polling-IsValid s' v';
          polled = λ h ne.
              rw (stop_polling-time s' v' ne, same) (h (kept-ne (suc n) (reported s sel) ps ne));
          clock = stop_polling-clock s' clock;
          stopped = λ m e gone. stop_polling-stops s' v' gone;
        },
      )

  -- In a valid table with no port pending and with no wait asked for, `queue_ready_ports` returns
  -- NO_ERRORS at once, whatever `select` does, and changes nothing.
  pub queue_ready_ports-idle :
      (fuel : ℕ) (select : Select) (seconds ticks : ℤ)
      → ps ≡ []
      → queue_ready_ports fuel select false seconds ticks s ≡ some (no_errors, s)
  unfolding queue_ready_ports
  queue_ready_ports-idle fuel select seconds ticks e =
      let c : Chain s.queues.link (first pending) [] = rw e at (v.queues.each pending).chain in rw c

  -- In a valid table, with a wait asked for or a port pending, `queue_ready_ports`, with more fuel
  -- than ports are pending, calls `select` on exactly the pending ports, each in its direction and
  -- below `limfd`, with the timeout that its arguments name. When `select` returns a count above 0, as many ports as the count, the first
  -- that it reported, move in order to the end of the ready queue, and the status is NO_ERRORS; at
  -- 0 nothing moves, and below 0 the status is `errno`. The invariant of the table holds after it,
  -- a time for the next poll stays if a port stays pending, and the other clocks stay.
  pub queue_ready_ports-Polled :
      (fuel : ℕ) (select : Select) (wait : Bool) (seconds ticks : ℤ)
      → length ps < fuel
      → (wait ≡ true) ⊎ (ps ≢ [])
      → (t : FdSets) × Collected s ps empty_sets t
        × (let sel = select t (poll_timeout wait seconds ticks) in
            (r : ℤ) × (s' : State) × (queue_ready_ports fuel select wait seconds ticks s
              ≡ some (r, s'))
            × Polled setsize sel sel.left rs ps s r s')
  unfolding queue_ready_ports
  queue_ready_ports-Polled fuel select wait seconds ticks more asked =
      let (t, got, is) =
        collect-Collected fuel (first pending) empty_sets s ps (v.queues.each pending).chain live
          more in
      let sel = select t (poll_timeout wait seconds ticks) in
      let (r, s', run, done) = after_select-Polled fuel sel sel.left more in
      (t, is, (r, s', rw (busy asked, queue_ready_ports, got) run, done))
    where
      live : (p : Ptr) → has p ps ≡ true → (d : FdStruct) × (s.info p ≡ some d)
      live p on = elim (Option-cases (s.info p)) [
        | inl dead ↦ absurd (ground (arith, v.alive p pending dead))
        | inr found ↦ found
      ]

      busy :
          (wait ≡ true) ⊎ (ps ≢ []) → (not wait && is_null (s.queues.link (first pending))) ≡ false
      busy (inl w) = rw w
      busy (inr ne) =
          ground
            (arith, is_null-Chain s.queues.link (first pending) ps (v.queues.each pending).chain ne)
