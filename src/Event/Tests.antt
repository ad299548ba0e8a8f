-- ===== src/Event/Tests.antt =====
-- Examples for the model of c/unix/event.c: port 3, an input whose struct is at address 7, waits.
use kali_scheme.Prelude.{
  ℕ, ◌<◌, ◌≡◌, refl, subst, true, false, inr, some, List, [], ◌∷◌, ◌++◌, arith, length, ◌==◌,
  if◌then◌else◌,
}
use kali_scheme.Prelude.Int.{ℤ, pos, minus_one}
use kali_scheme.Event.Queue.{Ptr, QueName, ready, pending, first, Queues, rmque, addque, findrm}
use kali_scheme.Event.Queue.Chain.{has, has-eq, end_of}
use kali_scheme.Event.Queue.Lists.{Contents, set_list, IsQueues, erase}
use kali_scheme.Event.Queue.Add.{addque-append}
use kali_scheme.Event.Queue.Remove.{rmque-middle, findrm-erase}
use kali_scheme.Event.State.{fd_quiescent, fd_ready, FdStruct, State, initial, set_status}
use kali_scheme.Event.Ports.{add_fd, make_pending, remove_fd}
use kali_scheme.Event.Ports.Valid.{IsValid, belongs, move-IsValid, initial-IsValid, add_fd-IsValid}
use kali_scheme.Event.Ports.Pending.{make_pending-IsValid}
use kali_scheme.Event.Ports.Drop.{Removed, remove_fd-Removed}
use kali_scheme.Event.Poll.{
  no_errors, FdSets, Timeout, Select, empty_sets, poll_timeout, queue_ready_ports,
}
use kali_scheme.Event.Poll.Collect.{Collected}
use kali_scheme.Event.Poll.Scan.{contents, contents_path, kept}
use kali_scheme.Event.Poll.Move.{Polled, moved_by, left_by, reported, queue_ready_ports-Polled}
use kali_scheme.Event.Clock.{schedule_alarm_interrupt}
use kali_scheme.Event.Clock.Schedule.{schedule_alarm_interrupt-stops_polling}
use kali_scheme.Event.Next.{Event, get_next_event, wait_for_event}
use kali_scheme.Event.Next.Order.{Served, failed_poll, get_next_event-Served}
use kali_scheme.Event.Next.Due.{Asked}
use kali_scheme.Event.Next.Rearm.{get_next_event-rearms}
use kali_scheme.Event.Next.Wait.{TimeoutOf, Waited, wait_for_event-Waited}

abbrev setsize : ℕ
setsize = 64

abbrev eintr : ℤ
eintr = pos 4

abbrev no_ports : Contents
no_ports q = []

abbrev input_port : FdStruct
input_port = record { fd = 3; status = fd_quiescent; is_input = true }

abbrev added : State
added = (add_fd (some 7) 3 true initial).1

abbrev waiting_port : State
waiting_port = make_pending 7 input_port added

-- The same five ticks later, when the poll is due.
abbrev poll_due : State
poll_due = record waiting_port { current_time = 5 }

-- Every port that waits is ready.
abbrev all_ready : Select
all_ready t wait = record {
  left = pos 1;
  errno = pos 0;
  reads = t.reads;
  writes = t.writes;
  alls = λ n. false;
}

waiting_port-IsValid : IsValid setsize (contents [] (7 ∷ [])) waiting_port
unfolding add_fd
waiting_port-IsValid =
    subst (λ c. IsValid setsize c waiting_port)
      (contents_path (set_list no_ports pending (7 ∷ [])) [] (7 ∷ []) refl refl)
      (make_pending-IsValid
        (add_fd-IsValid (initial-IsValid setsize) 7 3 true (omega arith) refl refl) 7 input_port
        refl (λ q. refl))

poll_due-IsValid : IsValid setsize (contents [] (7 ∷ [])) poll_due
poll_due-IsValid =
    let v = waiting_port-IsValid in
    record { queues = v.queues; known = v.known; owner = v.owner; alive = v.alive }

get_next_event-Served_example :
    (e : Event) × (ms : List Ptr) × (ps₁ : List Ptr) × (s' : State) × (c' : Contents)
    × (get_next_event 9 eintr all_ready poll_due ≡ some (e, s'))
    × IsValid setsize c' s'
    × (c' pending ≡ ps₁)
    × Asked eintr all_ready poll_due (7 ∷ []) ms ps₁ (failed_poll e)
    × Served e eintr poll_due ([] ++ ms) s' c'
get_next_event-Served_example =
    get_next_event-Served 9 eintr all_ready poll_due [] (7 ∷ []) poll_due-IsValid (omega arith)

queue_ready_ports-Polled_example :
    (t : FdSets) × Collected poll_due (7 ∷ []) empty_sets t
    × (let sel = all_ready t (poll_timeout false (pos 0) (pos 0)) in
        (r : ℤ) × (s' : State) × (queue_ready_ports 9 all_ready false (pos 0) (pos 0) poll_due
          ≡ some (r, s'))
        × Polled setsize sel sel.left [] (7 ∷ []) poll_due r s')
queue_ready_ports-Polled_example =
    queue_ready_ports-Polled poll_due-IsValid 9 all_ready false (pos 0) (pos 0) (omega arith)
      (inr (λ e. cc))

remove_fd-Removed_example :
    (s' : State) × (remove_fd setsize 9 (pos 3) waiting_port ≡ some (true, s'))
    × Removed setsize 3 (contents [] (7 ∷ [])) waiting_port s'
unfolding add_fd make_pending
remove_fd-Removed_example =
    remove_fd-Removed waiting_port-IsValid 9 3 (λ q. short q) (λ e. cc) (omega arith)
  where
    short : (q : QueName) → length (contents [] (7 ∷ []) q) < 9
    short ready = omega arith
    short pending = omega arith

addque-append_example :
    IsQueues
      (addque 8 ready waiting_port.queues)
      (set_list (contents [] (7 ∷ [])) ready ([] ++ (8 ∷ [])))
addque-append_example = addque-append 8 ready waiting_port-IsValid.queues new
  where
    new : (q : QueName) → has 8 (contents [] (7 ∷ []) q) ≡ false
    new ready = refl
    new pending = refl

rmque-middle_example :
    (s' : Queues) × (rmque (end_of (first pending) []) pending waiting_port.queues ≡ some (7, s'))
    × IsQueues s' (set_list (contents [] (7 ∷ [])) pending ([] ++ []))
rmque-middle_example = rmque-middle pending [] 7 [] waiting_port-IsValid.queues refl

findrm-erase_example :
    (s' : Queues) × (findrm 9 7 pending waiting_port.queues ≡ some s')
    × IsQueues s' (set_list (contents [] (7 ∷ [])) pending (erase 7 (7 ∷ [])))
findrm-erase_example = findrm-erase 9 7 pending waiting_port-IsValid.queues (omega arith)

wait_for_event-Waited_example :
    (t : FdSets) × (timeout : Timeout) × Collected waiting_port (7 ∷ []) empty_sets t
    × TimeoutOf (pos 10) false timeout
    × (let sel = all_ready t timeout in
        (r : ℤ) × (s₁ : State) × (s' : State) × Polled setsize sel sel.left []
          (7 ∷ [])
          waiting_port
          r
          s₁
        × (wait_for_event 9 all_ready (pos 10) false waiting_port ≡ some (r, s'))
        × Waited setsize
            ([] ++ moved_by sel.left (reported waiting_port sel) (7 ∷ []))
            (left_by sel.left (reported waiting_port sel) (7 ∷ []))
            s₁
            s')
unfolding add_fd make_pending
wait_for_event-Waited_example =
    wait_for_event-Waited 9 all_ready (pos 10) false waiting_port [] (7 ∷ []) waiting_port-IsValid
      (omega arith) refl

schedule_alarm_interrupt-stops_polling_example :
    let s' = (schedule_alarm_interrupt (pos 50) (record waiting_port { current_time = 6 })).1 in
    (s'.poll_time ≡ minus_one)
    × (get_next_event 9 eintr all_ready s'
        ≡ get_next_event 9 eintr (λ t w. all_ready empty_sets w) s')
unfolding add_fd make_pending
schedule_alarm_interrupt-stops_polling_example =
    schedule_alarm_interrupt-stops_polling (pos 50) (record waiting_port { current_time = 6 }) 5 9
      eintr all_ready (λ t w. all_ready empty_sets w) refl refl

abbrev ready_port : State
ready_port =
    set_status 7 input_port fd_ready (record added { queues = addque 7 ready added.queues })

ready_port-IsValid : IsValid setsize (set_list no_ports ready (7 ∷ [])) ready_port
unfolding add_fd
ready_port-IsValid =
    let v = add_fd-IsValid (initial-IsValid setsize) 7 3 true (omega arith) refl refl in
    move-IsValid v 7 input_port fd_ready (addque 7 ready added.queues)
      (set_list no_ports ready (7 ∷ [])) refl (addque-append 7 ready v.queues (λ q. refl)) moved
  where
    moved :
        (x : Ptr) (q : QueName)
        → has x (set_list no_ports ready (7 ∷ []) q)
          ≡ (if x == 7 then belongs fd_ready q else has x (no_ports q))
    moved x ready = ground (arith, has-eq x 7 [])
    moved x pending = ground arith

-- Every port is reported, one of them.
abbrev one_port : Select
one_port t wait = record {
  left = pos 1;
  errno = pos 0;
  reads = t.reads;
  writes = t.writes;
  alls = λ n. true;
}

get_next_event-rearms_example :
    (s₁ : State) × (queue_ready_ports 9 one_port false (pos 0) (pos 0) poll_due
      ≡ some (no_errors, s₁))
    × (s₁.poll_time ≡ minus_one)
    × ((e : Event) × (s' : State) × (c' : Contents) × (get_next_event 9 eintr one_port poll_due
          ≡ some (e, s'))
        × IsValid setsize c' s'
        × (c' pending ≡ [])
        × (s'.poll_time ≡ pos 10))
unfolding add_fd make_pending reported left_by kept
get_next_event-rearms_example =
    get_next_event-rearms 9 eintr one_port poll_due [] (7 ∷ []) poll_due-IsValid (omega arith)
      (λ e. cc) refl refl (λ t is. ((0, refl), refl))
