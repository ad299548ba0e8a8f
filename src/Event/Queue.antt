-- ===== src/Event/Queue.antt =====
-- The queues of `fd_struct`s of c/unix/event.c: singly linked lists with a pointer to the link
-- that ends them. A link is a cell that holds a pointer: the `first` of a queue or the `next` of a
-- struct. A pointer is the address of a struct, and `none` is NULL.
pub mod Chain
pub mod Lists
pub mod Add
pub mod Remove
use kali_scheme.Prelude.{ℕ, zero, suc, Bool, true, false, Option, none, some, ◌==◌, if◌then◌else◌}

abbrev pub Ptr : Type 0
Ptr = ℕ

-- The two queues of the file, the static variables `ready` and `pending`.
pub data QueName : Type 0 where
  ready pending : QueName

pub data Link : Type 0 where
  first : QueName → Link
  next : Ptr → Link

abbrev pub que_eq : QueName → QueName → Bool
que_eq ready ready = true
que_eq pending pending = true
que_eq ready pending = false
que_eq pending ready = false

abbrev pub link_eq : Link → Link → Bool
link_eq (first a) (first b) = que_eq a b
link_eq (next p) (next q) = p == q
link_eq (first a) (next q) = false
link_eq (next p) (first b) = false

abbrev pub LinkCells : Type 0
LinkCells = Link → Option Ptr

abbrev pub write : LinkCells → Link → Option Ptr → LinkCells
write m l v k = if link_eq k l then v else m k

-- What the queues consist of: the links, and the `lastp` of each queue.
pub record Queues : Type 0 where
  pub link : LinkCells
  pub lastp : QueName → Link

abbrev pub set_lastp : (QueName → Link) → QueName → Link → QueName → Link
set_lastp f q l r = if que_eq r q then l else f r

-- `none` is a read through NULL.
unfoldable pub rmque : Link → QueName → Queues → Option (Ptr × Queues)
rmque l q s = elim (s.link l) [
  | none ↦ none
  | some res ↦ some (
    res,
    record {
      link = write s.link l (s.link (next res));
      lastp = elim (s.link (next res)) [ none ↦ set_lastp s.lastp q l | some _ ↦ s.lastp ];
    },
  )
]

unfoldable pub addque : Ptr → QueName → Queues → Queues
addque entry q s = record {
  link = write (write s.link (s.lastp q) (some entry)) (next entry) none;
  lastp = set_lastp s.lastp q (next entry);
}

-- The `for` loop of `findrm`, on fuel: the link that holds `entry`, or the end of the queue.
pub data Search : Type 0 where
  found : Link → Search
  not_on_queue : Search
  out_of_fuel : Search

unfoldable pub find_link : ℕ → Ptr → Link → LinkCells → Search
find_link zero entry fp m = out_of_fuel
find_link (suc k) entry fp m = elim (m fp) [
  | none ↦ not_on_queue
  | some f ↦ if f == entry then found fp else find_link k entry (next f) m
]

-- `none`: the fuel ran out. An entry that is not on the queue is reported on stderr and left.
unfoldable pub findrm : ℕ → Ptr → QueName → Queues → Option Queues
unfolding find_link rmque
findrm fuel entry q s = elim (find_link fuel entry (first q) s.link) [
  | found fp ↦ elim (rmque fp q s) [ none ↦ none | some (res, s') ↦ some s' ]
  | not_on_queue ↦ some s
  | out_of_fuel ↦ none
]
