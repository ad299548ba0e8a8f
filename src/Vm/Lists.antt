-- ===== src/Vm/Lists.antt =====
-- Lists in the heap, and the procedure `okay_argument_list` of c/scheme48vm.c.
pub mod Okay
pub mod Circle
pub mod Keep
use kali_scheme.Prelude.{ℕ, zero, suc, ◌+◌, ◌≤◌, ◌≡◌, ◌⊎◌, Bool, true, false, List, [], ◌∷◌, ◌==◌}
use kali_scheme.Heap.Memory.{Memory}
use kali_scheme.Heap.Trace.{Run, finished, stuck}
use kali_scheme.Vm.Pair.{is_pair, car, cdr, schnull}

-- A pair that has no byte in [lo, hi).
abbrev pub IsOutside : (lo hi d : ℕ) → Type 0
IsOutside lo hi d = (7 ≤ d) × ((d + 5 ≤ lo) ⊎ (hi + 7 ≤ d))

-- `d` is a list of the descriptors `xs`, with its pairs outside [lo, hi).
abbrev pub Holds : (lo hi : ℕ) → Memory → (d : ℕ) → List ℕ → Type 0
Holds lo hi m d [] = d ≡ schnull
Holds lo hi m d (x ∷ xs) =
    IsOutside lo hi d × ((is_pair m d ≡ true) × ((car m d ≡ x) × Holds lo hi m (cdr m d) xs))

-- The loop of `okay_argument_list`: whether the argument is a list, and how long it is.
unfoldable pub okay_loop : ℕ → Memory → (fast len slow : ℕ) → (move_slow : Bool) → Run (Bool × ℕ)
okay_loop zero m fast len slow move_slow = stuck
okay_loop (suc k) m fast len slow move_slow = elim (schnull == fast) [
  | true ↦ finished (true, len)
  | false ↦ elim (is_pair m fast) [
    | false ↦ finished (false, 0)
    | true ↦ elim move_slow [
      | false ↦ okay_loop k m (cdr m fast) (1 + len) slow true
      | true ↦ elim (fast == slow) [
        | true ↦ finished (false, 0)
        | false ↦ okay_loop k m (cdr m fast) (1 + len) (cdr m slow) false
      ]
    ]
  ]
]

unfoldable pub okay_argument_list : ℕ → Memory → ℕ → Run (Bool × ℕ)
okay_argument_list k m list = okay_loop k m list 0 list false
