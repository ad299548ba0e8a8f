-- ===== src/Vm/Dispatch/Reject.antt =====
-- The instructions of c/scheme48vm.c for arithmetic on two arguments, from the opcode to the frame for
-- the handler, where an argument is no fixnum.
use kali_scheme.Prelude.{ℕ, ◌≤◌, ◌⊎◌, Bool, false, ◌||◌, List, [], ◌∷◌, ◌==◌}

abbrev has_case {ℓ} : {A : Type ℓ} → ℕ → List (ℕ × A) → Bool
has_case opcode [] = false
has_case opcode ((c, a) ∷ cases) = opcode == c || has_case opcode cases

-- The opcodes of the instructions for arithmetic with two arguments.
abbrev pub IsBinary : ℕ → Type 0
IsBinary o = ((52 ≤ o) × (o ≤ 62)) ⊎ (((78 ≤ o) × (o ≤ 80)) ⊎ ((82 ≤ o) × (o ≤ 85)))
