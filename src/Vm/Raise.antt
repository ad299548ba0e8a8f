-- ===== src/Vm/Raise.antt =====
-- The registers of c/scheme48vm.c, and how an instruction goes on or raises an exception: the
-- procedures `push_continuationB` and `push_exception_continuationB`.
pub mod Frame
use kali_scheme.Prelude.{
  ℕ, zero, suc, ◌+◌, ◌-◌, ◌*◌, ◌/◌, ◌%◌, ◌^◌, Bool, true, false, Option, none, some, ltb, ◌==◌,
  if◌then◌else◌,
}
use kali_scheme.Heap.Memory.{Memory, load, store}
use kali_scheme.Heap.Copy.{is_header, data_address}
use kali_scheme.Vm.Arith.{Verdict, value, arithmetic_overflow, wrong_type}

pub record Registers : Type 0 where
  pub memory : Memory
  pub stack : ℕ
  pub cont : ℕ
  pub env : ℕ
  pub val : ℕ
  pub template : ℕ
  pub code_pointer : ℕ
  pub exception_template : ℕ

-- The next instruction, or the call of the handler for an exception with so many arguments on the
-- stack; or fuel that ran out.
pub data Step : Type 0 where
  next : Registers → Step
  raises : ℕ → Registers → Step
  no_fuel : Step

unfoldable pub push_word : ℕ → Registers → Registers
push_word x r = record r { memory = store r.memory r.stack x; stack = r.stack - 4 }

-- The first address of the code of a template.
abbrev pub code_address : Memory → (template : ℕ) → ℕ
code_address m template = data_address (load m (data_address template))

-- The distance of the code pointer from the start of the code, as a fixnum.
abbrev pub program_counter : (code_pointer : ℕ) → Registers → ℕ
program_counter code_pointer r =
    (2 ^ 32 + code_pointer - code_address r.memory r.template) * 4 % 2 ^ 32

-- The frame in which the environment was moved to the heap begins with this header.
abbrev pub moved_header : ℕ
moved_header = 54

-- The words from `p` up to the next header, less one where the frame there was moved.
unfoldable pub count_args : ℕ → Memory → (p i : ℕ) → Option ℕ
count_args zero m p i = none
count_args (suc k) m p i = elim (is_header (load m p)) [
  | true ↦ some (if moved_header == load m p then (i + 2 ^ 32 - 1) % 2 ^ 32 else i)
  | false ↦ count_args k m (p + 4) (1 + i)
]

-- `push_continuationB`. The new continuation is `3 + (stack + 8)`.
unfoldable pub push_continuation : (code_pointer size : ℕ) → Registers → Registers
push_continuation code_pointer size r =
    let pc = program_counter code_pointer r in
    let stack = r.stack - 20 in
    let m₁ = store r.memory (stack + 4) ((4134 + size * 2 ^ 10) % 2 ^ 32) in
    let m₂ = store m₁ (stack + 8 + 4) pc in
    let m₃ = store m₂ (stack + 8 + 8) r.template in
    let m₄ = store m₃ (stack + 8 + 12) r.env in
    record r { memory = store m₄ (stack + 8) r.cont; stack = stack; cont = 3 + (stack + 8) }

-- The first pushes of `push_exception_continuationB`, and the code of the handlers.
unfoldable pub save_state : (exception instruction_size : ℕ) → Registers → Registers
unfolding push_word
save_state exception instruction_size r =
    let r₁ = push_word (exception * 4) (push_word (instruction_size * 4) r) in
    let r₂ = push_word r.template r₁ in
    let r₃ = push_word (program_counter r.code_pointer r₂) r₂ in
    record r₃ {
      template = r.exception_template;
      code_pointer = code_address r₃.memory r.exception_template;
    }

unfoldable pub push_exception_continuation :
    ℕ → (exception instruction_size : ℕ) → Registers → Option Registers
unfolding save_state push_word
push_exception_continuation k exception instruction_size r =
    let opcode = r.memory r.code_pointer in
    let saved = save_state exception instruction_size r in
    elim (count_args k saved.memory (saved.stack + 4) 0) [
      | none ↦ none
      | some v ↦
          let pushed = push_continuation saved.code_pointer v saved in
          some (push_word (exception * 4) (push_word (opcode * 4) pushed))
    ]

-- An exception of an instruction of one byte, with two arguments.
unfoldable pub raise_binary : ℕ → (exception arg2 x : ℕ) → Registers → Step
unfolding push_exception_continuation push_word
raise_binary k exception arg2 x r = elim (push_exception_continuation k exception 1 r) [
  | none ↦ no_fuel
  | some r' ↦ raises 2 (push_word x (push_word arg2 r'))
]

-- An instruction with an argument on the stack and one in `val`: `SstackS = SstackS + 4; arg2 = ...`.
unfoldable pub binary_instruction : ℕ → (ℕ → ℕ → Verdict) → Registers → Step
unfolding raise_binary
binary_instruction k op r =
    let popped = record r { stack = r.stack + 4 } in
    let arg2 = load r.memory (r.stack + 4) in
    elim (op arg2 r.val) [
      | value v ↦ next (record popped { val = v; code_pointer = r.code_pointer + 1 })
      | arithmetic_overflow ↦ raise_binary k 6 arg2 r.val popped
      | wrong_type ↦ raise_binary k 5 arg2 r.val popped
    ]

-- An instruction with its only argument in `val`.
unfoldable pub raise_unary : ℕ → (exception x : ℕ) → Registers → Step
unfolding push_exception_continuation push_word
raise_unary k exception x r = elim (push_exception_continuation k exception 1 r) [
  | none ↦ no_fuel
  | some r' ↦ raises 1 (push_word x r')
]

unfoldable pub unary_instruction : ℕ → (ℕ → Verdict) → Registers → Step
unfolding raise_unary
unary_instruction k op r = elim (op r.val) [
  | value v ↦ next (record r { val = v; code_pointer = r.code_pointer + 1 })
  | arithmetic_overflow ↦ raise_unary k 6 r.val r
  | wrong_type ↦ raise_unary k 5 r.val r
]
