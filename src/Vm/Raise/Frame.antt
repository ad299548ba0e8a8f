-- ===== src/Vm/Raise/Frame.antt =====
-- What the stack holds after the pushes of c/scheme48vm.c for a continuation and an exception.
pub mod Args
pub mod Called
use kali_scheme.Prelude.{
  ℕ, zero, suc, ◌+◌, ◌-◌, ◌*◌, ◌/◌, ◌%◌, ◌^◌, ◌≤◌, ◌<◌, ◌≡◌, ◌∙◌, sym, subst, ap, refl, ◌⊎◌, inl,
  inr, Bool, true, false, List, [], ◌∷◌, Option, none, some, arith, ltb, ◌==◌, if◌then◌else◌,
}
use kali_scheme.Heap.Memory.{Memory, load, store, load-store, load-store_apart}
use kali_scheme.Heap.Copy.{is_header, data_address}
use kali_scheme.Vm.Lists.Keep.{words, words-Agrees, Agrees, Agrees-trans, Agrees-wider, load-Agrees}
use kali_scheme.Vm.Stack.Push.{words-store, store-Agrees}
use kali_scheme.Vm.Raise.{
  Registers, push_word, push_continuation, program_counter, code_address, save_state, count_args,
  moved_header,
}

abbrev pub on_stack : (n : ℕ) → Registers → List ℕ
on_stack n r = words r.memory (r.stack + 4) n

pub push_word-on_stack :
    (x n : ℕ) (r : Registers)
    → x < 2 ^ 32
    → 4 ≤ r.stack
    → on_stack (suc n) (push_word x r) ≡ x ∷ on_stack n r
unfolding push_word
push_word-on_stack x n r small high = words-store r.memory r.stack x small n high

-- The five words of a continuation under the words that were on the stack.
module _ (m : Memory) (s v₁ v₂ v₃ v₄ v₅ : ℕ) where
  abbrev frame : Memory
  frame =
      store
        (store (store (store (store m (s + 4) v₁) (s + 8 + 4) v₃) (s + 8 + 8) v₄) (s + 8 + 12) v₅)
        (s + 8) v₂

  -- The memory after each of the first four stores.
  abbrev with_header : Memory
  with_header = store m (s + 4) v₁

  abbrev with_pc : Memory
  with_pc = store with_header (s + 8 + 4) v₃

  abbrev with_template : Memory
  with_template = store with_pc (s + 8 + 8) v₄

  abbrev with_env : Memory
  with_env = store with_template (s + 8 + 12) v₅

  pub frame-Agrees : Agrees (s + 4) (s + 24) m frame
  frame-Agrees x o =
      store-Agrees (s + 4) (s + 24) with_env (s + 8) v₂ (omega arith) (omega arith) x o
      ∙ store-Agrees (s + 4) (s + 24) with_template (s + 8 + 12) v₅ (omega arith) (omega arith) x o
      ∙ store-Agrees (s + 4) (s + 24) with_pc (s + 8 + 8) v₄ (omega arith) (omega arith) x o
      ∙ store-Agrees (s + 4) (s + 24) with_header (s + 8 + 4) v₃ (omega arith) (omega arith) x o
      ∙ store-Agrees (s + 4) (s + 24) m (s + 4) v₁ (omega arith) (omega arith) x o

  header-frame : v₁ < 2 ^ 32 → load frame (s + 4) ≡ v₁
  header-frame h =
      load-store_apart with_env (s + 8) v₂ (s + 4) (inl (omega arith))
      ∙ load-store_apart with_template (s + 8 + 12) v₅ (s + 4) (inl (omega arith))
      ∙ load-store_apart with_pc (s + 8 + 8) v₄ (s + 4) (inl (omega arith))
      ∙ load-store_apart with_header (s + 8 + 4) v₃ (s + 4) (inl (omega arith))
      ∙ load-store m (s + 4) v₁ h

  link-frame : v₂ < 2 ^ 32 → load frame (s + 4 + 4) ≡ v₂
  link-frame h = ap (load frame) (omega arith) ∙ load-store with_env (s + 8) v₂ h

  pc-frame : v₃ < 2 ^ 32 → load frame (s + 4 + 4 + 4) ≡ v₃
  pc-frame h =
      ap (load frame) (omega arith)
      ∙ load-store_apart with_env (s + 8) v₂ (s + 8 + 4) (inr (omega arith))
      ∙ load-store_apart with_template (s + 8 + 12) v₅ (s + 8 + 4) (inl (omega arith))
      ∙ load-store_apart with_pc (s + 8 + 8) v₄ (s + 8 + 4) (inl (omega arith))
      ∙ load-store with_header (s + 8 + 4) v₃ h

  template-frame : v₄ < 2 ^ 32 → load frame (s + 4 + 4 + 4 + 4) ≡ v₄
  template-frame h =
      ap (load frame) (omega arith)
      ∙ load-store_apart with_env (s + 8) v₂ (s + 8 + 8) (inr (omega arith))
      ∙ load-store_apart with_template (s + 8 + 12) v₅ (s + 8 + 8) (inl (omega arith))
      ∙ load-store with_pc (s + 8 + 8) v₄ h

  env-frame : v₅ < 2 ^ 32 → load frame (s + 4 + 4 + 4 + 4 + 4) ≡ v₅
  env-frame h =
      ap (load frame) (omega arith)
      ∙ load-store_apart with_env (s + 8) v₂ (s + 8 + 12) (inr (omega arith))
      ∙ load-store with_template (s + 8 + 12) v₅ h

  pub words-frame :
      (n : ℕ)
      → v₁ < 2 ^ 32
      → v₂ < 2 ^ 32
      → v₃ < 2 ^ 32
      → v₄ < 2 ^ 32
      → v₅ < 2 ^ 32
      → words frame (s + 4) (suc (suc (suc (suc (suc n)))))
        ≡ v₁ ∷ (v₂ ∷ (v₃ ∷ (v₄ ∷ (v₅ ∷ words m (s + 24) n))))
  words-frame n h₁ h₂ h₃ h₄ h₅ =
      let others : words frame (s + 4 + 4 + 4 + 4 + 4 + 4) n ≡ words m (s + 24) n =
        ap (λ a. words frame a n) (omega arith)
        ∙ words-Agrees n (s + 4) (s + 24) m frame (s + 24) frame-Agrees (inr (omega arith)) in
      cc (header-frame h₁, link-frame h₂, pc-frame h₃, template-frame h₄, env-frame h₅, others)

pub push_continuation-on_stack :
    (code_pointer size n : ℕ) (r : Registers)
    → 20 ≤ r.stack
    → r.cont < 2 ^ 32
    → r.template < 2 ^ 32
    → r.env < 2 ^ 32
    → on_stack (suc (suc (suc (suc (suc n))))) (push_continuation code_pointer size r)
      ≡ (4134 + size * 2 ^ 10) % 2 ^ 32
        ∷ (r.cont ∷ (program_counter code_pointer r ∷ (r.template ∷ (r.env ∷ on_stack n r))))
unfolding push_continuation
push_continuation-on_stack code_pointer size n r high hc ht he =
    let header : ℕ = (4134 + size * 2 ^ 10) % 2 ^ 32 in
    let pc : ℕ = program_counter code_pointer r in
    let place : r.stack - 20 + 24 ≡ r.stack + 4 = omega (arith, high) in
    words-frame r.memory (r.stack - 20) header r.cont pc r.template r.env n (omega arith) hc
      (omega arith) ht he
    ∙ ap (λ a. header ∷ (r.cont ∷ (pc ∷ (r.template ∷ (r.env ∷ words r.memory a n))))) place
