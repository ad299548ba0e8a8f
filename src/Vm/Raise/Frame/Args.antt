-- ===== src/Vm/Raise/Frame/Args.antt =====
-- What `push_exception_continuationB` of c/scheme48vm.c leaves on the stack: the frame for the
-- handler and the state that it goes on from.
use kali_scheme.Prelude.{
  ℕ, zero, suc, ◌+◌, ◌-◌, ◌*◌, ◌%◌, ◌^◌, ◌≤◌, ◌<◌, ◌≡◌, ◌∙◌, sym, subst, ap, refl, ◌⊎◌, true, false,
  List, [], ◌∷◌, some, arith, ◌==◌,
}
use kali_scheme.Heap.Memory.{Memory, load, store, load-store_apart, IsBytes}
use kali_scheme.Heap.Copy.{is_header, data_address}
use kali_scheme.Vm.Lists.Keep.{words}
use kali_scheme.Vm.Raise.Frame.{on_stack, push_word-on_stack, push_continuation-on_stack}
use kali_scheme.Vm.Raise.{
  Registers, push_word, push_continuation, program_counter, save_state, count_args, moved_header,
  push_exception_continuation,
}

-- There are `n` words before the first header, and the frame there was not moved.
abbrev pub EndsAfter : (n : ℕ) → List ℕ → Type 0
EndsAfter n [] = ⊥
EndsAfter zero (w ∷ ws) = (is_header w ≡ true) × ((moved_header == w) ≡ false)
EndsAfter (suc n) (w ∷ ws) = (is_header w ≡ false) × EndsAfter n ws

count_args-EndsAfter :
    (n k : ℕ) (m : Memory) (p i : ℕ)
    → EndsAfter n (words m p (suc n))
    → n < k
    → count_args k m p i ≡ some (i + n)
unfolding count_args
count_args-EndsAfter n zero m p i e fuel = absurd (omega (arith, fuel))
count_args-EndsAfter zero (suc k) m p i (h, s) fuel =
    rw (h, s, count_args) (ap (λ (v : ℕ). some v) (omega arith))
count_args-EndsAfter (suc n) (suc k) m p i (h, e) fuel =
    rw (h, count_args)
      (count_args-EndsAfter n k m (p + 4) (1 + i) e (omega (arith, fuel))
        ∙ ap (λ (v : ℕ). some v) (omega arith))

-- The registers before an exception, with `n` words on the stack before the first header. The first
-- word of the template is none of those that are pushed before it is read.
pub record Sound (n : ℕ) (r : Registers) : Type 0 where
  pub high : 60 ≤ r.stack
  pub bytes : IsBytes r.memory
  pub cont_word : r.cont < 2 ^ 32
  pub env_word : r.env < 2 ^ 32
  pub template_word : r.template < 2 ^ 32
  pub handlers_word : r.exception_template < 2 ^ 32
  pub template_pointer : is_header r.template ≡ false
  pub apart : (data_address r.template + 4 + 8 ≤ r.stack) ⊎ (r.stack + 4 ≤ data_address r.template)
  pub ends : EndsAfter n (on_stack (suc n) r)

module _ (e size : ℕ) (r : Registers) where
  abbrev twice : Registers
  twice = push_word (e * 4) (push_word (size * 4) r)

  abbrev thrice : Registers
  thrice = push_word r.template twice

  module _ (n : ℕ) (s : Sound n r) (le : e < 2 ^ 8) (ls : size < 2 ^ 8) where
    thrice-program_counter :
        program_counter r.code_pointer thrice ≡ program_counter r.code_pointer r
    unfolding push_word
    thrice-program_counter =
        let m₁ = store r.memory r.stack (size * 4) in
        let m₂ = store m₁ (r.stack - 4) (e * 4) in
        let same : load thrice.memory (data_address r.template)
            ≡ load r.memory (data_address r.template) =
          load-store_apart m₂ (r.stack - 4 - 4) r.template (data_address r.template)
            (ground (arith, s.apart, s.high))
          ∙ load-store_apart m₁ (r.stack - 4) (e * 4) (data_address r.template)
              (ground (arith, s.apart, s.high))
          ∙ load-store_apart r.memory r.stack (size * 4) (data_address r.template)
              (ground (arith, s.apart, s.high)) in
        ap (λ (c : ℕ). (2 ^ 32 + r.code_pointer - data_address c) * 4 % 2 ^ 32) same

    abbrev pub saved : Registers
    saved = save_state e size r

    save_state-on_stack :
        (j : ℕ)
        → on_stack (suc (suc (suc (suc j)))) saved
          ≡ program_counter r.code_pointer r ∷ (r.template ∷ (e * 4 ∷ (size * 4 ∷ on_stack j r)))
    unfolding save_state
    save_state-on_stack j =
        let pc : ℕ = program_counter r.code_pointer thrice in
        let first = push_word-on_stack (size * 4) j r (omega (arith, ls)) (omega (arith, s.high)) in
        let second =
          push_word-on_stack (e * 4) (suc j) (push_word (size * 4) r) (omega (arith, le))
            (unfold push_word in omega (arith, s.high)) in
        let third =
          push_word-on_stack r.template (suc (suc j)) twice s.template_word
            (unfold push_word in omega (arith, s.high)) in
        let fourth =
          push_word-on_stack pc (suc (suc (suc j))) thrice (omega arith)
            (unfold push_word in omega (arith, s.high)) in
        cc (first, second, third, fourth, thrice-program_counter)

    saved-EndsAfter :
        EndsAfter (suc (suc (suc (suc n)))) (on_stack (suc (suc (suc (suc (suc n))))) saved)
    saved-EndsAfter =
        subst (EndsAfter (suc (suc (suc (suc n))))) (sym (save_state-on_stack (suc n)))
          (ground arith, (s.template_pointer, (ground arith, (ground arith, s.ends))))

    saved-count : (k : ℕ) → 4 + n < k → count_args k saved.memory (saved.stack + 4) 0 ≡ some (4 + n)
    saved-count k fuel =
        count_args-EndsAfter (suc (suc (suc (suc n)))) k saved.memory (saved.stack + 4) 0
          saved-EndsAfter (omega (arith, fuel))
        ∙ ap (λ (v : ℕ). some v) (omega arith)

    abbrev pub pushed : Registers
    pushed = push_continuation saved.code_pointer (4 + n) saved

    abbrev pub after : Registers
    after = push_word (e * 4) (push_word (r.memory r.code_pointer * 4) pushed)

    pub push_exception_continuation-run :
        (k : ℕ) → 4 + n < k → push_exception_continuation k e size r ≡ some after
    unfolding push_exception_continuation
    push_exception_continuation-run k fuel =
        rw (saved-count k fuel, push_exception_continuation) refl

    -- The program counter of the handler is 0.
    saved-program_counter : program_counter saved.code_pointer saved ≡ 0
    unfolding save_state push_word
    saved-program_counter = omega arith

    pub stack_after : after.stack + 44 ≡ r.stack
    unfolding save_state push_word push_continuation
    stack_after = omega (arith, s.high)

    -- The continuation points behind the header of the frame; the other registers.
    pub after-linked : after.cont ≡ after.stack + 12 + 7
    unfolding save_state push_word push_continuation
    after-linked = omega (arith, s.high)

    pub after-template : after.template ≡ r.exception_template
    unfolding save_state push_word push_continuation
    after-template = refl

    pub after-val : after.val ≡ r.val
    unfolding save_state push_word push_continuation
    after-val = refl

    pub after-env : after.env ≡ r.env
    unfolding save_state push_word push_continuation
    after-env = refl

    pub after-on_stack :
        (j : ℕ)
        → on_stack (suc (suc (suc (suc (suc (suc (suc (suc (suc (suc (suc j))))))))))) after
          ≡ e * 4
            ∷ (r.memory r.code_pointer * 4
                ∷ ((4134 + (4 + n) * 2 ^ 10) % 2 ^ 32
                    ∷ (r.cont
                        ∷ (0
                            ∷ (r.exception_template
                                ∷ (r.env
                                    ∷ (program_counter r.code_pointer r
                                        ∷ (r.template ∷ (e * 4 ∷ (size * 4 ∷ on_stack j r))))))))))
    after-on_stack j =
        let continuation =
          push_continuation-on_stack saved.code_pointer (4 + n) (suc (suc (suc (suc j)))) saved
            (unfold save_state push_word in omega (arith, s.high))
            (unfold save_state push_word in s.cont_word)
            (unfold save_state push_word in s.handlers_word)
            (unfold save_state push_word in s.env_word) in
        let opcode = r.memory r.code_pointer in
        let byte : opcode < 2 ^ 8 = s.bytes r.code_pointer in
        let fifth =
          push_word-on_stack (opcode * 4) (suc (suc (suc (suc (suc (suc (suc (suc (suc j)))))))))
            pushed (omega (arith, byte))
            (unfold save_state push_word push_continuation in omega (arith, s.high)) in
        let sixth =
          push_word-on_stack (e * 4) (suc (suc (suc (suc (suc (suc (suc (suc (suc (suc j))))))))))
            (push_word (opcode * 4) pushed) (omega (arith, le))
            (unfold save_state push_word push_continuation in omega (arith, s.high)) in
        let cont : saved.cont ≡ r.cont = unfold save_state push_word in refl in
        let template : saved.template ≡ r.exception_template =
          unfold save_state push_word in refl in
        let env : saved.env ≡ r.env = unfold save_state push_word in refl in
        cc (
          sixth,
          fifth,
          continuation,
          saved-program_counter,
          cont,
          template,
          env,
          save_state-on_stack j,
        )
