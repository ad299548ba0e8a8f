-- ===== src/Vm/Raise/Frame/Called.antt =====
-- What an exception of an instruction of c/scheme48vm.c leaves on the stack: the arguments over the
-- frame for the handler and the state of the instruction.
use kali_scheme.Prelude.{ℕ, suc, ◌+◌, ◌*◌, ◌%◌, ◌^◌, ◌≡◌, ◌∷◌}
use kali_scheme.Vm.Arith.{Verdict, value, arithmetic_overflow, wrong_type}
use kali_scheme.Vm.Raise.Frame.{on_stack}
use kali_scheme.Vm.Raise.{Registers, program_counter}

abbrev pub Raised : Verdict → (exception : ℕ) → Type 0
Raised (value v) e = ⊥
Raised arithmetic_overflow e = e ≡ 6
Raised wrong_type e = e ≡ 5

abbrev pub popped : Registers → Registers
popped r = record r { stack = r.stack + 4 }

-- The stack and the registers from which the handler for the exception `e` of an instruction of one
-- byte is to be called: the two arguments, the exception and the opcode, the frame of the handler,
-- which starts its code at 0 and covers the `4 + n` words up to the header, and the state that the
-- instruction was in. The continuation is the pointer to that frame, whose header is the fifth word on
-- the stack; the handler's template stands for the instruction's, and what is in `val` and in
-- the register of the environment is as it was.
pub record HandlerReady (n e arg2 : ℕ) (r r' : Registers) : Type 0 where
  pub stack_lower : r'.stack + 48 ≡ r.stack
  pub linked : r'.cont ≡ r'.stack + 20 + 7
  pub handler_template : r'.template ≡ r.exception_template
  pub same_val : r'.val ≡ r.val
  pub same_env : r'.env ≡ r.env
  pub contents :
      (j : ℕ)
      → on_stack (suc (suc (suc (suc (suc (suc (suc (suc (suc (suc (suc (suc (suc j))))))))))))) r'
        ≡ r.val
          ∷ (arg2
              ∷ (e * 4
                  ∷ (r.memory r.code_pointer * 4
                      ∷ ((4134 + (4 + n) * 2 ^ 10) % 2 ^ 32
                          ∷ (r.cont
                              ∷ (0
                                  ∷ (r.exception_template
                                      ∷ (r.env
                                          ∷ (program_counter r.code_pointer r
                                              ∷ (r.template
                                                  ∷ (e * 4
                                                      ∷ (1 * 4 ∷ on_stack j (popped r)))))))))))))
