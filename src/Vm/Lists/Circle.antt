-- ===== src/Vm/Lists/Circle.antt =====
-- `okay_argument_list` on a circular chain of pairs.
use kali_scheme.Prelude.{
  ℕ, zero, suc, ◌+◌, ◌*◌, ◌-◌, ◌≤◌, ◌<◌, ◌≡◌, ◌∙◌, sym, ap, inl, inr, true, false, arith, ◌==◌,
  Bool-cases, ==_iff, ==→≡,
}
use kali_scheme.Heap.Memory.{Memory}
use kali_scheme.Heap.Trace.{finished}
use kali_scheme.Vm.Pair.{is_pair, cdr}
use kali_scheme.Vm.Lists.{okay_loop, okay_argument_list}
use kali_scheme.Vm.Lists.Okay.{first_move, second_move, met}

-- What is reached from `d` after `i` links.
abbrev pub rest : Memory → (d i : ℕ) → ℕ
rest m d zero = d
rest m d (suc i) = cdr m (rest m d i)

module _ (m : Memory) (d : ℕ) (pairs : (i : ℕ) → is_pair m (rest m d i) ≡ true) where
  equal_test : (a b : ℕ) → a ≡ b → (a == b) ≡ true
  equal_test a b e = (==_iff a b).1 e

  -- The tortoise is `s` links from the start and the hare `s + s`, or one more; they meet when the
  -- tortoise is `j` links from the start, if not before.
  module _ (j : ℕ) (circle : rest m d (suc (j + j)) ≡ rest m d j) where
    chase :
        (k s len fast : ℕ)
        → fast ≡ rest m d (s + s)
        → s ≤ j
        → 2 + (j - s) * 2 ≤ k
        → okay_loop k m fast len (rest m d s) false ≡ finished (false, 0)
    chase zero s len fast at low fuel = absurd (omega (arith, fuel))
    chase (suc zero) s len fast at low fuel = absurd (omega (arith, fuel))
    chase (suc (suc k)) s len fast at low fuel =
        let hare : cdr m fast ≡ rest m d (suc (s + s)) = ap (cdr m) at in
        let next : is_pair m (cdr m fast) ≡ true = ap (is_pair m) hare ∙ pairs (suc (s + s)) in
        first_move m (suc k) fast len (rest m d s) (ap (is_pair m) at ∙ pairs (s + s))
        ∙ elim (Bool-cases (cdr m fast == rest m d s)) [
          | inl e ↦ met m k (cdr m fast) (1 + len) (rest m d s) next e
          | inr e ↦ elim (Bool-cases (s == j)) [
            | inl t ↦
                let same : cdr m fast ≡ rest m d s =
                  hare
                  ∙ ap (λ i. rest m d (suc (i + i))) (==→≡ s j t)
                  ∙ circle
                  ∙ ap (rest m d) (sym (==→≡ s j t)) in
                let no : false ≡ true = sym e ∙ equal_test (cdr m fast) (rest m d s) same in cc no
            | inr t ↦
                second_move m k (cdr m fast) (1 + len) (rest m d s) next e
                ∙ chase k (suc s) (1 + (1 + len)) (cdr m (cdr m fast))
                    (ap (cdr m) hare ∙ ap (rest m d) double) (ground (arith, t, low))
                    (ground (arith, t, low, fuel))
          ]
        ]
      where
        double : suc (suc (s + s)) ≡ suc s + suc s
        double = omega arith

  module _ (i p : ℕ) (circle : rest m d (i + p) ≡ rest m d i) where
    to : (a b : ℕ) → a ≡ b → rest m d a ≡ rest m d b
    to a b e = ap (rest m d) e

    around : (t : ℕ) → rest m d (t + (i + p)) ≡ rest m d (t + i)
    around zero = to (0 + (i + p)) (i + p) (omega arith) ∙ circle ∙ to i (0 + i) (omega arith)
    around (suc t) =
        to (suc t + (i + p)) (suc (t + (i + p))) (omega arith)
        ∙ ap (cdr m) (around t)
        ∙ to (suc (t + i)) (suc t + i) (omega arith)

    again : (q t : ℕ) → rest m d (t + i + q * p) ≡ rest m d (t + i)
    again zero t = to (t + i + 0 * p) (t + i) (omega arith)
    again (suc q) t =
        to (t + i + suc q * p) (t + q * p + (i + p)) (omega arith)
        ∙ around (t + q * p)
        ∙ to (t + q * p + i) (t + i + q * p) (omega arith)
        ∙ again q t

enough_rounds : (i p : ℕ) → 0 < p → i < suc i * p
enough_rounds zero p h = omega (arith, h)
enough_rounds (suc i) p h = omega (arith, enough_rounds i p h, h)

-- An argument whose links all lead to pairs, and come back after `i` links and `p` more to where
-- they were after `i`, is refused, with fuel for `2 * (i + 1) * p` rounds: the loop ends there.
pub okay_argument_list-circle :
    (k : ℕ) (m : Memory) (d i p : ℕ)
    → ((x : ℕ) → is_pair m (rest m d x) ≡ true)
    → 0 < p
    → rest m d (i + p) ≡ rest m d i
    → 2 * (suc i * p) ≤ k
    → okay_argument_list k m d ≡ finished (false, 0)
unfolding okay_argument_list
okay_argument_list-circle k m d i p pairs positive circle fuel =
    let j : ℕ = suc i * p - 1 in
    let low : i < suc i * p = enough_rounds i p positive in
    chase m d pairs j
      (to m d pairs i p circle (suc (j + j)) (j - i + i + suc i * p) (omega (arith, low))
        ∙ again m d pairs i p circle (suc i) (j - i)
        ∙ to m d pairs i p circle (j - i + i) j (omega (arith, low)))
      k 0 0 d (λ i. d) (omega arith) (omega (arith, fuel, low))
